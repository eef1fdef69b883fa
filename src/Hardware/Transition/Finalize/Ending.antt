-- ===== src/Hardware/Transition/Finalize/Ending.antt =====
-- The end of `FinalizeHardwareTransition`: the wait for the return of a call, the hot bypass and the
-- stop at the root.
use vd_trace.Base.{
  ℕ, ◌≡◌, ◌≢◌, refl, ap, ◌∙◌, inl, inr, Bool, true, false, ◌&&◌, if◌then◌else◌, arith, Bool-cases,
}
use vd_trace.Session.{
  call, kind_eq, ObservationState, idle, waiting_for_destination, waiting_for_hot_return, Impl,
}
use vd_trace.Hardware.{Context, store_observed_addresses_unique, clear_pending_resolution}
use vd_trace.Hardware.Transition.{
  try_arm_hot_return_bypass, arm_bypass, should_auto_stop_on_root_return,
}
use vd_trace.Hardware.Transition.HotBypass.{try_arm-Armed}
use vd_trace.Hardware.Transition.Finalize.{
  Finalized, go_on, waits_for_resume, watch_resume, bypass_or_finish, finish_transition,
  arm_transition,
}
use vd_trace.Runtime.{Machine}
use vd_trace.Runtime.Rotation.{rotate_queued_trigger_trace}
use vd_trace.Hardware.Transition.Finalize.Rotated.{IsRotated, rotate-IsRotated}

abbrev pub is_hot : ObservationState → Bool
is_hot waiting_for_hot_return = true
is_hot _ = false

-- How `Finalized` looks to the handler: a stop, a rotation, a wait for the return of a call, a hot
-- bypass, or a session that is to be planned anew.
pub record Concludes (f : Finalized) : Type 0 where
  pub stops : f.continues ≡ false → (f.impl.running ≡ false) × (f.impl.observation_state ≡ idle)
  pub rotates : f.context_already_programmed ≡ true → IsRotated f.impl f.context
  pub resumes :
      f.waiting_for_resume ≡ true
      → f.continues ≡ true
      → f.context_already_programmed ≡ false
      → (f.impl.observation_state ≡ waiting_for_destination) × (f.impl.observed_count ≡ 1)
  pub bypasses : is_hot f.impl.observation_state ≡ true → f.impl.observed_count ≢ 0

-- Where no bypass is armed the state stays, and a call arms none.
try_arm-quiet :
    (impl : Impl) (target call_depth : ℕ)
    → let r = try_arm_hot_return_bypass impl target call_depth in
      r.0 ≡ false → r.1.observation_state ≡ impl.observation_state
unfolding try_arm_hot_return_bypass arm_bypass store_observed_addresses_unique
try_arm-quiet impl target call_depth h = ground arith

try_arm-call :
    (impl : Impl) (target call_depth : ℕ)
    → kind_eq impl.pending_block.tail_decode.kind call ≡ true
    → let r = try_arm_hot_return_bypass impl target call_depth in
      (r.0 ≡ false) × (r.1.observed_count ≡ impl.observed_count)
unfolding try_arm_hot_return_bypass
try_arm-call impl target call_depth h = ground arith

module _ (machine : Machine) where
  abbrev Resumes : Bool → Impl → Type 0
  Resumes waiting impl =
      waiting ≡ true
      → (impl.observation_state ≡ waiting_for_destination) × (impl.observed_count ≡ 1)

  pub go_on-Concludes :
      (waiting : Bool) (next_entry : ℕ) (impl : Impl) (context : Context)
      → Resumes waiting impl
      → (is_hot impl.observation_state ≡ true → impl.observed_count ≢ 0)
      → Concludes (go_on waiting next_entry impl context)
  go_on-Concludes waiting next_entry impl context r b = record {
    stops = λ h. cc;
    rotates = λ h. cc;
    resumes = λ w c p. r w;
    bypasses = b;
  }

  finish-Concludes :
      (emitted waiting : Bool) (next_entry call_depth : ℕ) (impl : Impl) (context : Context)
      → Resumes waiting impl
      → is_hot impl.observation_state ≡ false
      → Concludes (finish_transition machine emitted waiting next_entry call_depth impl context)
  unfolding finish_transition
  finish-Concludes emitted waiting next_entry call_depth impl context r cold =
      let s = clear_pending_resolution impl in
      elim (Bool-cases (
        emitted && should_auto_stop_on_root_return s s.pending_block.tail_decode.kind call_depth)) [
          | inr no' ↦ rw no' (go_on-Concludes waiting next_entry s context r (λ h. cc))
          | inl yes' ↦
              rw yes' (elim (Bool-cases (rotate_queued_trigger_trace machine s context).0) [
                | inl t ↦ rw t (
                    let turned = rotate-IsRotated machine s context t in
                    record {
                      stops = λ h. cc;
                      rotates = λ h. turned;
                      resumes = λ w c p. cc;
                      bypasses = λ h. cc (ap is_hot turned.state);
                    })
                | inr f ↦ rw f (record {
                  stops = λ h. (refl, refl);
                  rotates = λ h. cc;
                  resumes = λ w c p. cc;
                  bypasses = λ h. cc;
                })
              ])
        ]

  bypass-Concludes :
      (waiting : Bool) (next_entry call_depth : ℕ) (context : Context) (r : Bool × Impl)
      → (r.0 ≡ true → (waiting ≡ false) × (r.1.observed_count ≢ 0))
      → (r.0 ≡ false → Resumes waiting r.1 × (is_hot r.1.observation_state ≡ false))
      → Concludes (bypass_or_finish machine waiting next_entry call_depth context r)
  unfolding bypass_or_finish
  bypass-Concludes waiting next_entry call_depth context (true, impl) armed cold =
      go_on-Concludes waiting next_entry impl context (λ h. cc (armed refl).0) (λ h. (armed refl).1)
  bypass-Concludes waiting next_entry call_depth context (false, impl) armed cold =
      finish-Concludes false waiting next_entry call_depth impl context (cold refl).0 (cold refl).1

  wait-Concludes :
      (emitted : Bool) (event_target next_entry call_depth : ℕ) (impl : Impl) (context : Context)
      → kind_eq impl.pending_block.tail_decode.kind call ≡ true
      → Concludes (
          if emitted
          then finish_transition machine true true next_entry call_depth (watch_resume impl) context
          else bypass_or_finish machine true next_entry call_depth context
              (try_arm_hot_return_bypass (watch_resume impl) event_target call_depth))
  wait-Concludes true event_target next_entry call_depth impl context k =
      finish-Concludes true true next_entry call_depth _ context (λ h. (refl, refl)) refl
  wait-Concludes false event_target next_entry call_depth impl context k =
      let (unarmed, count) = try_arm-call (watch_resume impl) event_target call_depth k in
      let state = try_arm-quiet (watch_resume impl) event_target call_depth unarmed in
      bypass-Concludes true next_entry call_depth context _ (λ h. cc)
        (λ h. (λ w. (state, count), ap is_hot state))

  plain-Concludes :
      (emitted : Bool) (event_target next_entry call_depth : ℕ) (impl : Impl) (context : Context)
      → is_hot impl.observation_state ≡ false
      → Concludes (
          if emitted
          then finish_transition machine true false next_entry call_depth impl context
          else bypass_or_finish machine false next_entry call_depth context
              (try_arm_hot_return_bypass impl event_target call_depth))
  plain-Concludes true event_target next_entry call_depth impl context cold =
      finish-Concludes true false next_entry call_depth impl context (λ h. cc) cold
  plain-Concludes false event_target next_entry call_depth impl context cold =
      bypass-Concludes false next_entry call_depth context _
        (λ h. (refl, (try_arm-Armed impl event_target call_depth h).0.watches))
        (λ h. (λ w. cc, ap is_hot (try_arm-quiet impl event_target call_depth h) ∙ cold))

  pub arm-Concludes :
      (single emitted : Bool) (event_target next_entry call_depth : ℕ) (impl : Impl)
      (context : Context)
      → is_hot impl.observation_state ≡ false
      → Concludes
          (arm_transition machine single emitted event_target next_entry call_depth impl context)
  unfolding arm_transition
  arm-Concludes single emitted event_target next_entry call_depth impl context cold =
      elim (Bool-cases (waits_for_resume single impl)) [
        | inl w ↦
            rw w (
              wait-Concludes emitted event_target next_entry call_depth impl context (ground arith))
        | inr n ↦
            rw n (plain-Concludes emitted event_target next_entry call_depth impl context cold)
      ]
