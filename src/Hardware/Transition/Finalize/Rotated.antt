-- ===== src/Hardware/Transition/Finalize/Rotated.antt =====
-- What `RotateQueuedTriggerTrace` leaves: the session waits at its trigger again.
use vd_trace.Base.{
  ℕ, ◌≡◌, refl, sym, inl, inr, Bool, true, false, Option, none, some, arith, Bool-cases,
}
use vd_trace.Session.{idle, Impl}
use vd_trace.Hardware.{Context, trap_flag_bit}
use vd_trace.Runtime.{Machine}
use vd_trace.Runtime.Rotation.{
  rotate_queued_trigger_trace, begin_trigger_thread_capture, begin_capture, finish_rotation,
  release_thread, supports_queued_trigger_tracing,
}

-- The session waits for another thread at the trigger, and so does this one.
pub record IsRotated (impl : Impl) (context : Context) : Type 0 where
  pub waiting : impl.waiting_for_trigger ≡ true
  pub no_thread : impl.active_thread_id ≡ 0
  pub state : impl.observation_state ≡ idle
  pub address : context.dr0 ≡ impl.resolved_trigger_address
  pub enabled : context.dr7 ≡ 1
  pub trap : trap_flag_bit context.e_flags ≡ 0

-- What a capture that begins makes of a session whose thread was let go.
abbrev Captures : Bool × Impl → Type 0
Captures (begun, s) =
    (s.observation_state ≡ idle)
    × (s.active_thread_id ≡ 0)
    × (begun ≡ true
        → (s.waiting_for_trigger ≡ true)
          × (s.resolved_trigger_address ≡ s.configured_trigger_address))

begin-Captures :
    (o : Option (ℕ × ℕ)) (impl : Impl)
    → impl.observation_state ≡ idle
    → impl.active_thread_id ≡ 0
    → Captures (begin_capture o impl)
unfolding begin_capture
begin-Captures none impl i a = (i, a, λ h. cc)
begin-Captures (some (c, armed)) impl i a = ground arith

capture-Captures :
    (machine : Machine) (impl : Impl)
    → impl.observation_state ≡ idle
    → impl.active_thread_id ≡ 0
    → Captures (begin_trigger_thread_capture machine impl)
unfolding begin_trigger_thread_capture
capture-Captures machine impl i a =
    ground (arith, begin-Captures (machine.arm_trigger_capture_threads impl) impl i a)

finish-IsRotated :
    (r : Bool × Impl) (context : Context)
    → Captures r
    → let f = finish_rotation r context in f.0 ≡ true → IsRotated f.1 f.2
unfolding finish_rotation
finish-IsRotated (false, s) context c h = cc
finish-IsRotated (true, s) context c h = record {
  waiting = (c.2 refl).0;
  no_thread = c.1;
  state = c.0;
  address = sym (c.2 refl).1;
  enabled = refl;
  trap = ground arith;
}

finish_rotation-state :
    (r : Bool × Impl) (context : Context)
    → Captures r
    → (finish_rotation r context).1.observation_state ≡ idle
unfolding finish_rotation
finish_rotation-state (false, s) context c = c.0
finish_rotation-state (true, s) context c = c.0

module _ (machine : Machine) where
  released-Captures :
      (impl : Impl) → Captures (begin_trigger_thread_capture machine (release_thread impl))
  unfolding release_thread
  released-Captures impl = capture-Captures machine (release_thread impl) refl refl

  pub rotate-IsRotated :
      (impl : Impl) (context : Context)
      → let r = rotate_queued_trigger_trace machine impl context in r.0 ≡ true → IsRotated r.1 r.2
  unfolding rotate_queued_trigger_trace
  rotate-IsRotated impl context h = elim (Bool-cases (supports_queued_trigger_tracing impl)) [
    | inl yes' ↦ rw yes' (finish-IsRotated _ context (released-Captures impl) (rw yes' at h))
    | inr no' ↦ (let e = rw no' at h in cc)
  ]

  pub rotate-state :
      (impl : Impl) (context : Context)
      → impl.observation_state ≡ idle
      → (rotate_queued_trigger_trace machine impl context).1.observation_state ≡ idle
  unfolding rotate_queued_trigger_trace
  rotate-state impl context i = elim (Bool-cases (supports_queued_trigger_tracing impl)) [
    | inl yes' ↦ rw yes' (finish_rotation-state _ context (released-Captures impl))
    | inr no' ↦ rw no' i
  ]
