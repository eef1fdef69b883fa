-- ===== src/Hardware/Exception/Controlled.antt =====
-- What a debug exception leaves behind: the thread runs free after a stop, or its debug registers
-- or its trap flag bring it back.
use vd_trace.Base.{
  Option-cases, inr, ℕ, ◌≡◌, ◌≢◌, refl, sym, subst, ◌⊎◌, Bool, true, false, not, ◌&&◌, List, Option,
  none, some, ◌==◌, leb, arith, by_test, inl,
}
use vd_trace.Session.{
  ObservationState, idle, waiting_for_destination, waiting_for_tail, waiting_for_single_step,
  linear_scan, waiting_for_hot_return, trap_flag_context, Impl,
}
use vd_trace.Hardware.{Context, no_addresses, apply_hardware_context_observations}
use vd_trace.Hardware.Observe.{Programs, apply-Programs}
use vd_trace.Hardware.Program.{Planned, program_hardware_observation}
use vd_trace.Hardware.Program.Watch.{program-Watching}
use vd_trace.Hardware.Exception.{apply_observed, check_max_events}
use vd_trace.Hardware.Transition.Finalize.Rotated.{IsRotated}
use vd_trace.Hardware.Transition.Finalize.Ending.{is_hot}
use vd_trace.Runtime.{
  Machine, Handled, continue_execution, continue_search, stop_session, disarm, arm_single_step,
}
use vd_trace.TrapWindow.{observe_from, or_context, program_or_scan}

-- The states that wait at an address, and those that wait for the next instruction.
abbrev pub waits_at_address : ObservationState → Bool
waits_at_address waiting_for_destination = true
waits_at_address waiting_for_tail = true
waits_at_address waiting_for_hot_return = true
waits_at_address _ = false

abbrev pub waits_for_step : ObservationState → Bool
waits_for_step waiting_for_single_step = true
waits_for_step linear_scan = true
waits_for_step _ = false

-- Debug registers, DR7 and trap flag as `Programs` says, for a context that holds them.
abbrev pub Holds : Context → List ℕ → ℕ → Bool → Type 0
Holds context addresses count step = Programs context context addresses count step

pub data IsControlled (impl : Impl) (context : Context) : Type 0 where
  stopped :
      impl.running ≡ false
      → impl.observation_state ≡ idle
      → Holds context no_addresses 0 false
      → IsControlled impl context
  watching :
      waits_at_address impl.observation_state ≡ true
      → impl.observed_count ≢ 0
      → Holds context impl.observed_addresses impl.observed_count false
      → IsControlled impl context
  stepping :
      (waits_for_step impl.observation_state ≡ true) ⊎ (impl.backend_mode ≡ trap_flag_context)
      → Holds context no_addresses 0 true
      → IsControlled impl context
  rotated : IsRotated impl context → IsControlled impl context

-- An exception is passed on with its context as it was, or the thread goes on under control.
pub data Settles (context : Context) (h : Handled) : Type 0 where
  passed : h.disposition ≡ continue_search → h.context ≡ context → Settles context h
  settled : h.disposition ≡ continue_execution → IsControlled h.impl h.context → Settles context h

pub apply-Holds :
    (context : Context) (addresses : List ℕ) (count : ℕ) (step : Bool)
    → Holds (apply_hardware_context_observations context addresses count step) addresses count step
apply-Holds context addresses count step =
    let p = apply-Programs context addresses count step in
    record {
      first = p.first;
      second = p.second;
      third = p.third;
      fourth = p.fourth;
      status = p.status;
      enabled = p.enabled;
      reserved = p.reserved;
      trap = p.trap;
      rip = refl;
      rsp = refl;
      rax = refl;
    }

pub stop-IsControlled :
    (impl : Impl) (context : Context)
    → impl.running ≡ false
    → impl.observation_state ≡ idle
    → IsControlled impl (disarm context)
stop-IsControlled impl context r i = stopped r i (apply-Holds context no_addresses 0 false)

pub watch-IsControlled :
    (impl : Impl) (context : Context)
    → waits_at_address impl.observation_state ≡ true
    → impl.observed_count ≢ 0
    → IsControlled impl (apply_observed impl context)
watch-IsControlled impl context w n =
    watching w n (apply-Holds context impl.observed_addresses impl.observed_count false)

pub step-IsControlled :
    (impl : Impl) (context : Context)
    → (waits_for_step impl.observation_state ≡ true) ⊎ (impl.backend_mode ≡ trap_flag_context)
    → IsControlled impl (arm_single_step context)
step-IsControlled impl context s = stepping s (apply-Holds context no_addresses 0 true)

pub stop_session-Settles :
    (before : Context) (impl : Impl) (context : Context)
    → Settles before (stop_session impl context)
stop_session-Settles before impl context = settled refl (stop-IsControlled _ context refl refl)

pub max_events-Settles :
    (before : Context) (r : Impl × Context)
    → IsControlled r.0 r.1
    → Settles before (check_max_events r)
unfolding check_max_events
max_events-Settles before (impl, context) c =
    by_test (Settles before)
      (not (impl.options.max_events == 0) && leb impl.options.max_events impl.event_count)
      (λ h. stop_session-Settles before impl context) (λ h. settled refl c)

pub hot_waits : (s : ObservationState) → is_hot s ≡ true → waits_at_address s ≡ true
hot_waits waiting_for_hot_return h = refl
hot_waits idle h = cc
hot_waits waiting_for_destination h = cc
hot_waits waiting_for_tail h = cc
hot_waits waiting_for_single_step h = cc
hot_waits linear_scan h = cc

module _ (machine : Machine) where
  abbrev pub plan : Impl → ℕ → Context → Planned
  plan impl entry context =
      program_hardware_observation machine.virtual_query machine.decode_instruction impl entry
        (some context)

  -- A plan that succeeds, or a plan that fails.
  pub planned-IsControlled :
      (impl : Impl) (entry : ℕ) (context : Context)
      → (plan impl entry context).error ≡ none
      → IsControlled
          (plan impl entry context).impl
          (or_context (plan impl entry context).context context)
  planned-IsControlled impl entry context h =
      let p = plan impl entry context in
      let (block, w, c) =
        program-Watching machine.virtual_query machine.decode_instruction impl entry (some context)
          h in
      subst (λ (o : Option Context). IsControlled p.impl (or_context o context)) (sym c)
        (watch-IsControlled p.impl context (ground (arith, w.states))
          (ground (arith, w.some_address)))

  by_plan :
      (p : Planned) (entry : ℕ) (context : Context)
      → (p.error ≡ none → IsControlled p.impl (or_context p.context context))
      → let r = program_or_scan p entry context in IsControlled r.0 r.1
  unfolding program_or_scan
  by_plan p entry context c = elim (Option-cases p.error) [
    | inl fine ↦ rw fine (c fine)
    | inr (e, broken) ↦ rw broken (step-IsControlled _ context (inl refl))
  ]

  pub observe-IsControlled :
      (impl : Impl) (entry : ℕ) (context : Context)
      → let r = observe_from machine impl entry context in IsControlled r.0 r.1
  unfolding observe_from
  observe-IsControlled impl entry context =
      by_plan (plan impl entry context) entry context (planned-IsControlled impl entry context)

  pub observe-Settles :
      (before : Context) (impl : Impl) (entry : ℕ) (context : Context)
      → Settles before (check_max_events (observe_from machine impl entry context))
  observe-Settles before impl entry context =
      max_events-Settles before _ (observe-IsControlled impl entry context)
