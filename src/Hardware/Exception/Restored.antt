-- ===== src/Hardware/Exception/Restored.antt =====
-- The way back from a window of the trap flag: `RestoreHardwareFlowAfterTrapWindow` and
-- `StartRegionAwareHardwareFlow` leave the thread under control where they succeed.
use vd_trace.Base.{ℕ, ◌≡◌, refl, Bool, true, false, Option, none, some, arith, ◌∷◌, []}
use vd_trace.Session.{hardware_flow, Impl}
use vd_trace.Hardware.{Context}
use vd_trace.Hardware.Exception.Controlled.{
  IsControlled, stopped, watching, stepping, rotated, apply-Holds, observe-IsControlled,
}
use vd_trace.Hardware.Exception.Settled.{Opens, filter-Opens}
use vd_trace.Runtime.{Machine}
use vd_trace.TrapWindow.{
  Activation, failed, skipped, activated, try_activate_filter_trap_session, arm_return_only_resume,
  return_only_address, start_by_activation, start_region_aware_hardware_flow, restore_by_resume,
  restore_hardware_flow_after_trap_window,
}

-- Control where the first component is true.
abbrev Controls : Bool × Impl × Context → Type 0
Controls r = r.0 ≡ true → IsControlled r.1 r.2

-- Control does not depend on the last address.
pub forget_last :
    (impl : Impl) (context : Context)
    → IsControlled impl context
    → IsControlled (record impl { last_rip_valid = false }) context
forget_last impl context (stopped r i h) = stopped r i h
forget_last impl context (watching w n h) = watching w n h
forget_last impl context (stepping w h) = stepping w h
forget_last impl context (rotated t) = rotated (record {
  waiting = t.waiting;
  no_thread = t.no_thread;
  state = t.state;
  address = t.address;
  enabled = t.enabled;
  trap = t.trap;
})

module _ (machine : Machine) where
  by_activation-Controls :
      (a : Activation) (entry : ℕ) (context : Context)
      → Opens machine a
      → Controls (start_by_activation machine a entry context)
  unfolding start_by_activation
  by_activation-Controls (failed s) entry context o h = cc
  by_activation-Controls (activated s c) entry context o h = o
  by_activation-Controls (skipped s) entry context o h =
      observe-IsControlled machine s entry context

  pub start-Controls :
      (impl : Impl) (entry : ℕ) (context : Context)
      → Controls (start_region_aware_hardware_flow machine impl entry context)
  unfolding start_region_aware_hardware_flow
  start-Controls impl entry context =
      by_activation-Controls (try_activate_filter_trap_session machine impl entry context) entry
        context (filter-Opens machine impl entry context)

  by_resume-Controls :
      (o : Option ℕ) (impl : Impl) (rip : ℕ) (context : Context)
      → Controls (restore_by_resume machine o impl rip context)
  unfolding restore_by_resume arm_return_only_resume
  by_resume-Controls none impl rip context h = start-Controls _ rip context h
  by_resume-Controls (some resume_address) impl rip context h =
      watching refl (omega arith) (apply-Holds context (resume_address ∷ 0 ∷ 0 ∷ 0 ∷ []) 1 false)

  pub restore-Controls :
      (impl : Impl) (rip : ℕ) (context : Context)
      → Controls (restore_hardware_flow_after_trap_window machine impl rip context)
  unfolding restore_hardware_flow_after_trap_window
  restore-Controls impl rip context =
      by_resume-Controls
        (return_only_address impl.call_return_stack impl.trap_suppression_stack rip)
        (record impl { backend_mode = hardware_flow }) rip context
