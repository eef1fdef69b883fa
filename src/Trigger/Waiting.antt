-- ===== src/Trigger/Waiting.antt =====
-- What the debug exception of a session's own thread leaves behind, and the search of the stack for
-- an address in a module.
use vd_trace.Base.{
  ℕ, ◌≡◌, refl, Bool, true, false, not, ◌&&◌, [], ◌∷◌, Option, none, some, ◌==◌, arith, by_test,
}
use vd_trace.Session.{BackendMode, hardware_flow, trap_flag_context, Impl}
use vd_trace.Regions.{find_module_range}
use vd_trace.Hardware.{Context, trap_flag_bit}
use vd_trace.Hardware.Exception.{exception_single_step}
use vd_trace.Hardware.Exception.Controlled.{IsControlled, Holds, apply-Holds, Settles}
use vd_trace.Hardware.Exception.Settled.{handle-Settles}
use vd_trace.Hardware.Exception.Restored.{start-Controls}
use vd_trace.Runtime.{Machine, Handled, continue_execution, continue_search}
use vd_trace.TrapWindow.{start_region_aware_hardware_flow}
use vd_trace.TrapFlag.Stepping.{StepEnds, set_step-bit, trap_flag-StepEnds}
use vd_trace.Trigger.{
  clear_debug_controls, move_trigger, after_start, try_find_inside_return_address, begin_trace,
  start_backend, hit_trigger, move_or_hit, handle_trigger_wait_exception, by_backend,
  handle_own_exception, is_tracked,
}

-- No breakpoint is left in the debug registers.
pub record IsReleased (context : Context) : Type 0 where
  pub first : context.dr0 ≡ 0
  pub second : context.dr1 ≡ 0
  pub third : context.dr2 ≡ 0
  pub fourth : context.dr3 ≡ 0
  pub status : context.dr6 ≡ 0
  pub control : context.dr7 ≡ 0

-- How an exception of the own thread ends: passed on; the session is over and the breakpoints are
-- gone; it waits for a trigger that is watched; or the trace goes on under one of the backends.
pub data OwnEnds (context : Context) (h : Handled) : Type 0 where
  passed : h.disposition ≡ continue_search → h.context ≡ context → OwnEnds context h
  released :
      h.disposition ≡ continue_execution
      → h.impl.running ≡ false
      → IsReleased h.context
      → OwnEnds context h
  at_trigger :
      h.disposition ≡ continue_execution
      → h.impl.waiting_for_trigger ≡ true
      → Holds h.context (h.impl.resolved_trigger_address ∷ 0 ∷ 0 ∷ 0 ∷ []) 1 false
      → OwnEnds context h
  stepping :
      h.disposition ≡ continue_execution
      → trap_flag_bit h.context.e_flags ≡ 1
      → IsReleased h.context
      → OwnEnds context h
  watched : h.disposition ≡ continue_execution → IsControlled h.impl h.context → OwnEnds context h
  by_hardware : Settles context h → OwnEnds context h
  by_trap_flag : StepEnds context h → OwnEnds context h

clear-IsReleased : (context : Context) → IsReleased (clear_debug_controls context)
clear-IsReleased context = record {
  first = refl;
  second = refl;
  third = refl;
  fourth = refl;
  status = refl;
  control = refl;
}

after_start-OwnEnds :
    (before : Context) (r : Bool × Impl × Context)
    → (r.0 ≡ true → IsControlled r.1 r.2)
    → OwnEnds before (after_start r)
unfolding after_start
after_start-OwnEnds before (true, impl, context) k = watched refl (k refl)
after_start-OwnEnds before (false, impl, context) k = released refl refl (clear-IsReleased context)

module _ (machine : Machine) where
  backend-OwnEnds :
      (b : BackendMode) (before : Context) (impl : Impl) (rip : ℕ) (context : Context)
      → OwnEnds before (start_backend machine b impl rip context)
  unfolding start_backend
  backend-OwnEnds hardware_flow before impl rip context =
      after_start-OwnEnds before (start_region_aware_hardware_flow machine impl rip context)
        (start-Controls machine impl rip context)
  backend-OwnEnds trap_flag_context before impl rip context =
      stepping refl (set_step-bit machine (clear_debug_controls context)) (record {
        first = refl;
        second = refl;
        third = refl;
        fourth = refl;
        status = refl;
        control = refl;
      })

  hit-OwnEnds :
      (before : Context) (impl : Impl) (rip : ℕ) (context : Context)
      → OwnEnds before (hit_trigger machine impl rip context)
  unfolding hit_trigger
  hit-OwnEnds before impl rip context =
      let begun = begin_trace machine impl rip context in
      backend-OwnEnds begun.backend_mode before begun rip context

  move-OwnEnds :
      (o : Option ℕ) (before : Context) (impl : Impl) (rip : ℕ) (context : Context)
      → OwnEnds before (move_or_hit machine o impl rip context)
  unfolding move_or_hit move_trigger
  move-OwnEnds none before impl rip context = hit-OwnEnds before impl rip context
  move-OwnEnds (some a) before impl rip context =
      by_test (OwnEnds before) (not (a == 0) && not (a == rip))
        (λ h. at_trigger refl refl (apply-Holds context (a ∷ 0 ∷ 0 ∷ 0 ∷ []) 1 false))
        (λ h. hit-OwnEnds before impl rip context)

  wait-OwnEnds :
      (exception_code : ℕ) (impl : Impl) (context : Context)
      → OwnEnds context (handle_trigger_wait_exception machine exception_code impl context)
  unfolding handle_trigger_wait_exception
  wait-OwnEnds exception_code impl context =
      by_test (OwnEnds context) (not (exception_code == exception_single_step))
        (λ h. passed refl refl)
        (λ h.
          by_test (OwnEnds context) (not (context.rip == impl.resolved_trigger_address))
            (λ y. passed refl refl)
            (λ n.
              by_test (OwnEnds context)
                (not impl.options.trace_outside_modules
                  && not (is_tracked (find_module_range impl.module_ranges context.rip)))
                (λ y.
                  move-OwnEnds (try_find_inside_return_address machine impl context.rsp) context
                    impl context.rip context)
                (λ n. hit-OwnEnds context impl context.rip context)))

  by_backend-OwnEnds :
      (b : BackendMode) (exception_code : ℕ) (impl : Impl) (context : Context)
      → OwnEnds context (by_backend machine b exception_code impl context)
  unfolding by_backend
  by_backend-OwnEnds hardware_flow exception_code impl context =
      by_hardware (handle-Settles machine exception_code impl context)
  by_backend-OwnEnds trap_flag_context exception_code impl context =
      by_trap_flag (trap_flag-StepEnds machine exception_code impl context)

  -- Whatever the session and its context, an exception of the session's own thread is passed on with
  -- its context as it was, or the thread goes on: of a session that is over, without breakpoints;
  -- waiting for a trigger that its first debug register holds, and nothing else; with its trap flag
  -- set and without breakpoints; under the control of the hardware backend; or as the handler of
  -- its backend leaves it.
  pub own-OwnEnds :
      (exception_code : ℕ) (impl : Impl) (context : Context)
      → OwnEnds context (handle_own_exception machine exception_code impl context)
  unfolding handle_own_exception
  own-OwnEnds exception_code impl context =
      by_test (OwnEnds context) (not impl.running && exception_code == exception_single_step)
        (λ h. released refl (ground arith) (clear-IsReleased context))
        (λ h.
          by_test (OwnEnds context) impl.waiting_for_trigger
            (λ y. wait-OwnEnds exception_code impl context)
            (λ n. by_backend-OwnEnds impl.backend_mode exception_code impl context))
