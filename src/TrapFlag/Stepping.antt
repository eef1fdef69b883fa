-- ===== src/TrapFlag/Stepping.antt =====
-- What a step under the trap flag leaves behind.
use vd_trace.Base.{
  ℕ, ◌≡◌, refl, Bool, true, false, not, ◌&&◌, ◌||◌, List, [], Option, none, some, leb, ◌==◌,
  if◌then◌else◌, arith, by_test,
}
use vd_trace.Session.{
  idle, ModuleRange, ResolvedExecutionAddress, EnhancedSamplingFrame, ActiveProbeWatchState,
  ProbeCapture, StepEvent, is_write_trace, is_single_step_mode, kind_eq, call, Impl,
}
use vd_trace.Hardware.{Context, trap_flag_bit}
use vd_trace.Hardware.Transition.{should_auto_stop_on_root_return}
use vd_trace.Hardware.Transition.Finalize.Rotated.{IsRotated, rotate-IsRotated}
use vd_trace.Hardware.Exception.{exception_single_step}
use vd_trace.Runtime.{
  Machine, Handled, continue_execution, continue_search, count_event, emit_event,
  reset_active_probe_session,
}
use vd_trace.Runtime.Handoff.{
  HandoffRequest, try_activate_async_thread_handoff, hand_over, queue_async_handoff_request,
}
use vd_trace.Runtime.Rotation.{rotate_queued_trigger_trace}
use vd_trace.Probe.{snapshot_watches}
use vd_trace.Probe.Local.{
  ProbeStep, ProbeOutcome, goes_on, has_captures, enter_session, count_down, should_exit,
  awaits_entry, leave_window, exit_session, finish_probe_step, emit_probe_step,
  handle_active_probe_single_step, probe_step_event,
}
use vd_trace.Regions.{resolve_execution_address}
use vd_trace.Regions.Policy.{trap_flag_frame_suppressed}
use vd_trace.TrapWindow.{restore_hardware_flow_after_trap_window}
use vd_trace.Hardware.Exception.Controlled.{IsControlled}
use vd_trace.Hardware.Exception.Restored.{forget_last, restore-Controls}
use vd_trace.TrapFlag.Handler.{
  set_step, clear_step, stop_stepping, rotate_or_stop, finish_step, update_step, switch_or_update,
  emit_step, decide_step, begin_step, step_of, trace_step, stop_on_request,
  handle_trap_flag_trace_exception, trap_flag_event, or_zero, range_of, has_range,
  is_outside_recordable, no_frame, should_emit_trap_flag_event,
}

-- How a step ends: passed on; stopped, with the trap flag clear; to be stepped on; back under the
-- hardware backend; back at the trigger; or handed over to the thread of a request.
pub data StepEnds (context : Context) (h : Handled) : Type 0 where
  passed : h.disposition ≡ continue_search → h.context ≡ context → StepEnds context h
  stopped :
      h.disposition ≡ continue_execution
      → h.impl.running ≡ false
      → trap_flag_bit h.context.e_flags ≡ 0
      → StepEnds context h
  stepping :
      h.disposition ≡ continue_execution → trap_flag_bit h.context.e_flags ≡ 1 → StepEnds context h
  restored : h.disposition ≡ continue_execution → IsControlled h.impl h.context → StepEnds context h
  rotated : h.disposition ≡ continue_execution → IsRotated h.impl h.context → StepEnds context h
  handed_over :
      h.disposition ≡ continue_execution
      → h.impl.async_handoff_request_pending ≡ true
      → h.impl.observation_state ≡ idle
      → StepEnds context h

-- A probe's session that ends well leaves the thread as it was or under the hardware backend.
pub record Ends (o : ProbeOutcome) : Type 0 where
  pub fails : o.succeeded ≡ false → o.impl.running ≡ false
  pub restores : o.restored_hardware_flow ≡ true → IsControlled o.impl o.context

goes_on-Ends : (impl : Impl) (context : Context) → Ends (goes_on impl context)
goes_on-Ends impl context = record { fails = λ h. cc; restores = λ h. cc }

module _ (machine : Machine) where
  leave-Ends :
      (r : Bool × Impl × Context)
      → (r.0 ≡ true → IsControlled r.1 r.2)
      → Ends (leave_window machine r)
  unfolding leave_window
  leave-Ends (true, s, c) k = record { fails = λ h. cc; restores = λ h. k refl }
  leave-Ends (false, s, c) k = record { fails = λ h. refl; restores = λ h. cc }

  exit-Ends :
      (impl : Impl) (s : ProbeStep) (context : Context) → Ends (exit_session machine impl s context)
  unfolding exit_session
  exit-Ends impl s context =
      by_test Ends (not impl.active_probe.restore_hardware_backend)
        (λ h. goes_on-Ends (reset_active_probe_session impl) context)
        (λ h.
          leave-Ends (restore_hardware_flow_after_trap_window machine impl s.current_rip context)
            (restore-Controls machine impl s.current_rip context))

  finish-Ends :
      (impl : Impl) (s : ProbeStep) (context : Context)
      → Ends (finish_probe_step machine impl s context)
  unfolding finish_probe_step
  finish-Ends impl s context =
      by_test Ends (should_exit (count_down impl.active_probe) s) (λ h. exit-Ends _ s context)
        (λ h. goes_on-Ends _ context)

  emit-Ends :
      (w : List ProbeCapture × List ActiveProbeWatchState) (impl : Impl) (s : ProbeStep)
      (context : Context)
      → Ends (emit_probe_step machine w impl s context)
  unfolding emit_probe_step
  emit-Ends (captures, watches) impl s context =
      let entered = enter_session impl watches in
      by_test Ends (is_single_step_mode impl.active_probe.mode || has_captures captures)
        (λ h.
          finish-Ends
            (emit_event (count_event entered) (probe_step_event machine entered s captures context))
            s context)
        (λ h. finish-Ends entered s context)

  pub probe-Ends :
      (impl : Impl) (s : ProbeStep) (context : Context)
      → Ends (handle_active_probe_single_step machine impl s context)
  unfolding handle_active_probe_single_step
  probe-Ends impl s context =
      by_test Ends (not impl.active_probe.active || awaits_entry impl.active_probe s)
        (λ h. goes_on-Ends impl context)
        (λ h.
          by_test Ends (is_write_trace impl.active_probe.mode)
            (λ y. emit-Ends (snapshot_watches machine impl.active_probe.watches) impl s context)
            (λ n. emit-Ends ([], impl.active_probe.watches) impl s context))

  pub set_step-bit : (context : Context) → trap_flag_bit (set_step context).e_flags ≡ 1
  set_step-bit context = ground arith

  clear_step-bit : (context : Context) → trap_flag_bit (clear_step context).e_flags ≡ 0
  clear_step-bit context = ground arith

  stop-StepEnds :
      (before : Context) (impl : Impl) (context : Context)
      → StepEnds before (stop_stepping impl context)
  unfolding stop_stepping
  stop-StepEnds before impl context = stopped refl refl (clear_step-bit context)

  rotate-StepEnds :
      (before : Context) (r : Bool × Impl × Context)
      → (r.0 ≡ true → IsRotated r.1 r.2)
      → StepEnds before (rotate_or_stop machine r)
  unfolding rotate_or_stop
  rotate-StepEnds before (false, s, c) k = stop-StepEnds before s c
  rotate-StepEnds before (true, s, c) k =
      let t = k refl in
      rotated refl (record {
        waiting = t.waiting;
        no_thread = t.no_thread;
        state = t.state;
        address = t.address;
        enabled = t.enabled;
        trap = t.trap;
      })

  finish-StepEnds :
      (before : Context) (emitted : Bool) (s : ProbeStep) (o : ProbeOutcome)
      → Ends o
      → StepEnds before (finish_step machine emitted s o)
  unfolding finish_step
  finish-StepEnds before emitted s o e =
      let root = should_auto_stop_on_root_return o.impl s.decode_result.kind s.call_depth in
      by_test (StepEnds before) (not o.succeeded)
        (λ h. stopped refl (e.fails (ground arith)) (clear_step-bit o.context))
        (λ h.
          by_test (StepEnds before) o.restored_hardware_flow
            (λ y. restored refl (forget_last o.impl o.context (e.restores y)))
            (λ n.
              by_test (StepEnds before) (emitted && root)
                (λ y.
                  rotate-StepEnds before (rotate_queued_trigger_trace machine o.impl o.context)
                    (rotate-IsRotated machine o.impl o.context))
                (λ n.
                  by_test (StepEnds before)
                    (not (o.impl.options.max_events == 0)
                      && leb o.impl.options.max_events o.impl.event_count)
                    (λ y. stop-StepEnds before o.impl o.context)
                    (λ n. stepping refl (set_step-bit o.context)))))

  update-StepEnds :
      (before : Context) (emitted : Bool) (frame : EnhancedSamplingFrame) (impl : Impl)
      (s : ProbeStep) (context : Context)
      → StepEnds before (update_step machine emitted frame impl s context)
  unfolding update_step
  update-StepEnds before emitted frame impl s context =
      finish-StepEnds before emitted s _ (probe-Ends _ s context)

  switch-StepEnds :
      (before : Context) (frame : EnhancedSamplingFrame) (s : ProbeStep) (r : Bool × Impl × Context)
      → (r.0 ≡ true → (r.1.async_handoff_request_pending ≡ true) × (r.1.observation_state ≡ idle))
      → StepEnds before (switch_or_update machine frame s r)
  unfolding switch_or_update
  switch-StepEnds before frame s (true, impl, context) k = handed_over refl (k refl).0 (k refl).1
  switch-StepEnds before frame s (false, impl, context) k =
      update-StepEnds before true frame impl s context

  hand_over-Requests :
      (o : Option HandoffRequest) (impl : Impl) (context : Context)
      → let r = hand_over machine o impl context in
        r.0 ≡ true → (r.1.async_handoff_request_pending ≡ true) × (r.1.observation_state ≡ idle)
  unfolding hand_over queue_async_handoff_request
  hand_over-Requests none impl context h = cc
  hand_over-Requests (some q) impl context h = (refl, refl)

  handoff-Requests :
      (impl : Impl) (target : ℕ) (event : StepEvent) (context : Context)
      → let r = try_activate_async_thread_handoff machine impl target event context in
        r.0 ≡ true → (r.1.async_handoff_request_pending ≡ true) × (r.1.observation_state ≡ idle)
  unfolding try_activate_async_thread_handoff
  handoff-Requests impl target event context =
      by_test
        (λ (r : Bool × Impl × Context).
          r.0 ≡ true → (r.1.async_handoff_request_pending ≡ true) × (r.1.observation_state ≡ idle))
        (not impl.options.async_thread_handoff) (λ h k. cc) (λ h. hand_over-Requests _ impl context)

  emit-StepEnds :
      (before : Context) (impl : Impl) (s : ProbeStep) (range : Option ModuleRange)
      (context : Context)
      → StepEnds before (emit_step machine impl s range context)
  unfolding emit_step
  emit-StepEnds before impl s range context =
      let event = trap_flag_event machine impl s range context in
      let emitted = emit_event (count_event impl) event in
      by_test (StepEnds before) (kind_eq s.decode_result.kind call)
        (λ h.
          switch-StepEnds before _ s
            (try_activate_async_thread_handoff machine emitted (or_zero s.actual_target) event
              context)
            (handoff-Requests emitted (or_zero s.actual_target) event context))
        (λ h. update-StepEnds before true _ emitted s context)

  decide-StepEnds :
      (before : Context) (resolved : ResolvedExecutionAddress) (impl : Impl) (s : ProbeStep)
      (context : Context)
      → StepEnds before (decide_step machine resolved impl s context)
  unfolding decide_step
  decide-StepEnds before resolved impl s context =
      let range = range_of resolved.kind resolved.module_range in
      by_test (StepEnds before)
        ((has_range range || is_outside_recordable impl resolved.kind)
          && should_emit_trap_flag_event impl s.decode_result
          && not (trap_flag_frame_suppressed impl))
        (λ h. emit-StepEnds before impl s range context)
        (λ h. update-StepEnds before false no_frame impl s context)

  trace-StepEnds :
      (before : Context) (impl : Impl) (executed_rip current_rip : ℕ) (context : Context)
      → StepEnds before (trace_step machine impl executed_rip current_rip context)
  unfolding trace_step
  trace-StepEnds before impl executed_rip current_rip context =
      let begun = begin_step machine impl current_rip context in
      let (resolved, cache) =
        resolve_execution_address machine.virtual_query begun begun.region_cache executed_rip in
      decide-StepEnds before resolved (record begun { region_cache = cache })
        (step_of machine begun executed_rip current_rip) context

  -- Whatever the session and its context, a step under the trap flag is passed on with its context
  -- as it was, or the thread goes on: stopped with its trap flag clear, with its trap flag set,
  -- under the control of the hardware backend, back at the trigger, or handed over to the thread
  -- that a pending request names.
  pub trap_flag-StepEnds :
      (exception_code : ℕ) (impl : Impl) (context : Context)
      → StepEnds context (handle_trap_flag_trace_exception machine exception_code impl context)
  unfolding handle_trap_flag_trace_exception stop_on_request
  trap_flag-StepEnds exception_code impl context =
      by_test (StepEnds context) (not (exception_code == exception_single_step))
        (λ h. passed refl refl)
        (λ h.
          by_test (StepEnds context) impl.stop_requested
            (λ y. stopped refl refl (clear_step-bit context))
            (λ n.
              by_test (StepEnds context) (not impl.running) (λ y. passed refl refl)
                (λ n.
                  trace-StepEnds context impl
                    (if impl.last_rip_valid then impl.last_rip else context.rip) context.rip
                    context)))
