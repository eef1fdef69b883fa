-- ===== src/TrapFlag/Steady/Exceptions.antt =====
-- The stacks of the trap-flag backend over the debug exceptions that its handler takes.
use vd_trace.Base.{
  ℕ, ◌≡◌, refl, Bool, true, false, not, ◌&&◌, ◌||◌, List, [], ◌∷◌, Option, none, some, arith, ap,
  ◌∙◌, All, ◌==◌, if◌then◌else◌, by_test,
}
use vd_trace.Session.{
  EnhancedSamplingFrame, ActiveProbeSession, ResolvedValueProbe, ResolvedExecutionAddress,
  ModuleRange, StepEvent, kind_eq, call, is_capture_mode, Impl,
}
use vd_trace.Regions.{resolve_execution_address}
use vd_trace.Regions.Policy.{trap_flag_frame_suppressed}
use vd_trace.Hardware.{Context}
use vd_trace.Hardware.Exception.{exception_single_step}
use vd_trace.Runtime.{Machine, Handled, count_event, emit_event}
use vd_trace.Runtime.Handoff.{
  HandoffRequest, try_activate_async_thread_handoff, hand_over, queue_async_handoff_request,
}
use vd_trace.Probe.{
  find_value_probe_by_address, local_probe_session, start_session, probe_session,
  try_emit_value_probe_event, emit_value_probe, value_probe_event,
}
use vd_trace.Probe.Local.{ProbeStep, handle_active_probe_single_step}
use vd_trace.TrapFlag.{finish_trap_flag_step}
use vd_trace.TrapFlag.Handler.{
  update_step, switch_or_update, emit_step, decide_step, begin_step, step_of, trace_step,
  handle_trap_flag_trace_exception, trap_flag_event, or_zero, range_of, has_range,
  is_outside_recordable, no_frame, should_emit_trap_flag_event, with_session,
}
use vd_trace.TrapFlag.Stack.{
  StacksAgree, none_suppressed, top_of, finish-StacksAgree, finish-SameSession,
}
use vd_trace.TrapFlag.Steady.{
  IsSteady, agree_of, emit_event-IsSteady, probe-IsSteady, finish-IsSteady,
}

module _ (machine : Machine) where
  -- The stacks behind a step.
  update-IsSteady :
      (emitted : Bool) (frame : EnhancedSamplingFrame) (impl : Impl) (s : ProbeStep)
      (context : Context)
      → IsSteady impl
      → IsSteady (update_step machine emitted frame impl s context).impl
  unfolding update_step
  update-IsSteady emitted frame impl s context k =
      let stepped =
        finish_trap_flag_step machine.virtual_query impl s.decode_result s.executed_rip
          s.current_rip s.call_depth s.actual_target frame in
      let a =
        finish-StacksAgree machine.virtual_query impl s.decode_result s.executed_rip s.current_rip
          s.call_depth s.actual_target frame (agree_of impl k) in
      let (stop, probe) =
        finish-SameSession machine.virtual_query impl s.decode_result s.executed_rip s.current_rip
          s.call_depth s.actual_target frame in
      finish-IsSteady machine emitted s (handle_active_probe_single_step machine stepped s context)
        (probe-IsSteady machine stepped s context (record {
          inherited = a.inherited;
          suppressed = a.suppressions;
          sampled = a.samples;
          counted = a.depth;
          no_stop = stop ∙ k.no_stop;
          no_window =
              ap (λ (p : ActiveProbeSession). p.restore_hardware_backend) probe ∙ k.no_window;
        }))

  switch-IsSteady :
      (frame : EnhancedSamplingFrame) (s : ProbeStep) (r : Bool × Impl × Context)
      → IsSteady r.1
      → IsSteady (switch_or_update machine frame s r).impl
  unfolding switch_or_update
  switch-IsSteady frame s (true, impl, context) k = k
  switch-IsSteady frame s (false, impl, context) k = update-IsSteady true frame impl s context k

  hand_over-IsSteady :
      (o : Option HandoffRequest) (impl : Impl) (context : Context)
      → IsSteady impl
      → IsSteady (hand_over machine o impl context).1
  unfolding hand_over queue_async_handoff_request
  hand_over-IsSteady none impl context k = k
  hand_over-IsSteady (some q) impl context k = k

  handoff-IsSteady :
      (impl : Impl) (target : ℕ) (event : StepEvent) (context : Context)
      → IsSteady impl
      → IsSteady (try_activate_async_thread_handoff machine impl target event context).1
  unfolding try_activate_async_thread_handoff
  handoff-IsSteady impl target event context k =
      by_test (λ (r : Bool × Impl × Context). IsSteady r.1) (not impl.options.async_thread_handoff)
        (λ h. k) (λ h. hand_over-IsSteady _ impl context k)

  emit-IsSteady :
      (impl : Impl) (s : ProbeStep) (range : Option ModuleRange) (context : Context)
      → IsSteady impl
      → IsSteady (emit_step machine impl s range context).impl
  unfolding emit_step
  emit-IsSteady impl s range context k =
      let event = trap_flag_event machine impl s range context in
      let emitted = emit_event (count_event impl) event in
      let k' = emit_event-IsSteady (count_event impl) event k in
      by_test (λ (h : Handled). IsSteady h.impl) (kind_eq s.decode_result.kind call)
        (λ h.
          switch-IsSteady _ s
            (try_activate_async_thread_handoff machine emitted (or_zero s.actual_target) event
              context)
            (handoff-IsSteady emitted (or_zero s.actual_target) event context k'))
        (λ h. update-IsSteady true _ emitted s context k')

  decide-IsSteady :
      (resolved : ResolvedExecutionAddress) (impl : Impl) (s : ProbeStep) (context : Context)
      → IsSteady impl
      → IsSteady (decide_step machine resolved impl s context).impl
  unfolding decide_step
  decide-IsSteady resolved impl s context k =
      let range = range_of resolved.kind resolved.module_range in
      by_test (λ (h : Handled). IsSteady h.impl)
        ((has_range range || is_outside_recordable impl resolved.kind)
          && should_emit_trap_flag_event impl s.decode_result
          && not (trap_flag_frame_suppressed impl))
        (λ h. emit-IsSteady impl s range context k)
        (λ h. update-IsSteady false no_frame impl s context k)

  -- The start of a step.
  value_probe-IsSteady :
      (o : Option ResolvedValueProbe) (impl : Impl) (rip : ℕ) (context : Context)
      → IsSteady impl
      → IsSteady (emit_value_probe machine o impl rip context)
  unfolding emit_value_probe
  value_probe-IsSteady none impl rip context k = k
  value_probe-IsSteady (some p) impl rip context k =
      by_test IsSteady (is_capture_mode p.mode)
        (λ h.
          emit_event-IsSteady (count_event impl) (value_probe_event machine impl p rip context) k)
        (λ h. k)

  abbrev StaysHere : Option ActiveProbeSession → Type 0
  StaysHere none = Unit
  StaysHere (some session) = session.restore_hardware_backend ≡ false

  start-StaysHere :
      (o : Option ResolvedValueProbe) (impl : Impl) (rip : ℕ)
      → StaysHere (start_session machine o impl rip false)
  unfolding start_session probe_session
  start-StaysHere none impl rip = tt
  start-StaysHere (some p) impl rip =
      by_test StaysHere (is_capture_mode p.mode) (λ h. tt) (λ h. refl)

  local-StaysHere : (impl : Impl) (rip : ℕ) → StaysHere (local_probe_session machine impl rip false)
  unfolding local_probe_session
  local-StaysHere impl rip =
      by_test StaysHere impl.active_probe.active (λ h. tt)
        (λ h. start-StaysHere (find_value_probe_by_address impl.value_probes rip) impl rip)

  session-IsSteady :
      (o : Option ActiveProbeSession) (impl : Impl)
      → StaysHere o
      → IsSteady impl
      → IsSteady (with_session machine o impl)
  session-IsSteady none impl h k = k
  session-IsSteady (some session) impl h k = record {
    inherited = k.inherited;
    suppressed = k.suppressed;
    sampled = k.sampled;
    counted = k.counted;
    no_stop = k.no_stop;
    no_window = h;
  }

  begin-IsSteady :
      (impl : Impl) (rip : ℕ) (context : Context)
      → IsSteady impl
      → IsSteady (begin_step machine impl rip context)
  unfolding begin_step try_emit_value_probe_event
  begin-IsSteady impl rip context k =
      let probed =
        try_emit_value_probe_event machine (record impl { last_rip = rip; last_rip_valid = true })
          rip context in
      session-IsSteady (local_probe_session machine probed rip false) probed
        (local-StaysHere probed rip)
        (value_probe-IsSteady (find_value_probe_by_address impl.value_probes rip)
          (record impl { last_rip = rip; last_rip_valid = true }) rip context k)

  trace-IsSteady :
      (impl : Impl) (executed_rip current_rip : ℕ) (context : Context)
      → IsSteady impl
      → IsSteady (trace_step machine impl executed_rip current_rip context).impl
  unfolding trace_step
  trace-IsSteady impl executed_rip current_rip context k =
      let begun = begin_step machine impl current_rip context in
      let (resolved, cache) =
        resolve_execution_address machine.virtual_query begun begun.region_cache executed_rip in
      decide-IsSteady resolved (record begun { region_cache = cache })
        (step_of machine begun executed_rip current_rip) context
        (begin-IsSteady impl current_rip context k)

  handle-IsSteady :
      (exception_code : ℕ) (impl : Impl) (context : Context)
      → IsSteady impl
      → IsSteady (handle_trap_flag_trace_exception machine exception_code impl context).impl
  unfolding handle_trap_flag_trace_exception
  handle-IsSteady exception_code impl context k =
      by_test (λ (h : Handled). IsSteady h.impl) (not (exception_code == exception_single_step))
        (λ h. k)
        (λ h.
          by_test (λ (h : Handled). IsSteady h.impl) impl.stop_requested
            (λ y. absurd (ground (arith, k.no_stop)))
            (λ n.
              by_test (λ (h : Handled). IsSteady h.impl) (not impl.running) (λ y. k)
                (λ n.
                  trace-IsSteady impl (if impl.last_rip_valid then impl.last_rip else context.rip)
                    context.rip context k)))

  -- The session behind the exceptions that the handler takes one after the other.
  pub after_exceptions : Impl → List (ℕ × Context) → Impl
  after_exceptions impl [] = impl
  after_exceptions impl ((code, context) ∷ es) =
      after_exceptions (handle_trap_flag_trace_exception machine code impl context).impl es

  exceptions-IsSteady :
      (impl : Impl) (es : List (ℕ × Context)) → IsSteady impl → IsSteady (after_exceptions impl es)
  unfolding after_exceptions
  exceptions-IsSteady impl [] k = k
  exceptions-IsSteady impl ((code, context) ∷ es) k =
      exceptions-IsSteady (handle_trap_flag_trace_exception machine code impl context).impl es
        (handle-IsSteady code impl context k)

  -- Over any exceptions that the handler of the trap flag takes one after the other, from a session
  -- whose stacks agree, of which no stop is requested and whose probe session, if any, does not lead
  -- back to the hardware backend: the stacks of return addresses, samples and suppressions keep one
  -- length, which the call depth counts, and while the frame on top is not suppressed, no frame
  -- below it is.
  pub after_exceptions-StacksAgree :
      (impl : Impl) (es : List (ℕ × Context))
      → StacksAgree impl
      → impl.stop_requested ≡ false
      → impl.active_probe.restore_hardware_backend ≡ false
      → let r = after_exceptions impl es in
        StacksAgree r
        × (trap_flag_frame_suppressed r ≡ false → All (λ b. b ≡ false) r.trap_suppression_stack)
  after_exceptions-StacksAgree impl es a stop window =
      let k = exceptions-IsSteady impl es (record {
        inherited = a.inherited;
        suppressed = a.suppressions;
        sampled = a.samples;
        counted = a.depth;
        no_stop = stop;
        no_window = window;
      }) in
      let r = after_exceptions impl es in
      (agree_of r k, λ h. none_suppressed r.trap_suppression_stack k.inherited (top_of r h))
