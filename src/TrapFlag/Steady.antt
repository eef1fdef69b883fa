-- ===== src/TrapFlag/Steady.antt =====
-- What keeps the stacks of the trap-flag backend in step: the rotation of the traced thread, the
-- session of a probe and the end of a step.
pub mod Exceptions
use vd_trace.Base.{
  ℕ, ◌+◌, ◌%◌, ◌≡◌, refl, Bool, true, false, not, ◌&&◌, ◌||◌, List, [], ◌∷◌, Option, none, some,
  arith, ap, ◌∙◌, length, All, u32_mod, leb, ◌==◌, if◌then◌else◌, by_test,
}
use vd_trace.Session.{
  InstructionDecodeResult, EnhancedSamplingFrame, ActiveProbeSession, ActiveProbeWatchState,
  ResolvedValueProbe, ResolvedExecutionAddress, ModuleRange, ProbeCapture, StepEvent, kind_eq, call,
  is_write_trace, is_single_step_mode, is_capture_mode, Impl,
}
use vd_trace.Regions.{MemoryInformation, resolve_execution_address}
use vd_trace.Regions.Policy.{trap_flag_frame_suppressed}
use vd_trace.Hardware.{Context}
use vd_trace.Hardware.Transition.{should_auto_stop_on_root_return}
use vd_trace.Hardware.Exception.{exception_single_step}
use vd_trace.Runtime.{
  Machine, Handled, count_event, emit_event, reset_active_probe_session,
  reset_thread_observation_state,
}
use vd_trace.Runtime.Handoff.{
  HandoffRequest, try_activate_async_thread_handoff, hand_over, queue_async_handoff_request,
}
use vd_trace.Runtime.Rotation.{
  rotate_queued_trigger_trace, finish_rotation, begin_trigger_thread_capture, begin_capture,
  release_thread, supports_queued_trigger_tracing,
}
use vd_trace.Probe.{
  find_value_probe_by_address, local_probe_session, start_session, probe_session,
  try_emit_value_probe_event, emit_value_probe, value_probe_event, snapshot_watches,
}
use vd_trace.Probe.Local.{
  ProbeStep, ProbeOutcome, goes_on, has_captures, enter_session, count_down, should_exit,
  awaits_entry, exit_session, finish_probe_step, emit_probe_step, handle_active_probe_single_step,
  probe_step_event,
}
use vd_trace.TrapFlag.{finish_trap_flag_step}
use vd_trace.TrapFlag.Handler.{
  stop_stepping, rotate_or_stop, finish_step, update_step, switch_or_update, emit_step, decide_step,
  begin_step, step_of, trace_step, handle_trap_flag_trace_exception, trap_flag_event, or_zero,
  range_of, has_range, is_outside_recordable, no_frame, should_emit_trap_flag_event, with_session,
}
use vd_trace.TrapFlag.Stack.{
  IsInherited, StacksAgree, none_suppressed, top_of, finish-StacksAgree, finish-SameSession,
}

-- The stacks agree, no stop is requested, and no session of a probe leads back to the hardware
-- backend.
pub record IsSteadyOf (suppressions : List Bool) (returns : List ℕ)
    (samples : List EnhancedSamplingFrame) (offset depth : ℕ) (stops restores : Bool) : Type 0 where
  pub inherited : IsInherited suppressions
  pub suppressed : length suppressions ≡ length returns
  pub sampled : length samples ≡ length returns
  pub counted : depth ≡ (offset + length returns) % u32_mod
  pub no_stop : stops ≡ false
  pub no_window : restores ≡ false

abbrev pub IsSteady : Impl → Type 0
IsSteady impl =
    IsSteadyOf impl.trap_suppression_stack impl.call_return_stack impl.enhanced_sampling_stack
      impl.call_depth_offset impl.current_call_depth impl.stop_requested
      impl.active_probe.restore_hardware_backend

pub agree_of : (impl : Impl) → IsSteady impl → StacksAgree impl
agree_of impl s = record {
  inherited = s.inherited;
  suppressions = s.suppressed;
  samples = s.sampled;
  depth = s.counted;
}

pub emit_event-IsSteady :
    (impl : Impl) (event : StepEvent) → IsSteady impl → IsSteady (emit_event impl event)
emit_event-IsSteady impl event s = by_test IsSteady impl.options.has_callback (λ h. s) (λ h. s)

release-IsSteady : (impl : Impl) → IsSteady (release_thread impl)
unfolding release_thread reset_thread_observation_state
release-IsSteady impl = record {
  inherited = tt;
  suppressed = refl;
  sampled = refl;
  counted = refl;
  no_stop = refl;
  no_window = refl;
}

module _ (machine : Machine) where
  finish_rotation-IsSteady :
      (r : Bool × Impl) (context : Context) → IsSteady r.1 → IsSteady (finish_rotation r context).1
  unfolding finish_rotation
  finish_rotation-IsSteady (false, impl) context s = s
  finish_rotation-IsSteady (true, impl) context s = s

  begin_capture-IsSteady :
      (o : Option (ℕ × ℕ)) (impl : Impl) → IsSteady impl → IsSteady (begin_capture o impl).1
  unfolding begin_capture
  begin_capture-IsSteady none impl s = s
  begin_capture-IsSteady (some (candidates, armed)) impl s =
      by_test (λ (r : Bool × Impl). IsSteady r.1) (not (candidates == 0) && armed == 0) (λ h. s)
        (λ h. s)

  rotate-IsSteady :
      (impl : Impl) (context : Context)
      → IsSteady impl
      → IsSteady (rotate_queued_trigger_trace machine impl context).1
  unfolding rotate_queued_trigger_trace begin_trigger_thread_capture
  rotate-IsSteady impl context s =
      by_test (λ (r : Bool × Impl × Context). IsSteady r.1)
        (not (supports_queued_trigger_tracing impl)) (λ h. s)
        (λ h. finish_rotation-IsSteady _ context (
          by_test (λ (r : Bool × Impl). IsSteady r.1)
            ((release_thread impl).configured_trigger_address == 0) (λ y. release-IsSteady impl)
            (λ n.
              begin_capture-IsSteady (machine.arm_trigger_capture_threads (release_thread impl))
                (release_thread impl) (release-IsSteady impl))))

  rotate_or_stop-IsSteady :
      (r : Bool × Impl × Context) → IsSteady r.1 → IsSteady (rotate_or_stop machine r).impl
  unfolding rotate_or_stop stop_stepping
  rotate_or_stop-IsSteady (true, impl, context) s = s
  rotate_or_stop-IsSteady (false, impl, context) s = s

  -- The session of a probe.
  exit-IsSteady :
      (impl : Impl) (s : ProbeStep) (context : Context)
      → IsSteady impl
      → IsSteady (exit_session machine impl s context).impl
  unfolding exit_session
  exit-IsSteady impl s context k =
      by_test (λ (o : ProbeOutcome). IsSteady o.impl)
        (not impl.active_probe.restore_hardware_backend)
        (λ h. record {
          inherited = k.inherited;
          suppressed = k.suppressed;
          sampled = k.sampled;
          counted = k.counted;
          no_stop = k.no_stop;
          no_window = refl;
        })
        (λ h. absurd (ground (arith, k.no_window)))

  finish_probe-IsSteady :
      (impl : Impl) (s : ProbeStep) (context : Context)
      → IsSteady impl
      → IsSteady (finish_probe_step machine impl s context).impl
  unfolding finish_probe_step count_down
  finish_probe-IsSteady impl s context k =
      by_test (λ (o : ProbeOutcome). IsSteady o.impl) (should_exit (count_down impl.active_probe) s)
        (λ h. exit-IsSteady _ s context k) (λ h. k)

  emit_probe-IsSteady :
      (w : List ProbeCapture × List ActiveProbeWatchState) (impl : Impl) (s : ProbeStep)
      (context : Context)
      → IsSteady impl
      → IsSteady (emit_probe_step machine w impl s context).impl
  unfolding emit_probe_step
  emit_probe-IsSteady (captures, watches) impl s context k =
      let entered = enter_session impl watches in
      by_test (λ (o : ProbeOutcome). IsSteady o.impl)
        (is_single_step_mode impl.active_probe.mode || has_captures captures)
        (λ h. finish_probe-IsSteady _ s context (
          emit_event-IsSteady (count_event entered)
            (probe_step_event machine entered s captures context) k))
        (λ h. finish_probe-IsSteady entered s context k)

  pub probe-IsSteady :
      (impl : Impl) (s : ProbeStep) (context : Context)
      → IsSteady impl
      → IsSteady (handle_active_probe_single_step machine impl s context).impl
  unfolding handle_active_probe_single_step
  probe-IsSteady impl s context k =
      by_test (λ (o : ProbeOutcome). IsSteady o.impl)
        (not impl.active_probe.active || awaits_entry impl.active_probe s) (λ h. k)
        (λ h.
          by_test (λ (o : ProbeOutcome). IsSteady o.impl) (is_write_trace impl.active_probe.mode)
            (λ y.
              emit_probe-IsSteady (snapshot_watches machine impl.active_probe.watches) impl s
                context k)
            (λ n. emit_probe-IsSteady ([], impl.active_probe.watches) impl s context k))

  pub finish-IsSteady :
      (emitted : Bool) (s : ProbeStep) (o : ProbeOutcome)
      → IsSteady o.impl
      → IsSteady (finish_step machine emitted s o).impl
  unfolding finish_step stop_stepping
  finish-IsSteady emitted s o k =
      by_test (λ (h : Handled). IsSteady h.impl) (not o.succeeded) (λ h. k)
        (λ h.
          by_test (λ (h : Handled). IsSteady h.impl) o.restored_hardware_flow (λ y. k)
            (λ n.
              by_test (λ (h : Handled). IsSteady h.impl)
                (emitted
                  && should_auto_stop_on_root_return o.impl s.decode_result.kind s.call_depth)
                (λ y.
                  rotate_or_stop-IsSteady (rotate_queued_trigger_trace machine o.impl o.context)
                    (rotate-IsSteady o.impl o.context k))
                (λ n.
                  by_test (λ (h : Handled). IsSteady h.impl)
                    (not (o.impl.options.max_events == 0)
                      && leb o.impl.options.max_events o.impl.event_count)
                    (λ y. k) (λ n. k))))
