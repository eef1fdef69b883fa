-- ===== src/TrapFlag/Handler.antt =====
-- `HandleTrapFlagTraceException` of src/core/decoder/VDTraceDecoder.cpp, with `ShouldEmitEvent` and
-- `ShouldEmitTrapFlagEvent`: one step of the traced thread under the trap flag.
use vd_trace.Base.{
  ℕ, ◌+◌, ◌%◌, Bool, true, false, not, ◌&&◌, ◌||◌, [], Option, none, some, leb, ◌==◌, if◌then◌else◌,
  u64_mod,
}
use vd_trace.Session.{
  call, return, kind_eq, ModuleRange, InstructionDecodeResult, ExecutionAddressKind, outside_image,
  anonymous_executable, tracked_module, ResolvedExecutionAddress, EnhancedSamplingFrame,
  ActiveProbeSession, ProbeMode, StepEvent, no_event, Impl,
}
use vd_trace.Regions.{resolve_execution_address}
use vd_trace.Regions.Policy.{trap_flag_frame_suppressed}
use vd_trace.Hardware.{Context, set_trap_flag, clear_trap_flag, is_hardware_terminator}
use vd_trace.Hardware.Transition.{
  next64, refresh_current_call_depth, should_auto_stop_on_root_return,
}
use vd_trace.Hardware.Exception.{exception_single_step}
use vd_trace.Runtime.{
  Machine, Handled, resume, pass_on, count_event, emit_event, in_module, snapshot_execution_summary,
}
use vd_trace.Runtime.Handoff.{try_activate_async_thread_handoff}
use vd_trace.Runtime.Rotation.{rotate_queued_trigger_trace}
use vd_trace.Probe.{local_probe_session, try_emit_value_probe_event}
use vd_trace.Probe.Local.{ProbeStep, ProbeOutcome, handle_active_probe_single_step}
use vd_trace.TrapFlag.{finish_trap_flag_step}

-- `context->EFlags |= 0x100u` and `&= ~0x100u`
abbrev pub set_step : Context → Context
set_step context = record context { e_flags = set_trap_flag context.e_flags }

abbrev pub clear_step : Context → Context
clear_step context = record context { e_flags = clear_trap_flag context.e_flags }

-- The kinds that `ShouldEmitEvent` lists are those that end a basic block.
unfoldable pub should_emit_event : Impl → InstructionDecodeResult → Bool
unfolding is_hardware_terminator
should_emit_event impl decode_result =
    not impl.options.control_flow_only || is_hardware_terminator decode_result.kind

abbrev is_filter_trace : ProbeMode → Bool
is_filter_trace ProbeMode.filter_trace = true
is_filter_trace _ = false

unfoldable pub should_emit_trap_flag_event : Impl → InstructionDecodeResult → Bool
unfolding should_emit_event
should_emit_trap_flag_event impl decode_result =
    (impl.active_probe.active && is_filter_trace impl.active_probe.mode)
    || should_emit_event impl decode_result

-- `actual_target`, where there is one.
unfoldable pub actual_target_of : InstructionDecodeResult → ℕ → ℕ → Option ℕ
actual_target_of d executed_rip current_rip =
    if d.has_target
    then some d.target
    else if kind_eq d.kind call && not (current_rip == (executed_rip + d.size) % u64_mod)
    then some current_rip
    else if kind_eq d.kind return && not (current_rip == 0)
    then some current_rip
    else none

-- `range`, and whether the address is recorded.
abbrev pub range_of : ExecutionAddressKind → Option ModuleRange → Option ModuleRange
range_of tracked_module r = r
range_of _ r = none

abbrev pub is_outside_recordable : Impl → ExecutionAddressKind → Bool
is_outside_recordable impl anonymous_executable = true
is_outside_recordable impl outside_image = impl.options.trace_outside_modules
is_outside_recordable impl _ = false

abbrev pub has_range : Option ModuleRange → Bool
has_range none = false
has_range (some r) = true

abbrev has_some : Option ℕ → Bool
has_some none = false
has_some (some a) = true

abbrev pub or_zero : Option ℕ → ℕ
or_zero none = 0
or_zero (some a) = a

abbrev pub no_frame : EnhancedSamplingFrame
no_frame = record { active = false; argument_count = 0; arguments = [] }

-- The end of a session under the trap flag.
unfoldable pub stop_stepping : Impl → Context → Handled
stop_stepping impl context =
    resume (record (snapshot_execution_summary impl) { running = false; last_rip_valid = false })
      (clear_step context)

module _ (machine : Machine) where
  unfoldable pub trap_flag_event : Impl → ProbeStep → Option ModuleRange → Context → StepEvent
  trap_flag_event impl s range context =
      let kind = s.decode_result.kind in
      let calls = kind_eq kind call && has_some s.actual_target in
      in_module range (record no_event {
        sequence = next64 impl.event_count;
        thread_id = machine.current_thread_id;
        instruction = s.executed_rip;
        stack_pointer = context.rsp;
        block_begin = s.executed_rip;
        block_end = (s.executed_rip + s.decode_result.size) % u64_mod;
        call_depth = s.call_depth;
        kind = kind;
        instruction_size = s.decode_result.size;
        instruction_bytes = s.decode_result.bytes;
        has_target = has_some s.actual_target;
        target = or_zero s.actual_target;
        call_arguments = if calls then machine.call_arguments context else [];
        has_return_value = kind_eq kind return;
        return_value = if kind_eq kind return then context.rax else 0;
      })

  -- On what `RotateQueuedTriggerTrace` returns at the root.
  unfoldable pub rotate_or_stop : Bool × Impl × Context → Handled
  unfolding stop_stepping
  rotate_or_stop (true, impl, context) = resume (record impl { last_rip_valid = false }) context
  rotate_or_stop (false, impl, context) = stop_stepping impl context

  -- Behind the step of the probe's session.
  unfoldable pub finish_step : Bool → ProbeStep → ProbeOutcome → Handled
  unfolding rotate_or_stop
  finish_step emitted s o =
      let impl = o.impl in
      if not o.succeeded
      then resume (record impl { last_rip_valid = false }) (clear_step o.context)
      else if o.restored_hardware_flow
      then resume (record impl { last_rip_valid = false }) o.context
      else if emitted && should_auto_stop_on_root_return impl s.decode_result.kind s.call_depth
      then rotate_or_stop (rotate_queued_trigger_trace machine impl o.context)
      else if not (impl.options.max_events == 0) && leb impl.options.max_events impl.event_count
      then stop_stepping impl o.context
      else resume impl (set_step o.context)

  -- The stack of calls and the session of a probe.
  unfoldable pub update_step : Bool → EnhancedSamplingFrame → Impl → ProbeStep → Context → Handled
  unfolding finish_step
  update_step emitted frame impl s context = finish_step emitted s (
      handle_active_probe_single_step machine
        (finish_trap_flag_step machine.virtual_query impl s.decode_result s.executed_rip
          s.current_rip s.call_depth s.actual_target frame)
        s context)

  -- On what `TryActivateAsyncThreadHandoff` returns behind the event of a call.
  unfoldable pub switch_or_update :
      EnhancedSamplingFrame → ProbeStep → Bool × Impl × Context → Handled
  unfolding update_step
  switch_or_update frame s (true, impl, context) = resume impl context
  switch_or_update frame s (false, impl, context) = update_step true frame impl s context

  unfoldable pub emit_step : Impl → ProbeStep → Option ModuleRange → Context → Handled
  unfolding switch_or_update
  emit_step impl s range context =
      let event = trap_flag_event impl s range context in
      let calls = kind_eq s.decode_result.kind call in
      let emitted = emit_event (count_event impl) event in
      let frame =
        if calls && has_some s.actual_target then machine.sample_call impl event else no_frame in
      if calls
      then switch_or_update frame s (
          try_activate_async_thread_handoff machine emitted (or_zero s.actual_target) event context)
      else update_step true frame emitted s context

  unfoldable pub decide_step : ResolvedExecutionAddress → Impl → ProbeStep → Context → Handled
  unfolding emit_step
  decide_step resolved impl s context =
      let range = range_of resolved.kind resolved.module_range in
      if (has_range range || is_outside_recordable impl resolved.kind)
        && should_emit_trap_flag_event impl s.decode_result
        && not (trap_flag_frame_suppressed impl)
      then emit_step impl s range context
      else update_step false no_frame impl s context

  abbrev pub with_session : Option ActiveProbeSession → Impl → Impl
  with_session none impl = impl
  with_session (some session) impl = record impl { active_probe = session }

  -- The session when the instruction that was executed is decoded.
  unfoldable pub begin_step : Impl → ℕ → Context → Impl
  begin_step impl current_rip context =
      let probed =
        try_emit_value_probe_event machine
          (record impl { last_rip = current_rip; last_rip_valid = true }) current_rip context in
      let local = with_session (local_probe_session machine probed current_rip false) probed in
      record local { step_count = next64 local.step_count }

  unfoldable pub step_of : Impl → ℕ → ℕ → ProbeStep
  step_of impl executed_rip current_rip =
      let decode = machine.decode_instruction executed_rip in
      record {
        executed_rip = executed_rip;
        current_rip = current_rip;
        decode_result = decode;
        call_depth = impl.current_call_depth;
        actual_target = actual_target_of decode executed_rip current_rip;
      }

  unfoldable pub trace_step : Impl → ℕ → ℕ → Context → Handled
  unfolding decide_step begin_step step_of
  trace_step impl executed_rip current_rip context =
      let begun = begin_step impl current_rip context in
      let (resolved, cache) =
        resolve_execution_address machine.virtual_query begun begun.region_cache executed_rip in
      decide_step resolved (record begun { region_cache = cache })
        (step_of begun executed_rip current_rip) context

  -- A stop that another thread has asked for.
  unfoldable pub stop_on_request : Impl → Context → Handled
  stop_on_request impl context =
      resume
        (refresh_current_call_depth
          (record (snapshot_execution_summary (record impl { stop_requested = false })) {
            running = false;
            last_rip = 0;
            last_rip_valid = false;
            call_return_stack = [];
            trap_suppression_stack = [];
          }))
        (clear_step context)

  unfoldable pub handle_trap_flag_trace_exception : ℕ → Impl → Context → Handled
  unfolding trace_step stop_on_request
  handle_trap_flag_trace_exception exception_code impl context =
      if not (exception_code == exception_single_step)
      then pass_on impl context
      else if impl.stop_requested
      then stop_on_request impl context
      else if not impl.running
      then pass_on impl context
      else trace_step impl (if impl.last_rip_valid then impl.last_rip else context.rip) context.rip
          context
