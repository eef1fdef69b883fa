-- ===== src/Probe/Local.antt =====
-- `HandleActiveProbeSingleStep` of src/core/observer/VDTraceObserver.cpp: one step of the session that
-- a probe has started, up to its end.
use vd_trace.Base.{
  ℕ, ◌+◌, ◌-◌, ◌%◌, Bool, true, false, not, ◌&&◌, ◌||◌, List, [], ◌∷◌, Option, none, some, ◌==◌,
  if◌then◌else◌, u64_mod,
}
use vd_trace.Session.{
  EventKind, return, kind_eq, InstructionDecodeResult, ActiveProbeSession, ActiveProbeWatchState,
  is_write_trace, is_single_step_mode, ProbeCapture, StepEvent, no_event, idle, Impl,
}
use vd_trace.Regions.{find_module_range}
use vd_trace.Hardware.{Context}
use vd_trace.Hardware.Transition.{next64}
use vd_trace.Runtime.{
  Machine, count_event, emit_event, in_module, reset_active_probe_session,
  snapshot_execution_summary,
}
use vd_trace.Probe.{snapshot_watches, exits_by_kind}
use vd_trace.TrapWindow.{restore_hardware_flow_after_trap_window}

-- The arguments of the function but the session and its context; `actual_target` is none where
-- `has_actual_target` is false.
pub record ProbeStep : Type 0 where
  pub executed_rip : ℕ
  pub current_rip : ℕ
  pub decode_result : InstructionDecodeResult
  pub call_depth : ℕ
  pub actual_target : Option ℕ

-- What it returns, and the out-parameter.
pub record ProbeOutcome : Type 0 where
  pub succeeded : Bool
  pub restored_hardware_flow : Bool
  pub impl : Impl
  pub context : Context

abbrev pub goes_on : Impl → Context → ProbeOutcome
goes_on impl context = record {
  succeeded = true;
  restored_hardware_flow = false;
  impl = impl;
  context = context;
}

abbrev pub has_captures : List ProbeCapture → Bool
has_captures [] = false
has_captures (c ∷ cs) = true

abbrev has_some : Option ℕ → Bool
has_some none = false
has_some (some a) = true

abbrev or_zero : Option ℕ → ℕ
or_zero none = 0
or_zero (some a) = a

abbrev pub has_step_limit : ActiveProbeSession → Bool
has_step_limit session = is_single_step_mode session.mode || is_write_trace session.mode

-- A step is counted where the mode has a limit.
unfoldable pub count_down : ActiveProbeSession → ActiveProbeSession
count_down session = record session {
  remaining_steps =
      if has_step_limit session && not (session.remaining_steps == 0)
      then session.remaining_steps - 1
      else session.remaining_steps;
}

unfoldable pub should_exit : ActiveProbeSession → ProbeStep → Bool
should_exit session s =
    (has_step_limit session && session.remaining_steps == 0)
    || exits_by_kind session.exit_kind session s.decode_result.kind s.call_depth s.current_rip

-- Before its first instruction has been executed, a session waits.
unfoldable pub awaits_entry : ActiveProbeSession → ProbeStep → Bool
awaits_entry session s =
    not (session.pending_entry == 0) && not (s.executed_rip == session.pending_entry)

abbrev pub enter_session : Impl → List ActiveProbeWatchState → Impl
enter_session impl watches =
    let session = record impl.active_probe { pending_entry = 0; watches = watches } in
    record impl { active_probe = session }

module _ (machine : Machine) where
  unfoldable pub probe_step_event : Impl → ProbeStep → List ProbeCapture → Context → StepEvent
  probe_step_event impl s captures context =
      let returns = kind_eq s.decode_result.kind return in
      in_module (find_module_range impl.module_ranges s.executed_rip) (record no_event {
        sequence = next64 impl.event_count;
        thread_id = machine.current_thread_id;
        instruction = s.executed_rip;
        stack_pointer = context.rsp;
        block_begin = s.executed_rip;
        block_end = (s.executed_rip + s.decode_result.size) % u64_mod;
        call_depth = s.call_depth;
        kind = EventKind.probe;
        instruction_size = s.decode_result.size;
        instruction_bytes = s.decode_result.bytes;
        has_target = has_some s.actual_target;
        target = or_zero s.actual_target;
        has_return_value = returns;
        return_value = if returns then context.rax else 0;
        probe_captures = captures;
      })

  -- On what the way back returns.
  unfoldable pub leave_window : Bool × Impl × Context → ProbeOutcome
  leave_window (true, s, c) = record (goes_on s c) { restored_hardware_flow = true }
  leave_window (false, s, c) =
      record (goes_on
        (record (snapshot_execution_summary s) { running = false; observation_state = idle }) c) {
          succeeded = false;
        }

  -- The end of a session.
  unfoldable pub exit_session : Impl → ProbeStep → Context → ProbeOutcome
  unfolding leave_window
  exit_session impl s context =
      if not impl.active_probe.restore_hardware_backend
      then goes_on (reset_active_probe_session impl) context
      else leave_window (restore_hardware_flow_after_trap_window machine impl s.current_rip context)

  unfoldable pub finish_probe_step : Impl → ProbeStep → Context → ProbeOutcome
  unfolding exit_session
  finish_probe_step impl s context =
      let session = count_down impl.active_probe in
      let counted = record impl { active_probe = session } in
      if should_exit session s then exit_session counted s context else goes_on counted context

  -- On the captures of the watches that changed, and the watches with what they are now.
  unfoldable pub emit_probe_step :
      List ProbeCapture × List ActiveProbeWatchState → Impl → ProbeStep → Context → ProbeOutcome
  unfolding finish_probe_step
  emit_probe_step (captures, watches) impl s context =
      let entered = enter_session impl watches in
      if is_single_step_mode impl.active_probe.mode || has_captures captures
      then finish_probe_step
          (emit_event (count_event entered) (probe_step_event entered s captures context)) s context
      else finish_probe_step entered s context

  unfoldable pub handle_active_probe_single_step : Impl → ProbeStep → Context → ProbeOutcome
  unfolding emit_probe_step
  handle_active_probe_single_step impl s context =
      let session = impl.active_probe in
      if not session.active || awaits_entry session s
      then goes_on impl context
      else if is_write_trace session.mode
      then emit_probe_step (snapshot_watches machine session.watches) impl s context
      else emit_probe_step ([], session.watches) impl s context
