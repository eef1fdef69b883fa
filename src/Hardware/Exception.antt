-- ===== src/Hardware/Exception.antt =====
-- `HandleHardwareFlowException` of src/core/hardware/VDTraceHardwareException.cpp: what one debug
-- exception of the traced thread does under the hardware backend.
pub mod Controlled
pub mod Ends
pub mod Settled
pub mod Bypass
pub mod Restored
use vd_trace.Base.{
  ℕ, Bool, true, false, not, ◌&&◌, ◌||◌, List, [], ◌∷◌, Option, none, some, ltb, leb, ◌==◌,
  if◌then◌else◌, contains, take,
}
use vd_trace.Session.{
  EventKind, call, kind_eq, InstructionDecodeResult, ActiveProbeSession, ObservationState, idle,
  waiting_for_tail, waiting_for_single_step, linear_scan, waiting_for_hot_return, Impl,
}
use vd_trace.Hardware.{Context, is_hardware_terminator, apply_hardware_context_observations}
use vd_trace.Hardware.Program.{Planned, program_hardware_observation}
use vd_trace.Hardware.Transition.{next64, reset_hot_bypass_state, try_pop_call_frame}
use vd_trace.Hardware.Transition.Finalize.{Finalized, finalize_hardware_transition}
use vd_trace.Runtime.{
  Machine, Handled, resume, pass_on, stop_session, disarm, arm_single_step,
  snapshot_execution_summary,
}
use vd_trace.Runtime.Rotation.{rotate_queued_trigger_trace}
use vd_trace.Probe.{local_probe_session, try_emit_value_probe_event}
use vd_trace.TrapWindow.{
  Activation, failed, skipped, activated, activate_trap_window, try_activate_filter_trap_session,
  observe_from, or_context,
}

-- EXCEPTION_SINGLE_STEP
abbrev pub exception_single_step : ℕ
exception_single_step = 0x80000004

abbrev pub apply_observed : Impl → Context → Context
apply_observed impl context =
    apply_hardware_context_observations context impl.observed_addresses impl.observed_count false

-- The check behind a transition.
unfoldable pub check_max_events : Impl × Context → Handled
check_max_events (impl, context) =
    if not (impl.options.max_events == 0) && leb impl.options.max_events impl.event_count
    then stop_session impl context
    else resume impl context

unfoldable pub hit_hot_resume : Impl → ℕ → Bool
hit_hot_resume impl rip =
    not (impl.hot_bypass_resume == 0)
    && impl.hot_bypass_resume == rip
    && impl.hot_bypass_call_depth == impl.current_call_depth

unfoldable pub hit_hot_return : Impl → ℕ → Bool
hit_hot_return impl rip =
    not (impl.hot_bypass_return == 0)
    && impl.hot_bypass_return == rip
    && impl.hot_bypass_call_depth == impl.current_call_depth

module _ (machine : Machine) where
  -- observation_state == WaitingForTail: the last instruction of the block is stepped over.
  unfoldable pub handle_tail : Impl → Context → Handled
  handle_tail impl context =
      let block = impl.pending_block in
      resume
        (record impl {
          tf_probe_source = block.tail;
          tf_probe_decode = block.tail_decode;
          observation_state = waiting_for_single_step;
          pending_resume_entry_valid =
              kind_eq block.tail_decode.kind call && impl.pending_resume_entry_valid;
        })
        (arm_single_step context)

  -- The end of the wait for a hot return that was hit.
  unfoldable pub finish_hot_return : Bool → Impl → ℕ → Context → Handled
  finish_hot_return stop impl rip context =
      let (rotated, s, c) = rotate_queued_trigger_trace machine impl context in
      let (t, d) = observe_from machine impl rip context in
      if not stop
      then resume t d
      else if rotated
      then resume s c
      else resume (record (snapshot_execution_summary s) { running = false }) (disarm c)

  -- observation_state == WaitingForHotReturn
  unfoldable pub handle_hot_return : Impl → ℕ → Context → Handled
  unfolding finish_hot_return
  handle_hot_return impl rip context =
      let popped = if hit_hot_return impl rip then try_pop_call_frame impl rip else impl in
      if not (hit_hot_resume impl rip) && not (hit_hot_return impl rip)
      then resume impl (apply_observed impl context)
      else finish_hot_return (impl.hot_bypass_root_stop && hit_hot_return impl rip)
          (reset_hot_bypass_state (record popped { observation_state = idle })) rip context

  -- observation_state == LinearScan
  unfoldable pub scan_plan : Planned → Context → Handled
  scan_plan planned context = elim planned.error [
    | some e ↦ stop_session planned.impl context
    | none ↦ resume planned.impl (or_context planned.context context)
  ]

  unfoldable pub handle_linear_scan : Impl → ℕ → Context → Handled
  unfolding scan_plan
  handle_linear_scan impl rip context =
      let decode = machine.decode_instruction rip in
      if decode.size == 0
      then stop_session impl context
      else if is_hardware_terminator decode.kind
      then scan_plan
          (program_hardware_observation machine.virtual_query machine.decode_instruction impl rip
            (some context))
          context
      else resume impl (arm_single_step context)

  -- What `FinalizeHardwareTransition` returns, after a single step.
  unfoldable pub finish_single_step : Finalized → Handled
  finish_single_step f =
      if not f.continues
      then resume f.impl (disarm f.context)
      else if f.context_already_programmed
      then resume f.impl f.context
      else if f.waiting_for_resume
      then resume f.impl (apply_observed f.impl f.context)
      else check_max_events (observe_from machine f.impl f.next_entry f.context)

  -- The same at a destination.
  unfoldable pub finish_by_state : ObservationState → Finalized → Handled
  finish_by_state waiting_for_hot_return f = resume f.impl (apply_observed f.impl f.context)
  finish_by_state _ f = check_max_events (observe_from machine f.impl f.next_entry f.context)

  unfoldable pub finish_destination : Finalized → Handled
  unfolding finish_by_state
  finish_destination f =
      if not f.continues
      then resume f.impl (disarm f.context)
      else if f.context_already_programmed
      then resume f.impl f.context
      else finish_by_state f.impl.observation_state f

  -- The states in which a watched address was hit.
  unfoldable pub handle_matched : ObservationState → Impl → ℕ → Context → Handled
  unfolding handle_tail handle_hot_return finish_destination
  handle_matched waiting_for_hot_return impl rip context = handle_hot_return impl rip context
  handle_matched waiting_for_tail impl rip context = handle_tail impl context
  handle_matched _ impl rip context =
      finish_destination (finalize_hardware_transition machine impl rip context false)

  unfoldable pub handle_by_state : ObservationState → Impl → ℕ → Context → Handled
  unfolding handle_matched handle_linear_scan finish_single_step
  handle_by_state linear_scan impl rip context = handle_linear_scan impl rip context
  handle_by_state waiting_for_single_step impl rip context =
      finish_single_step (finalize_hardware_transition machine impl rip context true)
  handle_by_state state impl rip context =
      if not (contains rip (take impl.observed_count impl.observed_addresses))
      then pass_on impl context
      else handle_matched state impl rip context

  abbrev pub count_step : Impl → Impl
  count_step impl = record impl { step_count = next64 impl.step_count }

  unfoldable pub after_activation : Activation → ℕ → Context → Handled
  unfolding handle_by_state
  after_activation (failed s) rip context = stop_session s context
  after_activation (activated s c) rip context = resume s c
  after_activation (skipped s) rip context =
      let t = try_emit_value_probe_event machine (count_step s) rip context in
      handle_by_state t.observation_state t rip context

  unfoldable pub after_local_probe : Option ActiveProbeSession → Impl → ℕ → Context → Handled
  unfolding after_activation activate_trap_window
  after_local_probe (some session) impl rip context =
      let (s, c) = activate_trap_window impl session rip context in resume s c
  after_local_probe none impl rip context =
      after_activation (try_activate_filter_trap_session machine impl rip context) rip context

  unfoldable pub handle_hardware_flow_exception : ℕ → Impl → Context → Handled
  unfolding after_local_probe
  handle_hardware_flow_exception exception_code impl context =
      if not (exception_code == exception_single_step)
      then pass_on impl context
      else after_local_probe (local_probe_session machine impl context.rip true) impl context.rip
          context
