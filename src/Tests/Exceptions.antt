-- ===== src/Tests/Exceptions.antt =====
-- The theorems on the exception handlers at concrete sessions.
use vd_trace.Base.{All, ℕ, ◌+◌, List, none, arith, ◌≡◌, refl, true, false, [], ◌∷◌}
use vd_trace.Session.{
  ProbeMode, no_probe_session, trap_flag_context, other, return, jump, waiting_for_destination,
  waiting_for_single_step, Impl,
}
use vd_trace.Hardware.Transition.{
  should_auto_stop_on_root_return, should_emit_transition, update_call_stack_for_transition,
  try_pop_call_frame, contains_edge,
}
use vd_trace.Hardware.Transition.Finalize.{
  transition_event, finalize_hardware_transition, finish_transition,
}
use vd_trace.Hardware.Transition.Finalize.Ending.{is_hot}
use vd_trace.Hardware.Transition.Finalize.Reported.{root_stop-reports_retained}
use vd_trace.Hardware.Exception.{exception_single_step, handle_hardware_flow_exception}
use vd_trace.Hardware.Exception.Controlled.{Settles}
use vd_trace.Hardware.Exception.Settled.{handle-Settles}
use vd_trace.Hardware.Exception.Bypass.{single_step-drops_bypass}
use vd_trace.Runtime.{in_module, reported_event_count}
use vd_trace.Regions.{
  resolve_execution_address, find_module_range, upper_bound_prev, find_depth_filter_module_rule,
}
use vd_trace.Runtime.Rotation.{rotate_queued_trigger_trace}
use vd_trace.Probe.Local.{ProbeStep}
use vd_trace.Probe.Countdown.{ends_within, probe-ends_within}
use vd_trace.TrapFlag.Handler.{handle_trap_flag_trace_exception}
use vd_trace.TrapFlag.Stepping.{StepEnds, trap_flag-StepEnds}
use vd_trace.TrapFlag.Stack.{StacksAgree}
use vd_trace.TrapFlag.Steady.Exceptions.{after_exceptions, after_exceptions-StacksAgree}
use vd_trace.Regions.Policy.{trap_flag_frame_suppressed}
use vd_trace.Tests.{
  decoded, sample_impl, sample_machine, sample_context, ending_in, jump_from, Context,
}

-- A session that waits for the target 0x1000 of a jump.
abbrev at_target : Impl
at_target = record sample_impl {
  observation_state = waiting_for_destination;
  pending_block = ending_in jump 0x1800 0x1000;
  observed_addresses = 0x1000 ∷ 0 ∷ 0 ∷ 0 ∷ [];
  observed_count = 1;
}

handle-Settles_example :
    Settles sample_context
      (handle_hardware_flow_exception sample_machine exception_single_step at_target sample_context)
handle-Settles_example =
    handle-Settles sample_machine exception_single_step at_target sample_context

-- A session that has stepped over a jump that it has seen twice before, with a threshold of 3.
abbrev over_jump : Impl
over_jump = record sample_impl {
  observation_state = waiting_for_single_step;
  pending_block = ending_in jump 0x1800 0;
  seen_edges = jump_from 0x1800 0x1000 ∷ [];
  call_return_stack = 0x1900 ∷ [];
  suppressed_hot_anchor = 0x1900;
  suppressed_transition_streak = 2;
}

single_step-drops_bypass_example :
    is_hot
      (handle_hardware_flow_exception sample_machine exception_single_step over_jump
        sample_context).impl.observation_state
    ≡ false
single_step-drops_bypass_example =
    single_step-drops_bypass sample_machine exception_single_step over_jump sample_context refl

-- A session that returns from its root call.
abbrev at_root : Impl
at_root = record at_target { pending_block = ending_in return 0x1800 0; root_stop_armed = true }

at_root_stops :
    (finalize_hardware_transition sample_machine at_root 0x1000 sample_context false).continues
    ≡ false
unfolding finalize_hardware_transition should_emit_transition resolve_execution_address
    find_module_range upper_bound_prev find_depth_filter_module_rule contains_edge transition_event
    in_module finish_transition should_auto_stop_on_root_return update_call_stack_for_transition
    try_pop_call_frame rotate_queued_trigger_trace
at_root_stops = refl

root_stop-reports_retained_example :
    let f = finalize_hardware_transition sample_machine at_root 0x1000 sample_context false in
    (f.impl.running ≡ false) × (reported_event_count f.impl ≡ 0)
root_stop-reports_retained_example =
    root_stop-reports_retained sample_machine at_root 0x1000 sample_context false refl at_root_stops

-- A session under the trap flag that has executed the instruction at 0x1003.
abbrev behind_branch : Impl
behind_branch = record sample_impl {
  backend_mode = trap_flag_context;
  last_rip = 0x1003;
  last_rip_valid = true;
}

trap_flag-StepEnds_example : StepEnds sample_context (
    handle_trap_flag_trace_exception sample_machine exception_single_step behind_branch
      sample_context)
trap_flag-StepEnds_example =
    trap_flag-StepEnds sample_machine exception_single_step behind_branch sample_context

behind_branch-StacksAgree : StacksAgree behind_branch
behind_branch-StacksAgree = record {
  inherited = tt;
  suppressions = refl;
  samples = refl;
  depth = refl;
}

-- Two steps, and an exception that is not one.
abbrev some_exceptions : List (ℕ × Context)
some_exceptions =
    (exception_single_step, sample_context)
    ∷ (0xc0000005, sample_context)
    ∷ (exception_single_step, record sample_context { rip = 0x1100 })
    ∷ []

after_exceptions-StacksAgree_example :
    let r = after_exceptions sample_machine behind_branch some_exceptions in
    StacksAgree r
    × (trap_flag_frame_suppressed r ≡ false → All (λ b. b ≡ false) r.trap_suppression_stack)
after_exceptions-StacksAgree_example =
    after_exceptions-StacksAgree sample_machine behind_branch some_exceptions
      behind_branch-StacksAgree refl refl

-- A session of a probe with two steps left, and two plain instructions.
abbrev two_left : Impl
two_left = record sample_impl {
  backend_mode = trap_flag_context;
  active_probe = record no_probe_session {
    active = true;
    mode = ProbeMode.single_step;
    remaining_steps = 2;
    region_base = 0x1000;
    region_size = 0x100;
  };
}

abbrev plain_step : ℕ → ProbeStep
plain_step rip = record {
  executed_rip = rip;
  current_rip = rip + 3;
  decode_result = decoded other 0 3;
  call_depth = 0;
  actual_target = none;
}

abbrev two_steps : List (ProbeStep × Context)
two_steps = (plain_step 0x1000, sample_context) ∷ (plain_step 0x1003, sample_context) ∷ []

probe-ends_within_example : ends_within sample_machine two_steps two_left ≡ true
probe-ends_within_example =
    probe-ends_within sample_machine two_steps two_left
      (record { active = refl; limited = refl; entered = refl }) (omega arith) (omega arith)
