-- ===== src/Trigger.antt =====
-- `TryConsumeStaleSingleStep` and `HandleTriggerWaitException` of
-- src/core/trigger/VDTraceTriggerWait.cpp, `TryFindInsideReturnAddress` of
-- src/core/threading/VDTraceThreadContext.cpp, and the end of `Session::Impl::HandleException` of
-- src/core/decoder/VDTraceDecoder.cpp, which a session's own thread reaches. The exception always
-- comes with its record and its context.
pub mod Waiting
pub mod Search
use Prim.Native.Nat.{bit_or}
use vd_trace.Base.{
  ℕ, zero, suc, ◌+◌, ◌*◌, ◌%◌, Bool, true, false, not, ◌&&◌, ◌||◌, [], ◌∷◌, Option, none, some,
  ◌==◌, if◌then◌else◌, u64_mod,
}
use vd_trace.Session.{ModuleRange, BackendMode, hardware_flow, trap_flag_context, idle, Impl}
use vd_trace.Regions.{find_module_range}
use vd_trace.Hardware.{Context, control_and_debug, apply_hardware_context_observations}
use vd_trace.Hardware.Transition.{next64}
use vd_trace.Hardware.Exception.{exception_single_step, handle_hardware_flow_exception}
use vd_trace.Runtime.{Machine, Handled, resume, pass_on, snapshot_execution_summary}
use vd_trace.Probe.{try_emit_value_probe_event}
use vd_trace.TrapWindow.{start_region_aware_hardware_flow}
use vd_trace.TrapFlag.Handler.{set_step, handle_trap_flag_trace_exception}

abbrev pub clear_debug_controls : Context → Context
clear_debug_controls context = record context {
  context_flags = bit_or context.context_flags control_and_debug;
  dr0 = 0;
  dr1 = 0;
  dr2 = 0;
  dr3 = 0;
  dr6 = 0;
  dr7 = 0;
}

abbrev pub is_tracked : Option ModuleRange → Bool
is_tracked none = false
is_tracked (some r) = true

abbrev pub stale_impl : Impl → Impl
stale_impl impl = record impl {
  observation_state = idle;
  waiting_for_trigger = false;
  last_rip_valid = false;
}

-- On a `candidate` that was read: whether the search ends with it.
abbrev pub inside_candidate : Impl → Option ℕ → Option ℕ
inside_candidate impl none = none
inside_candidate impl (some candidate) =
    if is_tracked (find_module_range impl.module_ranges candidate) then some candidate else none

abbrev pub or_later : Option ℕ → Option ℕ → Option ℕ
or_later none later = later
or_later (some candidate) later = some candidate

-- The branch of `HandleTriggerWaitException` that moves the trigger to an address in a module.
unfoldable pub move_trigger : Impl → ℕ → Context → Handled
move_trigger impl inside_resume context =
    let addresses = inside_resume ∷ 0 ∷ 0 ∷ 0 ∷ [] in
    resume
      (record impl {
        waiting_for_trigger = true;
        resolved_trigger_address = inside_resume;
        observed_addresses = addresses;
        observed_count = 1;
      })
      (apply_hardware_context_observations context addresses 1 false)

-- On what `StartRegionAwareHardwareFlow` returns.
unfoldable pub after_start : Bool × Impl × Context → Handled
after_start (true, impl, context) = resume impl context
after_start (false, impl, context) =
    resume (record (snapshot_execution_summary impl) { running = false; observation_state = idle })
      (clear_debug_controls context)

module _ (machine : Machine) where
  -- What the slot at `index` holds, where it is an address in a module.
  unfoldable pub inside_slot : Impl → ℕ → ℕ → Option ℕ
  inside_slot impl stack_pointer index =
      inside_candidate impl (machine.read_pointer ((stack_pointer + index * 8) % u64_mod))

  -- The loop of `TryFindInsideReturnAddress` from `index` on over the slots that are left.
  unfoldable pub find_inside : Impl → ℕ → ℕ → ℕ → Option ℕ
  unfolding inside_slot
  find_inside impl stack_pointer index zero = none
  find_inside impl stack_pointer index (suc left) =
      or_later (inside_slot impl stack_pointer index)
        (find_inside impl stack_pointer (index + 1) left)

  unfoldable pub try_find_inside_return_address : Impl → ℕ → Option ℕ
  unfolding find_inside
  try_find_inside_return_address impl stack_pointer =
      if stack_pointer == 0 then none else find_inside impl stack_pointer 0 64

  -- The root of the trace, where the trigger is hit.
  unfoldable pub begin_trace : Impl → ℕ → Context → Impl
  begin_trace impl current_rip context =
      try_emit_value_probe_event machine
        (record impl {
          step_count = next64 impl.step_count;
          waiting_for_trigger = false;
          root_stop_armed = impl.options.stop_on_root_return || not (impl.call_depth_offset == 0);
          root_call_depth_base = impl.current_call_depth;
        })
        current_rip context

  unfoldable pub start_backend : BackendMode → Impl → ℕ → Context → Handled
  unfolding after_start
  start_backend hardware_flow impl current_rip context =
      after_start (start_region_aware_hardware_flow machine impl current_rip context)
  start_backend trap_flag_context impl current_rip context =
      resume (record impl { last_rip = current_rip; last_rip_valid = true })
        (set_step (clear_debug_controls context))

  unfoldable pub hit_trigger : Impl → ℕ → Context → Handled
  unfolding start_backend begin_trace
  hit_trigger impl current_rip context =
      let begun = begin_trace impl current_rip context in
      start_backend begun.backend_mode begun current_rip context

  -- On `inside_resume`, where one is found.
  unfoldable pub move_or_hit : Option ℕ → Impl → ℕ → Context → Handled
  unfolding hit_trigger move_trigger
  move_or_hit none impl current_rip context = hit_trigger impl current_rip context
  move_or_hit (some inside_resume) impl current_rip context =
      if not (inside_resume == 0) && not (inside_resume == current_rip)
      then move_trigger impl inside_resume context
      else hit_trigger impl current_rip context

  unfoldable pub handle_trigger_wait_exception : ℕ → Impl → Context → Handled
  unfolding move_or_hit
  handle_trigger_wait_exception exception_code impl context =
      if not (exception_code == exception_single_step)
      then pass_on impl context
      else if not (context.rip == impl.resolved_trigger_address)
      then pass_on impl context
      else if not impl.options.trace_outside_modules
          && not (is_tracked (find_module_range impl.module_ranges context.rip))
      then move_or_hit (try_find_inside_return_address impl context.rsp) impl context.rip context
      else hit_trigger impl context.rip context

  unfoldable pub by_backend : BackendMode → ℕ → Impl → Context → Handled
  by_backend hardware_flow exception_code impl context =
      handle_hardware_flow_exception machine exception_code impl context
  by_backend trap_flag_context exception_code impl context =
      handle_trap_flag_trace_exception machine exception_code impl context

  -- `HandleException` behind its tests on the thread; a step that comes after the end of the
  -- session is the branch of `TryConsumeStaleSingleStep`.
  unfoldable pub handle_own_exception : ℕ → Impl → Context → Handled
  unfolding handle_trigger_wait_exception by_backend
  handle_own_exception exception_code impl context =
      if not impl.running && exception_code == exception_single_step
      then resume (stale_impl impl) (clear_debug_controls context)
      else if impl.waiting_for_trigger
      then handle_trigger_wait_exception exception_code impl context
      else by_backend impl.backend_mode exception_code impl context
