-- ===== src/TrapWindow.antt =====
-- src/core/runtime/VDTraceExecutionMode.cpp, with `BeginHardwareLinearScan` of
-- src/core/hardware/VDTraceHardwareFallback.cpp: the windows in which the hardware backend steps
-- through a region by the trap flag, and the way back. The handlers always have a context; the
-- branches for the start of a session, which has none, set the state of another thread through
-- Windows and are left out.
use vd_trace.Base.{
  ℕ, Bool, true, false, not, ◌||◌, List, [], ◌∷◌, Option, none, some, ◌==◌, if◌then◌else◌,
}
use vd_trace.Session.{
  ModuleRange, ResolvedDepthFilterModuleRule, ProbeMode, ProbeExitKind, ActiveProbeSession,
  no_probe_session, hardware_flow, trap_flag_context, idle, linear_scan, waiting_for_hot_return,
  no_block, Impl,
}
use vd_trace.Regions.{MemoryInformation, find_module_range, find_depth_filter_module_rule}
use vd_trace.Regions.Policy.{ExecutionMode, resolve_execution_mode_for_address, is_trap_flag}
use vd_trace.Hardware.{
  Context, no_addresses, apply_hardware_context_observations, clear_pending_resolution,
}
use vd_trace.Hardware.Program.{Planned, program_hardware_observation}
use vd_trace.Runtime.{
  Machine, clear_pending_async_handoff, reset_active_probe_session, arm_single_step,
}

-- How a call that may switch the backend ends: `return false`, or `return true` with `activated`
-- false or true.
pub data Activation : Type 0 where
  failed skipped : Impl → Activation
  activated : Impl → Context → Activation

abbrev sized : ℕ × ℕ → Option (ℕ × ℕ)
sized (base, size) = if size == 0 then none else some (base, size)

abbrev sized_range : ModuleRange → Option (ℕ × ℕ)
sized_range r = sized (r.base, r.size)

abbrev pub begin_hardware_linear_scan : Impl → ℕ → Context → Impl × Context
begin_hardware_linear_scan impl entry context = (
  record impl { observation_state = linear_scan; last_rip = entry; last_rip_valid = true },
  arm_single_step context,
)

unfoldable pub activate_trap_window : Impl → ActiveProbeSession → ℕ → Context → Impl × Context
activate_trap_window impl session entry context = (
  clear_pending_async_handoff (
      clear_pending_resolution (record impl {
        active_probe = session;
        backend_mode = trap_flag_context;
        observation_state = idle;
        pending_block = no_block;
        observed_addresses = no_addresses;
        observed_count = 0;
        last_rip = entry;
        last_rip_valid = true;
      })),
  arm_single_step context,
)

-- On the tops of the two stacks: the address to wait for, if any.
unfoldable pub return_only_address : List ℕ → List Bool → ℕ → Option ℕ
return_only_address (resume_address ∷ rest) (true ∷ suppressed) current_rip =
    if resume_address == 0 || current_rip == resume_address then none else some resume_address
return_only_address _ _ current_rip = none

unfoldable pub arm_return_only_resume : Impl → ℕ → Context → Impl × Context
arm_return_only_resume impl resume_address context =
    let addresses = resume_address ∷ 0 ∷ 0 ∷ 0 ∷ [] in
    (
      clear_pending_async_handoff (
          clear_pending_resolution (record impl {
            pending_block = no_block;
            observed_addresses = addresses;
            observed_count = 1;
            observation_state = waiting_for_hot_return;
            hot_bypass_resume = 0;
            hot_bypass_return = resume_address;
            hot_bypass_call_depth = impl.current_call_depth;
            hot_bypass_root_stop = false;
            last_rip = 0;
            last_rip_valid = false;
          })),
      apply_hardware_context_observations context addresses 1 false,
    )

abbrev region_range : Option MemoryInformation → Option (ℕ × ℕ)
region_range none = none
region_range (some mbi) = sized (mbi.base_address, mbi.region_size)

-- The image that holds the address, and then its region of memory.
range_by_query : Option (ℕ × ℕ) → Option MemoryInformation → Option (ℕ × ℕ)
range_by_query none mbi = region_range mbi
range_by_query (some (base, size)) mbi = if size == 0 then region_range mbi else some (base, size)

abbrev pub or_context : Option Context → Context → Context
or_context none d = d
or_context (some c) d = c

-- A plan that fails leaves the context alone; a scan of the instructions takes its place.
unfoldable pub program_or_scan : Planned → ℕ → Context → Impl × Context
program_or_scan planned entry context = elim planned.error [
  | some e ↦ begin_hardware_linear_scan planned.impl entry context
  | none ↦ (planned.impl, or_context planned.context context)
]

module _ (machine : Machine) where
  range_by_module : Option ResolvedDepthFilterModuleRule → Option ModuleRange → ℕ → Option (ℕ × ℕ)
  unfolding range_by_query
  range_by_module (some rule) tracked address = sized_range rule.range
  range_by_module none (some tracked) address = sized_range tracked
  range_by_module none none address =
      range_by_query (machine.module_of_address address) (machine.virtual_query address)

  unfoldable pub resolve_trap_window_range : Impl → ℕ → Option (ℕ × ℕ)
  unfolding range_by_module
  resolve_trap_window_range impl address =
      if address == 0
      then none
      else range_by_module (find_depth_filter_module_rule impl.depth_filters address)
          (find_module_range impl.module_ranges address) address

  -- On the range of the window, where the address asks for one.
  unfoldable pub open_filter_window : Option (ℕ × ℕ) → Impl → ℕ → Context → Activation
  unfolding activate_trap_window
  open_filter_window none impl instruction context = failed impl
  open_filter_window (some (base, size)) impl instruction context =
      let session = record no_probe_session {
        active = true;
        restore_hardware_backend = true;
        mode = ProbeMode.filter_trace;
        exit_kind = ProbeExitKind.leave_region;
        start_call_depth = impl.current_call_depth;
        pending_entry = instruction;
        region_base = base;
        region_size = size;
      } in
      let (s, c) = activate_trap_window impl session instruction context in activated s c

  unfoldable pub filter_window_by_mode : ExecutionMode → Impl → ℕ → Context → Activation
  unfolding open_filter_window
  filter_window_by_mode mode impl instruction context =
      if not mode.has_mode || mode.is_system_target || not (is_trap_flag mode.mode)
      then skipped impl
      else open_filter_window (resolve_trap_window_range impl instruction) impl instruction context

  unfoldable pub try_activate_filter_trap_session : Impl → ℕ → Context → Activation
  unfolding filter_window_by_mode
  try_activate_filter_trap_session impl instruction context =
      let (mode, cache) =
        resolve_execution_mode_for_address machine.virtual_query impl impl.region_cache
          instruction in
      if not impl.options.control_flow_only || impl.active_probe.active
      then skipped impl
      else filter_window_by_mode mode (record impl { region_cache = cache }) instruction context

  unfoldable pub observe_from : Impl → ℕ → Context → Impl × Context
  unfolding program_or_scan
  observe_from impl entry context =
      program_or_scan
        (program_hardware_observation machine.virtual_query machine.decode_instruction impl entry
          (some context))
        entry context

  -- The first component is what the source returns.
  unfoldable pub start_by_activation : Activation → ℕ → Context → Bool × Impl × Context
  unfolding observe_from
  start_by_activation (failed s) entry context = (false, s, context)
  start_by_activation (activated s c) entry context = (true, s, c)
  start_by_activation (skipped s) entry context =
      let (t, c) = observe_from s entry context in (true, t, c)

  unfoldable pub start_region_aware_hardware_flow : Impl → ℕ → Context → Bool × Impl × Context
  unfolding start_by_activation
  start_region_aware_hardware_flow impl entry context =
      start_by_activation (try_activate_filter_trap_session impl entry context) entry context

  -- On the address to wait for.
  unfoldable pub restore_by_resume : Option ℕ → Impl → ℕ → Context → Bool × Impl × Context
  restore_by_resume (some resume_address) impl current_rip context =
      let (s, c) = arm_return_only_resume impl resume_address context in
      (true, record (reset_active_probe_session s) { trap_suppression_stack = [] }, c)
  restore_by_resume none impl current_rip context =
      start_region_aware_hardware_flow
        (record (reset_active_probe_session impl) { trap_suppression_stack = [] }) current_rip
        context

  unfoldable pub restore_hardware_flow_after_trap_window :
      Impl → ℕ → Context → Bool × Impl × Context
  unfolding restore_by_resume
  restore_hardware_flow_after_trap_window impl current_rip context =
      restore_by_resume
        (return_only_address impl.call_return_stack impl.trap_suppression_stack current_rip)
        (record impl { backend_mode = hardware_flow }) current_rip context
