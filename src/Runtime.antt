-- ===== src/Runtime.antt =====
-- What the two backends share at run time: `SnapshotExecutionSummary`, `ClearExecutionSummary` and
-- `ResetThreadObservationState` of src/core/runtime/VDTraceRuntimeState.cpp, `ResetExecutionState` and
-- `ArmRootStop` of VDTraceRuntimeSupport.cpp, and the events that the callback is given. The record
-- `Machine` holds what lies outside of the model: Windows, the disassembler, and reads of the
-- traced thread's registers and memory.
pub mod Handoff
pub mod Rotation
use vd_trace.Base.{
  ℕ, ◌+◌, ◌-◌, ◌%◌, Bool, true, false, not, ◌&&◌, ◌||◌, List, [], ◌∷◌, Option, none, some, ltb, leb,
  ◌==◌, if◌then◌else◌, u64_mod,
}
use vd_trace.Session.{
  EventKind, call, return, kind_eq, InstructionDecodeResult, ModuleRange, EnhancedSamplingFrame,
  ResolvedValueProbe, no_probe_session, ProbeCapture, StepEvent, no_event, ExecutionSummary, idle,
  no_block, no_decode, Impl,
}
use vd_trace.Regions.{MemoryInformation, find_module_range}
use vd_trace.Hardware.{Context, no_addresses, apply_hardware_context_observations}
use vd_trace.Hardware.Transition.{next64, refresh_current_call_depth}

-- `module_of_address` is `GetModuleHandleExW` with `GetModuleInformation`: the base and the size of
-- the image that holds an address. `read_memory` is `SafeReadMemoryBytes`, `read_pointer` and
-- `read_dword` are the guarded reads of the handoff, and a failed read is none.
-- `arm_trigger_capture_threads` is the search of the process's threads: how many there are and how
-- many were armed.
pub record Machine : Type 0 where
  pub virtual_query : ℕ → Option MemoryInformation
  pub decode_instruction : ℕ → InstructionDecodeResult
  pub module_of_address : ℕ → Option (ℕ × ℕ)
  pub read_memory : ℕ → ℕ → Option (List ℕ)
  pub read_pointer : ℕ → Option ℕ
  pub read_dword : ℕ → Option ℕ
  pub thread_of_handle : ℕ → ℕ
  pub current_thread_id : ℕ
  pub call_arguments : Context → List ℕ
  pub probe_captures : ResolvedValueProbe → Context → List ProbeCapture
  pub sample_call : Impl → StepEvent → EnhancedSamplingFrame
  pub arm_trigger_capture_threads : Impl → Option (ℕ × ℕ)

-- The live counters, as a summary.
abbrev pub live_summary : Impl → ExecutionSummary
live_summary impl = record {
  step_count = impl.step_count;
  event_count = impl.event_count;
  duplicate_edge_suppressed_count = impl.duplicate_edge_suppressed_count;
  outside_suppressed_count = impl.outside_suppressed_count;
  hot_bypass_entry_count = impl.hot_bypass_entry_count;
  call_depth = impl.current_call_depth;
  trigger_capture_hit_count = impl.trigger_capture_hit_count;
  trigger_capture_last_thread_id = impl.trigger_capture_last_thread_id;
}

abbrev pub snapshot_execution_summary : Impl → Impl
snapshot_execution_summary impl = record impl { retained = live_summary impl }

abbrev pub clear_execution_summary : Impl → Impl
clear_execution_summary impl = record impl {
  retained = record {
    step_count = 0;
    event_count = 0;
    duplicate_edge_suppressed_count = 0;
    outside_suppressed_count = 0;
    hot_bypass_entry_count = 0;
    call_depth = 0;
    trigger_capture_hit_count = 0;
    trigger_capture_last_thread_id = 0;
  };
}

abbrev pub clear_pending_async_handoff : Impl → Impl
clear_pending_async_handoff impl = record impl {
  pending_async_handoff_target = 0;
  pending_async_handoff_event = no_event;
  pending_async_handoff_valid = false;
}

abbrev pub reset_active_probe_session : Impl → Impl
reset_active_probe_session impl = record impl { active_probe = no_probe_session }

unfoldable pub reset_thread_observation_state : Impl → Impl
reset_thread_observation_state impl = refresh_current_call_depth (
    reset_active_probe_session (
      clear_pending_async_handoff (record impl {
        observation_state = idle;
        stop_requested = false;
        last_rip = 0;
        last_rip_valid = false;
        waiting_for_trigger = false;
        root_stop_armed = false;
        root_call_depth_base = impl.call_depth_offset;
        pending_block = no_block;
        tf_probe_source = 0;
        tf_probe_decode = no_decode;
        pending_resume_entry = 0;
        pending_target_override = 0;
        pending_resume_entry_valid = false;
        pending_target_override_valid = false;
        async_handoff_entry = 0;
        async_handoff_depth = 0;
        async_handoff_handle_value = 0;
        async_handoff_thread_id = 0;
        suppressed_transition_streak = 0;
        suppressed_hot_anchor = 0;
        suppressed_frame_depth = 0;
        hot_bypass_resume = 0;
        hot_bypass_return = 0;
        hot_bypass_call_depth = 0;
        hot_bypass_root_stop = false;
        observed_addresses = no_addresses;
        observed_count = 0;
        call_return_stack = [];
        enhanced_sampling_stack = [];
        trap_suppression_stack = [];
        detached_thread_ids = [];
      })))

unfoldable pub reset_execution_state : Impl → Impl
unfolding reset_thread_observation_state
reset_execution_state impl = reset_thread_observation_state (record impl {
  step_count = 0;
  event_count = 0;
  duplicate_edge_suppressed_count = 0;
  outside_suppressed_count = 0;
  hot_bypass_entry_count = 0;
  trigger_capture_hit_count = 0;
  trigger_capture_last_thread_id = 0;
  seen_edges = [];
  call_depth_offset = 0;
})

abbrev pub arm_root_stop : Impl → Impl
arm_root_stop impl = record impl {
  root_stop_armed = impl.options.stop_on_root_return;
  root_call_depth_base = impl.current_call_depth;
}

-- `ApplyHardwareContextObservations(*context, empty, 0, ...)`
abbrev pub disarm : Context → Context
disarm context = apply_hardware_context_observations context no_addresses 0 false

abbrev pub arm_single_step : Context → Context
arm_single_step context = apply_hardware_context_observations context no_addresses 0 true

-- `impl.options.callback(event, impl.options.callback_context)`, where there is a callback.
abbrev pub emit_event : Impl → StepEvent → Impl
emit_event impl event =
    if impl.options.has_callback then record impl { events = event ∷ impl.events } else impl

-- The sequence number of the next event, and the count that holds it.
abbrev pub count_event : Impl → Impl
count_event impl = record impl { event_count = next64 impl.event_count }

-- The fields of an event that name the module of `FindModuleRange`.
unfoldable pub in_module : Option ModuleRange → StepEvent → StepEvent
in_module none event = event
in_module (some range) event = record event {
  inside_module = true;
  module_base = range.base;
  module_size = range.size;
  relative_instruction = (event.instruction + u64_mod - range.base) % u64_mod;
}

-- `EXCEPTION_CONTINUE_EXECUTION` and `EXCEPTION_CONTINUE_SEARCH`, with what the handler leaves.
pub data Disposition : Type 0 where
  continue_execution continue_search : Disposition

pub record Handled : Type 0 where
  pub disposition : Disposition
  pub impl : Impl
  pub context : Context

abbrev pub resume : Impl → Context → Handled
resume impl context = record { disposition = continue_execution; impl = impl; context = context }

abbrev pub pass_on : Impl → Context → Handled
pass_on impl context = record { disposition = continue_search; impl = impl; context = context }

-- The end of a session after an error or the last event: the counters are kept, the session is
-- idle, and the thread runs free.
abbrev pub stop_session : Impl → Context → Handled
stop_session impl context =
    resume (record (snapshot_execution_summary impl) { running = false; observation_state = idle })
      (disarm context)

-- `Session::Impl::EventCount` reads the live counter of a running session and the retained one of
-- a stopped one.
abbrev pub reported_event_count : Impl → ℕ
reported_event_count impl = if impl.running then impl.event_count else impl.retained.event_count
