-- ===== src/Session.antt =====
-- The data of include/VDTrace/VDTrace.h, src/core/runtime/VDTraceInternalTypes.h and
-- src/core/runtime/VDTraceInternal.h that the models of the runtime share. Addresses are
-- `uintptr_t` values, below 2 ^ 64; texts are lists of UTF-16 code units.
mod Probes
pub use Probes.{
  ProbeMode, ProbeExitKind, ResolvedProbeWatch, ResolvedValueProbe, ActiveProbeWatchState,
  ActiveProbeSession, no_probe_session, is_capture_mode, is_write_trace, is_single_step_mode,
  ThreadHandleSource, ResolvedAsyncProbe,
}
use vd_trace.Base.{ℕ, Bool, true, false, List, [], Option, none, ◌==◌, u32_mod, ◌-◌}

abbrev pub Text : Type 0
Text = List ℕ

-- `kUnlimitedCallDepth`
abbrev pub unlimited_call_depth : ℕ
unlimited_call_depth = u32_mod - 1

pub data EventKind : Type 0 where
  unknown other probe call jump conditional_jump return syscall interrupt : EventKind

-- The value of the enumerator.
abbrev pub kind_code : EventKind → ℕ
kind_code unknown = 0
kind_code other = 1
kind_code probe = 2
kind_code call = 3
kind_code jump = 4
kind_code conditional_jump = 5
kind_code return = 6
kind_code syscall = 7
kind_code interrupt = 8

abbrev pub kind_eq : EventKind → EventKind → Bool
kind_eq a b = kind_code a == kind_code b

pub data FlowHitPolicy : Type 0 where
  first_seen every_hit : FlowHitPolicy

abbrev pub is_every_hit : FlowHitPolicy → Bool
is_every_hit first_seen = false
is_every_hit every_hit = true

pub data BackendMode : Type 0 where
  hardware_flow trap_flag_context : BackendMode

pub data ObservationState : Type 0 where
  idle waiting_for_destination waiting_for_tail waiting_for_single_step : ObservationState
  linear_scan waiting_for_hot_return : ObservationState

pub data DepthFilterExecutionMode : Type 0 where
  edge trap_flag : DepthFilterExecutionMode

pub data ExecutionAddressKind : Type 0 where
  unknown tracked_module system_module outside_image : ExecutionAddressKind
  anonymous_executable : ExecutionAddressKind

pub record FlowEdgeKey : Type 0 where
  pub instruction : ℕ
  pub target : ℕ
  pub kind : EventKind

pub record InstructionDecodeResult : Type 0 where
  pub kind : EventKind
  pub target : ℕ
  pub has_target : Bool
  pub size : ℕ
  pub bytes : List ℕ

pub record BasicBlockInfo : Type 0 where
  pub entry : ℕ
  pub tail : ℕ
  pub fallthrough : ℕ
  pub tail_decode : InstructionDecodeResult
  pub instruction_count : ℕ
  pub valid : Bool
  pub truncated : Bool
  pub emits_edge : Bool

pub record ModuleRange : Type 0 where
  pub name : Text
  pub base : ℕ
  pub size : ℕ

pub record ResolvedDepthFilterModuleRule : Type 0 where
  pub range : ModuleRange
  pub max_call_depth : ℕ
  pub execution_mode : DepthFilterExecutionMode

pub record ResolvedDepthFilterSet : Type 0 where
  pub module_rules : List ResolvedDepthFilterModuleRule
  pub has_outside_module_depth : Bool
  pub outside_module_depth : ℕ
  pub outside_module_execution_mode : DepthFilterExecutionMode
  pub has_anonymous_exec_depth : Bool
  pub anonymous_exec_depth : ℕ
  pub anonymous_exec_execution_mode : DepthFilterExecutionMode

pub record ResolvedExecutionAddress : Type 0 where
  pub kind : ExecutionAddressKind
  pub module_range : Option ModuleRange
  pub depth_rule : Option ResolvedDepthFilterModuleRule
  pub region_size : ℕ

pub record EnhancedSamplingTrackedArgument : Type 0 where
  pub valid : Bool
  pub source_index : ℕ
  pub size : ℕ
  pub address : ℕ

pub record EnhancedSamplingFrame : Type 0 where
  pub active : Bool
  pub argument_count : ℕ
  pub arguments : List EnhancedSamplingTrackedArgument

-- The fields of `Options` that the models read.
pub record Options : Type 0 where
  pub auto_select_thread : Bool
  pub queue_trigger_threads : Bool
  pub trace_outside_modules : Bool
  pub control_flow_only : Bool
  pub max_call_depth : ℕ
  pub hit_policy : FlowHitPolicy
  pub hot_bypass_threshold : ℕ
  pub stop_on_root_return : Bool
  pub max_events : ℕ
  pub async_thread_handoff : Bool
  pub has_callback : Bool

abbrev pub no_decode : InstructionDecodeResult
no_decode = record {
  kind = EventKind.unknown;
  target = 0;
  has_target = false;
  size = 0;
  bytes = [];
}

abbrev pub no_block : BasicBlockInfo
no_block = record {
  entry = 0;
  tail = 0;
  fallthrough = 0;
  tail_decode = no_decode;
  instruction_count = 0;
  valid = false;
  truncated = false;
  emits_edge = false;
}

abbrev pub unresolved : ResolvedExecutionAddress
unresolved = record {
  kind = ExecutionAddressKind.unknown;
  module_range = none;
  depth_rule = none;
  region_size = 0;
}

-- The thread-local slot of `RegionQueryCacheSlot`.
pub record RegionCache : Type 0 where
  pub impl : ℕ
  pub base : ℕ
  pub end : ℕ
  pub valid : Bool
  pub executable : Bool
  pub is_image : Bool

-- `ProbeCapture` without its label.
pub record ProbeCapture : Type 0 where
  pub valid : Bool
  pub value : ℕ
  pub size : ℕ
  pub has_bytes : Bool
  pub bytes : List ℕ

-- `StepEvent` without the samples of memory, the copy of the context and the name of the module,
-- which the recorder formats. The arrays are lists up to their counts.
pub record StepEvent : Type 0 where
  pub sequence : ℕ
  pub thread_id : ℕ
  pub instruction : ℕ
  pub relative_instruction : ℕ
  pub module_base : ℕ
  pub stack_pointer : ℕ
  pub block_begin : ℕ
  pub block_end : ℕ
  pub target : ℕ
  pub call_depth : ℕ
  pub module_size : ℕ
  pub has_target : Bool
  pub inside_module : Bool
  pub kind : EventKind
  pub instruction_size : ℕ
  pub instruction_bytes : List ℕ
  pub call_arguments : List ℕ
  pub has_return_value : Bool
  pub return_value : ℕ
  pub probe_captures : List ProbeCapture

abbrev pub no_event : StepEvent
no_event = record {
  sequence = 0;
  thread_id = 0;
  instruction = 0;
  relative_instruction = 0;
  module_base = 0;
  stack_pointer = 0;
  block_begin = 0;
  block_end = 0;
  target = 0;
  call_depth = 0;
  module_size = 0;
  has_target = false;
  inside_module = false;
  kind = EventKind.unknown;
  instruction_size = 0;
  instruction_bytes = [];
  call_arguments = [];
  has_return_value = false;
  return_value = 0;
  probe_captures = [];
}

-- The `retained_*` fields of `Session::Impl`.
pub record ExecutionSummary : Type 0 where
  pub step_count : ℕ
  pub event_count : ℕ
  pub duplicate_edge_suppressed_count : ℕ
  pub outside_suppressed_count : ℕ
  pub hot_bypass_entry_count : ℕ
  pub call_depth : ℕ
  pub trigger_capture_hit_count : ℕ
  pub trigger_capture_last_thread_id : ℕ

-- The part of `Session::Impl` that the tracing thread reads and writes, with the thread's region
-- cache; `self` is the object's own address, a null `thread_handle` is 0, and `events` lists what
-- `options.callback` was given, the last event first.
pub record Impl : Type 0 where
  pub self : ℕ
  pub options : Options
  pub module_ranges : List ModuleRange
  pub system_module_ranges : List ModuleRange
  pub depth_filters : ResolvedDepthFilterSet
  pub running : Bool
  pub stop_requested : Bool
  pub observation_state : ObservationState
  pub step_count : ℕ
  pub event_count : ℕ
  pub duplicate_edge_suppressed_count : ℕ
  pub outside_suppressed_count : ℕ
  pub hot_bypass_entry_count : ℕ
  pub current_call_depth : ℕ
  pub seen_edges : List FlowEdgeKey
  pub call_depth_offset : ℕ
  pub root_call_depth_base : ℕ
  pub last_rip : ℕ
  pub last_rip_valid : Bool
  pub waiting_for_trigger : Bool
  pub root_stop_armed : Bool
  pub async_probes : List ResolvedAsyncProbe
  pub value_probes : List ResolvedValueProbe
  pub pending_block : BasicBlockInfo
  pub tf_probe_source : ℕ
  pub tf_probe_decode : InstructionDecodeResult
  pub pending_resume_entry : ℕ
  pub pending_target_override : ℕ
  pub pending_resume_entry_valid : Bool
  pub pending_target_override_valid : Bool
  pub observed_addresses : List ℕ
  pub observed_count : ℕ
  pub suppressed_transition_streak : ℕ
  pub suppressed_hot_anchor : ℕ
  pub suppressed_frame_depth : ℕ
  pub hot_bypass_resume : ℕ
  pub hot_bypass_return : ℕ
  pub hot_bypass_call_depth : ℕ
  pub hot_bypass_root_stop : Bool
  pub call_return_stack : List ℕ
  pub enhanced_sampling_stack : List EnhancedSamplingFrame
  pub trap_suppression_stack : List Bool
  pub region_cache : RegionCache
  pub backend_mode : BackendMode
  pub active_probe : ActiveProbeSession
  pub pending_async_handoff_target : ℕ
  pub pending_async_handoff_event : StepEvent
  pub pending_async_handoff_valid : Bool
  pub retained : ExecutionSummary
  pub trigger_capture_hit_count : ℕ
  pub trigger_capture_last_thread_id : ℕ
  pub configured_trigger_address : ℕ
  pub resolved_trigger_address : ℕ
  pub active_thread_id : ℕ
  pub thread_handle : ℕ
  pub detached_thread_ids : List ℕ
  pub async_handoff_request_pending : Bool
  pub async_handoff_entry : ℕ
  pub async_handoff_depth : ℕ
  pub async_handoff_handle_value : ℕ
  pub async_handoff_thread_id : ℕ
  pub events : List StepEvent
