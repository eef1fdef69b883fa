-- ===== src/Tests.antt =====
-- Concrete sessions, memory and code that the theorems are applied to: one tracked module, one
-- system module, one depth rule, one region of generated code.
mod Paths
mod Blocks
mod Recording
mod Texts
mod Triggers
mod Exceptions
mod Images
use vd_trace.Base.{
  ℕ, true, false, List, [], ◌∷◌, Option, none, some, ◌&&◌, ltb, leb, ◌==◌, if◌then◌else◌,
}
use vd_trace.Session.{
  Impl, Options, ModuleRange, ResolvedDepthFilterModuleRule, ResolvedDepthFilterSet, first_seen,
  edge, trap_flag, idle, hardware_flow, no_probe_session, no_event, no_block, no_decode,
  InstructionDecodeResult, EventKind, FlowEdgeKey, other, conditional_jump, call, jump, return,
  BasicBlockInfo, EnhancedSamplingFrame,
}
use vd_trace.Regions.{MemoryInformation}
use vd_trace.Regions.Cache.{empty_cache}
use vd_trace.Hardware.{Context}
use vd_trace.Runtime.{Machine}

abbrev pub program_module : ModuleRange
program_module = record { name = 97 ∷ []; base = 0x1000; size = 0x1000 }

abbrev pub library_module : ModuleRange
library_module = record { name = 98 ∷ []; base = 0x3000; size = 0x800 }

abbrev pub library_rule : ResolvedDepthFilterModuleRule
library_rule = record { range = library_module; max_call_depth = 2; execution_mode = edge }

abbrev pub sample_filters : ResolvedDepthFilterSet
sample_filters = record {
  module_rules = library_rule ∷ [];
  has_outside_module_depth = true;
  outside_module_depth = 1;
  outside_module_execution_mode = trap_flag;
  has_anonymous_exec_depth = false;
  anonymous_exec_depth = 0;
  anonymous_exec_execution_mode = edge;
}

abbrev pub sample_options : Options
sample_options = record {
  auto_select_thread = false;
  queue_trigger_threads = false;
  trace_outside_modules = false;
  control_flow_only = true;
  max_call_depth = 8;
  hit_policy = first_seen;
  hot_bypass_threshold = 3;
  stop_on_root_return = false;
  max_events = 0;
  async_thread_handoff = false;
  has_callback = true;
}

abbrev pub sample_impl : Impl
sample_impl = record {
  self = 1;
  options = sample_options;
  module_ranges = program_module ∷ [];
  system_module_ranges = library_module ∷ [];
  depth_filters = sample_filters;
  running = true;
  stop_requested = false;
  observation_state = idle;
  step_count = 0;
  event_count = 0;
  duplicate_edge_suppressed_count = 0;
  outside_suppressed_count = 0;
  hot_bypass_entry_count = 0;
  current_call_depth = 0;
  seen_edges = [];
  call_depth_offset = 0;
  root_call_depth_base = 0;
  last_rip = 0;
  last_rip_valid = false;
  waiting_for_trigger = false;
  root_stop_armed = false;
  async_probes = [];
  value_probes = [];
  pending_block = no_block;
  tf_probe_source = 0;
  tf_probe_decode = no_decode;
  pending_resume_entry = 0;
  pending_target_override = 0;
  pending_resume_entry_valid = false;
  pending_target_override_valid = false;
  observed_addresses = 0 ∷ 0 ∷ 0 ∷ 0 ∷ [];
  observed_count = 0;
  suppressed_transition_streak = 0;
  suppressed_hot_anchor = 0;
  suppressed_frame_depth = 0;
  hot_bypass_resume = 0;
  hot_bypass_return = 0;
  hot_bypass_call_depth = 0;
  hot_bypass_root_stop = false;
  call_return_stack = [];
  enhanced_sampling_stack = [];
  trap_suppression_stack = [];
  region_cache = empty_cache;
  backend_mode = hardware_flow;
  active_probe = no_probe_session;
  pending_async_handoff_target = 0;
  pending_async_handoff_event = no_event;
  pending_async_handoff_valid = false;
  retained = record {
    step_count = 0;
    event_count = 0;
    duplicate_edge_suppressed_count = 0;
    outside_suppressed_count = 0;
    hot_bypass_entry_count = 0;
    call_depth = 0;
    trigger_capture_hit_count = 0;
    trigger_capture_last_thread_id = 0;
  };
  trigger_capture_hit_count = 0;
  trigger_capture_last_thread_id = 0;
  configured_trigger_address = 0;
  resolved_trigger_address = 0;
  active_thread_id = 7;
  thread_handle = 12;
  detached_thread_ids = [];
  async_handoff_request_pending = false;
  async_handoff_entry = 0;
  async_handoff_depth = 0;
  async_handoff_handle_value = 0;
  async_handoff_thread_id = 0;
  events = [];
}

abbrev pub generated_code : MemoryInformation
generated_code = record {
  base_address = 0x5000;
  region_size = 0x1000;
  state = 0x1000;
  protect = 0x40;
  memory_type = 0x20000;
}

-- One committed, executable region that no image backs.
abbrev pub sample_query : ℕ → Option MemoryInformation
sample_query a = if leb 0x5000 a && ltb a 0x6000 then some generated_code else none

abbrev pub decoded : EventKind → ℕ → ℕ → InstructionDecodeResult
decoded kind target size = record {
  kind = kind;
  target = target;
  has_target = true;
  size = size;
  bytes = [];
}

-- A plain instruction at 0x1000 with a conditional jump behind it, and nothing else.
abbrev pub sample_code : ℕ → InstructionDecodeResult
sample_code a =
    if a == 0x1000
    then decoded other 0 3
    else if a == 0x1003
    then decoded conditional_jump 0x1010 2
    else no_decode

abbrev pub ending_in : EventKind → ℕ → ℕ → BasicBlockInfo
ending_in kind tail target = record {
  entry = tail;
  tail = tail;
  fallthrough = tail;
  tail_decode = decoded kind target 2;
  instruction_count = 1;
  valid = true;
  truncated = false;
  emits_edge = true;
}

abbrev pub jump_from : ℕ → ℕ → FlowEdgeKey
jump_from a b = record { instruction = a; target = b; kind = jump }

abbrev pub no_frame : EnhancedSamplingFrame
no_frame = record { active = false; argument_count = 0; arguments = [] }

abbrev pub sample_context : Context
sample_context = record {
  context_flags = 0;
  dr0 = 7;
  dr1 = 0;
  dr2 = 0;
  dr3 = 0;
  dr6 = 1;
  dr7 = 0x400;
  e_flags = 0x346;
  rip = 0x1000;
  rsp = 0x9000;
  rax = 0;
}

-- A process of one thread, in which no image and no memory can be read.
abbrev pub sample_machine : Machine
sample_machine = record {
  virtual_query = sample_query;
  decode_instruction = sample_code;
  module_of_address = λ a. none;
  read_memory = λ a n. none;
  read_pointer = λ a. none;
  read_dword = λ a. none;
  thread_of_handle = λ h. 0;
  current_thread_id = 7;
  call_arguments = λ c. [];
  probe_captures = λ p c. [];
  sample_call = λ i e. no_frame;
  arm_trigger_capture_threads = λ i. some (1, 1);
}
