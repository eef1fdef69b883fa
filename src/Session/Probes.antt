-- ===== src/Session/Probes.antt =====
-- The probes of src/core/runtime/VDTraceInternalTypes.h: the rules of a value probe, the session
-- that one of them starts, and the calls that hand the tracing over to a new thread. Labels are
-- left out.
use vd_trace.Base.{ℕ, Bool, true, false, List, []}

pub data ProbeMode : Type 0 where
  capture single_step write_trace filter_trace : ProbeMode

pub data ProbeExitKind : Type 0 where
  return leave_region return_or_leave_region : ProbeExitKind

pub record ResolvedProbeWatch : Type 0 where
  pub address : ℕ
  pub size : ℕ

-- `watches` is the array up to `watch_count`; the captures are read by a parameter of the model.
pub record ResolvedValueProbe : Type 0 where
  pub address : ℕ
  pub mode : ProbeMode
  pub exit_kind : ProbeExitKind
  pub step_limit : ℕ
  pub watches : List ResolvedProbeWatch

-- `bytes` is the array up to `size`.
pub record ActiveProbeWatchState : Type 0 where
  pub valid : Bool
  pub address : ℕ
  pub size : ℕ
  pub bytes : List ℕ

-- `watches` is the array up to `watch_count`.
pub record ActiveProbeSession : Type 0 where
  pub active : Bool
  pub restore_hardware_backend : Bool
  pub mode : ProbeMode
  pub exit_kind : ProbeExitKind
  pub remaining_steps : ℕ
  pub start_call_depth : ℕ
  pub pending_entry : ℕ
  pub region_base : ℕ
  pub region_size : ℕ
  pub watches : List ActiveProbeWatchState

abbrev pub no_probe_session : ActiveProbeSession
no_probe_session = record {
  active = false;
  restore_hardware_backend = false;
  mode = capture;
  exit_kind = return_or_leave_region;
  remaining_steps = 0;
  start_call_depth = 0;
  pending_entry = 0;
  region_base = 0;
  region_size = 0;
  watches = [];
}

-- The enumerators are compared by `==`.
abbrev pub is_capture_mode : ProbeMode → Bool
is_capture_mode capture = true
is_capture_mode _ = false

abbrev pub is_write_trace : ProbeMode → Bool
is_write_trace write_trace = true
is_write_trace _ = false

abbrev pub is_single_step_mode : ProbeMode → Bool
is_single_step_mode single_step = true
is_single_step_mode _ = false

pub data ThreadHandleSource : Type 0 where
  none return_value output_pointer_argument : ThreadHandleSource

pub record ResolvedAsyncProbe : Type 0 where
  pub address : ℕ
  pub thread_handle_source : ThreadHandleSource
  pub thread_handle_argument_index : ℕ
  pub thread_id_argument_index : ℕ
  pub handoff_entry_argument_index : ℕ
