-- ===== src/Runtime/Rotation.antt =====
-- `SupportsQueuedTriggerTracing`, `BeginTriggerThreadCapture` and `RotateQueuedTriggerTrace` of
-- src/core/trigger/VDTraceTriggerCapture.cpp: how a session that has traced one call of its entry
-- waits for the next one. The list of captured threads and its worker belong to Windows and are
-- behind `arm_trigger_capture_threads`.
use Prim.Native.Nat.{bit_or}
use vd_trace.Base.{
  ℕ, Bool, true, false, not, ◌&&◌, [], ◌∷◌, Option, none, some, ◌==◌, if◌then◌else◌,
}
use vd_trace.Session.{Impl}
use vd_trace.Hardware.{Context, control_and_debug, clear_trap_flag}
use vd_trace.Runtime.{Machine, reset_thread_observation_state}

unfoldable pub supports_queued_trigger_tracing : Impl → Bool
supports_queued_trigger_tracing impl =
    impl.options.queue_trigger_threads
    && impl.options.auto_select_thread
    && not (impl.configured_trigger_address == 0)

abbrev await_trigger : Impl → Impl
await_trigger impl = record impl {
  resolved_trigger_address = impl.configured_trigger_address;
  observed_addresses = impl.configured_trigger_address ∷ 0 ∷ 0 ∷ 0 ∷ [];
  observed_count = 1;
  waiting_for_trigger = true;
}

-- On the counts of candidates and of armed threads, where the search of threads succeeds.
unfoldable pub begin_capture : Option (ℕ × ℕ) → Impl → Bool × Impl
begin_capture none impl = (false, impl)
begin_capture (some (candidates, armed)) impl =
    if not (candidates == 0) && armed == 0 then (false, impl) else (true, await_trigger impl)

unfoldable pub begin_trigger_thread_capture : Machine → Impl → Bool × Impl
unfolding begin_capture
begin_trigger_thread_capture machine impl =
    if impl.configured_trigger_address == 0
    then (false, impl)
    else begin_capture (machine.arm_trigger_capture_threads impl) impl

abbrev pub arm_trigger : Context → ℕ → Context
arm_trigger context address = record context {
  context_flags = bit_or context.context_flags control_and_debug;
  dr0 = address;
  dr1 = 0;
  dr2 = 0;
  dr3 = 0;
  dr6 = 0;
  dr7 = 1;
  e_flags = clear_trap_flag context.e_flags;
}

-- The thread of the session is let go.
unfoldable pub release_thread : Impl → Impl
unfolding reset_thread_observation_state
release_thread impl =
    let released = reset_thread_observation_state (record impl { thread_handle = 0 }) in
    record released { active_thread_id = 0 }

unfoldable pub finish_rotation : Bool × Impl → Context → Bool × Impl × Context
finish_rotation (false, impl) context = (false, impl, context)
finish_rotation (true, impl) context =
    (true, impl, arm_trigger context impl.configured_trigger_address)

unfoldable pub rotate_queued_trigger_trace : Machine → Impl → Context → Bool × Impl × Context
unfolding supports_queued_trigger_tracing
rotate_queued_trigger_trace machine impl context =
    if not (supports_queued_trigger_tracing impl)
    then (false, impl, context)
    else finish_rotation (begin_trigger_thread_capture machine (release_thread impl)) context
