-- ===== src/Runtime/Handoff.antt =====
-- `TryActivateAsyncThreadHandoff` and `QueueAsyncHandoffRequest` of
-- src/core/async/VDTraceAsyncHandoff.cpp: the request that the worker thread is given when a traced
-- call starts a new thread. A handle is the number that it is; `INVALID_HANDLE_VALUE` is 2 ^ 64 - 1.
use vd_trace.Base.{
  ℕ, ◌-◌, Bool, true, false, not, ◌&&◌, List, [], ◌∷◌, Option, none, some, ltb, ◌==◌, if◌then◌else◌,
  u64_mod, length, get_or,
}
use vd_trace.Session.{ThreadHandleSource, ResolvedAsyncProbe, StepEvent, idle, Impl}
use vd_trace.Hardware.{Context}
use vd_trace.Runtime.{Machine, disarm}

-- `FindAsyncProbe`, for the probe.
unfoldable pub find_async_probe : List ResolvedAsyncProbe → ℕ → Option ResolvedAsyncProbe
find_async_probe [] address = none
find_async_probe (p ∷ ps) address =
    if p.address == address then some p else find_async_probe ps address

pub record HandoffRequest : Type 0 where
  pub entry : ℕ
  pub depth : ℕ
  pub handle_value : ℕ
  pub thread_id : ℕ

unfoldable pub queue_async_handoff_request : Impl → HandoffRequest → Impl
queue_async_handoff_request impl r = record impl {
  async_handoff_entry = r.entry;
  async_handoff_depth = r.depth;
  async_handoff_handle_value = r.handle_value;
  async_handoff_thread_id = r.thread_id;
  async_handoff_request_pending = true;
}

abbrev pub or_zero : Option ℕ → ℕ
or_zero none = 0
or_zero (some n) = n

-- `index < event.call_argument_count && index < std::size(event.call_arguments)`
abbrev pub has_argument : StepEvent → ℕ → Bool
has_argument event index = ltb index (length event.call_arguments) && ltb index 8

abbrev pub argument_at : StepEvent → ℕ → ℕ
argument_at event index = get_or event.call_arguments index 0

abbrev has_source : ThreadHandleSource → Bool
has_source ThreadHandleSource.none = false
has_source _ = true

module _ (machine : Machine) where
  -- The handle by the probe's source; 0 is no handle.
  created_handle : ThreadHandleSource → ℕ → StepEvent → Context → ℕ
  created_handle ThreadHandleSource.return_value index event context = context.rax
  created_handle ThreadHandleSource.output_pointer_argument index event context =
      if has_argument event index
      then or_zero (machine.read_pointer (argument_at event index))
      else 0
  created_handle ThreadHandleSource.none index event context = 0

  handle_thread : ℕ → ℕ
  handle_thread handle =
      if not (handle == 0) && not (handle == u64_mod - 1)
      then machine.thread_of_handle handle
      else 0

  handoff_thread : ResolvedAsyncProbe → StepEvent → ℕ → ℕ
  unfolding handle_thread
  handoff_thread probe event handle =
      if not (handle_thread handle == 0)
      then handle_thread handle
      else if has_argument event probe.thread_id_argument_index
      then or_zero (machine.read_dword (argument_at event probe.thread_id_argument_index))
      else 0

  handoff_request : ResolvedAsyncProbe → StepEvent → Context → HandoffRequest
  unfolding created_handle handle_thread handoff_thread
  handoff_request probe event context =
      let handle =
        created_handle probe.thread_handle_source probe.thread_handle_argument_index event
          context in
      record {
        entry = argument_at event probe.handoff_entry_argument_index;
        depth = event.call_depth;
        handle_value = if handle_thread handle == 0 then 0 else handle;
        thread_id = handoff_thread probe event handle;
      }

  -- The guards on the probe and on the request; none is `return false`.
  accepted_request : Option ResolvedAsyncProbe → StepEvent → Context → Option HandoffRequest
  unfolding handoff_request
  accepted_request none event context = none
  accepted_request (some probe) event context =
      let r = handoff_request probe event context in
      if not (has_source probe.thread_handle_source)
      then none
      else if not (has_argument event probe.handoff_entry_argument_index)
      then none
      else if r.entry == 0
      then none
      else if r.thread_id == 0 && r.handle_value == 0
      then none
      else some r

  unfoldable pub hand_over : Option HandoffRequest → Impl → Context → Bool × Impl × Context
  unfolding queue_async_handoff_request
  hand_over none impl context = (false, impl, context)
  hand_over (some r) impl context = (
    true,
    record (queue_async_handoff_request impl r) { observation_state = idle },
    if impl.active_thread_id == machine.current_thread_id then disarm context else context,
  )

  unfoldable pub try_activate_async_thread_handoff :
      Impl → ℕ → StepEvent → Context → Bool × Impl × Context
  unfolding accepted_request hand_over
  try_activate_async_thread_handoff impl async_target event context =
      if not impl.options.async_thread_handoff
      then (false, impl, context)
      else hand_over
          (accepted_request (find_async_probe impl.async_probes async_target) event context) impl
          context
