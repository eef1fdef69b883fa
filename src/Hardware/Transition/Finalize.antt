-- ===== src/Hardware/Transition/Finalize.antt =====
-- `FinalizeHardwareTransition` of src/core/hardware/VDTraceHardwareTransition.cpp, for a context that
-- is there: what follows the end of a basic block, from the event to the stop at the root.
pub mod Rotated
pub mod Ending
pub mod Whole
pub mod Reported
use vd_trace.Base.{ℕ, Bool, true, false, not, ◌&&◌, ◌||◌, [], ◌∷◌, if◌then◌else◌}
use vd_trace.Session.{
  call, return, kind_eq, FlowEdgeKey, EnhancedSamplingFrame, StepEvent, no_event, idle,
  waiting_for_destination, Impl,
}
use vd_trace.Regions.{find_module_range}
use vd_trace.Regions.Policy.{should_follow_known_call_target}
use vd_trace.Hardware.{Context, clear_pending_resolution}
use vd_trace.Hardware.Transition.{
  next64, should_auto_stop_on_root_return, reset_suppressed_transition_state,
  should_emit_transition, update_call_stack_for_transition, try_arm_hot_return_bypass,
}
use vd_trace.Runtime.{Machine, clear_pending_async_handoff, count_event, emit_event, in_module}
use vd_trace.Runtime.Handoff.{try_activate_async_thread_handoff}
use vd_trace.Runtime.Rotation.{rotate_queued_trigger_trace}

-- What the function returns, its three output parameters, and what it leaves.
pub record Finalized : Type 0 where
  pub continues : Bool
  pub waiting_for_resume : Bool
  pub next_entry : ℕ
  pub context_already_programmed : Bool
  pub impl : Impl
  pub context : Context

abbrev pub go_on : Bool → ℕ → Impl → Context → Finalized
go_on waiting next_entry impl context = record {
  continues = true;
  waiting_for_resume = waiting;
  next_entry = next_entry;
  context_already_programmed = false;
  impl = impl;
  context = context;
}

abbrev no_frame : EnhancedSamplingFrame
no_frame = record { active = false; argument_count = 0; arguments = [] }

abbrev empty_frame_unless : Bool → EnhancedSamplingFrame → EnhancedSamplingFrame
empty_frame_unless b frame = if b then frame else no_frame

abbrev pub watch_resume : Impl → Impl
watch_resume impl = record impl {
  observed_addresses = impl.pending_resume_entry ∷ 0 ∷ 0 ∷ 0 ∷ [];
  observed_count = 1;
  observation_state = waiting_for_destination;
}

abbrev pub keep_handoff : Impl → ℕ → StepEvent → Impl
keep_handoff impl target event = record impl {
  pending_async_handoff_target = target;
  pending_async_handoff_event = event;
  pending_async_handoff_valid = true;
}

abbrev pub waits_for_resume : Bool → Impl → Bool
waits_for_resume single impl =
    single
    && kind_eq impl.pending_block.tail_decode.kind call
    && impl.pending_resume_entry_valid
    && impl.pending_target_override_valid

module _ (machine : Machine) where
  unfoldable pub transition_event : Impl → ℕ → Context → StepEvent
  transition_event impl event_target context =
      let block = impl.pending_block in
      let kind = block.tail_decode.kind in
      in_module (find_module_range impl.module_ranges block.tail) (record no_event {
        sequence = next64 impl.event_count;
        thread_id = machine.current_thread_id;
        instruction = block.tail;
        stack_pointer = context.rsp;
        block_begin = block.entry;
        block_end = block.fallthrough;
        target = event_target;
        call_depth = impl.current_call_depth;
        kind = kind;
        instruction_size = block.tail_decode.size;
        instruction_bytes = block.tail_decode.bytes;
        has_target = true;
        call_arguments = if kind_eq kind call then machine.call_arguments context else [];
        has_return_value = kind_eq kind return;
        return_value = if kind_eq kind return then context.rax else 0;
      })

  -- The last part: the stop at the root, where an event was emitted.
  unfoldable pub finish_transition : Bool → Bool → ℕ → ℕ → Impl → Context → Finalized
  finish_transition emitted waiting next_entry call_depth impl context =
      let s = clear_pending_resolution impl in
      let (rotated, t, c) = rotate_queued_trigger_trace machine s context in
      if not
        (emitted && should_auto_stop_on_root_return s s.pending_block.tail_decode.kind call_depth)
      then go_on waiting next_entry s context
      else if rotated
      then record (go_on waiting next_entry t c) { context_already_programmed = true }
      else record (go_on waiting next_entry (record t { running = false; observation_state = idle })
          c) { continues = false }

  -- On what `TryArmHotReturnBypass` returns.
  unfoldable pub bypass_or_finish : Bool → ℕ → ℕ → Context → Bool × Impl → Finalized
  bypass_or_finish waiting next_entry call_depth context (true, impl) =
      go_on waiting next_entry impl context
  bypass_or_finish waiting next_entry call_depth context (false, impl) =
      finish_transition false waiting next_entry call_depth impl context

  -- The wait for the return of a call that is not followed, and the bypass of a hot loop.
  unfoldable pub arm_transition : Bool → Bool → ℕ → ℕ → ℕ → Impl → Context → Finalized
  unfolding bypass_or_finish
  arm_transition single emitted event_target next_entry call_depth impl context =
      let waiting = waits_for_resume single impl in
      let s = if waiting then watch_resume impl else impl in
      if emitted
      then finish_transition true waiting next_entry call_depth s context
      else bypass_or_finish waiting next_entry call_depth context
          (try_arm_hot_return_bypass s event_target call_depth)

  -- On what `TryActivateAsyncThreadHandoff` returns behind the event of a call.
  unfoldable pub switch_or_arm : ℕ → ℕ → ℕ → Bool × Impl × Context → Finalized
  unfolding arm_transition
  switch_or_arm event_target next_entry call_depth (true, s, c) =
      go_on false next_entry (clear_pending_resolution s) c
  switch_or_arm event_target next_entry call_depth (false, s, c) =
      arm_transition false true event_target next_entry call_depth s c

  -- A call that was emitted may hand the tracing over, at once or at its return.
  unfoldable pub hand_over_call : Bool → StepEvent → ℕ → ℕ → ℕ → Impl → Context → Finalized
  unfolding switch_or_arm
  hand_over_call single event event_target next_entry call_depth impl context =
      if not (kind_eq event.kind call)
      then arm_transition single true event_target next_entry call_depth impl context
      else if single
      then arm_transition true true event_target next_entry call_depth
          (keep_handoff impl event_target event) context
      else switch_or_arm event_target next_entry call_depth
          (try_activate_async_thread_handoff machine impl event_target event context)

  -- The event, or none, and the stack of calls.
  unfoldable pub emit_transition : Bool → ℕ → ℕ → Bool × Impl → Context → Finalized
  unfolding hand_over_call
  emit_transition single event_target next_entry (false, impl) context =
      arm_transition single false event_target next_entry impl.current_call_depth
        (update_call_stack_for_transition impl next_entry no_frame) context
  emit_transition single event_target next_entry (true, impl) context =
      let event = transition_event impl event_target context in
      let s = reset_suppressed_transition_state (emit_event (count_event impl) event) in
      let frame = empty_frame_unless (kind_eq event.kind call) (machine.sample_call impl event) in
      hand_over_call single event event_target next_entry impl.current_call_depth
        (update_call_stack_for_transition s next_entry frame) context

  -- A call goes on at its target when that is followed, and behind itself when it is not.
  unfoldable pub follow_transition : Bool → ℕ → ℕ → ℕ → Impl → Context → Finalized
  unfolding emit_transition
  follow_transition single observed_rip event_target next_entry impl context =
      let block = impl.pending_block in
      let key : FlowEdgeKey = record {
        instruction = block.tail;
        target = event_target;
        kind = block.tail_decode.kind;
      } in
      let (follow, cache) =
        should_follow_known_call_target machine.virtual_query impl impl.region_cache event_target in
      let s = record impl { region_cache = cache } in
      if kind_eq block.tail_decode.kind call
      then emit_transition single event_target (if follow then observed_rip else block.fallthrough)
          (should_emit_transition machine.virtual_query s key) context
      else emit_transition single event_target next_entry
          (should_emit_transition machine.virtual_query impl key) context

  unfoldable pub switch_or_follow : ℕ → ℕ → ℕ → Bool × Impl × Context → Finalized
  unfolding follow_transition
  switch_or_follow observed_rip event_target next_entry (true, s, c) =
      go_on false next_entry (clear_pending_resolution (clear_pending_async_handoff s)) c
  switch_or_follow observed_rip event_target next_entry (false, s, c) =
      follow_transition false observed_rip event_target next_entry (clear_pending_async_handoff s) c

  -- A handoff that waited for the return of its call.
  unfoldable pub hand_over_pending : ℕ → ℕ → ℕ → Impl → Context → Finalized
  unfolding switch_or_follow
  hand_over_pending observed_rip event_target next_entry impl context =
      switch_or_follow observed_rip event_target next_entry (
        try_activate_async_thread_handoff machine impl impl.pending_async_handoff_target
          impl.pending_async_handoff_event context)

  unfoldable pub finalize_hardware_transition : Impl → ℕ → Context → Bool → Finalized
  unfolding hand_over_pending
  finalize_hardware_transition impl observed_rip context from_single_step =
      let next_entry =
        if impl.pending_resume_entry_valid then impl.pending_resume_entry else observed_rip in
      let event_target =
        if impl.pending_target_override_valid then impl.pending_target_override else observed_rip in
      if not impl.pending_block.valid || not impl.pending_block.emits_edge
      then go_on false next_entry (clear_pending_resolution impl) context
      else if not from_single_step && impl.pending_async_handoff_valid
      then hand_over_pending observed_rip event_target next_entry impl context
      else follow_transition from_single_step observed_rip event_target next_entry impl context
