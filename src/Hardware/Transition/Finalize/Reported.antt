-- ===== src/Hardware/Transition/Finalize/Reported.antt =====
-- The counters that are reported after a stop at the root return.
use vd_trace.Base.{
  ℕ, ◌==◌, ◌≡◌, refl, ◌∙◌, Bool, true, false, not, ◌&&◌, ◌||◌, Option, none, some, ◌∷◌, by_test,
  if◌then◌else◌, arith, Bool-cases, inl, inr, ap,
}
use vd_trace.Session.{
  call, kind_eq, FlowEdgeKey, EnhancedSamplingFrame, StepEvent, ExecutionSummary, Impl,
}
use vd_trace.Hardware.{Context, clear_pending_resolution, store_observed_addresses_unique}
use vd_trace.Hardware.Transition.{
  should_emit_transition, emit_from, update_call_stack_for_transition, push_call_frame,
  try_pop_call_frame, pop_matching, try_arm_hot_return_bypass, arm_bypass,
  should_auto_stop_on_root_return,
}
use vd_trace.Hardware.Transition.Finalize.{
  Finalized, watch_resume, keep_handoff, waits_for_resume, finish_transition, bypass_or_finish,
  arm_transition, switch_or_arm, hand_over_call, emit_transition, follow_transition,
  switch_or_follow, hand_over_pending, finalize_hardware_transition,
}
use vd_trace.Hardware.Transition.Finalize.Ending.{is_hot}
use vd_trace.Hardware.Transition.Finalize.Whole.{finalize-Concludes}
use vd_trace.Runtime.{
  Machine, count_event, clear_pending_async_handoff, reported_event_count,
  reset_thread_observation_state,
}
use vd_trace.Runtime.Handoff.{
  HandoffRequest, try_activate_async_thread_handoff, hand_over, queue_async_handoff_request,
}
use vd_trace.Runtime.Rotation.{
  rotate_queued_trigger_trace, finish_rotation, begin_trigger_thread_capture, begin_capture,
  release_thread, supports_queued_trigger_tracing,
}

-- The retained summary is `r`.
abbrev Retains : ExecutionSummary → Impl → Type 0
Retains r impl = impl.retained ≡ r

abbrev FinalRetains : ExecutionSummary → Finalized → Type 0
FinalRetains r f = Retains r f.impl

update_stack-Retains :
    (impl : Impl) (next_entry : ℕ) (frame : EnhancedSamplingFrame)
    → Retains impl.retained (update_call_stack_for_transition impl next_entry frame)
unfolding update_call_stack_for_transition push_call_frame try_pop_call_frame pop_matching
update_stack-Retains impl next_entry frame = ground arith

begin-Retains : (o : Option (ℕ × ℕ)) (impl : Impl) → Retains impl.retained (begin_capture o impl).1
unfolding begin_capture
begin-Retains none impl = refl
begin-Retains (some (c, a)) impl = ground arith

finish_rotation-Retains :
    (r : ExecutionSummary) (b : Bool × Impl) (context : Context)
    → Retains r b.1
    → Retains r (finish_rotation b context).1
unfolding finish_rotation
finish_rotation-Retains r (false, s) context e = e
finish_rotation-Retains r (true, s) context e = e

module _ (machine : Machine) where
  capture-Retains :
      (impl : Impl) → Retains impl.retained (begin_trigger_thread_capture machine impl).1
  unfolding begin_trigger_thread_capture
  capture-Retains impl =
      by_test (λ (r : Bool × Impl). Retains impl.retained r.1)
        (impl.configured_trigger_address == 0) {x = (false, impl)}
        {y = begin_capture (machine.arm_trigger_capture_threads impl) impl} (λ h. refl)
        (λ h. begin-Retains (machine.arm_trigger_capture_threads impl) impl)

  rotate-Retains :
      (impl : Impl) (context : Context)
      → Retains impl.retained (rotate_queued_trigger_trace machine impl context).1
  unfolding rotate_queued_trigger_trace release_thread reset_thread_observation_state
  rotate-Retains impl context =
      by_test (λ (r : Bool × Impl × Context). Retains impl.retained r.1)
        (not (supports_queued_trigger_tracing impl)) {x = (false, impl, context)}
        {y = finish_rotation (begin_trigger_thread_capture machine (release_thread impl)) context}
        (λ h. refl)
        (λ h.
          finish_rotation-Retains impl.retained _ context (capture-Retains (release_thread impl)))

  finish-Retains :
      (r : ExecutionSummary) (emitted waiting : Bool) (next_entry call_depth : ℕ) (impl : Impl)
      (context : Context)
      → Retains r impl
      → FinalRetains r
          (finish_transition machine emitted waiting next_entry call_depth impl context)
  unfolding finish_transition
  finish-Retains r emitted waiting next_entry call_depth impl context e =
      let s = clear_pending_resolution impl in
      let (rotated, t, c) = rotate_queued_trigger_trace machine s context in
      by_test (FinalRetains r)
        (not (
          emitted && should_auto_stop_on_root_return s s.pending_block.tail_decode.kind call_depth))
        (λ h. e)
        (λ h.
          by_test (FinalRetains r) rotated (λ y. rotate-Retains s context ∙ e)
            (λ n. rotate-Retains s context ∙ e))

  try_arm-Retains :
      (impl : Impl) (target call_depth : ℕ)
      → Retains impl.retained (try_arm_hot_return_bypass impl target call_depth).1
  unfolding try_arm_hot_return_bypass arm_bypass store_observed_addresses_unique
  try_arm-Retains impl target call_depth = ground arith

  bypass-Retains :
      (r : ExecutionSummary) (waiting : Bool) (next_entry call_depth : ℕ) (context : Context)
      (b : Bool × Impl)
      → Retains r b.1
      → FinalRetains r (bypass_or_finish machine waiting next_entry call_depth context b)
  unfolding bypass_or_finish
  bypass-Retains r waiting next_entry call_depth context (true, s) e = e
  bypass-Retains r waiting next_entry call_depth context (false, s) e =
      finish-Retains r false waiting next_entry call_depth s context e

  arm-Retains :
      (r : ExecutionSummary) (single emitted : Bool) (event_target next_entry call_depth : ℕ)
      (impl : Impl) (context : Context)
      → Retains r impl
      → FinalRetains r
          (arm_transition machine single emitted event_target next_entry call_depth impl context)
  unfolding arm_transition
  arm-Retains r single emitted event_target next_entry call_depth impl context e =
      let waiting = waits_for_resume single impl in
      let s = if waiting then watch_resume impl else impl in
      let k : Retains r s = by_test (Retains r) waiting (λ h. e) (λ h. e) in
      by_test (FinalRetains r) emitted
        (λ h. finish-Retains r true waiting next_entry call_depth s context k)
        (λ h.
          bypass-Retains r waiting next_entry call_depth context
            (try_arm_hot_return_bypass s event_target call_depth)
            (try_arm-Retains s event_target call_depth ∙ k))

  hand_over-Retains :
      (o : Option HandoffRequest) (impl : Impl) (context : Context)
      → Retains impl.retained (hand_over machine o impl context).1
  unfolding hand_over queue_async_handoff_request
  hand_over-Retains none impl context = refl
  hand_over-Retains (some r) impl context = refl

  handoff-Retains :
      (impl : Impl) (target : ℕ) (event : StepEvent) (context : Context)
      → Retains impl.retained
          (try_activate_async_thread_handoff machine impl target event context).1
  unfolding try_activate_async_thread_handoff
  handoff-Retains impl target event context =
      by_test (λ (r : Bool × Impl × Context). Retains impl.retained r.1)
        (not impl.options.async_thread_handoff) (λ h. refl) (λ h. hand_over-Retains _ impl context)

  switch-Retains :
      (r : ExecutionSummary) (event_target next_entry call_depth : ℕ) (b : Bool × Impl × Context)
      → Retains r b.1
      → FinalRetains r (switch_or_arm machine event_target next_entry call_depth b)
  unfolding switch_or_arm
  switch-Retains r event_target next_entry call_depth (true, s, c) e = e
  switch-Retains r event_target next_entry call_depth (false, s, c) e =
      arm-Retains r false true event_target next_entry call_depth s c e

  call-Retains :
      (r : ExecutionSummary) (single : Bool) (event : StepEvent)
      (event_target next_entry call_depth : ℕ) (impl : Impl) (context : Context)
      → Retains r impl
      → FinalRetains r
          (hand_over_call machine single event event_target next_entry call_depth impl context)
  unfolding hand_over_call
  call-Retains r single event event_target next_entry call_depth impl context e =
      by_test (FinalRetains r) (not (kind_eq event.kind call))
        (λ h. arm-Retains r single true event_target next_entry call_depth impl context e)
        (λ h.
          by_test (FinalRetains r) single
            (λ y.
              arm-Retains r true true event_target next_entry call_depth
                (keep_handoff impl event_target event) context e)
            (λ n.
              switch-Retains r event_target next_entry call_depth
                (try_activate_async_thread_handoff machine impl event_target event context)
                (handoff-Retains impl event_target event context ∙ e)))

  emit_event-Retains :
      (r : ExecutionSummary) (b : Bool) (impl : Impl) (event : StepEvent)
      → Retains r impl
      → Retains r (if b then record impl { events = event ∷ impl.events } else impl)
  emit_event-Retains r true impl event e = e
  emit_event-Retains r false impl event e = e

  emit-Retains :
      (r : ExecutionSummary) (single : Bool) (event_target next_entry : ℕ) (b : Bool × Impl)
      (context : Context)
      → Retains r b.1
      → FinalRetains r (emit_transition machine single event_target next_entry b context)
  unfolding emit_transition
  emit-Retains r single event_target next_entry (false, impl) context e =
      arm-Retains r single false event_target next_entry _ _ context
        (update_stack-Retains impl next_entry _ ∙ e)
  emit-Retains r single event_target next_entry (true, impl) context e =
      call-Retains r single _ event_target next_entry _ _ context (
        update_stack-Retains _ next_entry _
        ∙ emit_event-Retains r impl.options.has_callback (count_event impl) _ e)

  should_emit-Retains :
      (impl : Impl) (key : FlowEdgeKey)
      → Retains impl.retained (should_emit_transition machine.virtual_query impl key).1
  unfolding should_emit_transition emit_from
  should_emit-Retains impl key = ground arith

  follow-Retains :
      (single : Bool) (observed_rip event_target next_entry : ℕ) (impl : Impl) (context : Context)
      → FinalRetains impl.retained
          (follow_transition machine single observed_rip event_target next_entry impl context)
  unfolding follow_transition
  follow-Retains single observed_rip event_target next_entry impl context =
      elim (Bool-cases (kind_eq impl.pending_block.tail_decode.kind call)) [
        | inl yes' ↦
            rw yes'
              (emit-Retains impl.retained single event_target _ _ context (should_emit-Retains _ _))
        | inr no' ↦
            rw no'
              (emit-Retains impl.retained single event_target _ _ context (should_emit-Retains _ _))
      ]

  pending-Retains :
      (r : ExecutionSummary) (observed_rip event_target next_entry : ℕ) (b : Bool × Impl × Context)
      → Retains r b.1
      → FinalRetains r (switch_or_follow machine observed_rip event_target next_entry b)
  unfolding switch_or_follow
  pending-Retains r observed_rip event_target next_entry (true, s, c) e = e
  pending-Retains r observed_rip event_target next_entry (false, s, c) e =
      follow-Retains false observed_rip event_target next_entry (clear_pending_async_handoff s) c
      ∙ e

  finalize-Retains :
      (impl : Impl) (observed_rip : ℕ) (context : Context) (from_single_step : Bool)
      → FinalRetains impl.retained
          (finalize_hardware_transition machine impl observed_rip context from_single_step)
  unfolding finalize_hardware_transition hand_over_pending
  finalize-Retains impl observed_rip context from_single_step =
      let next_entry =
        if impl.pending_resume_entry_valid then impl.pending_resume_entry else observed_rip in
      let event_target =
        if impl.pending_target_override_valid then impl.pending_target_override else observed_rip in
      by_test (FinalRetains impl.retained)
        (not impl.pending_block.valid || not impl.pending_block.emits_edge) (λ h. refl)
        (λ h.
          by_test (FinalRetains impl.retained)
            (not from_single_step && impl.pending_async_handoff_valid)
            (λ y.
              pending-Retains impl.retained observed_rip event_target next_entry
                (try_activate_async_thread_handoff machine impl impl.pending_async_handoff_target
                  impl.pending_async_handoff_event context)
                (handoff-Retains impl impl.pending_async_handoff_target
                  impl.pending_async_handoff_event context))
            (λ n.
              follow-Retains from_single_step observed_rip event_target next_entry impl context))

  -- Where the transition stops the session at the root return, the session no longer runs, and the
  -- number of events that it reports is the retained one from before the transition: the events of
  -- the run are not counted in it.
  pub root_stop-reports_retained :
      (impl : Impl) (observed_rip : ℕ) (context : Context) (from_single_step : Bool)
      → is_hot impl.observation_state ≡ false
      → let f = finalize_hardware_transition machine impl observed_rip context from_single_step in
        f.continues ≡ false
        → (f.impl.running ≡ false) × (reported_event_count f.impl ≡ impl.retained.event_count)
  root_stop-reports_retained impl observed_rip context from_single_step cold h =
      let (stopped, i) =
        (finalize-Concludes machine impl observed_rip context from_single_step cold).stops h in
      (
        stopped,
        rw stopped (
            ap (λ (r : ExecutionSummary). r.event_count)
              (finalize-Retains impl observed_rip context from_single_step)),
      )
