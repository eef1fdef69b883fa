-- ===== src/Hardware/Transition/Finalize/Whole.antt =====
-- `FinalizeHardwareTransition` as a whole, from the handoff and the event to its end.
use vd_trace.Base.{
  ℕ, ◌≡◌, refl, ap, ◌∙◌, inl, inr, Bool, true, false, not, ◌&&◌, ◌||◌, ◌∷◌, Option, none, some,
  if◌then◌else◌, arith, Bool-cases, by_test,
}
use vd_trace.Session.{call, kind_eq, FlowEdgeKey, EnhancedSamplingFrame, StepEvent, Impl}
use vd_trace.Hardware.{Context, clear_pending_resolution}
use vd_trace.Hardware.Transition.{
  update_call_stack_for_transition, push_call_frame, try_pop_call_frame, pop_matching,
  should_emit_transition, emit_from,
}
use vd_trace.Hardware.Transition.Finalize.{
  keep_handoff, arm_transition, switch_or_arm, switch_or_follow, hand_over_call, emit_transition,
  follow_transition, hand_over_pending, finalize_hardware_transition,
}
use vd_trace.Runtime.{Machine, count_event, clear_pending_async_handoff}
use vd_trace.Runtime.Handoff.{
  HandoffRequest, try_activate_async_thread_handoff, hand_over, queue_async_handoff_request,
}
use vd_trace.Hardware.Transition.Finalize.Ending.{is_hot, Concludes, go_on-Concludes, arm-Concludes}

update_stack-state :
    (impl : Impl) (next_entry : ℕ) (frame : EnhancedSamplingFrame)
    → (update_call_stack_for_transition impl next_entry frame).observation_state
      ≡ impl.observation_state
unfolding update_call_stack_for_transition push_call_frame try_pop_call_frame pop_matching
update_stack-state impl next_entry frame = ground arith

emit-state :
    (machine : Machine) (impl : Impl) (key : FlowEdgeKey)
    → (should_emit_transition machine.virtual_query impl key).1.observation_state
      ≡ impl.observation_state
unfolding should_emit_transition emit_from
emit-state machine impl key = ground arith

module _ (machine : Machine) where
  hand_over-cold :
      (o : Option HandoffRequest) (impl : Impl) (context : Context)
      → is_hot impl.observation_state ≡ false
      → is_hot (hand_over machine o impl context).1.observation_state ≡ false
  unfolding hand_over queue_async_handoff_request
  hand_over-cold none impl context cold = cold
  hand_over-cold (some r) impl context cold = refl

  handoff-cold :
      (impl : Impl) (target : ℕ) (event : StepEvent) (context : Context)
      → is_hot impl.observation_state ≡ false
      → is_hot
          (try_activate_async_thread_handoff machine impl target event context).1.observation_state
        ≡ false
  unfolding try_activate_async_thread_handoff
  handoff-cold impl target event context cold =
      by_test (λ (r : Bool × Impl × Context). is_hot r.1.observation_state ≡ false)
        (not impl.options.async_thread_handoff) (λ h. cold)
        (λ h. hand_over-cold _ impl context cold)

  switch-Concludes :
      (event_target next_entry call_depth : ℕ) (r : Bool × Impl × Context)
      → is_hot r.1.observation_state ≡ false
      → Concludes (switch_or_arm machine event_target next_entry call_depth r)
  unfolding switch_or_arm
  switch-Concludes event_target next_entry call_depth (true, s, c) cold =
      go_on-Concludes machine false next_entry (clear_pending_resolution s) c (λ h. cc) (λ h. cc)
  switch-Concludes event_target next_entry call_depth (false, s, c) cold =
      arm-Concludes machine false true event_target next_entry call_depth s c cold

  call-Concludes :
      (single : Bool) (event : StepEvent) (event_target next_entry call_depth : ℕ) (impl : Impl)
      (context : Context)
      → is_hot impl.observation_state ≡ false
      → Concludes
          (hand_over_call machine single event event_target next_entry call_depth impl context)
  unfolding hand_over_call
  call-Concludes single event event_target next_entry call_depth impl context cold =
      elim (Bool-cases (kind_eq event.kind call)) [
        | inr no' ↦
            rw no' (
              arm-Concludes machine single true event_target next_entry call_depth impl context
                cold)
        | inl yes' ↦ rw yes' (by_step single)
      ]
    where
      by_step :
          (single : Bool)
          → Concludes (
              if single
              then arm_transition machine true true event_target next_entry call_depth
                  (keep_handoff impl event_target event)
                  context
              else switch_or_arm machine event_target next_entry call_depth
                  (try_activate_async_thread_handoff machine impl event_target event context))
      by_step true =
          arm-Concludes machine true true event_target next_entry call_depth
            (keep_handoff impl event_target event) context cold
      by_step false =
          switch-Concludes event_target next_entry call_depth
            (try_activate_async_thread_handoff machine impl event_target event context)
            (handoff-cold impl event_target event context cold)

  emitted-cold :
      (b : Bool) (impl : Impl) (event : StepEvent)
      → is_hot impl.observation_state ≡ false
      → is_hot (if b then record impl { events = event ∷ impl.events } else impl).observation_state
        ≡ false
  emitted-cold true impl event cold = cold
  emitted-cold false impl event cold = cold

  emit-Concludes :
      (single : Bool) (event_target next_entry : ℕ) (r : Bool × Impl) (context : Context)
      → is_hot r.1.observation_state ≡ false
      → Concludes (emit_transition machine single event_target next_entry r context)
  unfolding emit_transition
  emit-Concludes single event_target next_entry (false, impl) context cold =
      arm-Concludes machine single false event_target next_entry _ _ context
        (ap is_hot (update_stack-state impl next_entry _) ∙ cold)
  emit-Concludes single event_target next_entry (true, impl) context cold =
      call-Concludes single _ event_target next_entry _ _ context (
        ap is_hot (update_stack-state _ next_entry _)
        ∙ emitted-cold impl.options.has_callback (count_event impl) _ cold)

  follow-Concludes :
      (single : Bool) (observed_rip event_target next_entry : ℕ) (impl : Impl) (context : Context)
      → is_hot impl.observation_state ≡ false
      → Concludes
          (follow_transition machine single observed_rip event_target next_entry impl context)
  unfolding follow_transition
  follow-Concludes single observed_rip event_target next_entry impl context cold =
      elim (Bool-cases (kind_eq impl.pending_block.tail_decode.kind call)) [
        | inl yes' ↦ rw yes' (
            emit-Concludes single event_target _ _ context
              (ap is_hot (emit-state machine _ _) ∙ cold))
        | inr no' ↦ rw no' (
            emit-Concludes single event_target _ _ context
              (ap is_hot (emit-state machine _ _) ∙ cold))
      ]

  pending-Concludes :
      (observed_rip event_target next_entry : ℕ) (r : Bool × Impl × Context)
      → is_hot r.1.observation_state ≡ false
      → Concludes (switch_or_follow machine observed_rip event_target next_entry r)
  unfolding switch_or_follow
  pending-Concludes observed_rip event_target next_entry (true, s, c) cold =
      go_on-Concludes machine false next_entry
        (clear_pending_resolution (clear_pending_async_handoff s)) c (λ h. cc) (λ h. cc)
  pending-Concludes observed_rip event_target next_entry (false, s, c) cold =
      follow-Concludes false observed_rip event_target next_entry (clear_pending_async_handoff s) c
        cold

  -- A session that does not wait for a hot return.
  pub finalize-Concludes :
      (impl : Impl) (observed_rip : ℕ) (context : Context) (from_single_step : Bool)
      → is_hot impl.observation_state ≡ false
      → Concludes (finalize_hardware_transition machine impl observed_rip context from_single_step)
  unfolding finalize_hardware_transition hand_over_pending
  finalize-Concludes impl observed_rip context from_single_step cold =
      let next_entry =
        if impl.pending_resume_entry_valid then impl.pending_resume_entry else observed_rip in
      let event_target =
        if impl.pending_target_override_valid then impl.pending_target_override else observed_rip in
      by_test Concludes (not impl.pending_block.valid || not impl.pending_block.emits_edge)
        (λ h.
          go_on-Concludes machine false next_entry (clear_pending_resolution impl) context (λ h. cc)
            (λ h. cc))
        (λ h.
          by_test Concludes (not from_single_step && impl.pending_async_handoff_valid)
            (λ h.
              pending-Concludes observed_rip event_target next_entry
                (try_activate_async_thread_handoff machine impl impl.pending_async_handoff_target
                  impl.pending_async_handoff_event context)
                (handoff-cold impl impl.pending_async_handoff_target
                  impl.pending_async_handoff_event context cold))
            (λ h.
              follow-Concludes from_single_step observed_rip event_target next_entry impl context
                cold))
