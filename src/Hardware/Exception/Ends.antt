-- ===== src/Hardware/Exception/Ends.antt =====
-- The handler behind `FinalizeHardwareTransition` and at a watched address.
use vd_trace.Base.{ℕ, ◌≡◌, ◌≢◌, refl, sym, Bool, true, false, not, ◌&&◌, arith, by_test, inl, ap}
use vd_trace.Session.{
  ObservationState, idle, waiting_for_destination, waiting_for_tail, waiting_for_single_step,
  linear_scan, waiting_for_hot_return, Impl,
}
use vd_trace.Hardware.{Context}
use vd_trace.Hardware.Exception.{
  apply_observed, finish_by_state, finish_destination, finish_hot_return, finish_single_step,
  handle_hot_return, handle_matched, handle_tail, hit_hot_resume, hit_hot_return,
}
use vd_trace.Hardware.Transition.Finalize.Rotated.{rotate-IsRotated, rotate-state}
use vd_trace.Hardware.Transition.Finalize.Whole.{finalize-Concludes}
use vd_trace.Hardware.Transition.Finalize.Ending.{is_hot, Concludes}
use vd_trace.Runtime.{Machine}
use vd_trace.Hardware.Transition.Finalize.{Finalized}
use vd_trace.Runtime.Rotation.{rotate_queued_trigger_trace}
use vd_trace.Hardware.Exception.Controlled.{
  waits_at_address, IsControlled, rotated, Settles, settled, stop-IsControlled, watch-IsControlled,
  step-IsControlled, hot_waits, observe-IsControlled, observe-Settles,
}

module _ (machine : Machine) where
  pub single_step-Settles :
      (before : Context) (f : Finalized)
      → Concludes f
      → Settles before (finish_single_step machine f)
  unfolding finish_single_step
  single_step-Settles before f l =
      by_test (Settles before) (not f.continues)
        (λ h.
          let (r, i) = l.stops (ground arith) in
          settled refl (stop-IsControlled f.impl f.context r i))
        (λ c.
          by_test (Settles before) f.context_already_programmed
            (λ h. settled refl (rotated (l.rotates h)))
            (λ p.
              by_test (Settles before) f.waiting_for_resume
                (λ w.
                  let (s, n) = l.resumes w (ground arith) p in
                  settled refl (
                    watch-IsControlled f.impl f.context (ap waits_at_address s)
                      (ground (arith, n))))
                (λ h. observe-Settles machine before f.impl f.next_entry f.context)))

  hot_or_plan :
      (s : ObservationState) (before : Context) (f : Finalized)
      → (is_hot s ≡ true → IsControlled f.impl (apply_observed f.impl f.context))
      → Settles before (finish_by_state machine s f)
  unfolding finish_by_state
  hot_or_plan waiting_for_hot_return before f c = settled refl (c refl)
  hot_or_plan idle before f c = observe-Settles machine before f.impl f.next_entry f.context
  hot_or_plan waiting_for_destination before f c =
      observe-Settles machine before f.impl f.next_entry f.context
  hot_or_plan waiting_for_tail before f c =
      observe-Settles machine before f.impl f.next_entry f.context
  hot_or_plan waiting_for_single_step before f c =
      observe-Settles machine before f.impl f.next_entry f.context
  hot_or_plan linear_scan before f c = observe-Settles machine before f.impl f.next_entry f.context

  destination-Settles :
      (before : Context) (f : Finalized)
      → Concludes f
      → Settles before (finish_destination machine f)
  unfolding finish_destination
  destination-Settles before f l =
      by_test (Settles before) (not f.continues)
        (λ h.
          let (r, i) = l.stops (ground arith) in
          settled refl (stop-IsControlled f.impl f.context r i))
        (λ c.
          by_test (Settles before) f.context_already_programmed
            (λ h. settled refl (rotated (l.rotates h)))
            (λ p. hot_or_plan f.impl.observation_state before f (λ h.
              watch-IsControlled f.impl f.context (hot_waits f.impl.observation_state h)
                (l.bypasses h))))

  finish_hot-Settles :
      (stop : Bool) (before : Context) (impl : Impl) (rip : ℕ) (context : Context)
      → impl.observation_state ≡ idle
      → Settles before (finish_hot_return machine stop impl rip context)
  unfolding finish_hot_return
  finish_hot-Settles stop before impl rip context i =
      let r = rotate_queued_trigger_trace machine impl context in
      by_test (Settles before) (not stop)
        (λ h. settled refl (observe-IsControlled machine impl rip context))
        (λ h.
          by_test (Settles before) r.0
            (λ t. settled refl (rotated (rotate-IsRotated machine impl context t)))
            (λ f.
              settled refl (stop-IsControlled _ r.2 refl (rotate-state machine impl context i))))

  -- A hot wait whose address was hit.
  hot_return-Settles :
      (before : Context) (impl : Impl) (rip : ℕ) (context : Context)
      → is_hot impl.observation_state ≡ true
      → impl.observed_count ≢ 0
      → Settles before (handle_hot_return machine impl rip context)
  unfolding handle_hot_return
  hot_return-Settles before impl rip context w n =
      by_test (Settles before) (not (hit_hot_resume impl rip) && not (hit_hot_return impl rip))
        (λ h. settled refl (watch-IsControlled impl context (hot_waits impl.observation_state w) n))
        (λ h. finish_hot-Settles _ before _ rip context refl)

  tail-Settles :
      (before : Context) (impl : Impl) (context : Context)
      → Settles before (handle_tail machine impl context)
  unfolding handle_tail
  tail-Settles before impl context = settled refl (step-IsControlled _ context (inl refl))

  pub matched-Settles :
      (s : ObservationState) (before : Context) (impl : Impl) (rip : ℕ) (context : Context)
      → s ≡ impl.observation_state
      → impl.observed_count ≢ 0
      → Settles before (handle_matched machine s impl rip context)
  unfolding handle_matched
  matched-Settles waiting_for_hot_return before impl rip context e n =
      hot_return-Settles before impl rip context (ap is_hot (sym e)) n
  matched-Settles waiting_for_tail before impl rip context e n = tail-Settles before impl context
  matched-Settles idle before impl rip context e n =
      destination-Settles before _
        (finalize-Concludes machine impl rip context false (ap is_hot (sym e)))
  matched-Settles waiting_for_destination before impl rip context e n =
      destination-Settles before _
        (finalize-Concludes machine impl rip context false (ap is_hot (sym e)))
  matched-Settles waiting_for_single_step before impl rip context e n =
      destination-Settles before _
        (finalize-Concludes machine impl rip context false (ap is_hot (sym e)))
  matched-Settles linear_scan before impl rip context e n =
      destination-Settles before _
        (finalize-Concludes machine impl rip context false (ap is_hot (sym e)))
