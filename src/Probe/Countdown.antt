-- ===== src/Probe/Countdown.antt =====
-- The limit of steps of a probe's session.
use vd_trace.Base.{
  ℕ, ◌+◌, ◌-◌, ◌≤◌, ◌≡◌, refl, sym, subst, ◌∙◌, ap, ◌⊎◌, inl, inr, Bool, true, false, not, ◌&&◌,
  ◌||◌, List, [], ◌∷◌, ◌==◌, if◌then◌else◌, arith, by_test, length,
}
use vd_trace.Session.{
  ActiveProbeSession, ActiveProbeWatchState, is_write_trace, is_single_step_mode, ProbeCapture,
  StepEvent, Impl,
}
use vd_trace.Hardware.{Context}
use vd_trace.Runtime.{Machine, count_event, emit_event}
use vd_trace.Probe.{snapshot_watches}
use vd_trace.Probe.Local.{
  ProbeStep, ProbeOutcome, goes_on, has_captures, enter_session, has_step_limit, count_down,
  should_exit, awaits_entry, leave_window, exit_session, finish_probe_step, emit_probe_step,
  handle_active_probe_single_step, probe_step_event,
}
use vd_trace.TrapWindow.{restore_hardware_flow_after_trap_window}

-- The session of the probe has ended: it is reset, the hardware backend is back, or the session
-- that it is part of has failed.
abbrev pub is_over : ProbeOutcome → Bool
is_over o = not o.impl.active_probe.active || o.restored_hardware_flow || not o.succeeded

-- An active session with a limit, whose first instruction has been executed.
pub record Counts (p : ActiveProbeSession) : Type 0 where
  pub active : p.active ≡ true
  pub limited : has_step_limit p ≡ true
  pub entered : p.pending_entry ≡ 0

-- It is over, or it has one step less left, and not none.
abbrev Progress : ActiveProbeSession → ProbeOutcome → Type 0
Progress p o =
    (is_over o ≡ true)
    ⊎ (Counts o.impl.active_probe
        × (o.impl.active_probe.remaining_steps + 1 ≡ p.remaining_steps)
        × (1 ≤ o.impl.active_probe.remaining_steps))

counted :
    (limited : Bool) (r : ℕ)
    → limited ≡ true
    → let n = if limited && not (r == 0) then r - 1 else r in
      (limited && n == 0) ≡ false → (n + 1 ≡ r) × (1 ≤ n)
counted limited r l h = ground arith

or_left : (a b : Bool) → (a || b) ≡ false → a ≡ false
or_left false b h = refl
or_left true b h = h

or_right : (a b : Bool) → b ≡ true → (a || b) ≡ true
or_right false b h = h
or_right true b h = refl

module _ (machine : Machine) where
  leave-is_over : (r : Bool × Impl × Context) → is_over (leave_window machine r) ≡ true
  unfolding leave_window
  leave-is_over (true, s, c) = ground arith
  leave-is_over (false, s, c) = ground arith

  exit-is_over :
      (impl : Impl) (s : ProbeStep) (context : Context)
      → is_over (exit_session machine impl s context) ≡ true
  unfolding exit_session
  exit-is_over impl s context =
      by_test (λ o. is_over o ≡ true) (not impl.active_probe.restore_hardware_backend) (λ h. refl)
        (λ h.
          leave-is_over
            (restore_hardware_flow_after_trap_window machine impl s.current_rip context))

  counted-Progress :
      (p : ActiveProbeSession) (impl : Impl) (s : ProbeStep) (context : Context)
      → Counts p
      → should_exit (count_down p) s ≡ false
      → Progress p (goes_on (record impl { active_probe = count_down p }) context)
  unfolding should_exit count_down
  counted-Progress p impl s context c h =
      let (less, some') =
        counted (has_step_limit p) p.remaining_steps c.limited
          (or_left (has_step_limit p && (count_down p).remaining_steps == 0) _ h) in
      inr (record { active = c.active; limited = c.limited; entered = c.entered }, less, some')

  finish-Progress :
      (impl : Impl) (s : ProbeStep) (context : Context)
      → Counts impl.active_probe
      → Progress impl.active_probe (finish_probe_step machine impl s context)
  unfolding finish_probe_step
  finish-Progress impl s context c =
      by_test (Progress impl.active_probe) (should_exit (count_down impl.active_probe) s)
        (λ h. inl (exit-is_over _ s context))
        (λ h. counted-Progress impl.active_probe impl s context c h)

  emit_event-probe :
      (b : Bool) (impl : Impl) (event : StepEvent)
      → (if b then record impl { events = event ∷ impl.events } else impl).active_probe
        ≡ impl.active_probe
  emit_event-probe true impl event = refl
  emit_event-probe false impl event = refl

  -- The steps are counted from what the session has left, whatever its watches hold.
  from_same :
      (impl entered : Impl) (s : ProbeStep) (context : Context)
      → Counts entered.active_probe
      → entered.active_probe.remaining_steps ≡ impl.active_probe.remaining_steps
      → Progress impl.active_probe (finish_probe_step machine entered s context)
  from_same impl entered s context c e = elim (finish-Progress entered s context c) [
    | inl over ↦ inl over
    | inr (k, less, some') ↦ inr (k, less ∙ e, some')
  ]

  emit-Progress :
      (w : List ProbeCapture × List ActiveProbeWatchState) (impl : Impl) (s : ProbeStep)
      (context : Context)
      → Counts impl.active_probe
      → Progress impl.active_probe (emit_probe_step machine w impl s context)
  unfolding emit_probe_step
  emit-Progress (captures, watches) impl s context c =
      let entered = enter_session impl watches in
      let k : Counts entered.active_probe = record {
        active = c.active;
        limited = c.limited;
        entered = refl;
      } in
      let event = probe_step_event machine entered s captures context in
      let same = emit_event-probe impl.options.has_callback (count_event entered) event in
      by_test (Progress impl.active_probe)
        (is_single_step_mode impl.active_probe.mode || has_captures captures)
        (λ h.
          from_same impl (emit_event (count_event entered) event) s context
            (subst Counts (sym same) k) (ap (λ (p : ActiveProbeSession). p.remaining_steps) same))
        (λ h. from_same impl entered s context k refl)

  handle-Progress :
      (impl : Impl) (s : ProbeStep) (context : Context)
      → Counts impl.active_probe
      → Progress impl.active_probe (handle_active_probe_single_step machine impl s context)
  unfolding handle_active_probe_single_step awaits_entry
  handle-Progress impl s context c =
      by_test (Progress impl.active_probe)
        (not impl.active_probe.active || awaits_entry impl.active_probe s)
        (λ h. absurd (ground (arith, c.active, c.entered)))
        (λ h.
          by_test (Progress impl.active_probe) (is_write_trace impl.active_probe.mode)
            (λ y.
              emit-Progress (snapshot_watches machine impl.active_probe.watches) impl s context c)
            (λ n. emit-Progress ([], impl.active_probe.watches) impl s context c))

  -- Whether the session ends within the steps.
  pub ends_within : List (ProbeStep × Context) → Impl → Bool
  ends_within [] impl = false
  ends_within ((s, context) ∷ rest) impl =
      let o = handle_active_probe_single_step machine impl s context in
      let later = ends_within rest o.impl in is_over o || later

  -- A session with a limit that has executed its first instruction ends within as many steps as it
  -- has left, or within one where it has none left, whatever these steps execute.
  pub probe-ends_within :
      (steps : List (ProbeStep × Context)) (impl : Impl)
      → Counts impl.active_probe
      → 1 ≤ length steps
      → impl.active_probe.remaining_steps ≤ length steps
      → ends_within steps impl ≡ true
  unfolding ends_within
  probe-ends_within [] impl c n h = absurd (omega (arith, n))
  probe-ends_within ((s, context) ∷ rest) impl c n h =
      let o = handle_active_probe_single_step machine impl s context in
      elim (handle-Progress impl s context c) [
        | inl over ↦ rw over refl
        | inr (k, less, some') ↦ or_right (is_over o) _ (
            probe-ends_within rest o.impl k (omega (arith, less, some', h))
              (omega (arith, less, h)))
      ]
