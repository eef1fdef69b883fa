-- ===== src/Hardware/Exception/Bypass.antt =====
-- What becomes of a hot bypass that is armed at the end of a single step.
use vd_trace.Base.{
  ℕ, ◌≡◌, refl, ap, ◌∙◌, subst, ◌∷◌, if◌then◌else◌, Bool, true, false, not, ◌&&◌, ◌||◌, Option,
  none, some, ◌==◌, leb, by_test, arith, Option-cases, inl, inr, sym,
}
use vd_trace.Session.{
  ObservationState, idle, waiting_for_single_step, ActiveProbeSession, ResolvedValueProbe,
  is_capture_mode, StepEvent, Impl,
}
use vd_trace.Regions.Policy.{ExecutionMode, is_trap_flag, resolve_execution_mode_for_address}
use vd_trace.Hardware.{Context}
use vd_trace.Hardware.Program.{Planned}
use vd_trace.Hardware.Program.Watch.{program-Watching}
use vd_trace.Hardware.Transition.Finalize.{Finalized}
use vd_trace.Hardware.Transition.Finalize.Ending.{is_hot, Concludes}
use vd_trace.Hardware.Transition.Finalize.Whole.{finalize-Concludes}
use vd_trace.Hardware.Exception.{
  exception_single_step, check_max_events, finish_single_step, handle_by_state, after_activation,
  after_local_probe, count_step, handle_hardware_flow_exception,
}
use vd_trace.Hardware.Exception.Controlled.{plan}
use vd_trace.Runtime.{count_event, emit_event, Machine, Handled}
use vd_trace.Probe.{try_emit_value_probe_event, value_probe_event, emit_value_probe}
use vd_trace.TrapWindow.{
  Activation, failed, skipped, activated, activate_trap_window, try_activate_filter_trap_session,
  filter_window_by_mode, open_filter_window, resolve_trap_window_range, observe_from,
  program_or_scan,
}

-- No wait for a hot return.
abbrev IsCold : Handled → Type 0
IsCold h = is_hot h.impl.observation_state ≡ false

max_events-IsCold :
    (r : Impl × Context) → is_hot r.0.observation_state ≡ false → IsCold (check_max_events r)
unfolding check_max_events
max_events-IsCold (impl, context) c =
    by_test IsCold
      (not (impl.options.max_events == 0) && leb impl.options.max_events impl.event_count)
      (λ h. refl) (λ h. c)

module _ (machine : Machine) where
  planned-cold :
      (impl : Impl) (entry : ℕ) (context : Context)
      → let p = plan machine impl entry context in
        p.error ≡ none → is_hot p.impl.observation_state ≡ false
  planned-cold impl entry context h =
      let (block, w, c) =
        program-Watching machine.virtual_query machine.decode_instruction impl entry (some context)
          h in
      ground (arith, w.states)

  scan-cold :
      (p : Planned) (entry : ℕ) (context : Context)
      → (p.error ≡ none → is_hot p.impl.observation_state ≡ false)
      → is_hot (program_or_scan p entry context).0.observation_state ≡ false
  unfolding program_or_scan
  scan-cold p entry context c = elim (Option-cases p.error) [
    | inl fine ↦ rw fine (c fine)
    | inr (e, broken) ↦ rw broken refl
  ]

  observe-cold :
      (impl : Impl) (entry : ℕ) (context : Context)
      → is_hot (observe_from machine impl entry context).0.observation_state ≡ false
  unfolding observe_from
  observe-cold impl entry context =
      scan-cold (plan machine impl entry context) entry context (planned-cold impl entry context)

  single_step-IsCold : (f : Finalized) → Concludes f → IsCold (finish_single_step machine f)
  unfolding finish_single_step
  single_step-IsCold f l =
      by_test IsCold (not f.continues) (λ h. let (r, i) = l.stops (ground arith) in ap is_hot i)
        (λ c.
          by_test IsCold f.context_already_programmed (λ h. ap is_hot (l.rotates h).state)
            (λ p.
              by_test IsCold f.waiting_for_resume
                (λ w. let (s, n) = l.resumes w (ground arith) p in ap is_hot s)
                (λ h. max_events-IsCold _ (observe-cold f.impl f.next_entry f.context))))

  emit_event-state :
      (b : Bool) (impl : Impl) (event : StepEvent)
      → (if b then record impl { events = event ∷ impl.events } else impl).observation_state
        ≡ impl.observation_state
  emit_event-state true impl event = refl
  emit_event-state false impl event = refl

  emit-state :
      (o : Option ResolvedValueProbe) (impl : Impl) (rip : ℕ) (context : Context)
      → (emit_value_probe machine o impl rip context).observation_state ≡ impl.observation_state
  unfolding emit_value_probe
  emit-state none impl rip context = refl
  emit-state (some p) impl rip context =
      let event = value_probe_event machine impl p rip context in
      by_test (λ (i : Impl). i.observation_state ≡ impl.observation_state) (is_capture_mode p.mode)
        {x = emit_event (count_event impl) event} {y = impl}
        (λ h. emit_event-state impl.options.has_callback (count_event impl) event) (λ h. refl)

  probe-state :
      (impl : Impl) (rip : ℕ) (context : Context)
      → (try_emit_value_probe_event machine impl rip context).observation_state
        ≡ impl.observation_state
  unfolding try_emit_value_probe_event
  probe-state impl rip context = emit-state _ impl rip context

  -- A session that has stepped over the end of a block.
  state-IsCold :
      (s : ObservationState) (impl : Impl) (rip : ℕ) (context : Context)
      → s ≡ impl.observation_state
      → s ≡ waiting_for_single_step
      → IsCold (handle_by_state machine s impl rip context)
  unfolding handle_by_state
  state-IsCold s impl rip context e w =
      subst (λ (t : ObservationState). IsCold (handle_by_state machine t impl rip context)) (sym w)
        (single_step-IsCold _
          (finalize-Concludes machine impl rip context true (ap is_hot (sym e ∙ w))))

  abbrev Keeps : ObservationState → Activation → Type 0
  Keeps state (failed s) = Unit
  Keeps state (skipped s) = s.observation_state ≡ state
  Keeps state (activated s c) = s.observation_state ≡ idle

  activation-IsCold :
      (a : Activation) (rip : ℕ) (context : Context)
      → Keeps waiting_for_single_step a
      → IsCold (after_activation machine a rip context)
  unfolding after_activation
  activation-IsCold (failed s) rip context k = refl
  activation-IsCold (activated s c) rip context k = ap is_hot k
  activation-IsCold (skipped s) rip context k =
      let t = try_emit_value_probe_event machine (count_step machine s) rip context in
      state-IsCold t.observation_state t rip context refl
        (probe-state (count_step machine s) rip context ∙ k)

  open_window-Keeps :
      (o : Option (ℕ × ℕ)) (impl : Impl) (rip : ℕ) (context : Context)
      → Keeps impl.observation_state (open_filter_window machine o impl rip context)
  unfolding open_filter_window activate_trap_window
  open_window-Keeps none impl rip context = tt
  open_window-Keeps (some (base, size)) impl rip context = refl

  mode-Keeps :
      (mode : ExecutionMode) (impl : Impl) (rip : ℕ) (context : Context)
      → Keeps impl.observation_state (filter_window_by_mode machine mode impl rip context)
  unfolding filter_window_by_mode
  mode-Keeps mode impl rip context =
      let r = resolve_trap_window_range machine impl rip in
      by_test (Keeps impl.observation_state)
        (not mode.has_mode || mode.is_system_target || not (is_trap_flag mode.mode))
        {x = skipped impl} {y = open_filter_window machine r impl rip context} (λ h. refl)
        (λ h. open_window-Keeps r impl rip context)

  filter-Keeps :
      (impl : Impl) (rip : ℕ) (context : Context)
      → Keeps impl.observation_state (try_activate_filter_trap_session machine impl rip context)
  unfolding try_activate_filter_trap_session
  filter-Keeps impl rip context =
      let (mode, cache) =
        resolve_execution_mode_for_address machine.virtual_query impl impl.region_cache rip in
      let s = record impl { region_cache = cache } in
      by_test (Keeps impl.observation_state)
        (not impl.options.control_flow_only || impl.active_probe.active) {x = skipped impl}
        {y = filter_window_by_mode machine mode s rip context} (λ h. refl)
        (λ h. mode-Keeps mode s rip context)

  local-IsCold :
      (o : Option ActiveProbeSession) (impl : Impl) (rip : ℕ) (context : Context)
      → impl.observation_state ≡ waiting_for_single_step
      → IsCold (after_local_probe machine o impl rip context)
  unfolding after_local_probe activate_trap_window
  local-IsCold (some session) impl rip context w = refl
  local-IsCold none impl rip context w =
      activation-IsCold (try_activate_filter_trap_session machine impl rip context) rip context (
        subst
          (λ (t : ObservationState).
            Keeps t (try_activate_filter_trap_session machine impl rip context))
          w (filter-Keeps impl rip context))

  -- After an exception in the state WaitingForSingleStep, handled or passed on, the session does
  -- not wait for a hot return, whether or not the transition armed a bypass.
  pub single_step-drops_bypass :
      (exception_code : ℕ) (impl : Impl) (context : Context)
      → impl.observation_state ≡ waiting_for_single_step
      → is_hot
          (handle_hardware_flow_exception machine exception_code impl
            context).impl.observation_state
        ≡ false
  unfolding handle_hardware_flow_exception
  single_step-drops_bypass exception_code impl context w =
      by_test IsCold (not (exception_code == exception_single_step)) (λ h. ap is_hot w)
        (λ h. local-IsCold _ impl context.rip context w)
