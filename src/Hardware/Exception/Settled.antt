-- ===== src/Hardware/Exception/Settled.antt =====
-- The handler as a whole: the scan of instructions, the search of the watched addresses, and the
-- windows of the trap flag.
use vd_trace.Base.{
  zero, suc, if◌then◌else◌, contains, take, Option-cases, inr, ℕ, ◌≡◌, ◌≢◌, refl, sym, true, not,
  ◌||◌, List, Option, none, some, ◌==◌, arith, by_test, inl, ap,
}
use vd_trace.Session.{
  ActiveProbeSession, ObservationState, idle, waiting_for_destination, waiting_for_tail,
  waiting_for_single_step, linear_scan, waiting_for_hot_return, Impl,
}
use vd_trace.Hardware.{is_hardware_terminator, Context}
use vd_trace.Hardware.Program.{Planned}
use vd_trace.Hardware.Exception.{
  handle_matched, after_activation, after_local_probe, handle_by_state,
  handle_hardware_flow_exception, handle_linear_scan, scan_plan, exception_single_step,
  try_emit_value_probe_event,
}
use vd_trace.Hardware.Transition.Finalize.Whole.{finalize-Concludes}
use vd_trace.Hardware.Transition.Finalize.Ending.{is_hot}
use vd_trace.Runtime.{pass_on, Machine}
use vd_trace.Regions.Policy.{ExecutionMode, is_trap_flag, resolve_execution_mode_for_address}
use vd_trace.TrapWindow.{
  resolve_trap_window_range, Activation, failed, skipped, activated, activate_trap_window,
  try_activate_filter_trap_session, or_context, open_filter_window, filter_window_by_mode,
}
use vd_trace.Hardware.Exception.Controlled.{
  waits_for_step, IsControlled, Settles, passed, settled, step-IsControlled, stop_session-Settles,
  plan, planned-IsControlled,
}
use vd_trace.Hardware.Exception.Ends.{single_step-Settles, matched-Settles}

module _ (machine : Machine) where
  scan_plan-Settles :
      (before : Context) (p : Planned) (context : Context)
      → (p.error ≡ none → IsControlled p.impl (or_context p.context context))
      → Settles before (scan_plan machine p context)
  unfolding scan_plan
  scan_plan-Settles before p context c = elim (Option-cases p.error) [
    | inl fine ↦ rw fine (settled refl (c fine))
    | inr (e, broken) ↦ rw broken (stop_session-Settles before p.impl context)
  ]

  scan-Settles :
      (before : Context) (impl : Impl) (rip : ℕ) (context : Context)
      → impl.observation_state ≡ linear_scan
      → Settles before (handle_linear_scan machine impl rip context)
  unfolding handle_linear_scan
  scan-Settles before impl rip context e =
      let decode = machine.decode_instruction rip in
      by_test (Settles before) (decode.size == 0) (λ h. stop_session-Settles before impl context)
        (λ h.
          by_test (Settles before) (is_hardware_terminator decode.kind)
            (λ t.
              scan_plan-Settles before (plan machine impl rip context) context
                (planned-IsControlled machine impl rip context))
            (λ t. settled refl (step-IsControlled impl context (inl (ap waits_for_step e)))))

  -- The count of a session that watches an address is not 0.
  watched_count : (rip n : ℕ) (as' : List ℕ) → contains rip (take n as') ≡ true → n ≢ 0
  watched_count rip zero as' h = cc
  watched_count rip (suc n) as' h = omega arith

  search-Settles :
      (s : ObservationState) (impl : Impl) (rip : ℕ) (context : Context)
      → s ≡ impl.observation_state
      → let hit = contains rip (take impl.observed_count impl.observed_addresses) in
        Settles context
          (if not hit then pass_on impl context else handle_matched machine s impl rip context)
  search-Settles s impl rip context e =
      let hit = contains rip (take impl.observed_count impl.observed_addresses) in
      by_test (Settles context) (not hit) (λ h. passed refl refl)
        (λ h.
          matched-Settles machine s context impl rip context e
            (watched_count rip impl.observed_count impl.observed_addresses (ground arith)))

  state-Settles :
      (s : ObservationState) (impl : Impl) (rip : ℕ) (context : Context)
      → s ≡ impl.observation_state
      → Settles context (handle_by_state machine s impl rip context)
  unfolding handle_by_state
  state-Settles linear_scan impl rip context e = scan-Settles context impl rip context (sym e)
  state-Settles waiting_for_single_step impl rip context e =
      single_step-Settles machine context _
        (finalize-Concludes machine impl rip context true (ap is_hot (sym e)))
  state-Settles idle impl rip context e = search-Settles idle impl rip context e
  state-Settles waiting_for_destination impl rip context e =
      search-Settles waiting_for_destination impl rip context e
  state-Settles waiting_for_tail impl rip context e =
      search-Settles waiting_for_tail impl rip context e
  state-Settles waiting_for_hot_return impl rip context e =
      search-Settles waiting_for_hot_return impl rip context e

  -- A window for the trap flag steps through its region.
  window-IsControlled :
      (impl : Impl) (session : ActiveProbeSession) (rip : ℕ) (context : Context)
      → let r = activate_trap_window impl session rip context in IsControlled r.0 r.1
  unfolding activate_trap_window
  window-IsControlled impl session rip context = step-IsControlled _ context (inr refl)

  -- What an activation may leave.
  abbrev pub Opens : Activation → Type 0
  Opens (failed s) = Unit
  Opens (skipped s) = Unit
  Opens (activated s c) = IsControlled s c

  activation-Settles :
      (a : Activation) (rip : ℕ) (context : Context)
      → Opens a
      → Settles context (after_activation machine a rip context)
  unfolding after_activation
  activation-Settles (failed s) rip context o = stop_session-Settles context s context
  activation-Settles (activated s c) rip context o = settled refl o
  activation-Settles (skipped s) rip context o =
      state-Settles _ (try_emit_value_probe_event machine _ rip context) rip context refl

  open_window-Opens :
      (o : Option (ℕ × ℕ)) (impl : Impl) (rip : ℕ) (context : Context)
      → Opens (open_filter_window machine o impl rip context)
  unfolding open_filter_window
  open_window-Opens none impl rip context = tt
  open_window-Opens (some (base, size)) impl rip context = window-IsControlled impl _ rip context

  mode-Opens :
      (mode : ExecutionMode) (impl : Impl) (rip : ℕ) (context : Context)
      → Opens (filter_window_by_mode machine mode impl rip context)
  unfolding filter_window_by_mode
  mode-Opens mode impl rip context =
      let r = resolve_trap_window_range machine impl rip in
      by_test Opens (not mode.has_mode || mode.is_system_target || not (is_trap_flag mode.mode))
        {x = skipped impl} {y = open_filter_window machine r impl rip context} (λ h. tt)
        (λ h. open_window-Opens r impl rip context)

  pub filter-Opens :
      (impl : Impl) (rip : ℕ) (context : Context)
      → Opens (try_activate_filter_trap_session machine impl rip context)
  unfolding try_activate_filter_trap_session
  filter-Opens impl rip context =
      let (mode, cache) =
        resolve_execution_mode_for_address machine.virtual_query impl impl.region_cache rip in
      let s = record impl { region_cache = cache } in
      by_test Opens (not impl.options.control_flow_only || impl.active_probe.active)
        {x = skipped impl} {y = filter_window_by_mode machine mode s rip context} (λ h. tt)
        (λ h. mode-Opens mode s rip context)

  local-Settles :
      (o : Option ActiveProbeSession) (impl : Impl) (rip : ℕ) (context : Context)
      → Settles context (after_local_probe machine o impl rip context)
  unfolding after_local_probe
  local-Settles (some session) impl rip context =
      settled refl (window-IsControlled impl session rip context)
  local-Settles none impl rip context =
      activation-Settles _ rip context (filter-Opens impl rip context)

  -- An exception is passed on with its context as it was, or the thread goes on under control.
  pub handle-Settles :
      (exception_code : ℕ) (impl : Impl) (context : Context)
      → Settles context (handle_hardware_flow_exception machine exception_code impl context)
  unfolding handle_hardware_flow_exception
  handle-Settles exception_code impl context =
      by_test (Settles context) (not (exception_code == exception_single_step))
        (λ h. passed refl refl) (λ h. local-Settles _ impl context.rip context)
