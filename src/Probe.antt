-- ===== src/Probe.antt =====
-- Value probes at run time: `FindValueProbeByAddress` of src/core/probe/VDTraceProbeObserver.cpp,
-- `TryEmitValueProbeEvent` of VDTraceProbe.cpp, and the local sessions of
-- src/core/observer/VDTraceObserver.cpp up to the switch of the backend.
pub mod Local
pub mod Countdown
use vd_trace.Base.{
  ℕ, ◌+◌, ◌%◌, Bool, true, false, not, ◌&&◌, ◌||◌, List, [], ◌∷◌, Option, none, some, ltb, leb,
  ◌==◌, if◌then◌else◌, u64_mod, take,
}
use vd_trace.Session.{
  EventKind, kind_eq, ProbeExitKind, ResolvedProbeWatch, ResolvedValueProbe, ActiveProbeWatchState,
  ActiveProbeSession, is_capture_mode, is_write_trace, ProbeCapture, StepEvent, no_event, Impl,
}
use vd_trace.Regions.{MemoryInformation, find_module_range}
use vd_trace.Hardware.{Context}
use vd_trace.Hardware.Transition.{next64}
use vd_trace.Runtime.{Machine, count_event, emit_event, in_module}

-- `std::lower_bound` on the sorted probes, and the test of what it finds.
unfoldable pub find_value_probe_by_address : List ResolvedValueProbe → ℕ → Option ResolvedValueProbe
find_value_probe_by_address [] address = none
find_value_probe_by_address (p ∷ ps) address =
    if ltb p.address address
    then find_value_probe_by_address ps address
    else if p.address == address
    then some p
    else none

-- `kProbeCaptureMaxCount`
abbrev pub probe_capture_max_count : ℕ
probe_capture_max_count = 4

-- `memcmp` on the bytes up to the size.
bytes_eq : List ℕ → List ℕ → Bool
bytes_eq [] [] = true
bytes_eq (a ∷ as') (b ∷ bs) = a == b && bytes_eq as' bs
bytes_eq _ _ = false

module _ (machine : Machine) where
  -- The event of a probe that captures.
  unfoldable pub value_probe_event : Impl → ResolvedValueProbe → ℕ → Context → StepEvent
  value_probe_event impl probe instruction context =
      let decode = machine.decode_instruction instruction in
      in_module (find_module_range impl.module_ranges instruction) (record no_event {
        sequence = next64 impl.event_count;
        thread_id = machine.current_thread_id;
        instruction = instruction;
        stack_pointer = context.rsp;
        block_begin = instruction;
        block_end = (instruction + decode.size) % u64_mod;
        call_depth = impl.current_call_depth;
        kind = EventKind.probe;
        instruction_size = decode.size;
        instruction_bytes = decode.bytes;
        probe_captures = take probe_capture_max_count (machine.probe_captures probe context);
      })

  unfoldable pub emit_value_probe : Option ResolvedValueProbe → Impl → ℕ → Context → Impl
  unfolding value_probe_event
  emit_value_probe none impl instruction context = impl
  emit_value_probe (some p) impl instruction context =
      if is_capture_mode p.mode
      then emit_event (count_event impl) (value_probe_event impl p instruction context)
      else impl

  -- What it returns is not read.
  unfoldable pub try_emit_value_probe_event : Impl → ℕ → Context → Impl
  unfolding emit_value_probe
  try_emit_value_probe_event impl instruction context =
      emit_value_probe (find_value_probe_by_address impl.value_probes instruction) impl instruction
        context

  snapshot_bytes : ActiveProbeWatchState → Option (List ℕ) → Bool × ActiveProbeWatchState
  unfolding bytes_eq
  snapshot_bytes watch none = (false, watch)
  snapshot_bytes watch (some now) = (
    not watch.valid || not (bytes_eq watch.bytes now),
    record watch { valid = true; bytes = now },
  )

  -- Whether the watched bytes changed, and the watch with what they are now.
  unfoldable pub try_snapshot_watch : ActiveProbeWatchState → Bool × ActiveProbeWatchState
  unfolding snapshot_bytes
  try_snapshot_watch watch =
      if not (watch.address == 0) && not (watch.size == 0)
      then snapshot_bytes watch (machine.read_memory watch.address watch.size)
      else (false, watch)

  abbrev pub fill_probe_watch_capture : ActiveProbeWatchState → ProbeCapture
  fill_probe_watch_capture watch = record {
    valid = watch.valid;
    value = watch.address;
    size = watch.size;
    has_bytes = watch.valid && not (watch.size == 0);
    bytes = watch.bytes;
  }

  -- The loop over the watches of a session: its captures, and the watches after it.
  unfoldable pub snapshot_watches :
      List ActiveProbeWatchState → List ProbeCapture × List ActiveProbeWatchState
  unfolding try_snapshot_watch
  snapshot_watches [] = ([], [])
  snapshot_watches (w ∷ ws) =
      let (changed, now) = try_snapshot_watch w in
      let (captures, rest) = snapshot_watches ws in
      (if changed then fill_probe_watch_capture now ∷ captures else captures, now ∷ rest)

  start_watch : ResolvedProbeWatch → ActiveProbeWatchState
  unfolding try_snapshot_watch
  start_watch w =
      (try_snapshot_watch
        (record { valid = false; address = w.address; size = w.size; bytes = [] })).1

  start_watches : List ResolvedProbeWatch → List ActiveProbeWatchState
  unfolding start_watch
  start_watches [] = []
  start_watches (w ∷ ws) = start_watch w ∷ start_watches ws

  region_around : Option MemoryInformation → ℕ → ℕ × ℕ
  region_around none instruction = (instruction, 1)
  region_around (some mbi) instruction = (mbi.base_address, mbi.region_size)

  -- The session that `TryActivateLocalProbeSession` builds.
  unfoldable pub probe_session : Impl → ResolvedValueProbe → ℕ → Bool → ActiveProbeSession
  unfolding start_watches region_around
  probe_session impl probe instruction switch_from_hardware_flow =
      let (base, size) = region_around (machine.virtual_query instruction) instruction in
      record {
        active = true;
        restore_hardware_backend = switch_from_hardware_flow;
        mode = probe.mode;
        exit_kind = probe.exit_kind;
        remaining_steps = probe.step_limit;
        start_call_depth = impl.current_call_depth;
        pending_entry = instruction;
        region_base = base;
        region_size = size;
        watches =
            if is_write_trace probe.mode
            then start_watches (take probe_capture_max_count probe.watches)
            else [];
      }

  unfoldable pub start_session :
      Option ResolvedValueProbe → Impl → ℕ → Bool → Option ActiveProbeSession
  unfolding probe_session
  start_session none impl instruction switch = none
  start_session (some p) impl instruction switch =
      if is_capture_mode p.mode then none else some (probe_session impl p instruction switch)

  -- The guards of `TryActivateLocalProbeSession`: the session that it starts, if any.
  unfoldable pub local_probe_session : Impl → ℕ → Bool → Option ActiveProbeSession
  unfolding start_session
  local_probe_session impl instruction switch =
      if impl.active_probe.active
      then none
      else start_session (find_value_probe_by_address impl.value_probes instruction) impl
          instruction switch

abbrev pub should_exit_probe_by_return : ActiveProbeSession → EventKind → ℕ → Bool
should_exit_probe_by_return session kind call_depth =
    kind_eq kind EventKind.return && call_depth == session.start_call_depth

unfoldable pub should_exit_probe_by_leave : ActiveProbeSession → ℕ → Bool
should_exit_probe_by_leave session current_rip =
    not (session.region_size == 0)
    && (ltb current_rip session.region_base
        || leb ((session.region_base + session.region_size) % u64_mod) current_rip)

-- The switch on the exit of the session.
unfoldable pub exits_by_kind : ProbeExitKind → ActiveProbeSession → EventKind → ℕ → ℕ → Bool
exits_by_kind ProbeExitKind.return session kind call_depth rip =
    should_exit_probe_by_return session kind call_depth
exits_by_kind ProbeExitKind.leave_region session kind call_depth rip =
    should_exit_probe_by_leave session rip
exits_by_kind ProbeExitKind.return_or_leave_region session kind call_depth rip =
    should_exit_probe_by_return session kind call_depth || should_exit_probe_by_leave session rip
