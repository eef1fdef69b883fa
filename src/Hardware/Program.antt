-- ===== src/Hardware/Program.antt =====
-- `ProgramHardwareObservationImpl` of src/core/hardware/VDTraceHardwareSupport.cpp, with
-- `HasValueProbeInRange` of src/core/probe/VDTraceProbe.cpp and `FindAsyncProbe` of
-- src/core/async/VDTraceAsyncSupport.cpp: what is watched for the end of a basic block.
pub mod Watch
use vd_trace.Base.{
  ℕ, ◌+◌, ◌%◌, Bool, true, false, not, ◌&&◌, ◌||◌, List, [], ◌∷◌, Option, none, some, ltb, leb,
  ◌==◌, if◌then◌else◌, u64_mod, length,
}
use vd_trace.Session.{
  EventKind, call, jump, conditional_jump, return, syscall, interrupt, InstructionDecodeResult,
  BasicBlockInfo, no_decode, ObservationState, idle, waiting_for_destination, waiting_for_tail,
  ResolvedAsyncProbe, ResolvedValueProbe, Impl,
}
use vd_trace.Regions.{MemoryInformation}
use vd_trace.Regions.Policy.{should_follow_known_call_target}
use vd_trace.Hardware.{
  Context, apply_hardware_context_observations, store_observed_addresses_unique,
  clear_pending_resolution, analyze_basic_block,
}

-- `lower_bound` for `begin`, and the test of what it finds.
probe_before : ℕ → ℕ → List ResolvedValueProbe → Bool
probe_before begin end [] = false
probe_before begin end (p ∷ ps) =
    if ltb p.address begin then probe_before begin end ps else ltb p.address end

unfoldable pub has_value_probe_in_range : Impl → ℕ → ℕ → Bool
unfolding probe_before
has_value_probe_in_range impl begin end =
    if leb end begin then false else probe_before begin end impl.value_probes

unfoldable pub is_async_probe : List ResolvedAsyncProbe → ℕ → Bool
is_async_probe [] address = false
is_async_probe (p ∷ ps) address = p.address == address || is_async_probe ps address

-- The causes of failure, one for each message of the source.
pub data PlanError : Type 0 where
  block_not_decoded value_probe_in_block block_truncated no_observation : PlanError

pub record Planned : Type 0 where
  pub error : Option PlanError
  pub impl : Impl
  pub context : Option Context

abbrev watch : Impl → ObservationState → ℕ → List ℕ × Impl
watch impl state address = (address ∷ [], record impl { observation_state = state })

-- The two ways in which a call that is not followed waits for its return.
abbrev resume_behind : Impl → BasicBlockInfo → Impl
resume_behind impl block = record impl {
  pending_resume_entry = block.fallthrough;
  pending_target_override = block.tail_decode.target;
  pending_resume_entry_valid = true;
  pending_target_override_valid = true;
}

-- case EventKind::Call, on whether the target is followed. (`ShouldFollowMinimalOutsideTarget`
-- returns false.)
plan_call : Impl → BasicBlockInfo → Bool → List ℕ × Impl
plan_call impl block true = watch impl waiting_for_destination block.tail_decode.target
plan_call impl block false =
    if is_async_probe impl.async_probes block.tail_decode.target
    then watch (resume_behind impl block) waiting_for_tail block.tail
    else watch (resume_behind impl block) waiting_for_destination block.fallthrough

abbrev plan_fails : PlanError → Impl → Option Context → Planned
plan_fails e impl context = record { error = some e; impl = impl; context = context }

abbrev pub program_context : Impl → Option Context → Option Context
program_context impl none = none
program_context impl (some c) =
    some (apply_hardware_context_observations c impl.observed_addresses impl.observed_count false)

abbrev begin_plan : Impl → BasicBlockInfo → Impl
begin_plan impl block = clear_pending_resolution (record impl {
  pending_block = block;
  observation_state = idle;
  tf_probe_source = 0;
  tf_probe_decode = no_decode;
})

-- The checks between the analysis and the programming, in their order: the block is plain up to
-- its fallthrough, it ends in a branch, and an address was stored.
finish_plan : Bool → Bool → ℕ → Impl → Impl → Option Context → Planned
finish_plan probed closed stored s u context =
    if probed
    then plan_fails value_probe_in_block s context
    else if not closed
    then plan_fails block_truncated s context
    else if stored == 0
    then plan_fails no_observation u context
    else record { error = none; impl = u; context = program_context u context }

module _ (virtual_query : ℕ → Option MemoryInformation) where
  -- The switch on the kind of the tail: `addresses` and the session.
  plan_by_kind : Impl → BasicBlockInfo → EventKind → List ℕ × Impl
  unfolding plan_call
  plan_by_kind impl block conditional_jump = (
    block.tail_decode.target ∷ block.fallthrough ∷ [],
    record impl { observation_state = waiting_for_destination },
  )
  plan_by_kind impl block call =
      if block.tail_decode.has_target
      then (let (follow, cache) =
            should_follow_known_call_target virtual_query impl impl.region_cache
              block.tail_decode.target in
          plan_call (record impl { region_cache = cache }) block follow)
      else watch
          (record impl {
            pending_resume_entry = block.fallthrough;
            pending_resume_entry_valid = true;
          })
          waiting_for_tail block.tail
  plan_by_kind impl block jump =
      if block.tail_decode.has_target
      then watch impl waiting_for_destination block.tail_decode.target
      else watch impl waiting_for_tail block.tail
  plan_by_kind impl block return = watch impl waiting_for_tail block.tail
  plan_by_kind impl block syscall = watch impl waiting_for_tail block.tail
  plan_by_kind impl block interrupt = watch impl waiting_for_tail block.tail
  plan_by_kind impl block _ = ([], impl)

  program_block : Impl → ℕ → BasicBlockInfo → Option Context → Planned
  unfolding plan_by_kind finish_plan
  program_block impl entry block context =
      let s = begin_plan impl block in
      let (addresses, t) = plan_by_kind s block block.tail_decode.kind in
      let (stored, u) = store_observed_addresses_unique t addresses (length addresses) in
      finish_plan (has_value_probe_in_range s ((entry + 1) % u64_mod) block.fallthrough)
        (block.emits_edge && not block.truncated) stored s u context

  program_analysis : Impl → ℕ → Option BasicBlockInfo → Option Context → Planned
  unfolding program_block
  program_analysis impl entry none context = plan_fails block_not_decoded impl context
  program_analysis impl entry (some block) context = program_block impl entry block context

  unfoldable pub program_hardware_observation :
      (ℕ → InstructionDecodeResult) → Impl → ℕ → Option Context → Planned
  unfolding program_analysis
  program_hardware_observation decode_instruction impl entry context =
      program_analysis impl entry (analyze_basic_block decode_instruction entry) context
