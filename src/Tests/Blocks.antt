-- ===== src/Tests/Blocks.antt =====
-- The theorems on basic blocks, debug registers and observation plans at concrete inputs.
use vd_trace.Base.{◌≡◌, refl, true, [], ◌∷◌, none, some, take}
use vd_trace.Hardware.{
  analyze_basic_block, is_hardware_terminator, store_observed_addresses_unique,
  apply_hardware_context_observations,
}
use vd_trace.Hardware.Observe.{StoresUnique, store_observed-StoresUnique, Programs, apply-Programs}
use vd_trace.Hardware.Blocks.{IsBlock, Result, analyze-IsBlock}
use vd_trace.Hardware.Program.{
  Planned, has_value_probe_in_range, program_hardware_observation, program_context,
}
use vd_trace.Hardware.Program.Watch.{Watching, program-Watching}
use vd_trace.Tests.{sample_impl, sample_query, sample_code, sample_context}

store_observed_example :
    let r = store_observed_addresses_unique sample_impl (9 ∷ 0 ∷ 9 ∷ 5 ∷ []) 4 in
    StoresUnique (take 4 (9 ∷ 0 ∷ 9 ∷ 5 ∷ [])) r.1.observed_addresses r.1.observed_count
    × (r.0 ≡ r.1.observed_count)
    × (r.1 ≡ record sample_impl {
      observed_addresses = r.1.observed_addresses;
      observed_count = r.1.observed_count;
    })
store_observed_example = store_observed-StoresUnique sample_impl (9 ∷ 0 ∷ 9 ∷ 5 ∷ []) 4

apply-Programs_example :
    Programs sample_context
      (apply_hardware_context_observations sample_context (9 ∷ 5 ∷ 0 ∷ 0 ∷ []) 2 true)
      (9 ∷ 5 ∷ 0 ∷ 0 ∷ [])
      2
      true
apply-Programs_example = apply-Programs sample_context (9 ∷ 5 ∷ 0 ∷ 0 ∷ []) 2 true

analyze-IsBlock_example : Result sample_code 0x1000 (analyze_basic_block sample_code 0x1000)
analyze-IsBlock_example = analyze-IsBlock sample_code 0x1000

abbrev sample_plan : Planned
sample_plan =
    program_hardware_observation sample_query sample_code sample_impl 0x1000 (some sample_context)

sample_plan_succeeds : sample_plan.error ≡ none
unfolding program_hardware_observation store_observed_addresses_unique analyze_basic_block
    is_hardware_terminator has_value_probe_in_range
sample_plan_succeeds = refl

program-Watching_example :
    IsBlock sample_code 0x1000 sample_plan.impl.pending_block
    × Watching sample_plan.impl
    × (sample_plan.context ≡ program_context sample_plan.impl (some sample_context))
program-Watching_example =
    program-Watching sample_query sample_code sample_impl 0x1000 (some sample_context)
      sample_plan_succeeds
