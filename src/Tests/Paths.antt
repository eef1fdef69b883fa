-- ===== src/Tests/Paths.antt =====
-- The theorems on regions, depth rules, transitions and bypasses at concrete inputs.
use vd_trace.Base.{
  ◌↔◌, ℕ, ◌+◌, ◌<◌, ◌≤◌, ◌%◌, ◌≡◌, ◌≢◌, refl, inl, inr, true, false, not, List, [], ◌∷◌, none, some,
  arith, length, ◌==◌, if◌then◌else◌, u64_mod,
}
use vd_trace.Session.{
  ExecutionAddressKind, anonymous_executable, Impl, FlowEdgeKey, call, return, jump,
}
use vd_trace.Regions.{
  is_executable_protection, upper_bound_prev, query_non_module_executable_region,
  try_read_cached_region, store_cached_region, MemoryInformation, find_module_range,
  find_depth_filter_module_rule, resolve_execution_address,
}
use vd_trace.Regions.Lookup.{
  first_inside, find_module_range-first_inside, find_depth_filter_module_rule-first_inside,
}
use vd_trace.Regions.Cache.{IsConsistent, empty_cache, empty_cache-IsSound}
use vd_trace.Regions.Cache.Changing.{Memory, resolve_all, AllWereKinds, resolve_all-WasKind}
use vd_trace.Regions.Policy.{
  suppress-follow, follow-MayFollow, MayFollow, should_suppress_trap_flag_call,
  should_follow_known_call_target, trap_flag_frame_suppressed,
}
use vd_trace.Hardware.Transition.Emit.{
  emitted, first_new, recorded, emitted-first_new, emitted-count, after_transitions,
}
use vd_trace.Hardware.Transition.Calls.{
  Transition, take_transition, run_transitions, DepthFollows, Nested, SameStacks, take-DepthFollows,
  Nested-SameStacks,
}
use vd_trace.Hardware.Transition.{resolve_hot_bypass_resume_address, frame_return_of}
use vd_trace.Hardware.Transition.HotBypass.{
  CanBypass, arms_after, hits_needed, arms_after-threshold,
}
use vd_trace.Tests.{
  program_module, library_module, sample_filters, sample_impl, sample_query, generated_code,
  jump_from, ending_in, no_frame,
}

find_module_range_example :
    find_module_range (program_module ∷ library_module ∷ []) 0x3004
    ≡ first_inside (λ r. r) 0x3004 (program_module ∷ library_module ∷ [])
find_module_range_example =
    find_module_range-first_inside (program_module ∷ library_module ∷ []) 0x3004 (ground arith)

find_rule_example :
    find_depth_filter_module_rule sample_filters 0x3004
    ≡ (if 0x3004 == 0 then none else first_inside (λ r. r.range) 0x3004 sample_filters.module_rules)
find_rule_example = find_depth_filter_module_rule-first_inside sample_filters 0x3004 (ground arith)

sample_answer : (a : ℕ) (m : MemoryInformation) → sample_query a ≡ some m → m ≡ generated_code
sample_answer a m e = ground arith

sample_same :
    (b : ℕ) (m : MemoryInformation)
    → m ≡ generated_code
    → m.base_address ≤ b
    → b < m.base_address + m.region_size
    → (n : MemoryInformation) × (sample_query b ≡ some n)
      × (n.state ≡ m.state)
      × (n.protect ≡ m.protect)
      × (n.memory_type ≡ m.memory_type)
sample_same b m e l h = (generated_code, ground arith, ground arith, ground arith, ground arith)

sample-IsConsistent : IsConsistent sample_query
sample-IsConsistent = record {
  same_attributes = λ a b m e. sample_same b m (sample_answer a m e);
  in_space = λ a m e. let g = sample_answer a m e in ground arith;
}

-- The generated code is freed between two of the addresses.
abbrev freed : Memory
freed address = none

freed-IsConsistent : IsConsistent freed
freed-IsConsistent = record { same_attributes = λ a b m e l h. cc; in_space = λ a m e. cc }

abbrev some_addresses : List (Memory × ℕ)
some_addresses = (sample_query, 0x5000) ∷ (freed, 0x5800) ∷ (freed, 0x9000) ∷ []

-- The second address is still taken for generated code.
freed_stays :
    resolve_all sample_impl empty_cache some_addresses
    ≡ anonymous_executable ∷ anonymous_executable ∷ ExecutionAddressKind.unknown ∷ []
unfolding resolve_all resolve_execution_address find_module_range upper_bound_prev
    is_executable_protection find_depth_filter_module_rule query_non_module_executable_region
    try_read_cached_region store_cached_region
freed_stays = refl

resolve_all-WasKind_example :
    AllWereKinds sample_impl [] some_addresses (resolve_all sample_impl empty_cache some_addresses)
resolve_all-WasKind_example =
    resolve_all-WasKind sample_impl some_addresses
      (sample-IsConsistent, (freed-IsConsistent, (freed-IsConsistent, tt)))

not_suppressed : trap_flag_frame_suppressed sample_impl ≡ false
not_suppressed = refl

suppress-follow_example :
    (should_suppress_trap_flag_call sample_query sample_impl empty_cache 0 0x3010).0
    ≡ not (should_follow_known_call_target sample_query sample_impl empty_cache 0x3010).0
suppress-follow_example = suppress-follow sample_query sample_impl empty_cache 0x3010 not_suppressed

follow-MayFollow_example :
    let r = (resolve_execution_address sample_query sample_impl empty_cache 0x3010).0 in
    ((should_follow_known_call_target sample_query sample_impl empty_cache 0x3010).0 ≡ true)
    ↔ MayFollow sample_impl r.kind r.depth_rule
follow-MayFollow_example = follow-MayFollow sample_query sample_impl empty_cache 0x3010

abbrev some_jumps : List FlowEdgeKey
some_jumps =
    jump_from 0x1000 0x1010
    ∷ jump_from 0x9000 0x1000
    ∷ jump_from 0x1000 0x1010
    ∷ jump_from 0x1004 0
    ∷ []

emitted-first_new_example :
    emitted sample_query sample_impl some_jumps
    ≡ first_new [] (recorded sample_query sample_impl some_jumps)
emitted-first_new_example =
    emitted-first_new sample_query sample_impl some_jumps sample-IsConsistent
      (empty_cache-IsSound sample_query sample_impl) refl

emitted-count_example :
    let t = after_transitions sample_query sample_impl some_jumps in
    (t.outside_suppressed_count
        + t.duplicate_edge_suppressed_count
        + length (emitted sample_query sample_impl some_jumps))
      % u64_mod
    ≡ (0 + 0 + 4) % u64_mod
emitted-count_example = emitted-count sample_query sample_impl some_jumps

abbrev a_call : Transition
a_call = record {
  block = ending_in call 0x1000 0x1100;
  next_entry = 0x1100;
  sample_frame = no_frame;
}

abbrev its_return : Transition
its_return = record {
  block = ending_in return 0x1104 0;
  next_entry = 0x1000;
  sample_frame = no_frame;
}

sample-DepthFollows : DepthFollows sample_impl
sample-DepthFollows = record { depth = refl; paired = refl }

take-DepthFollows_example : DepthFollows (take_transition sample_impl a_call)
take-DepthFollows_example = take-DepthFollows sample_impl a_call sample-DepthFollows

a_call-Nested : Nested (a_call ∷ its_return ∷ [])
a_call-Nested =
    Nested.followed a_call its_return [] [] (refl, refl) refl (omega arith) Nested.done (refl, refl)
      refl refl Nested.done refl

Nested-SameStacks_example :
    SameStacks (run_transitions sample_impl (a_call ∷ its_return ∷ [])) sample_impl
    × ((run_transitions sample_impl (a_call ∷ its_return ∷ [])).current_call_depth ≡ 0)
    × DepthFollows (run_transitions sample_impl (a_call ∷ its_return ∷ []))
Nested-SameStacks_example =
    Nested-SameStacks sample_impl {ts = a_call ∷ its_return ∷ []} sample-DepthFollows a_call-Nested

abbrev looping : Impl
looping = record sample_impl {
  pending_block = ending_in jump 0x1010 0x1000;
  call_return_stack = 0x2000 ∷ [];
}

looping-CanBypass : CanBypass looping 0x1000
looping-CanBypass = record {
  first_hit = refl;
  target = omega arith;
  threshold = omega arith;
  threshold_word = omega arith;
  kind = inr refl;
  has_exit = inl (omega arith);
}

looping_is_fresh :
    (looping.suppressed_hot_anchor ≢ (
      if not (frame_return_of looping == 0)
      then frame_return_of looping
      else resolve_hot_bypass_resume_address looping 0x1000))
looping_is_fresh = ground arith

arms_after_example :
    arms_after 0x1000 1 2 looping ≡ (2 + 1 == hits_needed looping 0x1000 1 looping-CanBypass)
arms_after_example =
    arms_after-threshold looping 0x1000 1 looping-CanBypass 2 (inl looping_is_fresh) (omega arith)

abbrev hot : Impl
hot = record looping {
  suppressed_transition_streak = 2;
  suppressed_hot_anchor = 0x2000;
  suppressed_frame_depth = 1;
}
