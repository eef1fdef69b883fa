-- ===== src/Hardware/Transition/Emit.antt =====
-- `ShouldEmitTransition` over a sequence of transitions: the policy of the first hit.
use vd_trace.Base.{
  ℕ, ◌+◌, ◌%◌, ◌≡◌, refl, ap, Bool, true, false, List, [], ◌∷◌, Option, arith, if◌then◌else◌,
  Bool-cases, inl, inr, length, u64_mod,
}
use vd_trace.Session.{FlowEdgeKey, is_every_hit, RegionCache, Impl, ExecutionAddressKind}
use vd_trace.Regions.{
  MemoryInformation, resolve_execution_address, query_non_module_executable_region,
  try_read_cached_region,
}
use vd_trace.Regions.Cache.{IsConsistent, IsSound, empty_cache, resolve-Keeps}
use vd_trace.Hardware.Transition.{
  contains_edge, is_recordable, emit_from, should_emit_transition, next64,
}

module _ (virtual_query : ℕ → Option MemoryInformation) where
  -- The session after a sequence of transitions, and those that were emitted.
  pub after_transitions : Impl → List FlowEdgeKey → Impl
  after_transitions impl [] = impl
  after_transitions impl (k ∷ ks) =
      after_transitions (should_emit_transition virtual_query impl k).1 ks

  pub emitted : Impl → List FlowEdgeKey → List FlowEdgeKey
  emitted impl [] = []
  emitted impl (k ∷ ks) =
      let r = should_emit_transition virtual_query impl k in
      let rest = emitted r.1 ks in if r.0 then k ∷ rest else rest

  -- The transitions whose source lies in memory that is recorded.
  abbrev pub is_recorded : Impl → FlowEdgeKey → Bool
  is_recorded impl k =
      is_recordable impl
        (resolve_execution_address virtual_query impl empty_cache k.instruction).0.kind

  pub recorded : Impl → List FlowEdgeKey → List FlowEdgeKey
  recorded impl [] = []
  recorded impl (k ∷ ks) =
      let rest = recorded impl ks in if is_recorded impl k then k ∷ rest else rest

-- The edges that have not occurred before, each at its first occurrence.
pub first_new : List FlowEdgeKey → List FlowEdgeKey → List FlowEdgeKey
first_new seen [] = []
first_new seen (k ∷ ks) =
    let skipped = first_new seen ks in
    let kept = first_new (k ∷ seen) ks in if contains_edge k seen then skipped else k ∷ kept

-- What a transition can change of a session.
abbrev emitting : Impl → RegionCache → ℕ → ℕ → List FlowEdgeKey → Impl
emitting impl cache outside duplicate seen = record impl {
  region_cache = cache;
  outside_suppressed_count = outside;
  duplicate_edge_suppressed_count = duplicate;
  seen_edges = seen;
}

module _ (virtual_query : ℕ → Option MemoryInformation) (impl : Impl) where
  resolve-emitting :
      (cache c : RegionCache) (o d : ℕ) (seen : List FlowEdgeKey) (a : ℕ)
      → resolve_execution_address virtual_query (emitting impl cache o d seen) c a
        ≡ resolve_execution_address virtual_query impl c a
  unfolding resolve_execution_address query_non_module_executable_region try_read_cached_region
  resolve-emitting cache c o d seen a = refl

  -- One transition under the policy of the first hit, by whether its source is recorded and its
  -- edge is known.
  abbrev decided : Bool → Bool → RegionCache → ℕ → ℕ → List FlowEdgeKey → FlowEdgeKey → Bool × Impl
  decided false known cache o d seen k = (false, emitting impl cache (next64 o) d seen)
  decided true false cache o d seen k = (true, emitting impl cache o d (k ∷ seen))
  decided true true cache o d seen k = (false, emitting impl cache o (next64 d) seen)

  emit_from-decided :
      (kind : ExecutionAddressKind) (cache : RegionCache) (o d : ℕ) (seen : List FlowEdgeKey)
      (k : FlowEdgeKey)
      → is_every_hit impl.options.hit_policy ≡ false
      → emit_from (emitting impl cache o d seen) kind k
        ≡ decided (is_recordable impl kind) (contains_edge k seen) cache o d seen k
  unfolding emit_from
  emit_from-decided kind cache o d seen k first = ground arith

  module _ (c : IsConsistent virtual_query)
      (first : is_every_hit impl.options.hit_policy ≡ false) where
    step-decided :
        (cache : RegionCache) (o d : ℕ) (seen : List FlowEdgeKey) (k : FlowEdgeKey)
        → IsSound virtual_query impl cache
        → should_emit_transition virtual_query (emitting impl cache o d seen) k
          ≡ decided
              (is_recorded virtual_query impl k)
              (contains_edge k seen)
              (resolve_execution_address virtual_query impl cache k.instruction).1
              o
              d
              seen
              k
    unfolding should_emit_transition
    step-decided cache o d seen k s = rw (
      resolve-emitting,
      emit_from-decided,
      (resolve-Keeps virtual_query impl c cache s k.instruction).0.0,
      first,
    )

    emitted-run :
        (cache : RegionCache) (o d : ℕ) (seen ks : List FlowEdgeKey)
        → IsSound virtual_query impl cache
        → emitted virtual_query (emitting impl cache o d seen) ks
          ≡ first_new seen (recorded virtual_query impl ks)
    unfolding emitted first_new recorded
    emitted-run cache o d seen [] s = refl
    emitted-run cache o d seen (k ∷ ks) s =
        let r = resolve_execution_address virtual_query impl cache k.instruction in
        let s' = (resolve-Keeps virtual_query impl c cache s k.instruction).1 in
        rw (step-decided cache o d seen k s) (elim (Bool-cases (is_recorded virtual_query impl k)) [
          | inr outside ↦ rw outside (emitted-run r.1 (next64 o) d seen ks s')
          | inl inside ↦ elim (Bool-cases (contains_edge k seen)) [
            | inl known ↦ rw (inside, known) (emitted-run r.1 o (next64 d) seen ks s')
            | inr new ↦ rw (inside, new) (ap (◌∷◌ k) (emitted-run r.1 o d (k ∷ seen) ks s'))
          ]
        ])

-- Under the policy of the first hit a sequence of transitions emits exactly those whose source
-- lies in recorded memory and whose edge has not been seen before, each at its first occurrence
-- and in order. The hypotheses: `VirtualQuery` answers consistently, and the region cache that
-- the session starts with agrees with it.
pub emitted-first_new :
    (virtual_query : ℕ → Option MemoryInformation) (impl : Impl) (ks : List FlowEdgeKey)
    → IsConsistent virtual_query
    → IsSound virtual_query impl impl.region_cache
    → is_every_hit impl.options.hit_policy ≡ false
    → emitted virtual_query impl ks ≡ first_new impl.seen_edges (recorded virtual_query impl ks)
emitted-first_new virtual_query impl ks c s first =
    emitted-run virtual_query impl c first impl.region_cache impl.outside_suppressed_count
      impl.duplicate_edge_suppressed_count impl.seen_edges ks s

abbrev as_number : Bool → ℕ
as_number true = 1
as_number false = 0

module _ (virtual_query : ℕ → Option MemoryInformation) where
  step-count :
      (impl : Impl) (k : FlowEdgeKey)
      → let r = should_emit_transition virtual_query impl k in
        (r.1.outside_suppressed_count + r.1.duplicate_edge_suppressed_count + as_number r.0)
          % u64_mod
        ≡ (impl.outside_suppressed_count + impl.duplicate_edge_suppressed_count + 1) % u64_mod
  unfolding should_emit_transition
  step-count impl k = ground arith

  -- Every transition is accounted for once, under either policy: the emitted ones and the growth of
  -- the two counters of suppressed transitions add up to the transitions, modulo 2 ^ 64.
  pub emitted-count :
      (impl : Impl) (ks : List FlowEdgeKey)
      → let t = after_transitions virtual_query impl ks in
        (t.outside_suppressed_count
            + t.duplicate_edge_suppressed_count
            + length (emitted virtual_query impl ks))
          % u64_mod
        ≡ (impl.outside_suppressed_count + impl.duplicate_edge_suppressed_count + length ks)
          % u64_mod
  unfolding after_transitions emitted
  emitted-count impl [] = refl
  emitted-count impl (k ∷ ks) =
      let r = should_emit_transition virtual_query impl k in
      let ih = emitted-count r.1 ks in
      let one = step-count impl k in
      elim (Bool-cases r.0) [
        | inl yes' ↦ rw yes' (omega (arith, ih, rw yes' at one))
        | inr no' ↦ rw no' (omega (arith, ih, rw no' at one))
      ]
