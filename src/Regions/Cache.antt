-- ===== src/Regions/Cache.antt =====
-- Resolving addresses with the thread-local cache of `VirtualQuery` answers and without it, while
-- the memory of the process changes.
pub mod Changing
use vd_trace.Base.{
  ℕ, ◌+◌, ◌≤◌, ◌<◌, ◌≡◌, refl, false, List, [], ◌∷◌, Option, none, some, arith, Bool-cases, inl,
  inr, u64_mod, ◌==◌, by_test, ◌⊎◌,
}
use mathlib.Core.List.{map}
use mathlib.Core.Path.{ap₂}
use vd_trace.Session.{
  RegionCache, Impl, ResolvedExecutionAddress, ModuleRange, ResolvedDepthFilterModuleRule,
  ExecutionAddressKind,
}
use vd_trace.Regions.{
  MemoryInformation, RegionAnswer, is_executable, is_image_region, try_read_cached_region,
  store_cached_region, query_miss, query_cached, query_non_module_executable_region,
  resolve_tracked, resolve_rule, resolve_system, resolve_execution_address, is_module_address,
  find_module_range, region_kind, find_depth_filter_module_rule,
}

abbrev pub empty_cache : RegionCache
empty_cache = record {
  impl = 0;
  base = 0;
  end = 0;
  valid = false;
  executable = false;
  is_image = false;
}

-- What Windows documents of `VirtualQuery` at one time: it answers for a run of pages that have the
-- same state, protection and type, and this run lies in the address space.
pub record IsConsistent (virtual_query : ℕ → Option MemoryInformation) : Type 0 where
  pub same_attributes :
      (a b : ℕ) (m : MemoryInformation)
      → virtual_query a ≡ some m
      → m.base_address ≤ b
      → b < m.base_address + m.region_size
      → (n : MemoryInformation) × (virtual_query b ≡ some n)
        × (n.state ≡ m.state)
        × (n.protect ≡ m.protect)
        × (n.memory_type ≡ m.memory_type)
  pub in_space :
      (a : ℕ) (m : MemoryInformation)
      → virtual_query a ≡ some m
      → m.base_address + m.region_size < u64_mod

-- An answer of the cache, at any address, is that of `virtual_query`.
abbrev pub IsSound : (ℕ → Option MemoryInformation) → Impl → RegionCache → Type 0
IsSound virtual_query impl cache =
    (b : ℕ) (a : RegionAnswer)
    → try_read_cached_region impl cache b ≡ some a
    → (m : MemoryInformation) × (virtual_query b ≡ some m)
      × (a.executable ≡ is_executable m)
      × (a.is_image ≡ is_image_region m)

pub empty_cache-IsSound :
    (virtual_query : ℕ → Option MemoryInformation) (impl : Impl)
    → IsSound virtual_query impl empty_cache
unfolding try_read_cached_region
empty_cache-IsSound virtual_query impl b a h = cc

abbrev Agrees : RegionAnswer → RegionAnswer → Type 0
Agrees a b = (a.executable ≡ b.executable) × (a.is_image ≡ b.is_image)

-- Everything of a resolved address but the size of the region.
abbrev pub SameAddress : ResolvedExecutionAddress → ResolvedExecutionAddress → Type 0
SameAddress r t =
    (r.kind ≡ t.kind) × (r.module_range ≡ t.module_range) × (r.depth_rule ≡ t.depth_rule)

store-IsSound :
    (virtual_query : ℕ → Option MemoryInformation) (impl : Impl)
    → IsConsistent virtual_query
    → (address : ℕ) (m : MemoryInformation) → virtual_query address ≡ some m
    → IsSound virtual_query impl (store_cached_region impl m (is_executable m) (is_image_region m))
unfolding store_cached_region try_read_cached_region
store-IsSound virtual_query impl c address m q b a h =
    let (n, found, state, protect, kind) =
      c.same_attributes address b m q (ground (arith, c.in_space address m q))
        (ground (arith, c.in_space address m q)) in
    (n, found, ground arith, ground arith)

-- `before` answered when the cache was filled, `now` answers at present.
module _ (before now : ℕ → Option MemoryInformation) (impl : Impl) where
  abbrev EitherSound : RegionCache → Type 0
  EitherSound cache = IsSound before impl cache ⊎ IsSound now impl cache

  abbrev EitherAgrees : RegionAnswer → RegionAnswer → RegionAnswer → Type 0
  EitherAgrees r b n = Agrees r b ⊎ Agrees r n

  query_miss-IsSound :
      IsConsistent now
      → (cache : RegionCache) (address : ℕ) (o : Option MemoryInformation) → now address ≡ o
      → IsSound before impl cache
      → EitherSound (query_miss now impl cache o).1
  unfolding query_miss
  query_miss-IsSound c cache address none q s = inl s
  query_miss-IsSound c cache address (some m) q s = elim (Bool-cases (is_executable m)) [
    | inl yes' ↦ inr (rw yes' (rw yes' at (store-IsSound now impl c address m q)))
    | inr no' ↦ inl (rw no' s)
  ]

  query_cached-IsSound :
      IsConsistent now
      → (cache : RegionCache) (address : ℕ) (o : Option RegionAnswer) → IsSound before impl cache
      → EitherSound (query_cached now impl cache address o).1
  unfolding query_cached
  query_cached-IsSound c cache address none s =
      query_miss-IsSound c cache address (now address) refl s
  query_cached-IsSound c cache address (some a) s = inl s

  query-IsSound :
      IsConsistent now
      → (cache : RegionCache) (address : ℕ) → IsSound before impl cache
      → EitherSound (query_non_module_executable_region now impl cache address).1
  unfolding query_non_module_executable_region
  query-IsSound c cache address s =
      by_test (λ (r : RegionAnswer × RegionCache). EitherSound r.1) (is_module_address impl address)
        (λ e. inl s)
        (λ e. query_cached-IsSound c cache address (try_read_cached_region impl cache address) s)

  query_miss-answer :
      (cache : RegionCache) (o : Option MemoryInformation)
      → Agrees (query_miss now impl cache o).0 (query_miss now impl empty_cache o).0
  unfolding query_miss
  query_miss-answer cache none = (refl, refl)
  query_miss-answer cache (some m) = (refl, refl)

  query_cached-Agrees :
      (cache : RegionCache) (address : ℕ) (o : Option RegionAnswer)
      → IsSound before impl cache
      → try_read_cached_region impl cache address ≡ o
      → EitherAgrees
          (query_cached now impl cache address o).0
          (query_miss before impl empty_cache (before address)).0
          (query_miss now impl empty_cache (now address)).0
  unfolding query_cached
  query_cached-Agrees cache address none s e = inr (query_miss-answer cache (now address))
  query_cached-Agrees cache address (some a) s e =
      let (m, found, executable, image) = s address a e in
      inl (rw found (unfold query_miss in (executable, image)))

  query-Agrees :
      (cache : RegionCache) (address : ℕ)
      → IsSound before impl cache
      → EitherAgrees
          (query_non_module_executable_region now impl cache address).0
          (query_non_module_executable_region before impl empty_cache address).0
          (query_non_module_executable_region now impl empty_cache address).0
  unfolding query_non_module_executable_region
  query-Agrees cache address s = elim (Bool-cases (is_module_address impl address)) [
    | inl e ↦ inr (rw (e, query_non_module_executable_region) (refl, refl))
    | inr e ↦
        rw (e, query_non_module_executable_region)
          (unfold query_cached try_read_cached_region in
            query_cached-Agrees cache address (try_read_cached_region impl cache address) s refl)
  ]

  -- As it resolves without a cache, before or now.
  abbrev pub Keeps :
      ResolvedExecutionAddress × RegionCache
      → ResolvedExecutionAddress × RegionCache
      → ResolvedExecutionAddress × RegionCache
      → Type 0
  Keeps r b n = (SameAddress r.0 b.0 ⊎ SameAddress r.0 n.0) × EitherSound r.1

  region_kind-same :
      (a b : RegionAnswer) → Agrees a b → SameAddress (region_kind now a) (region_kind now b)
  region_kind-same a b h = ground arith

  region_kind-either :
      (r b n : RegionAnswer)
      → EitherAgrees r b n
      → SameAddress (region_kind now r) (region_kind before b)
        ⊎ SameAddress (region_kind now r) (region_kind now n)
  region_kind-either r b n (inl h) = inl (region_kind-same r b h)
  region_kind-either r b n (inr h) = inr (region_kind-same r n h)

  module _ (c : IsConsistent now) (cache : RegionCache) (s : IsSound before impl cache) where
    tracked-Keeps :
        (address : ℕ) (o : Option ModuleRange)
        → Keeps
            (resolve_tracked now impl cache address o)
            (resolve_tracked before impl empty_cache address o)
            (resolve_tracked now impl empty_cache address o)
    unfolding resolve_tracked
    tracked-Keeps address (some r) = (inl (refl, refl, refl), inl s)
    tracked-Keeps address none =
        (region_kind-either _ _ _ (query-Agrees cache address s), query-IsSound c cache address s)

    rule-Keeps :
        (address : ℕ) (o : Option ResolvedDepthFilterModuleRule)
        → Keeps
            (resolve_rule now impl cache address o)
            (resolve_rule before impl empty_cache address o)
            (resolve_rule now impl empty_cache address o)
    unfolding resolve_rule
    rule-Keeps address (some r) = (inl (refl, refl, refl), inl s)
    rule-Keeps address none = tracked-Keeps address (find_module_range impl.module_ranges address)

    system-Keeps :
        (address : ℕ) (o : Option ModuleRange)
        → Keeps
            (resolve_system now impl cache address o)
            (resolve_system before impl empty_cache address o)
            (resolve_system now impl empty_cache address o)
    unfolding resolve_system
    system-Keeps address (some r) = (inl (refl, refl, refl), inl s)
    system-Keeps address none =
        rule-Keeps address (find_depth_filter_module_rule impl.depth_filters address)

    pub resolve-EitherKeeps :
        (address : ℕ)
        → Keeps
            (resolve_execution_address now impl cache address)
            (resolve_execution_address before impl empty_cache address)
            (resolve_execution_address now impl empty_cache address)
    unfolding resolve_execution_address
    resolve-EitherKeeps address = elim (Bool-cases (address == 0)) [
      | inl e ↦ rw e (inl (refl, refl, refl), inl s)
      | inr e ↦ rw e (system-Keeps address (find_module_range impl.system_module_ranges address))
    ]

either {ℓ} : {A : Type ℓ} → A ⊎ A → A
either (inl a) = a
either (inr a) = a

-- While the memory does not change, the cache makes no difference.
pub resolve-Keeps :
    (virtual_query : ℕ → Option MemoryInformation) (impl : Impl)
    → IsConsistent virtual_query
    → (cache : RegionCache) → IsSound virtual_query impl cache
    → (address : ℕ)
    → SameAddress
        (resolve_execution_address virtual_query impl cache address).0
        (resolve_execution_address virtual_query impl empty_cache address).0
      × IsSound virtual_query impl (resolve_execution_address virtual_query impl cache address).1
resolve-Keeps virtual_query impl c cache s address =
    let k = resolve-EitherKeeps virtual_query virtual_query impl c cache s address in
    (either k.0, either k.1)
