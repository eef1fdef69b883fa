-- ===== src/Regions.antt =====
-- src/core/depth_filter/VDTraceDepthFilterResolve.cpp and `FindModuleRange` of
-- src/core/threading/VDTraceThreadContext.cpp: which kind of memory an address lies in.
-- `VirtualQuery` of Windows is the parameter `virtual_query`; `none` is its result 0. The
-- thread-local region cache is an argument and a part of each result.
pub mod Policy
pub mod Lookup
pub mod Cache
use vd_trace.Base.{
  ℕ, ◌+◌, ◌-◌, ◌%◌, Bool, true, false, not, ◌&&◌, ◌||◌, List, [], ◌∷◌, Option, none, some, ltb, leb,
  ◌==◌, if◌then◌else◌, u64_mod,
}
use vd_trace.Session.{
  ModuleRange, ResolvedDepthFilterModuleRule, ResolvedDepthFilterSet, ResolvedExecutionAddress,
  ExecutionAddressKind, tracked_module, system_module, outside_image, anonymous_executable,
  RegionCache, Impl, unresolved,
}

-- The element before `std::upper_bound`, which is the first one with `value < base`.
module _ {ℓ} {A : Type ℓ} (base_of : A → ℕ) where
  unfoldable pub upper_bound_prev : ℕ → Option A → List A → Option A
  upper_bound_prev value prev [] = prev
  upper_bound_prev value prev (x ∷ xs) = elim (ltb value (base_of x)) [
    | true ↦ prev
    | false ↦ upper_bound_prev value (some x) xs
  ]

-- `base + size`, which wraps.
abbrev pub range_end : ModuleRange → ℕ
range_end r = (r.base + r.size) % u64_mod

abbrev pub is_inside : ModuleRange → ℕ → Bool
is_inside r address = leb r.base address && ltb address (range_end r)

abbrev keep_if_inside {ℓ} : {A : Type ℓ} → (A → ModuleRange) → ℕ → Option A → Option A
keep_if_inside range_of address none = none
keep_if_inside range_of address (some x) = if is_inside (range_of x) address then some x else none

unfoldable pub find_module_range : List ModuleRange → ℕ → Option ModuleRange
find_module_range ranges instruction =
    keep_if_inside (λ r. r) instruction (upper_bound_prev (λ r. r.base) instruction none ranges)

unfoldable pub find_depth_filter_module_rule :
    ResolvedDepthFilterSet → ℕ → Option ResolvedDepthFilterModuleRule
find_depth_filter_module_rule filters address =
    if address == 0
    then none
    else keep_if_inside (λ r. r.range) address
        (upper_bound_prev (λ r. r.range.base) address none filters.module_rules)

-- The fields of `MEMORY_BASIC_INFORMATION` that the source reads.
pub record MemoryInformation : Type 0 where
  pub base_address : ℕ
  pub region_size : ℕ
  pub state : ℕ
  pub protect : ℕ
  pub memory_type : ℕ

abbrev pub mem_commit : ℕ
mem_commit = 0x1000

abbrev pub mem_image : ℕ
mem_image = 0x1000000

-- PAGE_EXECUTE, PAGE_EXECUTE_READ, PAGE_EXECUTE_READWRITE, PAGE_EXECUTE_WRITECOPY
unfoldable pub is_executable_protection : ℕ → Bool
is_executable_protection protection =
    let basic = protection % 256 in basic == 0x10 || basic == 0x20 || basic == 0x40 || basic == 0x80

abbrev pub is_executable : MemoryInformation → Bool
is_executable mbi = mbi.state == mem_commit && is_executable_protection mbi.protect

abbrev pub is_image_region : MemoryInformation → Bool
is_image_region mbi = is_executable mbi && mbi.memory_type == mem_image

pub record RegionAnswer : Type 0 where
  pub executable : Bool
  pub is_image : Bool
  pub region_size : ℕ

abbrev no_region : RegionAnswer
no_region = record { executable = false; is_image = false; region_size = 0 }

unfoldable pub try_read_cached_region : Impl → RegionCache → ℕ → Option RegionAnswer
try_read_cached_region impl cache address =
    if not cache.valid
      || not (cache.impl == impl.self)
      || ltb address cache.base
      || leb cache.end address
    then none
    else some (record {
      executable = cache.executable;
      is_image = cache.is_image;
      region_size = cache.end - cache.base;
    })

unfoldable pub store_cached_region : Impl → MemoryInformation → Bool → Bool → RegionCache
store_cached_region impl mbi executable is_image = record {
  impl = impl.self;
  base = mbi.base_address;
  end = (mbi.base_address + mbi.region_size) % u64_mod;
  valid = true;
  executable = executable;
  is_image = is_image;
}

abbrev is_some {ℓ} : {A : Type ℓ} → Option A → Bool
is_some none = false
is_some (some a) = true

abbrev is_module_address : Impl → ℕ → Bool
is_module_address impl address =
    address == 0
    || is_some (find_module_range impl.module_ranges address)
    || is_some (find_module_range impl.system_module_ranges address)

module _ (virtual_query : ℕ → Option MemoryInformation) where
  -- The two outcomes of `VirtualQuery` on a miss of the cache.
  query_miss : Impl → RegionCache → Option MemoryInformation → RegionAnswer × RegionCache
  unfolding store_cached_region
  query_miss impl cache none = (no_region, cache)
  query_miss impl cache (some mbi) = (
    record {
      executable = is_executable mbi;
      is_image = is_image_region mbi;
      region_size = mbi.region_size;
    },
    if is_executable mbi
        then store_cached_region impl mbi (is_executable mbi) (is_image_region mbi)
        else cache,
  )

  query_cached : Impl → RegionCache → ℕ → Option RegionAnswer → RegionAnswer × RegionCache
  unfolding query_miss
  query_cached impl cache address none = query_miss impl cache (virtual_query address)
  query_cached impl cache address (some answer) = (answer, cache)

  unfoldable pub query_non_module_executable_region :
      Impl → RegionCache → ℕ → RegionAnswer × RegionCache
  unfolding query_cached
  query_non_module_executable_region impl cache address =
      if is_module_address impl address
      then (no_region, cache)
      else query_cached impl cache address (try_read_cached_region impl cache address)

  -- The last step of `ResolveExecutionAddress`, on the answer about the region.
  abbrev region_kind : RegionAnswer → ResolvedExecutionAddress
  region_kind a =
      if a.executable
      then record unresolved {
        kind = if a.is_image then outside_image else anonymous_executable;
        region_size = a.region_size;
      }
      else record unresolved { region_size = a.region_size }

  abbrev in_module : ModuleRange → ExecutionAddressKind → ResolvedExecutionAddress
  in_module r k = record unresolved { kind = k; module_range = some r }

  resolve_tracked :
      Impl → RegionCache → ℕ → Option ModuleRange → ResolvedExecutionAddress × RegionCache
  resolve_tracked impl cache address (some r) = (in_module r tracked_module, cache)
  resolve_tracked impl cache address none =
      let (answer, cache') = query_non_module_executable_region impl cache address in
      (region_kind answer, cache')

  resolve_rule :
      Impl
      → RegionCache
      → ℕ
      → Option ResolvedDepthFilterModuleRule
      → ResolvedExecutionAddress × RegionCache
  unfolding resolve_tracked
  resolve_rule impl cache address (some rule) = (
    record unresolved {
      kind = tracked_module;
      module_range = some rule.range;
      depth_rule = some rule;
    },
    cache,
  )
  resolve_rule impl cache address none =
      resolve_tracked impl cache address (find_module_range impl.module_ranges address)

  resolve_system :
      Impl → RegionCache → ℕ → Option ModuleRange → ResolvedExecutionAddress × RegionCache
  unfolding resolve_rule
  resolve_system impl cache address (some r) = (in_module r system_module, cache)
  resolve_system impl cache address none =
      resolve_rule impl cache address (find_depth_filter_module_rule impl.depth_filters address)

  -- The out-parameter `region_size` of the source is the field of that name where the kind is
  -- one of memory outside modules, and 0 elsewhere.
  unfoldable pub resolve_execution_address :
      Impl → RegionCache → ℕ → ResolvedExecutionAddress × RegionCache
  unfolding resolve_system
  resolve_execution_address impl cache address =
      if address == 0
      then (unresolved, cache)
      else resolve_system impl cache address (find_module_range impl.system_module_ranges address)
