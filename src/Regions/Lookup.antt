-- ===== src/Regions/Lookup.antt =====
-- The binary searches of `FindModuleRange` and `FindDepthFilterModuleRule` against a linear search.
use vd_trace.Base.{
  ℕ, ◌+◌, ◌≤◌, ◌<◌, ◌≡◌, refl, List, [], ◌∷◌, Option, none, some, arith, if◌then◌else◌, u64_mod,
  ◌==◌,
}
use vd_trace.Session.{ModuleRange, ResolvedDepthFilterModuleRule, ResolvedDepthFilterSet}
use vd_trace.Regions.{
  upper_bound_prev, is_inside, keep_if_inside, find_module_range, find_depth_filter_module_rule,
}

module _ {A : Type 0} (range_of : A → ModuleRange) where
  -- Ranges in ascending order from `lo`, without overlap, none of them reaching past the
  -- address space.
  abbrev pub IsLaidOut : ℕ → List A → Type 0
  IsLaidOut lo [] = Unit
  IsLaidOut lo (x ∷ xs) =
      let r = range_of x in
      (lo ≤ r.base) × (r.base + r.size < u64_mod) × IsLaidOut (r.base + r.size) xs

  -- The first element whose range holds the address, read from the front.
  unfoldable pub first_inside : ℕ → List A → Option A
  first_inside address [] = none
  first_inside address (x ∷ xs) =
      if is_inside (range_of x) address then some x else first_inside address xs

  abbrev or_else : Option A → Option A → Option A
  or_else none y = y
  or_else (some x) y = some x

  abbrev EndsBelow : ℕ → Option A → Type 0
  EndsBelow lo none = Unit
  EndsBelow lo (some x) = let r = range_of x in (r.base + r.size ≤ lo) × (r.base + r.size < u64_mod)

  first_inside-below :
      (lo address : ℕ) (xs : List A)
      → IsLaidOut lo xs
      → address < lo
      → first_inside address xs ≡ none
  unfolding first_inside
  first_inside-below lo address [] l h = refl
  first_inside-below lo address (x ∷ xs) l h =
      ground (arith, first_inside-below ((range_of x).base + (range_of x).size) address xs)

  keep-below :
      (lo address : ℕ) (prev : Option A)
      → EndsBelow lo prev
      → lo ≤ address
      → keep_if_inside range_of address prev ≡ none
  keep-below lo address none e h = refl
  keep-below lo address (some x) e h = ground arith

  upper_bound-first_inside :
      (lo address : ℕ) (prev : Option A) (xs : List A)
      → EndsBelow lo prev
      → IsLaidOut lo xs
      → keep_if_inside range_of address (upper_bound_prev (λ x. (range_of x).base) address prev xs)
        ≡ or_else (first_inside address xs) (keep_if_inside range_of address prev)
  unfolding upper_bound_prev first_inside
  upper_bound-first_inside lo address prev [] e l = refl
  upper_bound-first_inside lo address prev (x ∷ xs) e l =
      let r = range_of x in
      let next = upper_bound-first_inside (r.base + r.size) address (some x) xs in
      ground
        (arith, next, first_inside-below (r.base + r.size) address xs, keep-below lo address prev)

  -- Over ranges in order the binary search finds what the linear search finds.
  pub search-first_inside :
      (address : ℕ) (xs : List A)
      → IsLaidOut 0 xs
      → keep_if_inside range_of address (upper_bound_prev (λ x. (range_of x).base) address none xs)
        ≡ first_inside address xs
  search-first_inside address xs l = ground (arith, upper_bound-first_inside 0 address none xs tt l)

-- Where the module ranges are in ascending order and do not overlap, `FindModuleRange` finds the
-- range that holds the address, the one that a search from the front finds, and nothing
-- exactly when that search finds nothing.
pub find_module_range-first_inside :
    (ranges : List ModuleRange) (address : ℕ)
    → IsLaidOut (λ r. r) 0 ranges
    → find_module_range ranges address ≡ first_inside (λ r. r) address ranges
unfolding find_module_range
find_module_range-first_inside ranges address l = search-first_inside (λ r. r) address ranges l

-- Where the ranges of the depth rules are in ascending order and do not overlap, the rule found for
-- an address is the one that a search from the front finds, and there is none for the address 0.
pub find_depth_filter_module_rule-first_inside :
    (filters : ResolvedDepthFilterSet) (address : ℕ)
    → IsLaidOut (λ (r : ResolvedDepthFilterModuleRule). r.range) 0 filters.module_rules
    → find_depth_filter_module_rule filters address
      ≡ (if address == 0 then none else first_inside (λ r. r.range) address filters.module_rules)
unfolding find_depth_filter_module_rule
find_depth_filter_module_rule-first_inside filters address l = rw (
    search-first_inside (λ (r : ResolvedDepthFilterModuleRule). r.range) address
      filters.module_rules l)
