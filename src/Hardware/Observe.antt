-- ===== src/Hardware/Observe.antt =====
-- `StoreObservedAddressesUnique` and `ApplyHardwareContextObservations`: what the four cells and the
-- debug registers hold.
use vd_trace.Base.{
  ℕ, zero, suc, ◌+◌, ◌^◌, ◌≤◌, ◌<◌, ◌≡◌, refl, Bool, true, false, not, ◌&&◌, ◌||◌, List, [], ◌∷◌,
  ◌++◌, arith, if◌then◌else◌, Bool-cases, ◌⊎◌, inl, inr, ltb, ◌==◌, get_or, take, contains, length,
  replicate, length-append, take-length-append, set-length-append, length-take-le, length-replicate,
  ◌-◌, ◌/◌, ◌%◌,
}
use vd_trace.Session.{Impl}
use vd_trace.Hardware.{
  Context, store_address, store_addresses, store_observed_addresses_unique,
  apply_hardware_context_observations, trap_flag_bit, enable_breakpoints,
}

-- The new addresses in order, behind those already seen.
abbrev keep_new : List ℕ → List ℕ → List ℕ
keep_new seen [] = seen
keep_new seen (a ∷ rest) =
    keep_new (if a == 0 || contains a seen then seen else seen ++ a ∷ []) rest

abbrev pub IsDistinct : List ℕ → Type 0
IsDistinct [] = Unit
IsDistinct (x ∷ xs) = (contains x xs ≡ false) × IsDistinct xs

contains-concat : (b a : ℕ) (xs : List ℕ) → contains b (xs ++ a ∷ []) ≡ (contains b xs || a == b)
contains-concat b a [] = ground arith
contains-concat b a (x ∷ xs) = ground (arith, contains-concat b a xs)

IsDistinct-concat :
    (a : ℕ) (xs : List ℕ) → IsDistinct xs → contains a xs ≡ false → IsDistinct (xs ++ a ∷ [])
IsDistinct-concat a [] d h = (refl, tt)
IsDistinct-concat a (x ∷ xs) d h =
    (ground (arith, contains-concat x a xs), IsDistinct-concat a xs d.1 (ground arith))

keep_new-IsDistinct : (seen as' : List ℕ) → IsDistinct seen → IsDistinct (keep_new seen as')
keep_new-IsDistinct seen [] d = d
keep_new-IsDistinct seen (a ∷ rest) d = elim (Bool-cases (a == 0 || contains a seen)) [
  | inl old ↦ rw old (keep_new-IsDistinct seen rest d)
  | inr new ↦
      rw new (keep_new-IsDistinct (seen ++ a ∷ []) rest (IsDistinct-concat a seen d (ground arith)))
]

contains-keep_new :
    (b : ℕ) (seen as' : List ℕ)
    → contains 0 seen ≡ false
    → contains b (keep_new seen as') ≡ (contains b seen || not (b == 0) && contains b as')
contains-keep_new b seen [] z = ground arith
contains-keep_new b seen (a ∷ rest) z = elim (Bool-cases (a == 0 || contains a seen)) [
  | inl old ↦ rw old (ground (arith, contains-keep_new b seen rest z))
  | inr new ↦ rw new (
      ground (
        arith,
        contains-keep_new b (seen ++ a ∷ []) rest,
        contains-concat 0 a seen,
        contains-concat b a seen,
      ))
]

length-keep_new : (seen as' : List ℕ) → length (keep_new seen as') ≤ length seen + length as'
length-keep_new seen [] = omega arith
length-keep_new seen (a ∷ rest) = elim (Bool-cases (a == 0 || contains a seen)) [
  | inl old ↦ rw old (omega (arith, length-keep_new seen rest))
  | inr new ↦
      rw new (omega (arith, length-keep_new (seen ++ a ∷ []) rest, length-append seen (a ∷ [])))
]

abbrev Stores : List ℕ → ℕ → List ℕ → Type 0
Stores seen m as' =
    (k : ℕ) × (store_addresses as' (seen ++ replicate m 0, length seen)
      ≡ (keep_new seen as' ++ replicate k 0, length (keep_new seen as')))
    × (length (keep_new seen as') + k ≡ length seen + m)

store_address-old :
    (a m : ℕ) (seen : List ℕ)
    → (a == 0 || contains a seen) ≡ true
    → store_address a (seen ++ replicate m 0, length seen) ≡ (seen ++ replicate m 0, length seen)
unfolding store_address
store_address-old a m seen h = rw take-length-append (ground arith)

store_address-new :
    (a m : ℕ) (seen : List ℕ)
    → (a == 0 || contains a seen) ≡ false
    → store_address a (seen ++ replicate (suc m) 0, length seen)
      ≡ ((seen ++ a ∷ []) ++ replicate m 0, length (seen ++ a ∷ []))
unfolding store_address
store_address-new a m seen h =
    rw (take-length-append, set-length-append) (ground (arith, length-append seen (a ∷ [])))

store_addresses-Stores : (seen : List ℕ) (m : ℕ) (as' : List ℕ) → length as' ≤ m → Stores seen m as'
unfolding store_addresses
store_addresses-Stores seen m [] h = (m, refl, refl)
store_addresses-Stores seen zero (a ∷ rest) h = absurd (omega arith)
store_addresses-Stores seen (suc m) (a ∷ rest) h = elim (Bool-cases (a == 0 || contains a seen)) [
  | inl old ↦
      let (k, e, n) = store_addresses-Stores seen (suc m) rest (omega arith) in
      (k, rw (store_address-old a (suc m) seen old, old) e, rw old n)
  | inr new ↦
      let (k, e, n) = store_addresses-Stores (seen ++ a ∷ []) m rest (omega arith) in
      (
        k,
        rw (store_address-new a m seen new, new) e,
        rw new (omega (arith, n, length-append seen (a ∷ []))),
      )
]

inputs-length : (count : ℕ) (addresses : List ℕ) → length (take 4 (take count addresses)) ≤ 4
inputs-length count addresses = length-take-le 4 (take count addresses)

-- What is stored of the given addresses: the first cells are the distinct nonzero addresses
-- among the first four of them, the count is their number and at most that of the given, and there are four cells, the others
-- of them 0.
pub record StoresUnique (given stored : List ℕ) (count : ℕ) : Type 0 where
  pub at_most_four : count ≤ 4
  pub at_most_given : count ≤ length (take 4 given)
  pub cells : length stored ≡ 4
  pub distinct : IsDistinct (take count stored)
  pub rest_zero : take count stored ++ replicate (4 - count) 0 ≡ stored
  pub exact : (b : ℕ) → contains b (take count stored) ≡ (not (b == 0) && contains b (take 4 given))

kept-StoresUnique :
    (given : List ℕ) (k : ℕ)
    → let kept = keep_new [] (take 4 given) in
      length kept + k ≡ 4 → StoresUnique given (kept ++ replicate k 0) (length kept)
kept-StoresUnique given k h =
    let kept = keep_new [] (take 4 given) in
    let e : 4 - length kept ≡ k = omega arith in
    record {
      at_most_four = omega arith;
      at_most_given = omega (arith, length-keep_new [] (take 4 given));
      cells = omega (arith, length-append kept (replicate k 0), length-replicate {A = ℕ} k 0);
      distinct = rw take-length-append (keep_new-IsDistinct [] (take 4 given) tt);
      rest_zero = rw (take-length-append, e);
      exact = λ b. rw take-length-append (contains-keep_new b [] (take 4 given) refl);
    }

-- `StoreObservedAddressesUnique` keeps each nonzero address among the first four given once, and
-- nothing else, returns how many it kept, and leaves the rest of the session alone but for
-- `observed_addresses` and `observed_count`.
pub store_observed-StoresUnique :
    (impl : Impl) (addresses : List ℕ) (count : ℕ)
    → let r = store_observed_addresses_unique impl addresses count in
      StoresUnique (take count addresses) r.1.observed_addresses r.1.observed_count
      × (r.0 ≡ r.1.observed_count)
      × (r.1 ≡ record impl {
        observed_addresses = r.1.observed_addresses;
        observed_count = r.1.observed_count;
      })
unfolding store_observed_addresses_unique
store_observed-StoresUnique impl addresses count =
    let as' = take 4 (take count addresses) in
    let (k, e, n) = store_addresses-Stores [] 4 as' (inputs-length count addresses) in
    (rw e (kept-StoresUnique (take count addresses) k n), refl, refl)

-- The debug registers and the trap flag after `ApplyHardwareContextObservations`: register `i`
-- holds address `i` and its enable bit in DR7 is set for `i < count`, the others are 0 and
-- disabled, DR6 is cleared, and the trap flag is the one asked for; `rip`, `rsp` and `rax` stay.
pub record Programs (before after : Context) (addresses : List ℕ) (count : ℕ) (step : Bool)
    : Type 0 where
  pub first : after.dr0 ≡ (if ltb 0 count then get_or addresses 0 0 else 0)
  pub second : after.dr1 ≡ (if ltb 1 count then get_or addresses 1 0 else 0)
  pub third : after.dr2 ≡ (if ltb 2 count then get_or addresses 2 0 else 0)
  pub fourth : after.dr3 ≡ (if ltb 3 count then get_or addresses 3 0 else 0)
  pub status : after.dr6 ≡ 0
  pub enabled : (i : ℕ) → i < 4 → after.dr7 / 4 ^ i % 4 ≡ (if ltb i count then 1 else 0)
  pub reserved : after.dr7 < 256
  pub trap : trap_flag_bit after.e_flags ≡ (if step then 1 else 0)
  pub rip : after.rip ≡ before.rip
  pub rsp : after.rsp ≡ before.rsp
  pub rax : after.rax ≡ before.rax

dr7_cases :
    (count : ℕ)
    → ((count ≡ 0) × (enable_breakpoints 4 0 count 0 ≡ 0))
      ⊎ ((count ≡ 1) × (enable_breakpoints 4 0 count 0 ≡ 1))
      ⊎ ((count ≡ 2) × (enable_breakpoints 4 0 count 0 ≡ 5))
      ⊎ ((count ≡ 3) × (enable_breakpoints 4 0 count 0 ≡ 21))
      ⊎ ((4 ≤ count) × (enable_breakpoints 4 0 count 0 ≡ 85))
unfolding enable_breakpoints
dr7_cases zero = inl (refl, refl)
dr7_cases (suc zero) = inr (inl (refl, refl))
dr7_cases (suc (suc zero)) = inr (inr (inl (refl, refl)))
dr7_cases (suc (suc (suc zero))) = inr (inr (inr (inl (refl, refl))))
dr7_cases (suc (suc (suc (suc n)))) = inr (inr (inr (inr (omega arith, ground arith))))

enabled_bits :
    (count i : ℕ)
    → i < 4
    → enable_breakpoints 4 0 count 0 / 4 ^ i % 4 ≡ (if ltb i count then 1 else 0)
enabled_bits count zero h = ground (arith, dr7_cases count)
enabled_bits count (suc zero) h = ground (arith, dr7_cases count)
enabled_bits count (suc (suc zero)) h = ground (arith, dr7_cases count)
enabled_bits count (suc (suc (suc zero))) h = ground (arith, dr7_cases count)
enabled_bits count (suc (suc (suc (suc i)))) h = absurd (omega arith)

-- `ApplyHardwareContextObservations` programs the thread as `Programs` says, whatever the context
-- held before.
pub apply-Programs :
    (context : Context) (addresses : List ℕ) (count : ℕ) (single_step : Bool)
    → Programs context
        (apply_hardware_context_observations context addresses count single_step)
        addresses
        count
        single_step
unfolding apply_hardware_context_observations
apply-Programs context addresses count single_step = record {
  first = refl;
  second = refl;
  third = refl;
  fourth = refl;
  status = refl;
  enabled = λ i h. enabled_bits count i h;
  reserved = ground (arith, dr7_cases count);
  trap = ground arith;
  rip = refl;
  rsp = refl;
  rax = refl;
}
