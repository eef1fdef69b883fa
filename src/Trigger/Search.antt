-- ===== src/Trigger/Search.antt =====
-- The search of the stack for an address in a module.
use vd_trace.Base.{
  ℕ, zero, suc, ◌+◌, ◌*◌, ◌%◌, ◌^◌, ◌≡◌, List, [], ◌∷◌, Option, none, some, ◌≤◌, ◌<◌, ◌==◌, arith,
  ◌⊎◌, inl, inr, Option-cases, Bool-cases, by_test, true, false, u64_mod,
}
use vd_trace.Session.{ModuleRange, Impl}
use vd_trace.Regions.{find_module_range, is_inside}
use vd_trace.Regions.Lookup.{IsLaidOut, first_inside, find_module_range-first_inside}
use vd_trace.Runtime.{Machine}
use vd_trace.Trigger.{
  inside_slot, inside_candidate, is_tracked, find_inside, try_find_inside_return_address,
}

below : (i j : ℕ) → i ≤ j → j < i → ⊥
below i j l h = omega arith

equal_slots : (i j : ℕ) → (i == j) ≡ true → i ≡ j
equal_slots i j h = ground arith

-- The address lies in one of the modules.
pub Inside : ℕ → List ModuleRange → Type 0
Inside address [] = ⊥
Inside address (r ∷ rs) = ((r.base ≤ address) × (address < r.base + r.size)) ⊎ Inside address rs

first_inside-Inside :
    (address : ℕ) (ranges : List ModuleRange)
    → (lo : ℕ) → IsLaidOut (λ r. r) lo ranges
    → is_tracked (first_inside (λ r. r) address ranges) ≡ true
    → Inside address ranges
unfolding first_inside Inside
first_inside-Inside address [] lo l h = cc
first_inside-Inside address (r ∷ rs) lo l h = elim (Bool-cases (is_inside r address)) [
  | inl here ↦ inl (ground arith, ground arith)
  | inr apart ↦ inr (first_inside-Inside address rs (r.base + r.size) l.2 (rw apart at h))
]

first_inside-apart :
    (address : ℕ) (ranges : List ModuleRange)
    → (lo : ℕ) → IsLaidOut (λ r. r) lo ranges
    → is_tracked (first_inside (λ r. r) address ranges) ≡ false
    → ¬ Inside address ranges
unfolding first_inside Inside
first_inside-apart address [] lo l h i = i
first_inside-apart address (r ∷ rs) lo l h (inl here) = ground arith
first_inside-apart address (r ∷ rs) lo l h (inr later') = elim (Bool-cases (is_inside r address)) [
  | inl here ↦ cc
  | inr apart ↦ first_inside-apart address rs (r.base + r.size) l.2 (rw apart at h) later'
]

module _ (machine : Machine) (impl : Impl) (stack_pointer : ℕ) where
  -- The slot at an index holds an address in a module, and it holds none.
  abbrev pub Holds : ℕ → ℕ → Type 0
  Holds i a =
      (machine.read_pointer ((stack_pointer + i * 8) % 2 ^ 64) ≡ some a)
      × Inside a impl.module_ranges

  abbrev pub HoldsNone : ℕ → Type 0
  HoldsNone i = (a : ℕ) → ¬ Holds i a

  abbrev pub NoneInside : ℕ → ℕ → Type 0
  NoneInside first end = (j : ℕ) → first ≤ j → j < end → HoldsNone j

  -- The first slot between `first` and `end` with an address in a module, or no slot.
  pub data Finds (first end : ℕ) : Option ℕ → Type 0 where
    missing : NoneInside first end → Finds first end none
    found :
        (i a : ℕ) → first ≤ i → i < end → Holds i a → NoneInside first i → Finds first end (some a)

  module _ (laid_out : IsLaidOut (λ r. r) 0 impl.module_ranges) where
    tracked-Inside :
        (a : ℕ)
        → is_tracked (find_module_range impl.module_ranges a) ≡ true
        → Inside a impl.module_ranges
    tracked-Inside a h =
        first_inside-Inside a impl.module_ranges 0 laid_out
          (rw (find_module_range-first_inside impl.module_ranges a laid_out) at h)

    untracked-apart :
        (a : ℕ)
        → is_tracked (find_module_range impl.module_ranges a) ≡ false
        → ¬ Inside a impl.module_ranges
    untracked-apart a h =
        first_inside-apart a impl.module_ranges 0 laid_out
          (rw (find_module_range-first_inside impl.module_ranges a laid_out) at h)

    -- The candidate of a slot, on what is read there.
    candidate-Holds :
        (o : Option ℕ) (a : ℕ)
        → inside_candidate impl o ≡ some a
        → (o ≡ some a) × Inside a impl.module_ranges
    candidate-Holds none a h = cc
    candidate-Holds (some c) a h =
        elim (Bool-cases (is_tracked (find_module_range impl.module_ranges c))) [
          | inl yes' ↦
              let e : some c ≡ some a = rw yes' at h in
              let same : c ≡ a = cc in (e, rw same at (tracked-Inside c yes'))
          | inr no' ↦ cc
        ]

    candidate-HoldsNone :
        (o : Option ℕ) (a : ℕ)
        → inside_candidate impl o ≡ none
        → o ≡ some a
        → ¬ Inside a impl.module_ranges
    candidate-HoldsNone none a h e = cc
    candidate-HoldsNone (some c) a h e =
        elim (Bool-cases (is_tracked (find_module_range impl.module_ranges c))) [
          | inl yes' ↦ cc
          | inr no' ↦ let same : c ≡ a = cc in rw same at (untracked-apart c no')
        ]

    slot-Holds : (i a : ℕ) → inside_slot machine impl stack_pointer i ≡ some a → Holds i a
    unfolding inside_slot
    slot-Holds i a h =
        candidate-Holds (machine.read_pointer ((stack_pointer + i * 8) % u64_mod)) a h

    slot-HoldsNone : (i : ℕ) → inside_slot machine impl stack_pointer i ≡ none → HoldsNone i
    unfolding inside_slot
    slot-HoldsNone i h a (e, inside) =
        candidate-HoldsNone (machine.read_pointer ((stack_pointer + i * 8) % u64_mod)) a h e inside

    NoneInside-empty : (end : ℕ) → NoneInside end end
    NoneInside-empty end j l h = elim (below end j l h) [ ]

    extend : (first i : ℕ) → HoldsNone first → NoneInside (first + 1) i → NoneInside first i
    extend first i e n j l h = elim (Bool-cases (first == j)) [
      | inl same ↦ rw (equal_slots first j same) at e
      | inr other ↦ n j (ground arith) h
    ]

    later :
        (first left : ℕ) (o : Option ℕ)
        → HoldsNone first
        → Finds (first + 1) (first + 1 + left) o
        → Finds first (first + suc left) o
    later first left o e (missing n) =
        missing (λ j l h. extend first (first + 1 + left) e n j l (omega arith))
    later first left o e (found i a l h at n) =
        found i a (omega arith) (omega arith) at (extend first i e n)

    search-Finds :
        (first left : ℕ)
        → Finds first (first + left) (find_inside machine impl stack_pointer first left)
    unfolding find_inside
    search-Finds first zero = missing (λ j l h. NoneInside-empty first j l (omega arith))
    search-Finds first (suc left) =
        elim (Option-cases (inside_slot machine impl stack_pointer first)) [
          | inl empty ↦
              rw empty
                (later first left _ (slot-HoldsNone first empty) (search-Finds (first + 1) left))
          | inr (a, here) ↦ rw here (
              found first a (omega arith) (omega arith) (slot-Holds first a here)
                (NoneInside-empty first))
        ]

  -- Where the module ranges are in ascending order and do not overlap, and from a stack pointer
  -- that is not 0: what `TryFindInsideReturnAddress` finds is what the first of the 64 words of 8
  -- bytes from the stack pointer on that can be read and hold an address inside a module holds, and
  -- it finds nothing only where none of them does.
  pub try_find-Finds :
      IsLaidOut (λ r. r) 0 impl.module_ranges
      → ¬ (stack_pointer ≡ 0)
      → Finds 0 64 (try_find_inside_return_address machine impl stack_pointer)
  unfolding try_find_inside_return_address
  try_find-Finds laid_out some_stack =
      by_test (Finds 0 64) (stack_pointer == 0) (λ h. elim (some_stack (ground arith)) [ ])
        (λ h. search-Finds laid_out 0 64)
