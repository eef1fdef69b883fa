-- ===== src/Hardware/Program/Watch.antt =====
-- What `ProgramHardwareObservationImpl` watches, against the ways out of the block.
use vd_trace.Base.{
  ℕ, zero, suc, ◌+◌, ◌%◌, ◌≤◌, ◌≡◌, ◌≢◌, refl, ap, sym, ◌∙◌, subst, ◌⊎◌, inl, inr, Bool, true,
  false, not, ◌&&◌, List, [], ◌∷◌, Option, none, some, arith, ◌==◌, contains, take, length, u64_mod,
}
use vd_trace.Session.{
  EventKind, call, jump, conditional_jump, return, syscall, interrupt, InstructionDecodeResult,
  BasicBlockInfo, ObservationState, waiting_for_destination, waiting_for_tail, Impl,
}
use vd_trace.Regions.{MemoryInformation}
use vd_trace.Hardware.{Context, store_observed_addresses_unique, analyze_basic_block}
use vd_trace.Hardware.Observe.{store_observed-StoresUnique}
use vd_trace.Hardware.Blocks.{IsBlock, Result, analyze-IsBlock}
use vd_trace.Hardware.Program.{
  Planned, plan_by_kind, program_block, program_analysis, program_hardware_observation,
  has_value_probe_in_range, begin_plan, program_context, finish_plan,
}

-- Where control goes from a block whose tail names its successors.
abbrev pub Leaves : BasicBlockInfo → ℕ → Type 0
Leaves block a =
    ((block.tail_decode.kind ≡ conditional_jump)
      × ((a ≡ block.tail_decode.target) ⊎ (a ≡ block.fallthrough)))
    ⊎ ((block.tail_decode.kind ≡ jump)
        × (block.tail_decode.has_target ≡ true)
        × (a ≡ block.tail_decode.target))

-- The tail does not tell where control goes.
abbrev pub IsOpenEnded : BasicBlockInfo → Type 0
IsOpenEnded block =
    (block.tail_decode.kind ≡ return)
    ⊎ (block.tail_decode.kind ≡ syscall)
    ⊎ (block.tail_decode.kind ≡ interrupt)
    ⊎ ((block.tail_decode.kind ≡ jump) × (block.tail_decode.has_target ≡ false))
    ⊎ ((block.tail_decode.kind ≡ call) × (block.tail_decode.has_target ≡ false))

record PlanFacts (block : BasicBlockInfo) (addresses : List ℕ) (t : Impl) : Type 0 where
  pub two : length addresses ≤ 2
  pub known : (a : ℕ) → Leaves block a → contains a addresses ≡ true
  pub open_ended : IsOpenEnded block → t.observation_state ≡ waiting_for_tail
  pub states :
      (addresses ≡ [])
      ⊎ (t.observation_state ≡ waiting_for_destination)
      ⊎ ((t.observation_state ≡ waiting_for_tail) × (addresses ≡ block.tail ∷ []))
  pub within :
      (a : ℕ)
      → contains a addresses ≡ true
      → (a ≡ block.tail) ⊎ (a ≡ block.fallthrough) ⊎ (a ≡ block.tail_decode.target)
  pub resumes :
      t.pending_resume_entry_valid ≡ true
      → (block.tail_decode.kind ≡ call) × (t.pending_resume_entry ≡ block.fallthrough)
  pub pending : t.pending_block ≡ block

module _ (virtual_query : ℕ → Option MemoryInformation) where
  plan-PlanFacts :
      (s : Impl) (block : BasicBlockInfo) (k : EventKind)
      → block.tail_decode.kind ≡ k
      → s.pending_resume_entry_valid ≡ false
      → s.pending_block ≡ block
      → let p = plan_by_kind virtual_query s block k in PlanFacts block p.0 p.1
  unfolding plan_by_kind
  plan-PlanFacts s block conditional_jump e v b = record {
    two = ground arith;
    known = λ a. ground arith;
    open_ended = ground arith;
    states = ground arith;
    within = λ a. ground arith;
    resumes = ground arith;
    pending = ground arith;
  }
  plan-PlanFacts s block k e v b = record {
    two = ground arith;
    known = λ a. ground arith;
    open_ended = ground arith;
    states = ground arith;
    within = λ a. ground arith;
    resumes = ground arith;
    pending = ground arith;
  }

abbrev pub watched : Impl → List ℕ
watched impl = take impl.observed_count impl.observed_addresses

-- What a successful plan has left in the session.
pub record Watching (impl : Impl) : Type 0 where
  pub some_address : 1 ≤ impl.observed_count
  pub two_at_most : impl.observed_count ≤ 2
  pub closed : (impl.pending_block.emits_edge ≡ true) × (impl.pending_block.truncated ≡ false)
  pub covers : (a : ℕ) → Leaves impl.pending_block a → a ≢ 0 → contains a (watched impl) ≡ true
  pub open_ended : IsOpenEnded impl.pending_block → impl.observation_state ≡ waiting_for_tail
  pub states :
      (impl.observation_state ≡ waiting_for_destination)
      ⊎ ((impl.observation_state ≡ waiting_for_tail)
          × (contains impl.pending_block.tail (watched impl) ≡ true))
  pub within :
      (a : ℕ)
      → contains a (watched impl) ≡ true
      → (a ≡ impl.pending_block.tail)
        ⊎ (a ≡ impl.pending_block.fallthrough)
        ⊎ (a ≡ impl.pending_block.tail_decode.target)
  pub resumes :
      impl.pending_resume_entry_valid ≡ true
      → (impl.pending_block.tail_decode.kind ≡ call)
        × (impl.pending_resume_entry ≡ impl.pending_block.fallthrough)

abbrev storing : Impl → List ℕ → Impl
storing t addresses = (store_observed_addresses_unique t addresses (length addresses)).1

take-length : (xs : List ℕ) → take (length xs) xs ≡ xs
take-length [] = refl
take-length (x ∷ xs) = ap (◌∷◌ x) (take-length xs)

take-short : (n : ℕ) (xs : List ℕ) → length xs ≤ n → take n xs ≡ xs
take-short zero [] h = refl
take-short zero (x ∷ xs) h = absurd (omega arith)
take-short (suc n) [] h = refl
take-short (suc n) (x ∷ xs) h = ap (◌∷◌ x) (take-short n xs (omega arith))

first_watched : (x : ℕ) (xs : List ℕ) → contains x (x ∷ xs) ≡ true
first_watched x xs = ground arith

none_of : (x : ℕ) → (not (x == 0) && contains x []) ≢ true
none_of x = ground arith

only_one :
    (x y : ℕ) (xs : List ℕ)
    → (not (x == 0) && contains x (y ∷ [])) ≡ true
    → contains y (x ∷ xs) ≡ true
only_one x y xs h = ground arith

watched_states :
    (state : ObservationState) (tail k : ℕ) (addresses stored : List ℕ)
    → 1 ≤ k
    → 1 ≤ length stored
    → ((b : ℕ) → contains b (take k stored) ≡ (not (b == 0) && contains b addresses))
    → (addresses ≡ [])
      ⊎ (state ≡ waiting_for_destination)
      ⊎ ((state ≡ waiting_for_tail) × (addresses ≡ tail ∷ []))
    → (state ≡ waiting_for_destination)
      ⊎ ((state ≡ waiting_for_tail) × (contains tail (take k stored) ≡ true))
watched_states state tail k addresses [] h m exact c = absurd (omega arith)
watched_states state tail zero addresses (x ∷ xs) h m exact c = absurd (omega arith)
watched_states state tail (suc k) addresses (x ∷ xs) h m exact (inl e) = absurd (
    none_of x (
      ap (λ l. not (x == 0) && contains x l) (sym e) ∙ sym (exact x) ∙ first_watched x (take k xs)))
watched_states state tail (suc k) addresses (x ∷ xs) h m exact (inr (inl e)) = inl e
watched_states state tail (suc k) addresses (x ∷ xs) h m exact (inr (inr (e, a))) = inr (
  e,
  let m =
        ap (λ l. not (x == 0) && contains x l) (sym a)
        ∙ sym (exact x)
        ∙ first_watched x (take k xs) in
      only_one x tail (take k xs) m,
)

-- Storing changes no more of a plan than what is watched.
stored-Watching :
    (t : Impl) (addresses stored : List ℕ) (k : ℕ)
    → PlanFacts t.pending_block addresses t
    → t.pending_block.emits_edge ≡ true
    → t.pending_block.truncated ≡ false
    → 1 ≤ k
    → k ≤ 2
    → 1 ≤ length stored
    → ((b : ℕ) → contains b (take k stored) ≡ (not (b == 0) && contains b addresses))
    → Watching (record t { observed_addresses = stored; observed_count = k })
stored-Watching t addresses stored k f e c some_address two_at_most cells exact = record {
  some_address = some_address;
  two_at_most = two_at_most;
  closed = (e, c);
  covers = λ a l n. ground (arith, exact a, f.known a l);
  open_ended = f.open_ended;
  states =
      watched_states t.observation_state t.pending_block.tail k addresses stored some_address cells
        exact f.states;
  within = λ a h. f.within a (ground (arith, exact a));
  resumes = f.resumes;
}

planned-Watching :
    (block : BasicBlockInfo) (addresses : List ℕ) (t : Impl)
    → PlanFacts block addresses t
    → (block.emits_edge && not block.truncated) ≡ true
    → (store_observed_addresses_unique t addresses (length addresses)).0 ≢ 0
    → let u = storing t addresses in Watching u × (u.pending_block ≡ block)
planned-Watching block addresses t f closed n =
    let r = store_observed_addresses_unique t addresses (length addresses) in
    let (unique, count, rest) = store_observed-StoresUnique t addresses (length addresses) in
    let all : take 4 (take (length addresses) addresses) ≡ addresses =
      ap (take 4) (take-length addresses) ∙ take-short 4 addresses (omega (arith, f.two)) in
    let exact : (b : ℕ) → contains b (watched r.1) ≡ (not (b == 0) && contains b addresses) =
      λ b. unique.exact b ∙ ap (λ l. not (b == 0) && contains b l) all in
    let g : PlanFacts t.pending_block addresses t =
      subst (λ b. PlanFacts b addresses t) (sym f.pending) f in
    (
      subst Watching (sym rest) (
          stored-Watching t addresses r.1.observed_addresses r.1.observed_count g
            (ground (arith, f.pending)) (ground (arith, f.pending)) (omega (arith, n, count))
            (omega (arith, unique.at_most_given, ap length all, f.two))
            (omega (arith, unique.cells)) exact),
      ap (λ (i : Impl). i.pending_block) rest ∙ f.pending,
    )

finish_plan-none :
    (probed closed : Bool) (stored : ℕ) (s u : Impl) (context : Option Context)
    → let r = finish_plan probed closed stored s u context in
      r.error ≡ none
      → (closed ≡ true)
        × (stored ≢ 0)
        × (r ≡ record { error = none; impl = u; context = program_context u context })
unfolding finish_plan
finish_plan-none true closed stored s u context h = absurd (ground arith)
finish_plan-none false false stored s u context h = absurd (ground arith)
finish_plan-none false true zero s u context h = absurd (ground arith)
finish_plan-none false true (suc n) s u context h = (refl, omega arith, ground arith)

-- What a plan that succeeds comes to.
pub record Succeeds (r : Planned) (block : BasicBlockInfo) (context : Option Context) : Type 0 where
  pub watching : Watching r.impl
  pub of_block : r.impl.pending_block ≡ block
  pub programmed : r.context ≡ program_context r.impl context

module _ (virtual_query : ℕ → Option MemoryInformation) where
  program_block-Succeeds :
      (impl : Impl) (entry : ℕ) (block : BasicBlockInfo) (context : Option Context)
      → let r = program_block virtual_query impl entry block context in
        r.error ≡ none → Succeeds r block context
  unfolding program_block
  program_block-Succeeds impl entry block context h =
      let s = begin_plan impl block in
      let p = plan_by_kind virtual_query s block block.tail_decode.kind in
      let u = store_observed_addresses_unique p.1 p.0 (length p.0) in
      let (closed, some', e) =
        finish_plan-none (has_value_probe_in_range s ((entry + 1) % u64_mod) block.fallthrough)
          (block.emits_edge && not block.truncated) u.0 s u.1 context h in
      let f = plan-PlanFacts virtual_query s block block.tail_decode.kind refl refl refl in
      let (w, b) = planned-Watching block p.0 p.1 f closed some' in
      subst (λ r. Succeeds r block context) (sym e)
        (record { watching = w; of_block = b; programmed = refl })

  program_analysis-Succeeds :
      (impl : Impl) (entry : ℕ) (found : Option BasicBlockInfo) (context : Option Context)
      → let r = program_analysis virtual_query impl entry found context in
        r.error ≡ none
        → (found ≡ some r.impl.pending_block) × Succeeds r r.impl.pending_block context
  unfolding program_analysis
  program_analysis-Succeeds impl entry none context h = absurd (ground arith)
  program_analysis-Succeeds impl entry (some block) context h =
      let r = program_block virtual_query impl entry block context in
      let f = program_block-Succeeds impl entry block context h in
      (ap some (sym f.of_block), subst (λ b. Succeeds r b context) (sym f.of_block) f)

  -- If `ProgramHardwareObservationImpl` succeeds, the pending block is one that the decoder reads
  -- from the entry (`IsBlock`), the session watches it as `Watching` says (each nonzero way out of a block that
  -- ends in a conditional or a direct jump is watched, a tail that does not tell its target is
  -- awaited itself, and nothing but tail, fallthrough and target is watched, on at most two
  -- addresses), and the context, if one is given, is programmed with these addresses.
  pub program-Watching :
      (decode_instruction : ℕ → InstructionDecodeResult) (impl : Impl) (entry : ℕ)
      (context : Option Context)
      → let r = program_hardware_observation virtual_query decode_instruction impl entry context in
        r.error ≡ none
        → IsBlock decode_instruction entry r.impl.pending_block
          × Watching r.impl
          × (r.context ≡ program_context r.impl context)
  unfolding program_hardware_observation
  program-Watching decode_instruction impl entry context h =
      let (b, f) =
        program_analysis-Succeeds impl entry (analyze_basic_block decode_instruction entry) context
          h in
      let m =
        subst (Result decode_instruction entry) b (analyze-IsBlock decode_instruction entry) in
      (m.0, f.watching, f.programmed)
