-- ===== src/Hardware/Transition/Calls.antt =====
-- `UpdateCallStackForTransition` over sequences of transitions: the call depth, the stack, and calls
-- that nest.
use vd_trace.Base.{
  ℕ, ◌+◌, ◌%◌, ◌≡◌, ◌≢◌, refl, ap, sym, ◌∙◌, true, List, [], ◌∷◌, ◌++◌, arith, length, u32_mod,
}
use mathlib.Core.Path.{ap₂}
use vd_trace.Session.{call, return, BasicBlockInfo, EnhancedSamplingFrame, Impl}
use vd_trace.Hardware.Transition.{
  update_call_stack_for_transition, push_call_frame, try_pop_call_frame, pop_matching, pop,
}

-- One finished transition: the block that ended, where the thread went on, and the sample that was
-- taken of the call.
pub record Transition : Type 0 where
  pub block : BasicBlockInfo
  pub next_entry : ℕ
  pub sample_frame : EnhancedSamplingFrame

abbrev pub take_transition : Impl → Transition → Impl
take_transition impl t =
    update_call_stack_for_transition (record impl { pending_block = t.block }) t.next_entry
      t.sample_frame

pub run_transitions : Impl → List Transition → Impl
run_transitions impl [] = impl
run_transitions impl (t ∷ ts) = run_transitions (take_transition impl t) ts

-- The depth counts the frames, and each call frame has its sampling frame.
pub record DepthFollows (impl : Impl) : Type 0 where
  pub depth :
      impl.current_call_depth ≡ (impl.call_depth_offset + length impl.call_return_stack) % u32_mod
  pub paired : length impl.enhanced_sampling_stack ≡ length impl.call_return_stack

pop_matching-DepthFollows :
    (impl : Impl) (resume_address : ℕ) (stack : List ℕ)
    → impl.call_return_stack ≡ stack
    → DepthFollows impl
    → DepthFollows (pop_matching impl resume_address stack)
unfolding pop_matching
pop_matching-DepthFollows impl resume_address [] e d = d
pop_matching-DepthFollows impl resume_address (top ∷ rest) e d = ground arith

-- A transition keeps the depth at the number of call frames, modulo 2 ^ 32, and each call frame
-- paired with a sampling frame.
pub take-DepthFollows :
    (impl : Impl) (t : Transition) → DepthFollows impl → DepthFollows (take_transition impl t)
unfolding update_call_stack_for_transition push_call_frame try_pop_call_frame
take-DepthFollows impl t d =
    let resumed = record impl { pending_block = t.block } in
    ground (arith, pop_matching-DepthFollows resumed t.next_entry impl.call_return_stack)

run-DepthFollows :
    (impl : Impl) (ts : List Transition)
    → DepthFollows impl
    → DepthFollows (run_transitions impl ts)
unfolding run_transitions
run-DepthFollows impl [] d = d
run-DepthFollows impl (t ∷ ts) d =
    run-DepthFollows (take_transition impl t) ts (take-DepthFollows impl t d)

run-append :
    (impl : Impl) (xs ys : List Transition)
    → run_transitions impl (xs ++ ys) ≡ run_transitions (run_transitions impl xs) ys
unfolding run_transitions
run-append impl [] ys = refl
run-append impl (x ∷ xs) ys = run-append (take_transition impl x) xs ys

abbrev IsEdge : Transition → Type 0
IsEdge t = (t.block.valid ≡ true) × (t.block.emits_edge ≡ true)

-- Sequences in which calls and returns nest: each call that is followed goes back, behind a
-- nested sequence, to the address behind it.
pub data Nested : List Transition → Type 0 where
  done : Nested []
  plain :
      {ts : List Transition} (t : Transition)
      → t.block.tail_decode.kind ≢ call
      → t.block.tail_decode.kind ≢ return
      → Nested ts
      → Nested (t ∷ ts)
  skipped :
      {ts : List Transition} (t : Transition)
      → t.block.tail_decode.kind ≡ call
      → t.next_entry ≡ t.block.fallthrough
      → Nested ts
      → Nested (t ∷ ts)
  followed :
      {ts : List Transition} (c r : Transition) (body rest : List Transition)
      → IsEdge c
      → c.block.tail_decode.kind ≡ call
      → c.next_entry ≢ c.block.fallthrough
      → Nested body
      → IsEdge r
      → r.block.tail_decode.kind ≡ return
      → r.next_entry ≡ c.block.fallthrough
      → Nested rest
      → ts ≡ c ∷ (body ++ r ∷ rest)
      → Nested ts

abbrev pub SameStacks : Impl → Impl → Type 0
SameStacks a b =
    (a.call_return_stack ≡ b.call_return_stack)
    × (a.enhanced_sampling_stack ≡ b.enhanced_sampling_stack)
    × (a.call_depth_offset ≡ b.call_depth_offset)

plain-same :
    (impl : Impl) (t : Transition)
    → t.block.tail_decode.kind ≢ call
    → t.block.tail_decode.kind ≢ return
    → SameStacks (take_transition impl t) impl
unfolding update_call_stack_for_transition
plain-same impl t nc nr = ground arith

skipped-same :
    (impl : Impl) (t : Transition)
    → t.block.tail_decode.kind ≡ call
    → t.next_entry ≡ t.block.fallthrough
    → SameStacks (take_transition impl t) impl
unfolding update_call_stack_for_transition
skipped-same impl t k e = ground arith

take-call :
    (impl : Impl) (t : Transition)
    → IsEdge t
    → t.block.tail_decode.kind ≡ call
    → t.next_entry ≢ t.block.fallthrough
    → let s = take_transition impl t in
      (s.call_return_stack ≡ t.block.fallthrough ∷ impl.call_return_stack)
      × (s.enhanced_sampling_stack ≡ t.sample_frame ∷ impl.enhanced_sampling_stack)
      × (s.call_depth_offset ≡ impl.call_depth_offset)
unfolding update_call_stack_for_transition push_call_frame
take-call impl t v k ne = ground arith

pop_matched :
    (impl : Impl) (address : ℕ) (stack all : List ℕ)
    → all ≡ address ∷ stack
    → let s = pop_matching impl address all in
      (s.call_return_stack ≡ stack)
      × (s.enhanced_sampling_stack ≡ pop impl.enhanced_sampling_stack)
      × (s.call_depth_offset ≡ impl.call_depth_offset)
unfolding pop_matching
pop_matched impl address stack all e = ground arith

take-return :
    (impl : Impl) (t : Transition) (stack : List ℕ)
    → IsEdge t
    → t.block.tail_decode.kind ≡ return
    → impl.call_return_stack ≡ t.next_entry ∷ stack
    → let s = take_transition impl t in
      (s.call_return_stack ≡ stack)
      × (s.enhanced_sampling_stack ≡ pop impl.enhanced_sampling_stack)
      × (s.call_depth_offset ≡ impl.call_depth_offset)
unfolding update_call_stack_for_transition try_pop_call_frame
take-return impl t stack v k e = ground (
  arith,
  pop_matched (record impl { pending_block = t.block }) t.next_entry stack impl.call_return_stack e,
)

same_trans : (a b c : Impl) → SameStacks a b → SameStacks b c → SameStacks a c
same_trans a b c h k = (h.0 ∙ k.0, h.1 ∙ k.1, h.2 ∙ k.2)

-- A call, what runs inside it, and its return.
followed-same :
    (impl : Impl) (c r : Transition) (body : List Transition)
    → IsEdge c
    → c.block.tail_decode.kind ≡ call
    → c.next_entry ≢ c.block.fallthrough
    → IsEdge r
    → r.block.tail_decode.kind ≡ return
    → r.next_entry ≡ c.block.fallthrough
    → SameStacks (run_transitions (take_transition impl c) body) (take_transition impl c)
    → SameStacks (take_transition (run_transitions (take_transition impl c) body) r) impl
followed-same impl c r body vc kc ne vr kr e inside =
    let inner = run_transitions (take_transition impl c) body in
    let pushed = take-call impl c vc kc ne in
    let popped =
      take-return inner r impl.call_return_stack vr kr
        (inside.0 ∙ pushed.0 ∙ ap (λ (a : ℕ). a ∷ impl.call_return_stack) (sym e)) in
    (popped.0, popped.1 ∙ ap pop (inside.1 ∙ pushed.1), popped.2 ∙ inside.2 ∙ pushed.2)

run-same :
    (impl : Impl) {ts : List Transition} → Nested ts → SameStacks (run_transitions impl ts) impl
unfolding run_transitions
run-same impl done = (refl, refl, refl)
run-same impl (plain {ts} t nc nr n) =
    same_trans (run_transitions (take_transition impl t) ts) (take_transition impl t) impl
      (run-same (take_transition impl t) n) (plain-same impl t nc nr)
run-same impl (skipped {ts} t k e n) =
    same_trans (run_transitions (take_transition impl t) ts) (take_transition impl t) impl
      (run-same (take_transition impl t) n) (skipped-same impl t k e)
run-same impl (followed c r body rest vc kc ne inner vr kr e outer s) =
    let after = run_transitions (take_transition impl c) body in
    let back =
      followed-same impl c r body vc kc ne vr kr e (run-same (take_transition impl c) inner) in
    rw (s, run_transitions)
      (rw (run-append (take_transition impl c) body (r ∷ rest)) (
        same_trans (run_transitions (take_transition after r) rest) (take_transition after r) impl
          (run-same (take_transition after r) outer) back))

-- Calls and returns that nest leave the stacks of return addresses and of sampling frames as they
-- were, and so the call depth, whatever the frames below; and at every point the depth counts
-- the frames on the stack, modulo 2 ^ 32, and each of them has its sampling frame.
pub Nested-SameStacks :
    (impl : Impl) {ts : List Transition}
    → DepthFollows impl
    → Nested ts
    → SameStacks (run_transitions impl ts) impl
      × ((run_transitions impl ts).current_call_depth ≡ impl.current_call_depth)
      × DepthFollows (run_transitions impl ts)
Nested-SameStacks impl {ts} d n =
    let same = run-same impl n in
    let after = run-DepthFollows impl ts d in
    (
      same,
      after.depth
          ∙ ap₂ (λ (o : ℕ) (s : List ℕ). (o + length s) % u32_mod) same.2 same.0
          ∙ sym d.depth,
      after,
    )
