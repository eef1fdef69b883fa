-- ===== src/Hardware/Blocks.antt =====
-- `AnalyzeBasicBlock`: what a block is a block of.
use vd_trace.Base.{
  ℕ, zero, suc, ◌+◌, ◌%◌, ◌≤◌, ◌<◌, ◌≡◌, ◌≢◌, refl, ◌⊎◌, inl, inr, true, false, Option, none, some,
  arith, Bool-cases, ltb, ◌==◌, u64_mod,
}
use vd_trace.Session.{InstructionDecodeResult, BasicBlockInfo, no_block}
use vd_trace.Hardware.{
  is_hardware_terminator, max_block_instructions, max_block_span, block_loop, analyze_basic_block,
}

module _ (decode_instruction : ℕ → InstructionDecodeResult) where
  -- From one address to another over `n` instructions that follow each other in memory, `span`
  -- bytes of them, none of them a branch.
  pub data Straight (from : ℕ) : ℕ → ℕ → ℕ → Type 0 where
    here : Straight from from 0 0
    next :
        {at n span : ℕ} {to : ℕ}
        → Straight from at n span
        → (decode_instruction at).size ≢ 0
        → is_hardware_terminator (decode_instruction at).kind ≡ false
        → to ≡ (at + (decode_instruction at).size) % u64_mod
        → Straight from to (n + 1) (span + (decode_instruction at).size)

  -- A closed block runs straight to its tail, which is a branch of nonzero size; a truncated one
  -- runs straight to its tail too, and has met the limit on instructions or on bytes.
  pub data IsBlock (entry : ℕ) (b : BasicBlockInfo) : Type 0 where
    closed :
        (n span : ℕ)
        → Straight entry b.tail n span
        → n < max_block_instructions
        → span < max_block_span
        → b.instruction_count ≡ n + 1
        → b.tail_decode ≡ decode_instruction b.tail
        → b.tail_decode.size ≢ 0
        → is_hardware_terminator b.tail_decode.kind ≡ true
        → b.fallthrough ≡ (b.tail + b.tail_decode.size) % u64_mod
        → b.emits_edge ≡ true
        → b.truncated ≡ false
        → IsBlock entry b
    cut :
        (n span : ℕ)
        → Straight entry b.tail n span
        → (n ≡ max_block_instructions) ⊎ (max_block_span ≤ span)
        → b.instruction_count ≡ n
        → b.fallthrough ≡ b.tail
        → b.emits_edge ≡ false
        → b.truncated ≡ true
        → IsBlock entry b

  abbrev IsOpen : BasicBlockInfo → ℕ → Type 0
  IsOpen block n = (block.instruction_count ≡ n) × (block.truncated ≡ false)

  abbrev pub Result : ℕ → Option BasicBlockInfo → Type 0
  Result entry none =
      (at n span : ℕ) × Straight entry at n span × ((decode_instruction at).size ≡ 0)
  Result entry (some b) = IsBlock entry b × (b.entry ≡ entry) × (b.valid ≡ true)

  block_loop-IsBlock :
      (entry left n : ℕ) (block : BasicBlockInfo) (cursor span : ℕ)
      → Straight entry cursor n span
      → n + left ≡ max_block_instructions
      → IsOpen block n
      → block.entry ≡ entry
      → Result entry (block_loop decode_instruction left block cursor span)
  unfolding block_loop
  block_loop-IsBlock entry zero n block cursor span s l o e =
      (cut n span s (inl (omega arith)) o.0 refl refl refl, e, refl)
  block_loop-IsBlock entry (suc left) n block cursor span s l o e =
      let decode = decode_instruction cursor in
      elim (Bool-cases (ltb span max_block_span)) [
        | inr full ↦ rw full (cut n span s (inr (ground arith)) o.0 refl refl refl, e, refl)
        | inl fits ↦ elim (Bool-cases (decode.size == 0)) [
          | inl empty ↦ rw (fits, empty) (cursor, n, span, s, ground arith)
          | inr full ↦ elim (Bool-cases (is_hardware_terminator decode.kind)) [
            | inl ends ↦
                rw (fits, full, ends)
                  (
                    closed n span s (omega arith) (ground arith) (omega arith) refl (ground arith)
                        ends refl refl o.1,
                    e,
                    refl,
                  )
            | inr goes ↦
                rw (fits, full, goes)
                  (block_loop-IsBlock entry left (n + 1)
                    (record block { instruction_count = block.instruction_count + 1 })
                    ((cursor + decode.size) % u64_mod) (span + decode.size)
                    (next s (ground arith) goes refl) (omega arith) (omega arith, o.1) e)
          ]
        ]
      ]

  -- `AnalyzeBasicBlock` is total. A block that it returns starts at the entry and is what
  -- `IsBlock` says, a straight run of decoded instructions up to its tail; it fails only at an
  -- address on such a run whose instruction does not decode.
  pub analyze-IsBlock : (entry : ℕ) → Result entry (analyze_basic_block decode_instruction entry)
  unfolding analyze_basic_block
  analyze-IsBlock entry =
      block_loop-IsBlock entry max_block_instructions 0 (record no_block { entry = entry }) entry 0
        here refl (refl, refl) refl
