-- ===== src/Hardware.antt =====
-- src/core/hardware: the debug registers, the observed addresses and the basic blocks of the
-- hardware backend (VDTraceHardwareContext.cpp, VDTraceHardwareObserve.cpp, VDTraceHardware.cpp,
-- `ClearPendingResolution` of VDTraceHardwareSupport.cpp). `DecodeInstruction`, which reads the
-- traced code and calls the disassembler Zydis, is the parameter `decode_instruction`.
pub mod Observe
pub mod Blocks
pub mod Transition
pub mod Program
pub mod Exception
use Prim.Native.Nat.{bit_or}
use vd_trace.Base.{
  ℕ, zero, suc, ◌+◌, ◌-◌, ◌*◌, ◌/◌, ◌%◌, ◌^◌, ◌≡◌, Bool, true, false, not, ◌&&◌, ◌||◌, List, [],
  ◌∷◌, Option, none, some, ltb, ◌==◌, if◌then◌else◌, u64_mod, get_or, take, set, contains,
}
use vd_trace.Session.{
  EventKind, call, jump, conditional_jump, return, syscall, interrupt, InstructionDecodeResult,
  BasicBlockInfo, no_block, Impl,
}

-- The fields of `CONTEXT` that the source reads or writes.
pub record Context : Type 0 where
  pub context_flags : ℕ
  pub dr0 : ℕ
  pub dr1 : ℕ
  pub dr2 : ℕ
  pub dr3 : ℕ
  pub dr6 : ℕ
  pub dr7 : ℕ
  pub e_flags : ℕ
  pub rip : ℕ
  pub rsp : ℕ
  pub rax : ℕ

-- CONTEXT_CONTROL | CONTEXT_DEBUG_REGISTERS
abbrev pub control_and_debug : ℕ
control_and_debug = 0x100011

-- Bit 8 of EFlags, and `|= 0x100u`, `&= ~0x100u` on it.
abbrev pub trap_flag_bit : ℕ → ℕ
trap_flag_bit flags = flags / 256 % 2

abbrev pub set_trap_flag : ℕ → ℕ
set_trap_flag flags = if trap_flag_bit flags == 1 then flags else flags + 256

abbrev pub clear_trap_flag : ℕ → ℕ
clear_trap_flag flags = if trap_flag_bit flags == 1 then flags - 256 else flags

-- for (index = 0; index < count && index < 4; index++): the first argument counts the rounds
-- that `index < 4` leaves.
enable_breakpoints : ℕ → ℕ → ℕ → ℕ → ℕ
enable_breakpoints zero index count dr7 = dr7
enable_breakpoints (suc left) index count dr7 =
    let rest = enable_breakpoints left (index + 1) count (bit_or dr7 (2 ^ (index * 2))) in
    if ltb index count then rest else dr7

unfoldable pub apply_hardware_context_observations : Context → List ℕ → ℕ → Bool → Context
unfolding enable_breakpoints
apply_hardware_context_observations context addresses count single_step = record context {
  context_flags = bit_or context.context_flags control_and_debug;
  dr0 = if ltb 0 count then get_or addresses 0 0 else 0;
  dr1 = if ltb 1 count then get_or addresses 1 0 else 0;
  dr2 = if ltb 2 count then get_or addresses 2 0 else 0;
  dr3 = if ltb 3 count then get_or addresses 3 0 else 0;
  dr6 = 0;
  dr7 = enable_breakpoints 4 0 count 0;
  e_flags = if single_step then set_trap_flag context.e_flags else clear_trap_flag context.e_flags;
}

-- `uintptr_t empty[4] = {}`
abbrev pub no_addresses : List ℕ
no_addresses = 0 ∷ 0 ∷ 0 ∷ 0 ∷ []

-- The body of the loop of `StoreObservedAddressesUnique` on `observed_addresses` and
-- `observed_count`.
store_address : ℕ → List ℕ × ℕ → List ℕ × ℕ
store_address address (stored, count) =
    if address == 0
    then (stored, count)
    else if contains address (take count stored)
    then (stored, count)
    else (set stored count address, count + 1)

store_addresses : List ℕ → List ℕ × ℕ → List ℕ × ℕ
unfolding store_address
store_addresses [] s = s
store_addresses (a ∷ rest) s = store_addresses rest (store_address a s)

unfoldable pub store_observed_addresses_unique : Impl → List ℕ → ℕ → ℕ × Impl
unfolding store_addresses
store_observed_addresses_unique impl addresses count =
    let (stored, n) = store_addresses (take 4 (take count addresses)) (no_addresses, 0) in
    (n, record impl { observed_addresses = stored; observed_count = n })

abbrev pub clear_pending_resolution : Impl → Impl
clear_pending_resolution impl = record impl {
  pending_resume_entry = 0;
  pending_target_override = 0;
  pending_resume_entry_valid = false;
  pending_target_override_valid = false;
}

unfoldable pub is_hardware_terminator : EventKind → Bool
is_hardware_terminator call = true
is_hardware_terminator jump = true
is_hardware_terminator conditional_jump = true
is_hardware_terminator return = true
is_hardware_terminator syscall = true
is_hardware_terminator interrupt = true
is_hardware_terminator _ = false

abbrev pub max_block_instructions : ℕ
max_block_instructions = 256

abbrev pub max_block_span : ℕ
max_block_span = 4096

-- The two ways in which the loop of `AnalyzeBasicBlock` leaves with a block.
abbrev truncate_block : BasicBlockInfo → ℕ → BasicBlockInfo
truncate_block block cursor = record block {
  valid = true;
  truncated = true;
  tail = cursor;
  fallthrough = cursor;
  emits_edge = false;
}

abbrev close_block : BasicBlockInfo → ℕ → InstructionDecodeResult → BasicBlockInfo
close_block block cursor decode = record block {
  valid = true;
  tail = cursor;
  fallthrough = (cursor + decode.size) % u64_mod;
  tail_decode = decode;
  emits_edge = true;
}

abbrev count_instruction : BasicBlockInfo → BasicBlockInfo
count_instruction block = record block { instruction_count = block.instruction_count + 1 }

module _ (decode_instruction : ℕ → InstructionDecodeResult) where
  -- The first argument counts the rounds that `instruction_count < 256` leaves. `none` is the
  -- failure to decode.
  block_loop : ℕ → BasicBlockInfo → ℕ → ℕ → Option BasicBlockInfo
  block_loop zero block cursor span = some (truncate_block block cursor)
  block_loop (suc left) block cursor span =
      let decode = decode_instruction cursor in
      let next = (cursor + decode.size) % u64_mod in
      let rest = block_loop left (count_instruction block) next (span + decode.size) in
      if not (ltb span max_block_span)
      then some (truncate_block block cursor)
      else if decode.size == 0
      then none
      else if is_hardware_terminator decode.kind
      then some (close_block (count_instruction block) cursor decode)
      else rest

  unfoldable pub analyze_basic_block : ℕ → Option BasicBlockInfo
  unfolding block_loop
  analyze_basic_block entry =
      block_loop max_block_instructions (record no_block { entry = entry }) entry 0
