-- ===== src/TrapFlag.antt =====
-- The call stack of the trap-flag backend: src/core/decoder/VDTraceDecoderSupport.cpp, and the part
-- of the single-step handler of VDTraceDecoder.cpp that decides whether a callee is suppressed.
-- The back of a `std::vector` that is used as a stack is the head of the list.
pub mod Stack
pub mod Handler
pub mod Stepping
pub mod Steady
use vd_trace.Base.{
  ℕ, ◌+◌, ◌%◌, Bool, true, false, not, ◌&&◌, List, [], ◌∷◌, Option, none, some, ◌==◌, if◌then◌else◌,
  u64_mod,
}
use vd_trace.Session.{
  EventKind, call, return, kind_eq, InstructionDecodeResult, EnhancedSamplingFrame, Impl,
}
use vd_trace.Regions.{MemoryInformation}
use vd_trace.Regions.Policy.{should_suppress_trap_flag_call, trap_flag_frame_suppressed}
use vd_trace.Hardware.Transition.{
  refresh_current_call_depth, push_enhanced_sampling_frame, pop_enhanced_sampling_frame, pop,
}

unfoldable pub push_trap_flag_call_frame : Impl → ℕ → Bool → EnhancedSamplingFrame → Impl
push_trap_flag_call_frame impl return_address suppress_callee sample_frame =
    let s =
      push_enhanced_sampling_frame
        (record impl { call_return_stack = return_address ∷ impl.call_return_stack })
        sample_frame in
    refresh_current_call_depth
      (record s { trap_suppression_stack = suppress_callee ∷ s.trap_suppression_stack })

pop_if_top : Impl → ℕ → List ℕ → Impl
pop_if_top impl resume_address [] = impl
pop_if_top impl resume_address (top ∷ rest) =
    if not (top == resume_address)
    then impl
    else (let s = pop_enhanced_sampling_frame (record impl { call_return_stack = rest }) in
        refresh_current_call_depth
          (record s { trap_suppression_stack = pop s.trap_suppression_stack }))

unfoldable pub try_pop_trap_flag_call_frame : Impl → ℕ → Impl
unfolding pop_if_top
try_pop_trap_flag_call_frame impl resume_address =
    pop_if_top impl resume_address impl.call_return_stack

unfoldable pub update_trap_flag_call_stack :
    Impl → InstructionDecodeResult → ℕ → ℕ → Bool → EnhancedSamplingFrame → Impl
unfolding push_trap_flag_call_frame try_pop_trap_flag_call_frame
update_trap_flag_call_stack impl decode_result executed_rip current_rip suppress_callee
      sample_frame =
    if kind_eq decode_result.kind call && not (decode_result.size == 0)
    then push_trap_flag_call_frame impl ((executed_rip + decode_result.size) % u64_mod)
        suppress_callee sample_frame
    else if kind_eq decode_result.kind return
    then try_pop_trap_flag_call_frame impl current_rip
    else impl

module _ (virtual_query : ℕ → Option MemoryInformation) where
  -- The end of the handling of one step: `actual_target` is none where the handler has none.
  unfoldable pub finish_trap_flag_step :
      Impl → InstructionDecodeResult → ℕ → ℕ → ℕ → Option ℕ → EnhancedSamplingFrame → Impl
  finish_trap_flag_step impl decode_result executed_rip current_rip call_depth none sample_frame =
      update_trap_flag_call_stack impl decode_result executed_rip current_rip
        (trap_flag_frame_suppressed impl) sample_frame
  finish_trap_flag_step impl decode_result executed_rip current_rip call_depth (some target)
        sample_frame =
      let (suppress, cache) =
        should_suppress_trap_flag_call virtual_query impl impl.region_cache call_depth target in
      if kind_eq decode_result.kind call
      then update_trap_flag_call_stack (record impl { region_cache = cache }) decode_result
          executed_rip current_rip suppress sample_frame
      else update_trap_flag_call_stack impl decode_result executed_rip current_rip
          (trap_flag_frame_suppressed impl) sample_frame
