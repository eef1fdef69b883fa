-- ===== src/TrapFlag/Stack.antt =====
-- The stacks of the trap-flag backend over the steps of a thread.
use vd_trace.Base.{
  ℕ, ◌+◌, ◌%◌, ◌≡◌, refl, Bool, true, false, List, [], ◌∷◌, Option, arith, length, All, u32_mod,
  not, ◌&&◌, none, some, ◌==◌, by_test,
}
use vd_trace.Session.{call, return, InstructionDecodeResult, EnhancedSamplingFrame, Impl, kind_eq}
use vd_trace.Regions.{MemoryInformation}
use vd_trace.Regions.Policy.{trap_flag_frame_suppressed, should_suppress_trap_flag_call}
use vd_trace.TrapFlag.{
  update_trap_flag_call_stack, finish_trap_flag_step, push_trap_flag_call_frame,
  try_pop_trap_flag_call_frame, pop_if_top,
}

abbrev pub is_top : List Bool → Bool
is_top [] = false
is_top (b ∷ bs) = b

-- A frame above a suppressed one is suppressed.
abbrev pub IsInherited : List Bool → Type 0
IsInherited [] = Unit
IsInherited (b ∷ bs) = (is_top bs ≡ true → b ≡ true) × IsInherited bs

pub record StacksAgree (impl : Impl) : Type 0 where
  pub inherited : IsInherited impl.trap_suppression_stack
  pub suppressions : length impl.trap_suppression_stack ≡ length impl.call_return_stack
  pub samples : length impl.enhanced_sampling_stack ≡ length impl.call_return_stack
  pub depth :
      impl.current_call_depth ≡ (impl.call_depth_offset + length impl.call_return_stack) % u32_mod

pop_if_top-StacksAgree :
    (impl : Impl) (resume_address : ℕ) (stack : List ℕ)
    → impl.call_return_stack ≡ stack
    → StacksAgree impl
    → StacksAgree (pop_if_top impl resume_address stack)
unfolding pop_if_top
pop_if_top-StacksAgree impl resume_address [] e a = a
pop_if_top-StacksAgree impl resume_address (top ∷ rest) e a = ground arith

update-StacksAgree :
    (impl : Impl) (d : InstructionDecodeResult) (executed current : ℕ) (suppress : Bool)
    (frame : EnhancedSamplingFrame)
    → (trap_flag_frame_suppressed impl ≡ true → suppress ≡ true)
    → StacksAgree impl
    → StacksAgree (update_trap_flag_call_stack impl d executed current suppress frame)
unfolding update_trap_flag_call_stack push_trap_flag_call_frame try_pop_trap_flag_call_frame
update-StacksAgree impl d executed current suppress frame h a =
    ground (arith, pop_if_top-StacksAgree impl current impl.call_return_stack)

pub none_suppressed :
    (bs : List Bool) → IsInherited bs → is_top bs ≡ false → All (λ b. b ≡ false) bs
none_suppressed [] i h = tt
none_suppressed (false ∷ bs) i h = (refl, none_suppressed bs i.1 (ground (arith, i.0)))
none_suppressed (true ∷ bs) i h = absurd (ground arith)

pub top_of :
    (impl : Impl)
    → trap_flag_frame_suppressed impl ≡ false
    → is_top impl.trap_suppression_stack ≡ false
top_of impl h = ground arith

module _ (virtual_query : ℕ → Option MemoryInformation) where
  suppressed-stays :
      (impl : Impl) (depth target : ℕ)
      → trap_flag_frame_suppressed impl ≡ true
      → (should_suppress_trap_flag_call virtual_query impl impl.region_cache depth target).0 ≡ true
  unfolding should_suppress_trap_flag_call
  suppressed-stays impl depth target h = rw h refl

  pub finish-StacksAgree :
      (impl : Impl) (d : InstructionDecodeResult) (executed current depth : ℕ)
      (actual_target : Option ℕ) (frame : EnhancedSamplingFrame)
      → StacksAgree impl
      → StacksAgree
          (finish_trap_flag_step virtual_query impl d executed current depth actual_target frame)
  unfolding finish_trap_flag_step
  finish-StacksAgree impl d executed current depth none frame a =
      update-StacksAgree impl d executed current (trap_flag_frame_suppressed impl) frame (λ h. h) a
  finish-StacksAgree impl d executed current depth (some target) frame a =
      let (suppress, cache) =
        should_suppress_trap_flag_call virtual_query impl impl.region_cache depth target in
      by_test StacksAgree (kind_eq d.kind call)
        (λ calls.
          update-StacksAgree (record impl { region_cache = cache }) d executed current suppress
            frame (suppressed-stays impl depth target)
            (record {
              inherited = a.inherited;
              suppressions = a.suppressions;
              samples = a.samples;
              depth = a.depth;
            }))
        (λ other.
          update-StacksAgree impl d executed current (trap_flag_frame_suppressed impl) frame
            (λ h. h) a)

-- What the update of the stacks leaves alone.
abbrev pub SameSession : Impl → Impl → Type 0
SameSession s t = (t.stop_requested ≡ s.stop_requested) × (t.active_probe ≡ s.active_probe)

pop_if_top-SameSession :
    (impl : Impl) (resume_address : ℕ) (stack : List ℕ)
    → SameSession impl (pop_if_top impl resume_address stack)
unfolding pop_if_top
pop_if_top-SameSession impl resume_address [] = (refl, refl)
pop_if_top-SameSession impl resume_address (top ∷ rest) =
    by_test (SameSession impl) (not (top == resume_address)) (λ h. (refl, refl)) (λ h. (refl, refl))

update-SameSession :
    (impl : Impl) (d : InstructionDecodeResult) (executed current : ℕ) (suppress : Bool)
    (frame : EnhancedSamplingFrame)
    → SameSession impl (update_trap_flag_call_stack impl d executed current suppress frame)
unfolding update_trap_flag_call_stack push_trap_flag_call_frame try_pop_trap_flag_call_frame
update-SameSession impl d executed current suppress frame =
    by_test (SameSession impl) (kind_eq d.kind call && not (d.size == 0)) (λ h. (refl, refl))
      (λ h.
        by_test (SameSession impl) (kind_eq d.kind return)
          (λ y. pop_if_top-SameSession impl current impl.call_return_stack) (λ n. (refl, refl)))

module _ (virtual_query : ℕ → Option MemoryInformation) where
  pub finish-SameSession :
      (impl : Impl) (d : InstructionDecodeResult) (executed current depth : ℕ)
      (actual_target : Option ℕ) (frame : EnhancedSamplingFrame)
      → SameSession impl
          (finish_trap_flag_step virtual_query impl d executed current depth actual_target frame)
  unfolding finish_trap_flag_step
  finish-SameSession impl d executed current depth none frame =
      update-SameSession impl d executed current (trap_flag_frame_suppressed impl) frame
  finish-SameSession impl d executed current depth (some target) frame =
      let (suppress, cache) =
        should_suppress_trap_flag_call virtual_query impl impl.region_cache depth target in
      by_test (SameSession impl) (kind_eq d.kind call)
        (λ calls.
          update-SameSession (record impl { region_cache = cache }) d executed current suppress
            frame)
        (λ other.
          update-SameSession impl d executed current (trap_flag_frame_suppressed impl) frame)
