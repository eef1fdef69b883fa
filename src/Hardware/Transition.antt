-- ===== src/Hardware/Transition.antt =====
-- src/core/hardware/VDTraceHardwareTransitionSupport.cpp, with `RefreshCurrentCallDepth` of
-- src/core/runtime/VDTraceRuntimeState.cpp and the stack of enhanced-sampling frames. The back of
-- a `std::vector` that is used as a stack is the head of the list; the set of seen edges is the
-- list of its elements. Atomic counters wrap at 2 ^ 64.
pub mod Emit
pub mod Calls
pub mod HotBypass
pub mod Finalize
use vd_trace.Base.{
  ℕ, ◌+◌, ◌%◌, Bool, true, false, not, ◌&&◌, ◌||◌, List, [], ◌∷◌, Option, ltb, ◌==◌, if◌then◌else◌,
  u64_mod, u32_mod, length,
}
use vd_trace.Session.{
  EventKind, call, jump, conditional_jump, return, kind_eq, is_every_hit, FlowEdgeKey,
  ExecutionAddressKind, tracked_module, outside_image, anonymous_executable, EnhancedSamplingFrame,
  waiting_for_hot_return, no_block, Impl,
}
use vd_trace.Regions.{MemoryInformation, resolve_execution_address}
use vd_trace.Hardware.{store_observed_addresses_unique, clear_pending_resolution}

abbrev pub next64 : ℕ → ℕ
next64 n = (n + 1) % u64_mod

-- `FlowEdgeKey::operator==`
unfoldable pub edge_eq : FlowEdgeKey → FlowEdgeKey → Bool
edge_eq a b = a.instruction == b.instruction && a.target == b.target && kind_eq a.kind b.kind

unfoldable pub contains_edge : FlowEdgeKey → List FlowEdgeKey → Bool
contains_edge k [] = false
contains_edge k (x ∷ xs) = edge_eq x k || contains_edge k xs

unfoldable pub should_auto_stop_on_root_return : Impl → EventKind → ℕ → Bool
should_auto_stop_on_root_return impl kind call_depth =
    impl.root_stop_armed && kind_eq kind return && call_depth == impl.root_call_depth_base

abbrev pub reset_suppressed_transition_state : Impl → Impl
reset_suppressed_transition_state impl = record impl {
  suppressed_transition_streak = 0;
  suppressed_hot_anchor = 0;
  suppressed_frame_depth = 0;
}

abbrev pub reset_hot_bypass_state : Impl → Impl
reset_hot_bypass_state impl = record impl {
  hot_bypass_resume = 0;
  hot_bypass_return = 0;
  hot_bypass_call_depth = 0;
  hot_bypass_root_stop = false;
}

unfoldable pub resolve_hot_bypass_resume_address : Impl → ℕ → ℕ
resolve_hot_bypass_resume_address impl repeated_target =
    let block = impl.pending_block in
    let branch_target = block.tail_decode.target in
    let fallthrough = block.fallthrough in
    if not block.valid || not block.emits_edge
    then 0
    else if not (kind_eq block.tail_decode.kind conditional_jump)
    then 0
    else if not (branch_target == 0) && repeated_target == branch_target && not (fallthrough == 0)
    then fallthrough
    else if not (fallthrough == 0) && repeated_target == fallthrough && not (branch_target == 0)
    then branch_target
    else if branch_target == 0
    then fallthrough
    else if fallthrough == 0
    then branch_target
    else 0

-- Whether transitions out of memory of this kind are recorded.
abbrev pub is_recordable : Impl → ExecutionAddressKind → Bool
is_recordable impl tracked_module = true
is_recordable impl anonymous_executable = true
is_recordable impl outside_image = impl.options.trace_outside_modules
is_recordable impl _ = false

-- `ShouldEmitTransition` behind the resolution of the source address.
unfoldable pub emit_from : Impl → ExecutionAddressKind → FlowEdgeKey → Bool × Impl
emit_from impl source_kind key =
    if not (is_recordable impl source_kind)
    then (false, record impl { outside_suppressed_count = next64 impl.outside_suppressed_count })
    else if is_every_hit impl.options.hit_policy
    then (true, impl)
    else if not (contains_edge key impl.seen_edges)
    then (true, record impl { seen_edges = key ∷ impl.seen_edges })
    else (
      false,
      record impl { duplicate_edge_suppressed_count = next64 impl.duplicate_edge_suppressed_count },
    )

unfoldable pub should_emit_transition :
    (ℕ → Option MemoryInformation) → Impl → FlowEdgeKey → Bool × Impl
unfolding emit_from
should_emit_transition virtual_query impl key =
    let (resolved, cache) =
      resolve_execution_address virtual_query impl impl.region_cache key.instruction in
    emit_from (record impl { region_cache = cache }) resolved.kind key

abbrev pub refresh_current_call_depth : Impl → Impl
refresh_current_call_depth impl = record impl {
  current_call_depth = (impl.call_depth_offset + length impl.call_return_stack) % u32_mod;
}

abbrev pub push_enhanced_sampling_frame : Impl → EnhancedSamplingFrame → Impl
push_enhanced_sampling_frame impl frame = record impl {
  enhanced_sampling_stack = frame ∷ impl.enhanced_sampling_stack;
}

abbrev pub pop {ℓ} : {A : Type ℓ} → List A → List A
pop [] = []
pop (x ∷ xs) = xs

abbrev pub pop_enhanced_sampling_frame : Impl → Impl
pop_enhanced_sampling_frame impl = record impl {
  enhanced_sampling_stack = pop impl.enhanced_sampling_stack;
}

unfoldable pub push_call_frame : Impl → ℕ → EnhancedSamplingFrame → Impl
push_call_frame impl return_address sample_frame =
    let pushed = record impl { call_return_stack = return_address ∷ impl.call_return_stack } in
    refresh_current_call_depth (push_enhanced_sampling_frame pushed sample_frame)

-- `TryPopCallFrame` on the stack; `PopHotBypassFrame` of VDTraceHardwareException.cpp is the same.
unfoldable pub pop_matching : Impl → ℕ → List ℕ → Impl
pop_matching impl resume_address [] = impl
pop_matching impl resume_address (top ∷ rest) =
    if not (top == resume_address)
    then impl
    else refresh_current_call_depth
        (pop_enhanced_sampling_frame (record impl { call_return_stack = rest }))

unfoldable pub try_pop_call_frame : Impl → ℕ → Impl
unfolding pop_matching
try_pop_call_frame impl resume_address = pop_matching impl resume_address impl.call_return_stack

unfoldable pub update_call_stack_for_transition : Impl → ℕ → EnhancedSamplingFrame → Impl
update_call_stack_for_transition impl next_entry sample_frame =
    let block = impl.pending_block in
    if not block.valid || not block.emits_edge
    then impl
    else if kind_eq block.tail_decode.kind call
    then (if not (next_entry == block.fallthrough)
        then push_call_frame impl block.fallthrough sample_frame
        else impl)
    else if kind_eq block.tail_decode.kind return
    then try_pop_call_frame impl next_entry
    else impl

abbrev pub frame_return_of : Impl → ℕ
frame_return_of impl = elim impl.call_return_stack [ [] ↦ 0 | top ∷ rest ↦ top ]

-- The addresses that `TryArmHotReturnBypass` watches.
abbrev pub bypass_addresses : ℕ → ℕ → ℕ → List ℕ
bypass_addresses resume_address repeated_target frame_return =
    let returns = if not (frame_return == 0) then frame_return ∷ [] else [] in
    if not (resume_address == 0) && not (resume_address == repeated_target)
    then resume_address ∷ returns
    else returns

abbrev give_up : Impl → Bool × Impl
give_up impl = (false, reset_hot_bypass_state (reset_suppressed_transition_state impl))

-- The end of `TryArmHotReturnBypass`, where the streak has met the threshold.
unfoldable pub arm_bypass : Impl → ℕ → ℕ → ℕ → ℕ → Bool × Impl
arm_bypass impl repeated_target resume_address frame_return call_depth =
    let next_addresses = bypass_addresses resume_address repeated_target frame_return in
    let (stored, s) = store_observed_addresses_unique impl next_addresses (length next_addresses) in
    if stored == 0 then give_up s else (
      true,
      clear_pending_resolution (
          reset_suppressed_transition_state (record s {
            hot_bypass_resume = resume_address;
            hot_bypass_return = frame_return;
            hot_bypass_call_depth = call_depth;
            hot_bypass_root_stop =
                not (frame_return == 0) && should_auto_stop_on_root_return s return call_depth;
            hot_bypass_entry_count = next64 s.hot_bypass_entry_count;
            observation_state = waiting_for_hot_return;
            pending_block = no_block;
          })),
    )

unfoldable pub try_arm_hot_return_bypass : Impl → ℕ → ℕ → Bool × Impl
try_arm_hot_return_bypass impl repeated_target call_depth =
    let kind = impl.pending_block.tail_decode.kind in
    let frame_return = frame_return_of impl in
    let resume_address = resolve_hot_bypass_resume_address impl repeated_target in
    let hot_anchor = if not (frame_return == 0) then frame_return else resume_address in
    let streak = (impl.suppressed_transition_streak + 1) % u32_mod in
    let counted = record impl { suppressed_transition_streak = streak } in
    if is_every_hit impl.options.hit_policy
      || repeated_target == 0
      || impl.options.hot_bypass_threshold == 0
    then give_up impl
    else if not (kind_eq kind conditional_jump) && not (kind_eq kind jump)
    then give_up impl
    else if hot_anchor == 0
    then give_up impl
    else if not (impl.suppressed_hot_anchor == hot_anchor)
        || not (impl.suppressed_frame_depth == call_depth)
    then (
      false,
      record impl {
        suppressed_hot_anchor = hot_anchor;
        suppressed_frame_depth = call_depth;
        suppressed_transition_streak = 1;
      },
    )
    else if ltb streak impl.options.hot_bypass_threshold
    then (false, counted)
    else arm_bypass counted repeated_target resume_address frame_return call_depth
