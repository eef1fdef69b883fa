-- ===== src/Regions/Policy.antt =====
-- The depth and execution-mode policies over resolved addresses: `ResolveExecutionModeForAddress` of
-- src/core/depth_filter/VDTraceDepthFilterResolve.cpp, `ShouldFollowKnownCallTarget` of
-- src/core/hardware/VDTraceHardwareSupport.cpp, and `ShouldSuppressTrapFlagCall` of
-- src/core/decoder/VDTraceDecoderSupport.cpp, each of the two with its own chain of limits.
use vd_trace.Base.{
  ℕ, Bool, true, false, not, ◌&&◌, [], ◌∷◌, Option, none, some, leb, ◌==◌, if◌then◌else◌, ◌≡◌, ◌<◌,
  ◌⊎◌, ◌↔◌, arith,
}
use vd_trace.Session.{
  ResolvedDepthFilterModuleRule, ResolvedExecutionAddress, ExecutionAddressKind, tracked_module,
  system_module, outside_image, anonymous_executable, RegionCache, Impl, DepthFilterExecutionMode,
  edge, trap_flag, unlimited_call_depth,
}
use vd_trace.Regions.{MemoryInformation, resolve_execution_address}

abbrev pub outside_depth : Impl → ℕ
outside_depth impl =
    if impl.depth_filters.has_outside_module_depth
    then impl.depth_filters.outside_module_depth
    else impl.options.max_call_depth

abbrev pub anonymous_depth : Impl → ℕ
anonymous_depth impl =
    if impl.depth_filters.has_anonymous_exec_depth
    then impl.depth_filters.anonymous_exec_depth
    else impl.options.max_call_depth

pub record ExecutionMode : Type 0 where
  pub mode : DepthFilterExecutionMode
  pub has_mode : Bool
  pub is_system_target : Bool

abbrev pub is_trap_flag : DepthFilterExecutionMode → Bool
is_trap_flag edge = false
is_trap_flag trap_flag = true

abbrev mode_of : DepthFilterExecutionMode → Bool → ExecutionMode
mode_of m has = record { mode = m; has_mode = has; is_system_target = false }

mode_by_kind : Impl → ExecutionAddressKind → ExecutionMode
mode_by_kind impl outside_image =
    let f = impl.depth_filters in
    mode_of (if f.has_outside_module_depth then f.outside_module_execution_mode else edge)
      (f.has_outside_module_depth && is_trap_flag f.outside_module_execution_mode)
mode_by_kind impl anonymous_executable =
    let f = impl.depth_filters in
    mode_of (if f.has_anonymous_exec_depth then f.anonymous_exec_execution_mode else edge)
      (f.has_anonymous_exec_depth && is_trap_flag f.anonymous_exec_execution_mode)
mode_by_kind impl _ = mode_of edge false

mode_by_rule : Impl → ExecutionAddressKind → Option ResolvedDepthFilterModuleRule → ExecutionMode
unfolding mode_by_kind
mode_by_rule impl kind (some rule) = mode_of rule.execution_mode (is_trap_flag rule.execution_mode)
mode_by_rule impl kind none = mode_by_kind impl kind

execution_mode_of : Impl → ResolvedExecutionAddress → ExecutionMode
unfolding mode_by_rule
execution_mode_of impl resolved = elim resolved.kind [
  | system_module ↦ record { mode = edge; has_mode = false; is_system_target = true }
  | _ ↦ mode_by_rule impl resolved.kind resolved.depth_rule
]

abbrev pub is_unknown_or_system : ExecutionAddressKind → Bool
is_unknown_or_system ExecutionAddressKind.unknown = true
is_unknown_or_system system_module = true
is_unknown_or_system _ = false

abbrev pub may_follow_kind : Impl → ExecutionAddressKind → Bool
may_follow_kind impl tracked_module = true
may_follow_kind impl anonymous_executable = true
may_follow_kind impl outside_image = impl.options.trace_outside_modules
may_follow_kind impl _ = false

-- The chain of `ShouldFollowKnownCallTarget`; none stands for `has_limit == false`.
follow_limit_by_kind : Impl → ExecutionAddressKind → Option ℕ
follow_limit_by_kind impl tracked_module = some impl.options.max_call_depth
follow_limit_by_kind impl outside_image = some (outside_depth impl)
follow_limit_by_kind impl anonymous_executable = some (anonymous_depth impl)
follow_limit_by_kind impl _ = none

follow_limit : Impl → ResolvedExecutionAddress → Option ℕ
unfolding follow_limit_by_kind
follow_limit impl resolved = elim resolved.depth_rule [
  | some rule ↦ some rule.max_call_depth
  | none ↦ follow_limit_by_kind impl resolved.kind
]

follow_within : Impl → ExecutionAddressKind → Option ℕ → Bool
follow_within impl kind none = false
follow_within impl kind (some limit) =
    if not (limit == unlimited_call_depth) && leb limit impl.current_call_depth
    then false
    else may_follow_kind impl kind

should_follow_resolved : Impl → ResolvedExecutionAddress → Bool
unfolding follow_within follow_limit
should_follow_resolved impl resolved =
    if is_unknown_or_system resolved.kind
    then false
    else follow_within impl resolved.kind (follow_limit impl resolved)

-- The back of the stack is the head of the list.
abbrev pub trap_flag_frame_suppressed : Impl → Bool
trap_flag_frame_suppressed impl = elim impl.trap_suppression_stack [ [] ↦ false | top ∷ rest ↦ top ]

abbrev is_outside_image : ExecutionAddressKind → Bool
is_outside_image outside_image = true
is_outside_image _ = false

-- The chain of `ShouldSuppressTrapFlagCall`.
suppress_limit_by_kind : Impl → ExecutionAddressKind → Option ℕ
suppress_limit_by_kind impl tracked_module = some impl.options.max_call_depth
suppress_limit_by_kind impl outside_image =
    let f = impl.depth_filters in
    some
      (if f.has_outside_module_depth then f.outside_module_depth else impl.options.max_call_depth)
suppress_limit_by_kind impl anonymous_executable =
    let f = impl.depth_filters in
    some
      (if f.has_anonymous_exec_depth then f.anonymous_exec_depth else impl.options.max_call_depth)
suppress_limit_by_kind impl _ = none

suppress_limit : Impl → ResolvedExecutionAddress → Option ℕ
unfolding suppress_limit_by_kind
suppress_limit impl resolved = elim resolved.depth_rule [
  | some rule ↦ some rule.max_call_depth
  | none ↦ suppress_limit_by_kind impl resolved.kind
]

suppress_beyond : Impl → ℕ → ExecutionAddressKind → Option ℕ → Bool
suppress_beyond impl call_depth kind none = true
suppress_beyond impl call_depth kind (some limit) =
    if not (limit == unlimited_call_depth) && leb limit call_depth
    then true
    else is_outside_image kind && not impl.options.trace_outside_modules

should_suppress_resolved : Impl → ℕ → ResolvedExecutionAddress → Bool
unfolding suppress_beyond suppress_limit
should_suppress_resolved impl call_depth resolved =
    if is_unknown_or_system resolved.kind
    then true
    else suppress_beyond impl call_depth resolved.kind (suppress_limit impl resolved)

follow-suppress_resolved :
    (impl : Impl) (r : ResolvedExecutionAddress)
    → should_suppress_resolved impl impl.current_call_depth r ≡ not (should_follow_resolved impl r)
unfolding should_suppress_resolved should_follow_resolved
follow-suppress_resolved impl r = ground arith

-- What a call target must be for the hardware backend to follow it.
abbrev pub IsWithin : ℕ → ℕ → Type 0
IsWithin limit depth = (limit ≡ unlimited_call_depth) ⊎ (depth < limit)

-- The limit of the target's rule, or else of its kind of memory.
abbrev pub limit_or : Option ResolvedDepthFilterModuleRule → ℕ → ℕ
limit_or none limit = limit
limit_or (some rule) limit = rule.max_call_depth

abbrev pub set_or : Bool → ℕ → ℕ → ℕ
set_or true set fallback = set
set_or false set fallback = fallback

abbrev pub MayFollow : Impl → ExecutionAddressKind → Option ResolvedDepthFilterModuleRule → Type 0
MayFollow impl tracked_module rule =
    IsWithin (limit_or rule impl.options.max_call_depth) impl.current_call_depth
MayFollow impl anonymous_executable rule =
    let f = impl.depth_filters in
    IsWithin
      (limit_or rule
        (set_or f.has_anonymous_exec_depth f.anonymous_exec_depth impl.options.max_call_depth))
      impl.current_call_depth
MayFollow impl outside_image rule =
    let f = impl.depth_filters in
    (impl.options.trace_outside_modules ≡ true)
    × IsWithin
        (limit_or rule
          (set_or f.has_outside_module_depth f.outside_module_depth impl.options.max_call_depth))
        impl.current_call_depth
MayFollow impl _ rule = ⊥

follow-MayFollow_resolved :
    (impl : Impl) (r : ResolvedExecutionAddress)
    → (should_follow_resolved impl r ≡ true) ↔ MayFollow impl r.kind r.depth_rule
unfolding should_follow_resolved
follow-MayFollow_resolved impl r = ground arith

module _ (virtual_query : ℕ → Option MemoryInformation) where
  unfoldable pub resolve_execution_mode_for_address :
      Impl → RegionCache → ℕ → ExecutionMode × RegionCache
  unfolding execution_mode_of
  resolve_execution_mode_for_address impl cache address =
      let (resolved, cache') = resolve_execution_address virtual_query impl cache address in
      (execution_mode_of impl resolved, cache')

  unfoldable pub should_follow_known_call_target : Impl → RegionCache → ℕ → Bool × RegionCache
  unfolding should_follow_resolved
  should_follow_known_call_target impl cache target =
      let (resolved, cache') = resolve_execution_address virtual_query impl cache target in
      (should_follow_resolved impl resolved, cache')

  unfoldable pub should_suppress_trap_flag_call : Impl → RegionCache → ℕ → ℕ → Bool × RegionCache
  unfolding should_suppress_resolved
  should_suppress_trap_flag_call impl cache call_depth target =
      let (resolved, cache') = resolve_execution_address virtual_query impl cache target in
      if trap_flag_frame_suppressed impl
      then (true, cache)
      else (should_suppress_resolved impl call_depth resolved, cache')

  -- Both backends decide alike: in a frame that is not suppressed, the trap-flag backend suppresses
  -- a call at the current depth exactly when the hardware backend does not follow its target.
  pub suppress-follow :
      (impl : Impl) (cache : RegionCache) (target : ℕ)
      → trap_flag_frame_suppressed impl ≡ false
      → (should_suppress_trap_flag_call impl cache impl.current_call_depth target).0
        ≡ not (should_follow_known_call_target impl cache target).0
  unfolding should_suppress_trap_flag_call should_follow_known_call_target
  suppress-follow impl cache target h =
      rw h (
        follow-suppress_resolved impl (resolve_execution_address virtual_query impl cache target).0)

  -- The hardware backend follows a call target exactly where it is in a tracked module, in generated
  -- code, or, if modules outside are traced, in another image, and the limit that is set for it (by
  -- its rule, else for its kind of memory, else for the session) is unlimited or above the current
  -- call depth.
  pub follow-MayFollow :
      (impl : Impl) (cache : RegionCache) (target : ℕ)
      → let r = (resolve_execution_address virtual_query impl cache target).0 in
        ((should_follow_known_call_target impl cache target).0 ≡ true)
        ↔ MayFollow impl r.kind r.depth_rule
  unfolding should_follow_known_call_target
  follow-MayFollow impl cache target =
      follow-MayFollow_resolved impl (resolve_execution_address virtual_query impl cache target).0
