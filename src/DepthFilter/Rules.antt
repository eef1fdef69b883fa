-- ===== src/DepthFilter/Rules.antt =====
-- `ParseDepthFilterSpec` of src/core/depth_filter/VDTraceDepthFilter.cpp: the rules of a depth
-- filter. On a failure the caller gives the filters up, so that it comes to its cause alone.
-- `std::sort` is a stable insertion sort here: rules of one base and of different sizes have no
-- order of their own in the source.
pub mod Order
use vd_trace.Base.{
  ℕ, zero, suc, ◌+◌, ◌≡◌, Bool, true, false, not, ◌&&◌, List, [], ◌∷◌, ◌++◌, Option, none, some,
  ltb, ◌==◌, if◌then◌else◌, drop, length,
}
use vd_trace.Session.{
  Text, DepthFilterExecutionMode, edge, unlimited_call_depth, ModuleRange,
  ResolvedDepthFilterModuleRule, ResolvedDepthFilterSet,
}
use vd_trace.Regions.{find_module_range}
use vd_trace.DepthFilter.{
  trim_depth_text, to_lower, is_empty, parse_depth_value, parse_depth_mode_value, split_last_colon,
  split_mode, split_depth_filter_tokens,
}

pub data FilterError : Type 0 where
  bad_outside bad_anonymous bad_module_format no_module_name bad_module_depth : FilterError
  unknown_rule unresolved_module system_module odd_overlap : FilterError

pub data Outcome (A : Type 0) : Type 0 where
  failed : FilterError → Outcome A
  done : A → Outcome A

abbrev pub and_then : {A B : Type 0} → Outcome A → (A → Outcome B) → Outcome B
and_then (failed e) next = failed e
and_then (done a) next = next a

pub record TextDepthModuleRule : Type 0 where
  pub module_name : Text
  pub max_call_depth : ℕ
  pub execution_mode : DepthFilterExecutionMode

-- `_wcsnicmp(text.c_str(), prefix, length) == 0` for a prefix in small letters.
unfoldable pub starts_with_insensitive : Text → Text → Bool
starts_with_insensitive text [] = true
starts_with_insensitive [] (p ∷ ps) = false
starts_with_insensitive (c ∷ cs) (p ∷ ps) = to_lower c == p && starts_with_insensitive cs ps

abbrev outside_prefix : Text
outside_prefix = 111 ∷ 117 ∷ 116 ∷ 115 ∷ 105 ∷ 100 ∷ 101 ∷ 61 ∷ []

abbrev anon_prefix : Text
anon_prefix = 97 ∷ 110 ∷ 111 ∷ 110 ∷ 61 ∷ []

abbrev anonymous_prefix : Text
anonymous_prefix = 97 ∷ 110 ∷ 111 ∷ 110 ∷ 121 ∷ 109 ∷ 111 ∷ 117 ∷ 115 ∷ 61 ∷ []

abbrev module_prefix : Text
module_prefix = 109 ∷ 111 ∷ 100 ∷ 117 ∷ 108 ∷ 101 ∷ 61 ∷ []

abbrev no_filters : ResolvedDepthFilterSet
no_filters = record {
  module_rules = [];
  has_outside_module_depth = false;
  outside_module_depth = unlimited_call_depth;
  outside_module_execution_mode = edge;
  has_anonymous_exec_depth = false;
  anonymous_exec_depth = unlimited_call_depth;
  anonymous_exec_execution_mode = edge;
}

-- The filters and the module rules of the tokens so far.
abbrev pub Progress : Type 0
Progress = ResolvedDepthFilterSet × List TextDepthModuleRule

abbrev set_outside : Progress → Option (ℕ × DepthFilterExecutionMode) → Outcome Progress
set_outside p none = failed bad_outside
set_outside (filters, rules) (some (depth, mode)) = done (
  record filters {
    has_outside_module_depth = true;
    outside_module_depth = depth;
    outside_module_execution_mode = mode;
  },
  rules,
)

abbrev set_anonymous : Progress → Option (ℕ × DepthFilterExecutionMode) → Outcome Progress
set_anonymous p none = failed bad_anonymous
set_anonymous (filters, rules) (some (depth, mode)) = done (
  record filters {
    has_anonymous_exec_depth = true;
    anonymous_exec_depth = depth;
    anonymous_exec_execution_mode = mode;
  },
  rules,
)

-- The payload behind module=, with the mode taken off its end.
abbrev body_and_mode :
    Text → Option (Text × DepthFilterExecutionMode) → Text × DepthFilterExecutionMode
body_and_mode payload none = (payload, edge)
body_and_mode payload (some (before, mode)) = (trim_depth_text before, mode)

abbrev named_rule : Text → DepthFilterExecutionMode → Option ℕ → Outcome TextDepthModuleRule
named_rule name mode none = failed bad_module_depth
named_rule name mode (some depth) =
    done (record { module_name = name; max_call_depth = depth; execution_mode = mode })

abbrev split_rule : DepthFilterExecutionMode → Option (Text × Text) → Outcome TextDepthModuleRule
split_rule mode none = failed bad_module_format
split_rule mode (some (before, behind)) =
    let name = trim_depth_text before in
    if is_empty name then failed no_module_name else named_rule name mode (parse_depth_value behind)

unfoldable pub parse_module_rule : Text → Outcome TextDepthModuleRule
parse_module_rule token =
    let payload = trim_depth_text (drop 7 token) in
    let (body, mode) = body_and_mode payload (split_mode payload) in
    split_rule mode (split_last_colon body)

unfoldable pub parse_token : Progress → Text → Outcome Progress
parse_token p token =
    if starts_with_insensitive token outside_prefix
    then set_outside p (parse_depth_mode_value (drop 8 token))
    else if starts_with_insensitive token anon_prefix
    then set_anonymous p (parse_depth_mode_value (drop 5 token))
    else if starts_with_insensitive token anonymous_prefix
    then set_anonymous p (parse_depth_mode_value (drop 10 token))
    else if starts_with_insensitive token module_prefix
    then and_then (parse_module_rule token) (λ rule. done (p.0, p.1 ++ rule ∷ []))
    else failed unknown_rule

unfoldable pub parse_tokens : Progress → List Text → Outcome Progress
parse_tokens p [] = done p
parse_tokens p (token ∷ tokens) = and_then (parse_token p token) (λ q. parse_tokens q tokens)

abbrev is_based_at : ℕ → Option ModuleRange → Bool
is_based_at base none = false
is_based_at base (some r) = r.base == base

abbrev pub is_system_module_range : List ModuleRange → ModuleRange → Bool
is_system_module_range system_modules range =
    is_based_at range.base (find_module_range system_modules range.base)

abbrev pub same_range : ModuleRange → ModuleRange → Bool
same_range a b = a.base == b.base && a.size == b.size

unfoldable pub add_or_replace_module_rule :
    List ResolvedDepthFilterModuleRule
    → ResolvedDepthFilterModuleRule
    → List ResolvedDepthFilterModuleRule
add_or_replace_module_rule [] rule = rule ∷ []
add_or_replace_module_rule (existing ∷ rules) rule =
    if same_range existing.range rule.range
    then rule ∷ rules
    else existing ∷ add_or_replace_module_rule rules rule

unfoldable pub insert_rule :
    ResolvedDepthFilterModuleRule
    → List ResolvedDepthFilterModuleRule
    → List ResolvedDepthFilterModuleRule
insert_rule rule [] = rule ∷ []
insert_rule rule (x ∷ xs) =
    if ltb x.range.base rule.range.base then x ∷ insert_rule rule xs else rule ∷ x ∷ xs

unfoldable pub sort_rules : List ResolvedDepthFilterModuleRule → List ResolvedDepthFilterModuleRule
sort_rules [] = []
sort_rules (x ∷ xs) = insert_rule x (sort_rules xs)

-- A tracked module that holds the base of the rule starts there.
abbrev starts_at : ℕ → Option ModuleRange → Bool
starts_at base none = true
starts_at base (some r) = r.base == base

unfoldable pub all_aligned : List ModuleRange → List ResolvedDepthFilterModuleRule → Bool
all_aligned tracked_modules [] = true
all_aligned tracked_modules (x ∷ xs) =
    starts_at x.range.base (find_module_range tracked_modules x.range.base)
    && all_aligned tracked_modules xs

module _ (resolve_module_range : Text → Option ModuleRange)
    (tracked_modules system_modules : List ModuleRange) where
  abbrev resolved_rule : ModuleRange → TextDepthModuleRule → ResolvedDepthFilterModuleRule
  resolved_rule range rule = record {
    range = range;
    max_call_depth = rule.max_call_depth;
    execution_mode = rule.execution_mode;
  }

  abbrev add_resolved :
      List ResolvedDepthFilterModuleRule
      → TextDepthModuleRule
      → Option ModuleRange
      → Outcome (List ResolvedDepthFilterModuleRule)
  add_resolved rules rule none = failed unresolved_module
  add_resolved rules rule (some range) =
      if is_system_module_range system_modules range
      then failed system_module
      else done (add_or_replace_module_rule rules (resolved_rule range rule))

  unfoldable pub resolve_rules :
      List ResolvedDepthFilterModuleRule
      → List TextDepthModuleRule
      → Outcome (List ResolvedDepthFilterModuleRule)
  resolve_rules rules [] = done rules
  resolve_rules rules (x ∷ xs) =
      and_then (add_resolved rules x (resolve_module_range x.module_name))
        (λ next. resolve_rules next xs)

  abbrev finish_rules :
      ResolvedDepthFilterSet → List ResolvedDepthFilterModuleRule → Outcome ResolvedDepthFilterSet
  finish_rules filters sorted =
      if all_aligned tracked_modules sorted
      then done (record filters { module_rules = sorted })
      else failed odd_overlap

  unfoldable pub parse_depth_filter_spec : Text → Outcome ResolvedDepthFilterSet
  parse_depth_filter_spec text =
      let trimmed = trim_depth_text text in
      if is_empty trimmed
      then done no_filters
      else and_then (parse_tokens (no_filters, []) (split_depth_filter_tokens trimmed))
          (λ p. and_then (resolve_rules [] p.1) (λ rules. finish_rules p.0 (sort_rules rules)))
