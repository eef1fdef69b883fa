-- ===== src/DepthFilter.antt =====
-- src/core/depth_filter/VDTraceDepthFilter.cpp: the text of a depth filter and the rules it comes
-- to. Of the C runtime, `_wcsicmp`, `_wcsnicmp` and `wcstoull` are those of the "C" locale.
-- `ResolveModuleRange`, which asks Windows for a loaded module, is a parameter.

pub mod Rules
pub mod Tokens
pub mod Values
use vd_trace.Base.{
  ℕ, zero, suc, ◌+◌, ◌-◌, ◌*◌, ◌%◌, ◌≡◌, Bool, true, false, not, ◌&&◌, ◌||◌, List, [], ◌∷◌, ◌++◌,
  Option, none, some, ltb, leb, ◌==◌, if◌then◌else◌, u64_mod, take, drop, length,
}
use vd_trace.Session.{
  Text, DepthFilterExecutionMode, edge, trap_flag, unlimited_call_depth, ModuleRange,
  ResolvedDepthFilterModuleRule, ResolvedDepthFilterSet,
}
use vd_trace.Regions.{find_module_range}

-- L" \t\r\n"
unfoldable pub is_blank : ℕ → Bool
is_blank c = c == 32 || c == 9 || c == 13 || c == 10

unfoldable pub skip_blanks : Text → Text
skip_blanks [] = []
skip_blanks (c ∷ cs) = if is_blank c then skip_blanks cs else c ∷ cs

-- The text up to its last character that is not blank.
unfoldable pub drop_blank_end : Text → Text
drop_blank_end [] = []
drop_blank_end (c ∷ cs) = elim (drop_blank_end cs) [
  | [] ↦ if is_blank c then [] else c ∷ []
  | d ∷ ds ↦ c ∷ d ∷ ds
]

unfoldable pub trim_depth_text : Text → Text
trim_depth_text text = drop_blank_end (skip_blanks text)

-- What a C function sees of `c_str()`.
unfoldable pub c_str : Text → Text
c_str [] = []
c_str (c ∷ cs) = if c == 0 then [] else c ∷ c_str cs

abbrev pub to_lower : ℕ → ℕ
to_lower c = if leb 65 c && leb c 90 then c + 32 else c

unfoldable pub same_letters : Text → Text → Bool
same_letters [] [] = true
same_letters [] (d ∷ ds) = false
same_letters (c ∷ cs) [] = false
same_letters (c ∷ cs) (d ∷ ds) = to_lower c == to_lower d && same_letters cs ds

-- `_wcsicmp(text.c_str(), word) == 0`
abbrev pub is_word : Text → Text → Bool
is_word text word = same_letters (c_str text) word

abbrev pub is_digit : ℕ → Bool
is_digit c = leb 48 c && leb c 57

-- The digits of `wcstoull` behind the first, on the value so far: the value and the rest.
unfoldable pub digits_value : ℕ → Text → ℕ × Text
digits_value n [] = (n, [])
digits_value n (c ∷ cs) =
    let rest = digits_value (n * 10 + (c - 48)) cs in if is_digit c then rest else (n, c ∷ cs)

-- `isspace` of the "C" locale.
unfoldable pub skip_spaces : Text → Text
skip_spaces [] = []
skip_spaces (c ∷ cs) = if c == 32 || (leb 9 c && leb c 13) then skip_spaces cs else c ∷ cs

-- The number and the text at `end`, or none where no digit is read; a number that does not fit
-- is `ULLONG_MAX`.
unsigned_value : Text → Option (ℕ × Text)
unsigned_value [] = none
unsigned_value (c ∷ cs) =
    let (n, rest) = digits_value (c - 48) cs in
    if is_digit c then some (if ltb n u64_mod then n else u64_mod - 1, rest) else none

-- A minus sign negates a number that fits.
abbrev negated : Option (ℕ × Text) → Option (ℕ × Text)
negated none = none
negated (some (n, rest)) = some ((u64_mod - n) % u64_mod, rest)

abbrev does_not_fit : Text → Bool
does_not_fit [] = false
does_not_fit (c ∷ cs) = is_digit c && leb u64_mod (digits_value (c - 48) cs).0

signed_value : Text → Option (ℕ × Text)
unfolding unsigned_value
signed_value [] = none
signed_value (c ∷ cs) =
    if c == 45
    then (if does_not_fit cs then unsigned_value cs else negated (unsigned_value cs))
    else if c == 43
    then unsigned_value cs
    else unsigned_value (c ∷ cs)

unfoldable pub wcstoull : Text → Option (ℕ × Text)
unfolding signed_value
wcstoull text = signed_value (skip_spaces text)

abbrev pub word_all : Text
word_all = 97 ∷ 108 ∷ 108 ∷ []

abbrev pub word_same : Text
word_same = 115 ∷ 97 ∷ 109 ∷ 101 ∷ []

abbrev pub word_single : Text
word_single = 115 ∷ 105 ∷ 110 ∷ 103 ∷ 108 ∷ 101 ∷ []

abbrev pub word_edge : Text
word_edge = 101 ∷ 100 ∷ 103 ∷ 101 ∷ []

abbrev pub word_tf : Text
word_tf = 116 ∷ 102 ∷ []

-- The test of what `wcstoull` returns.
abbrev pub whole_number : Option (ℕ × Text) → Option ℕ
whole_number none = none
whole_number (some (n, [])) = if ltb unlimited_call_depth n then none else some n
whole_number (some (n, c ∷ cs)) = none

abbrev pub is_empty : Text → Bool
is_empty [] = true
is_empty (c ∷ cs) = false

-- A failure, which the source reports with a text for reading, is none.
unfoldable pub parse_depth_value : Text → Option ℕ
parse_depth_value text =
    let trimmed = trim_depth_text text in
    if is_empty trimmed
    then none
    else if is_word trimmed word_all
    then some unlimited_call_depth
    else if is_word trimmed word_same || is_word trimmed word_single
    then some 0
    else whole_number (wcstoull (c_str trimmed))

unfoldable pub parse_execution_mode_value : Text → Option DepthFilterExecutionMode
parse_execution_mode_value text =
    let trimmed = trim_depth_text text in
    if is_empty trimmed
    then none
    else if is_word trimmed word_edge
    then some edge
    else if is_word trimmed word_tf
    then some trap_flag
    else none

-- `find_last_of(L':')`, with the texts before and behind it.
unfoldable pub split_last_colon : Text → Option (Text × Text)
split_last_colon [] = none
split_last_colon (c ∷ cs) = elim (split_last_colon cs) [
  | none ↦ if c == 58 then some ([], cs) else none
  | some (before, behind) ↦ some (c ∷ before, behind)
]

abbrev pub with_mode : DepthFilterExecutionMode → Option ℕ → Option (ℕ × DepthFilterExecutionMode)
with_mode mode none = none
with_mode mode (some n) = some (n, mode)

-- The mode behind the last colon, if there is one.
unfoldable pub split_mode : Text → Option (Text × DepthFilterExecutionMode)
split_mode text = elim (split_last_colon text) [
  | none ↦ none
  | some (before, behind) ↦ elim (parse_execution_mode_value behind) [
    | none ↦ none
    | some mode ↦ some (before, mode)
  ]
]

unfoldable pub parse_depth_mode_value : Text → Option (ℕ × DepthFilterExecutionMode)
parse_depth_mode_value text =
    let trimmed = trim_depth_text text in
    elim (split_mode trimmed) [
      | some (before, mode) ↦ with_mode mode (parse_depth_value before)
      | none ↦ with_mode edge (parse_depth_value trimmed)
    ]

abbrev pub is_separator : ℕ → Bool
is_separator c = c == 44 || c == 59

abbrev pub keep_token : Text → List Text → List Text
keep_token token tokens = if is_empty token then tokens else token ∷ tokens

-- The characters of the current token, last one first, and the text behind.
split_from : Text → Text → List Text
split_from current [] = keep_token (trim_depth_text current) []
split_from current (c ∷ cs) =
    let next = split_from [] cs in
    let same = split_from (current ++ c ∷ []) cs in
    if is_separator c then keep_token (trim_depth_text current) next else same

unfoldable pub split_depth_filter_tokens : Text → List Text
unfolding split_from
split_depth_filter_tokens text = split_from [] text
