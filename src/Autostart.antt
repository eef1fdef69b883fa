-- ===== src/Autostart.antt =====
-- src/autostart/VDTraceAutoStartConfigText.cpp: the text of the autostart configuration.
-- `std::map` is a list of its entries, each key once; files and paths are left out. Of the C
-- runtime, `_wcsicmp` is that of the "C" locale.
pub mod Values
use vd_trace.Base.{
  ℕ, ◌-◌, Bool, true, false, not, ◌&&◌, ◌||◌, List, [], ◌∷◌, Option, none, some, ltb, ◌==◌,
  if◌then◌else◌, length, take,
}
use vd_trace.Session.{Text}
use vd_trace.DepthFilter.{skip_blanks, drop_blank_end, is_word}

abbrev pub Section : Type 0
Section = List (Text × Text)

abbrev pub SectionMap : Type 0
SectionMap = List (Text × Section)

-- `find_first_not_of` and `find_last_not_of` of L" \t\r\n".
abbrev pub trim_auto_start_text : Text → Text
trim_auto_start_text text = drop_blank_end (skip_blanks text)

unfoldable pub text_eq : Text → Text → Bool
text_eq [] [] = true
text_eq [] (d ∷ ds) = false
text_eq (c ∷ cs) [] = false
text_eq (c ∷ cs) (d ∷ ds) = c == d && text_eq cs ds

abbrev pub is_empty : Text → Bool
is_empty [] = true
is_empty (c ∷ cs) = false

-- `find` of a map.
unfoldable pub lookup {ℓ} : {A : Type ℓ} → Text → List (Text × A) → Option A
lookup key [] = none
lookup key ((k, v) ∷ m) = if text_eq k key then some v else lookup key m

-- An assignment through `operator[]`, from what the key held.
unfoldable pub adjust {ℓ} : {A : Type ℓ} → Text → (Option A → A) → List (Text × A) → List (Text × A)
adjust key f [] = (key, f none) ∷ []
adjust key f ((k, v) ∷ m) = if text_eq k key then (k, f (some v)) ∷ m else (k, v) ∷ adjust key f m

abbrev pub or_empty : Option Section → Section
or_empty none = []
or_empty (some s) = s

-- `sections[name];` and `sections[name][key] = value;`
unfoldable pub open_section : Text → SectionMap → SectionMap
open_section name sections = adjust name or_empty sections

unfoldable pub assign : Text → Text → Text → SectionMap → SectionMap
assign name key value sections = adjust name (λ o. adjust key (λ _. value) (or_empty o)) sections

-- `std::getline` up to the end of the text.
abbrev push_char : ℕ → List Text → List Text
push_char c [] = (c ∷ []) ∷ []
push_char c (l ∷ ls) = (c ∷ l) ∷ ls

unfoldable pub split_lines : Text → List Text
split_lines [] = []
split_lines (c ∷ cs) = let rest = split_lines cs in if c == 10 then [] ∷ rest else push_char c rest

-- if (!line.empty() && line.back() == L'\r') line.pop_back();
unfoldable pub pop_return : Text → Text
pop_return [] = []
pop_return (c ∷ []) = if c == 13 then [] else c ∷ []
pop_return (c ∷ d ∷ ds) = c ∷ pop_return (d ∷ ds)

unfoldable pub last_or : ℕ → Text → ℕ
last_or d [] = d
last_or d (c ∷ cs) = last_or c cs

-- The text before and behind the first `=`.
unfoldable pub split_equal : Text → Option (Text × Text)
split_equal [] = none
split_equal (c ∷ cs) =
    let rest = split_equal cs in
    if c == 61 then some ([], cs) else elim rest [ none ↦ none | some p ↦ some (c ∷ p.0, p.1) ]

pub data Line : Type 0 where
  ignored : Line
  section : Text → Line
  entry : Text → Text → Line

abbrev entry_of : Option (Text × Text) → Line
entry_of none = ignored
entry_of (some (key, value)) = entry (trim_auto_start_text key) (trim_auto_start_text value)

-- The tests on a trimmed line.
unfoldable pub classify : Text → Line
unfolding split_equal
classify [] = ignored
classify (c ∷ cs) =
    if c == 59 || c == 35
    then ignored
    else if c == 91 && last_or c cs == 93 && ltb 2 (length (c ∷ cs))
    then section (trim_auto_start_text (take (length cs - 1) cs))
    else entry_of (split_equal (c ∷ cs))

unfoldable pub read_line : Text → Line
unfolding classify
read_line line = classify (trim_auto_start_text (pop_return line))

unfoldable pub read_lines : List Text → List Line
unfolding read_line
read_lines [] = []
read_lines (l ∷ ls) = read_line l ∷ read_lines ls

-- The loop over the lines, on `current_section` and `sections`.
unfoldable pub run_lines : List Line → Text → SectionMap → SectionMap
run_lines [] current sections = sections
run_lines (ignored ∷ ls) current sections = run_lines ls current sections
run_lines (section name ∷ ls) current sections = run_lines ls name (open_section name sections)
run_lines (entry key value ∷ ls) current sections =
    run_lines ls current (if is_empty current then sections else assign current key value sections)

unfoldable pub parse_auto_start_ini_text : Text → SectionMap
parse_auto_start_ini_text text = run_lines (read_lines (split_lines text)) [] []

abbrev pub or_fallback : Text → Option Text → Text
or_fallback fallback none = fallback
or_fallback fallback (some v) = v

abbrev pub in_section : Text → Option Section → Option Text
in_section key none = none
in_section key (some s) = lookup key s

unfoldable pub find_value : SectionMap → Text → Text → Option Text
find_value sections section_name key_name = in_section key_name (lookup section_name sections)

unfoldable pub get_auto_start_value : SectionMap → Text → Text → Text → Text
unfolding find_value
get_auto_start_value sections section_name key_name fallback =
    or_fallback fallback (find_value sections section_name key_name)

-- The words of `ParseAutoStartBool`.
unfoldable pub is_true_word : Text → Bool
is_true_word t =
    is_word t (49 ∷ [])
    || is_word t (116 ∷ 114 ∷ 117 ∷ 101 ∷ [])
    || is_word t (121 ∷ 101 ∷ 115 ∷ [])
    || is_word t (111 ∷ 110 ∷ [])

unfoldable pub is_false_word : Text → Bool
is_false_word t =
    is_word t (48 ∷ [])
    || is_word t (102 ∷ 97 ∷ 108 ∷ 115 ∷ 101 ∷ [])
    || is_word t (110 ∷ 111 ∷ [])
    || is_word t (111 ∷ 102 ∷ 102 ∷ [])

unfoldable pub parse_auto_start_bool : Text → Bool → Bool
unfolding is_true_word is_false_word
parse_auto_start_bool text fallback =
    let lowered = trim_auto_start_text text in
    if is_true_word lowered then true else if is_false_word lowered then false else fallback
