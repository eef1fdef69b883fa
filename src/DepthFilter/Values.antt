-- ===== src/DepthFilter/Values.antt =====
-- The depth and mode values of a depth filter, printed and parsed.
use vd_trace.Base.{
  ℕ, zero, suc, ◌+◌, ◌-◌, ◌*◌, ◌/◌, ◌%◌, ◌<◌, ◌≡◌, refl, ap, sym, ◌∙◌, true, false, [], ◌∷◌, ◌++◌,
  some, arith, All, All-append, ltb, leb, ◌≤◌, ◌==◌, ◌||◌, ◌&&◌, u64_mod, if◌then◌else◌, Bool-cases,
  inl, inr, subst, u32_mod,
}
use vd_trace.Session.{Text, DepthFilterExecutionMode, edge, trap_flag}
use vd_trace.DepthFilter.{
  is_digit, is_blank, skip_blanks, drop_blank_end, trim_depth_text, c_str, same_letters,
  digits_value, skip_spaces, unsigned_value, signed_value, wcstoull, word_edge, word_tf,
  parse_depth_value, parse_execution_mode_value, split_last_colon, split_mode,
  parse_depth_mode_value,
}

abbrev Digits : Text → Type 0
Digits = All (λ c. is_digit c ≡ true)

-- The decimal digits of a number, on fuel above the number.
digits_of : ℕ → ℕ → Text
digits_of zero n = []
digits_of (suc fuel) n =
    let rest = digits_of fuel (n / 10) in
    if ltb n 10 then (48 + n) ∷ [] else rest ++ (48 + n % 10) ∷ []

pub decimal : ℕ → Text
decimal n = digits_of (suc n) n

digits_value-append :
    (a : ℕ) (xs : Text) (c : ℕ)
    → Digits xs
    → is_digit c ≡ true
    → digits_value a (xs ++ c ∷ []) ≡ ((digits_value a xs).0 * 10 + (c - 48), [])
unfolding digits_value
digits_value-append a [] c d e = rw e refl
digits_value-append a (x ∷ xs) c d e = rw d.0 (digits_value-append (a * 10 + (x - 48)) xs c d.1 e)

digits_of-Digits : (fuel n : ℕ) → Digits (digits_of fuel n)
unfolding digits_of
digits_of-Digits zero n = tt
digits_of-Digits (suc fuel) n = elim (Bool-cases (ltb n 10)) [
  | inl e ↦ rw e (ground arith, tt)
  | inr e ↦ rw e (
      All-append (λ c. is_digit c ≡ true) (digits_of fuel (n / 10)) ((48 + n % 10) ∷ [])
        (digits_of-Digits fuel (n / 10)) (ground arith, tt))
]

digits_of-value : (fuel n : ℕ) → n < fuel → digits_value 0 (digits_of fuel n) ≡ (n, [])
unfolding digits_of digits_value
digits_of-value zero n h = absurd (omega arith)
digits_of-value (suc fuel) n h = elim (Bool-cases (ltb n 10)) [
  | inl e ↦
      let d : is_digit (48 + n) ≡ true = ground arith in
      rw (e, digits_value, d) (ap (λ k. (k, [])) (omega arith))
  | inr e ↦ rw e (
      digits_value-append 0 (digits_of fuel (n / 10)) (48 + n % 10) (digits_of-Digits fuel (n / 10))
        (ground arith)
      ∙ ap (λ k. (k, []))
          (omega
            (arith, ap (λ (p : ℕ × Text). p.0) (digits_of-value fuel (n / 10) (ground arith)))))
]

-- Characters that no part of the parser drops.
abbrev IsSolid : ℕ → Type 0
IsSolid c = (is_blank c ≡ false) × ((c == 0) ≡ false)

skip_blanks-IsSolid : (t : Text) → All IsSolid t → skip_blanks t ≡ t
unfolding skip_blanks
skip_blanks-IsSolid [] a = refl
skip_blanks-IsSolid (c ∷ cs) a = rw (a.0).0 refl

drop_blank_end-IsSolid : (t : Text) → All IsSolid t → drop_blank_end t ≡ t
unfolding drop_blank_end
drop_blank_end-IsSolid [] a = refl
drop_blank_end-IsSolid (c ∷ []) a = rw (a.0).0 refl
drop_blank_end-IsSolid (c ∷ d ∷ ds) a = rw (drop_blank_end-IsSolid (d ∷ ds) a.1) refl

trim-IsSolid : (t : Text) → All IsSolid t → trim_depth_text t ≡ t
unfolding trim_depth_text
trim-IsSolid t a = rw (skip_blanks-IsSolid t a) (drop_blank_end-IsSolid t a)

c_str-IsSolid : (t : Text) → All IsSolid t → c_str t ≡ t
unfolding c_str
c_str-IsSolid [] a = refl
c_str-IsSolid (c ∷ cs) a = rw (a.0).1 (ap (◌∷◌ c) (c_str-IsSolid cs a.1))

Digits-IsSolid : (t : Text) → Digits t → All IsSolid t
unfolding is_blank
Digits-IsSolid [] d = tt
Digits-IsSolid (c ∷ cs) d = ((ground (arith, d.0), ground (arith, d.0)), Digits-IsSolid cs d.1)

snoc-cons : (xs : Text) (c : ℕ) → (d : ℕ) × (ds : Text) × (xs ++ c ∷ [] ≡ d ∷ ds)
snoc-cons [] c = (c, [], refl)
snoc-cons (x ∷ xs) c = (x, xs ++ c ∷ [], refl)

decimal-cons : (n : ℕ) → (d : ℕ) × (ds : Text) × (decimal n ≡ d ∷ ds)
unfolding decimal digits_of
decimal-cons n = elim (Bool-cases (ltb n 10)) [
  | inl e ↦ rw e (48 + n, [], refl)
  | inr e ↦ rw e (snoc-cons (digits_of n (n / 10)) (48 + n % 10))
]

unsigned_value-Digits :
    (d n : ℕ) (ds : Text)
    → Digits (d ∷ ds)
    → digits_value 0 (d ∷ ds) ≡ (n, [])
    → n < u32_mod
    → wcstoull (d ∷ ds) ≡ some (n, [])
unfolding wcstoull skip_spaces digits_value
unsigned_value-Digits d n ds a e h =
    let space : (d == 32 || (leb 9 d && leb d 13)) ≡ false = ground (arith, a.0) in
    let minus : (d == 45) ≡ false = ground (arith, a.0) in
    let plus : (d == 43) ≡ false = ground (arith, a.0) in
    let same : d - 48 ≡ 0 * 10 + (d - 48) = omega arith in
    let fits : ltb n u64_mod ≡ true = ground arith in
    let value : digits_value (d - 48) ds ≡ (n, []) =
      ap (λ k. digits_value k ds) same ∙ rw (a.0) at e in
    rw (space, signed_value, minus, plus, unsigned_value, a.0, value, fits) refl

parse_depth_value-Digits :
    (d n : ℕ) (ds : Text)
    → Digits (d ∷ ds)
    → digits_value 0 (d ∷ ds) ≡ (n, [])
    → n < u32_mod
    → parse_depth_value (d ∷ ds) ≡ some n
unfolding parse_depth_value same_letters
parse_depth_value-Digits d n ds a e h =
    let solid = Digits-IsSolid (d ∷ ds) a in
    rw
      (
        trim-IsSolid (d ∷ ds) solid,
        c_str-IsSolid (d ∷ ds) solid,
        unsigned_value-Digits d n ds a e h,
      )
      (let low : 48 ≤ d = ground (arith, a.0) in
        let high : d ≤ 57 = ground (arith, a.0) in ground arith)

decimal-Digits : (n : ℕ) → Digits (decimal n)
unfolding decimal
decimal-Digits n = digits_of-Digits (suc n) n

parse_depth_value-decimal : (n : ℕ) → n < u32_mod → parse_depth_value (decimal n) ≡ some n
unfolding decimal
parse_depth_value-decimal n h =
    let (d, ds, e) = decimal-cons n in
    let a = subst Digits e (digits_of-Digits (suc n) n) in
    let v = sym (ap (digits_value 0) e) ∙ digits_of-value (suc n) n (omega arith) in
    ap parse_depth_value e ∙ parse_depth_value-Digits d n ds a v h

abbrev pub mode_word : DepthFilterExecutionMode → Text
mode_word edge = word_edge
mode_word trap_flag = word_tf

-- A depth and a mode as a rule gives them, with a colon between them.
pub print_depth_mode : ℕ → DepthFilterExecutionMode → Text
print_depth_mode n mode = decimal n ++ 58 ∷ mode_word mode

split_last_colon-append :
    (xs w : Text)
    → split_last_colon (58 ∷ w) ≡ some ([], w)
    → split_last_colon (xs ++ 58 ∷ w) ≡ some (xs, w)
unfolding split_last_colon
split_last_colon-append [] w e = e
split_last_colon-append (x ∷ xs) w e = rw (split_last_colon-append xs w e) refl

mode_word-split :
    (mode : DepthFilterExecutionMode)
    → split_last_colon (58 ∷ mode_word mode) ≡ some ([], mode_word mode)
unfolding split_last_colon
mode_word-split edge = refl
mode_word-split trap_flag = refl

mode_word-parses :
    (mode : DepthFilterExecutionMode) → parse_execution_mode_value (mode_word mode) ≡ some mode
unfolding parse_execution_mode_value trim_depth_text skip_blanks drop_blank_end is_blank c_str
    same_letters
mode_word-parses edge = refl
mode_word-parses trap_flag = refl

mode_word-IsSolid : (mode : DepthFilterExecutionMode) → All IsSolid (58 ∷ mode_word mode)
unfolding is_blank
mode_word-IsSolid edge = ground arith
mode_word-IsSolid trap_flag = ground arith

split_mode-parts :
    (text before word : Text) (mode : DepthFilterExecutionMode)
    → split_last_colon text ≡ some (before, word)
    → parse_execution_mode_value word ≡ some mode
    → split_mode text ≡ some (before, mode)
unfolding split_mode
split_mode-parts text before word mode s m = rw (s, m, split_mode) refl

parse_depth_mode_value-parts :
    (text before : Text) (n : ℕ) (mode : DepthFilterExecutionMode)
    → trim_depth_text text ≡ text
    → split_mode text ≡ some (before, mode)
    → parse_depth_value before ≡ some n
    → parse_depth_mode_value text ≡ some (n, mode)
unfolding parse_depth_mode_value
parse_depth_mode_value-parts text before n mode t s v = rw (t, s, v, parse_depth_mode_value) refl

-- Parsing is a left inverse of printing: a depth below 2 ^ 32 in decimal digits, a colon and the
-- name of a mode parse to this depth and this mode.
pub parse_depth_mode_value-printed :
    (n : ℕ) (mode : DepthFilterExecutionMode)
    → n < u32_mod
    → parse_depth_mode_value (print_depth_mode n mode) ≡ some (n, mode)
unfolding print_depth_mode
parse_depth_mode_value-printed n mode h =
    let text = decimal n ++ 58 ∷ mode_word mode in
    let digits : Digits (decimal n) = decimal-Digits n in
    let solid : All IsSolid text =
      All-append IsSolid (decimal n) (58 ∷ mode_word mode) (Digits-IsSolid (decimal n) digits)
        (mode_word-IsSolid mode) in
    parse_depth_mode_value-parts text (decimal n) n mode (trim-IsSolid text solid)
      (split_mode-parts text (decimal n) (mode_word mode) mode
        (split_last_colon-append (decimal n) (mode_word mode) (mode_word-split mode))
        (mode_word-parses mode))
      (parse_depth_value-decimal n h)
