-- ===== src/DepthFilter/Tokens.antt =====
-- `SplitDepthFilterTokens`: the tokens and their characters.
use vd_trace.Base.{
  ℕ, ◌≡◌, refl, ap, sym, ◌∙◌, true, false, ◌||◌, List, [], ◌∷◌, ◌++◌, arith, All, All-append,
  if◌then◌else◌, Bool-cases, inl, inr,
}
use mathlib.Core.List.{append_assoc}
use vd_trace.Session.{Text}
use vd_trace.DepthFilter.{
  is_blank, skip_blanks, drop_blank_end, trim_depth_text, is_empty, is_separator, keep_token,
  split_from, split_depth_filter_tokens,
}

abbrev IsPlain : ℕ → Type 0
IsPlain c = is_separator c ≡ false

-- The characters of a text that are neither blank nor a separator.
pub solid_part : Text → Text
solid_part [] = []
solid_part (c ∷ cs) =
    let rest = solid_part cs in if is_blank c || is_separator c then rest else c ∷ rest

pub joined : List Text → Text
joined [] = []
joined (t ∷ ts) = solid_part t ++ joined ts

solid_part-skip_blanks : (t : Text) → solid_part (skip_blanks t) ≡ solid_part t
unfolding solid_part skip_blanks
solid_part-skip_blanks [] = refl
solid_part-skip_blanks (c ∷ cs) = elim (Bool-cases (is_blank c)) [
  | inl e ↦ rw e (solid_part-skip_blanks cs)
  | inr e ↦ let s : skip_blanks (c ∷ cs) ≡ c ∷ cs = rw e refl in ap solid_part s
]

solid_part-drop_blank_end : (t : Text) → solid_part (drop_blank_end t) ≡ solid_part t
unfolding solid_part drop_blank_end
solid_part-drop_blank_end [] = refl
solid_part-drop_blank_end (c ∷ cs) = ground (arith, solid_part-drop_blank_end cs)

solid_part-trim : (t : Text) → solid_part (trim_depth_text t) ≡ solid_part t
unfolding trim_depth_text
solid_part-trim t = solid_part-drop_blank_end (skip_blanks t) ∙ solid_part-skip_blanks t

solid_part-append : (s t : Text) → solid_part (s ++ t) ≡ solid_part s ++ solid_part t
unfolding solid_part
solid_part-append [] t = refl
solid_part-append (c ∷ cs) t = elim (Bool-cases (is_blank c || is_separator c)) [
  | inl e ↦ rw e (solid_part-append cs t)
  | inr e ↦ rw e (ap (◌∷◌ c) (solid_part-append cs t))
]

joined-keep : (t : Text) (ts : List Text) → joined (keep_token t ts) ≡ solid_part t ++ joined ts
unfolding joined solid_part
joined-keep [] ts = refl
joined-keep (c ∷ cs) ts = refl

solid_part-cons : (c : ℕ) (cs : Text) → solid_part (c ∷ cs) ≡ solid_part (c ∷ []) ++ solid_part cs
solid_part-cons c cs = solid_part-append (c ∷ []) cs

solid_part-separator :
    (c : ℕ) (cs : Text) → is_separator c ≡ true → solid_part (c ∷ cs) ≡ solid_part cs
unfolding solid_part
solid_part-separator c cs e = ground arith

none_before : (t : Text) → solid_part [] ++ t ≡ t
unfolding solid_part
none_before t = refl

joined-last :
    (t : Text) → joined (keep_token (trim_depth_text t) []) ≡ solid_part t ++ solid_part []
unfolding joined solid_part
joined-last t = joined-keep (trim_depth_text t) [] ∙ ap (λ l. l ++ []) (solid_part-trim t)

split_from-joined :
    (t current : Text) → joined (split_from current t) ≡ solid_part current ++ solid_part t
unfolding split_from
split_from-joined [] current = joined-last current
split_from-joined (c ∷ cs) current = elim (Bool-cases (is_separator c)) [
  | inl e ↦
      rw (e, solid_part-separator c cs e)
        (joined-keep (trim_depth_text current) (split_from [] cs)
          ∙ ap (λ l. l ++ joined (split_from [] cs)) (solid_part-trim current)
          ∙ ap (λ l. solid_part current ++ l)
              (split_from-joined cs [] ∙ none_before (solid_part cs)))
  | inr e ↦ rw e (
      split_from-joined cs (current ++ c ∷ [])
      ∙ ap (λ l. l ++ solid_part cs) (solid_part-append current (c ∷ []))
      ∙ append_assoc (solid_part current) (solid_part (c ∷ [])) (solid_part cs)
      ∙ ap (λ l. solid_part current ++ l) (sym (solid_part-cons c cs)))
]

-- `SplitDepthFilterTokens` loses nothing and adds nothing: the characters of the text that are
-- neither blank nor a separator are those of the tokens, in order.
pub split_depth_filter_tokens-joined :
    (text : Text) → joined (split_depth_filter_tokens text) ≡ solid_part text
unfolding split_depth_filter_tokens solid_part
split_depth_filter_tokens-joined text = split_from-joined text []

-- A token is not empty and holds no separator.
abbrev pub IsToken : Text → Type 0
IsToken t = (is_empty t ≡ false) × All IsPlain t

skip_blanks-IsPlain : (t : Text) → All IsPlain t → All IsPlain (skip_blanks t)
unfolding skip_blanks
skip_blanks-IsPlain [] a = tt
skip_blanks-IsPlain (c ∷ cs) a = elim (Bool-cases (is_blank c)) [
  | inl e ↦ rw e (skip_blanks-IsPlain cs a.1)
  | inr e ↦ rw e a
]

drop_blank_end-IsPlain : (t : Text) → All IsPlain t → All IsPlain (drop_blank_end t)
unfolding drop_blank_end
drop_blank_end-IsPlain [] a = tt
drop_blank_end-IsPlain (c ∷ cs) a = ground (arith, drop_blank_end-IsPlain cs a.1)

trim-IsPlain : (t : Text) → All IsPlain t → All IsPlain (trim_depth_text t)
unfolding trim_depth_text
trim-IsPlain t a = drop_blank_end-IsPlain (skip_blanks t) (skip_blanks-IsPlain t a)

keep-IsToken :
    (t : Text) (ts : List Text) → All IsPlain t → All IsToken ts → All IsToken (keep_token t ts)
keep-IsToken [] ts a b = b
keep-IsToken (c ∷ cs) ts a b = ((refl, a), b)

split_from-IsToken : (t current : Text) → All IsPlain current → All IsToken (split_from current t)
unfolding split_from
split_from-IsToken [] current a =
    keep-IsToken (trim_depth_text current) [] (trim-IsPlain current a) tt
split_from-IsToken (c ∷ cs) current a = elim (Bool-cases (is_separator c)) [
  | inl e ↦ rw e (
      keep-IsToken (trim_depth_text current) (split_from [] cs) (trim-IsPlain current a)
        (split_from-IsToken cs [] tt))
  | inr e ↦
      rw e
        (split_from-IsToken cs (current ++ c ∷ []) (All-append IsPlain current (c ∷ []) a (e, tt)))
]

-- Each token of `SplitDepthFilterTokens` is a text that is not empty and holds no comma and no
-- semicolon.
pub split_depth_filter_tokens-IsToken : (text : Text) → All IsToken (split_depth_filter_tokens text)
unfolding split_depth_filter_tokens
split_depth_filter_tokens-IsToken text = split_from-IsToken text [] tt
