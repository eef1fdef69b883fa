-- ===== src/Autostart/Values.antt =====
-- What the parsed configuration answers, against the lines of its text.
use vd_trace.Base.{
  ◌≡◌, refl, sym, ap, ◌∙◌, true, false, not, ◌&&◌, List, [], ◌∷◌, Option, none, some, if◌then◌else◌,
  arith, Bool-cases, inl, inr,
}
use vd_trace.Session.{Text}
use vd_trace.Autostart.{
  Section, SectionMap, text_eq, is_empty, lookup, adjust, or_empty, open_section, assign, Line,
  ignored, section, entry, read_lines, split_lines, run_lines, parse_auto_start_ini_text,
  or_fallback, in_section, find_value, get_auto_start_value,
}

text_eq_sound : (a b : Text) → text_eq a b ≡ true → a ≡ b
unfolding text_eq
text_eq_sound [] [] h = refl
text_eq_sound [] (d ∷ ds) h = cc
text_eq_sound (c ∷ cs) [] h = cc
text_eq_sound (c ∷ cs) (d ∷ ds) h = ground (arith, text_eq_sound cs ds)

text_eq_refl : (a : Text) → text_eq a a ≡ true
unfolding text_eq
text_eq_refl [] = refl
text_eq_refl (c ∷ cs) = ground (arith, text_eq_refl cs)

text_eq_apart :
    (x k key : Text) → text_eq x k ≡ false → text_eq k key ≡ true → text_eq x key ≡ false
text_eq_apart x k key other h = elim (Bool-cases (text_eq x key)) [
  | inr no' ↦ no'
  | inl yes' ↦
      let e : x ≡ k = text_eq_sound x key yes' ∙ sym (text_eq_sound k key h) in
      let t : text_eq x k ≡ true = ap (text_eq x) (sym e) ∙ text_eq_refl x in cc
]

-- An assignment changes what its key holds, and nothing else.
lookup-adjust {ℓ} :
    {A : Type ℓ} (key k : Text) (f : Option A → A) (m : List (Text × A))
    → lookup key (adjust k f m) ≡ (if text_eq k key then some (f (lookup k m)) else lookup key m)
unfolding lookup adjust
lookup-adjust key k f [] = refl
lookup-adjust key k f ((x, w) ∷ m) = elim (Bool-cases (text_eq x k)) [
  | inl same ↦
      let e : text_eq x key ≡ text_eq k key = ap (λ t. text_eq t key) (text_eq_sound x k same) in
      rw same (ground (arith, e))
  | inr other ↦ elim (Bool-cases (text_eq k key)) [
    | inl hit ↦
        rw (other, text_eq_apart x k key other hit) (rw hit (rw hit at (lookup-adjust key k f m)))
    | inr miss ↦ rw (other, miss) (ground (arith, lookup-adjust key k f m, miss))
  ]
]

in_section-or_empty :
    (key : Text) (o : Option Section) → in_section key (some (or_empty o)) ≡ in_section key o
unfolding lookup
in_section-or_empty key none = refl
in_section-or_empty key (some s) = refl

-- What a key of a section holds after the section is opened, or after an assignment in it.
find-open_section :
    (name s key : Text) (m : SectionMap)
    → find_value (open_section name m) s key ≡ find_value m s key
unfolding find_value open_section
find-open_section name s key m =
    let e = ap (in_section key) (lookup-adjust s name or_empty m) in
    elim (Bool-cases (text_eq name s)) [
      | inl hit ↦
          let same : lookup name m ≡ lookup s m =
            ap (λ (t : Text). lookup t m) (text_eq_sound name s hit) in
          rw hit at e ∙ (in_section-or_empty key (lookup name m) ∙ ap (in_section key) same)
      | inr miss ↦ rw miss at e
    ]

find-assign :
    (name k value s key : Text) (m : SectionMap)
    → find_value (assign name k value m) s key
      ≡ (if text_eq name s && text_eq k key then some value else find_value m s key)
unfolding find_value assign
find-assign name k value s key m =
    let f : Option Section → Section = λ o. adjust k (λ _. value) (or_empty o) in
    let e = ap (in_section key) (lookup-adjust s name f m) in
    elim (Bool-cases (text_eq name s)) [
      | inl hit ↦
          let same : lookup name m ≡ lookup s m =
            ap (λ (t : Text). lookup t m) (text_eq_sound name s hit) in
          let old : lookup key (or_empty (lookup name m)) ≡ in_section key (lookup s m) =
            in_section-or_empty key (lookup name m) ∙ ap (in_section key) same in
          rw hit (
            rw hit at e
            ∙ (lookup-adjust key k (λ _. value) (or_empty (lookup name m))
                ∙ ap (λ (o : Option Text). if text_eq k key then some value else o) old))
      | inr miss ↦ rw miss (rw miss at e)
    ]

abbrev or_else : Option Text → Option Text → Option Text
or_else none o = o
or_else (some v) o = some v

-- The last line of the text that gives the key a value in the section, the section of a line being
-- the last one that was opened above it. Lines above the first section give nothing.
pub last_value : List Line → Text → Text → Text → Option Text
last_value [] current s key = none
last_value (ignored ∷ ls) current s key = last_value ls current s key
last_value (section name ∷ ls) current s key = last_value ls name s key
last_value (entry k value ∷ ls) current s key =
    let later = last_value ls current s key in
    or_else later
      (if not (is_empty current) && (text_eq current s && text_eq k key) then some value else none)

entry-run :
    (current k value s key : Text) (later : Option Text) (m : SectionMap)
    → or_else later (find_value (if is_empty current then m else assign current k value m) s key)
      ≡ or_else
          (or_else later (
            if not (is_empty current) && (text_eq current s && text_eq k key)
            then some value
            else none))
          (find_value m s key)
entry-run [] k value s key none m = refl
entry-run [] k value s key (some v) m = refl
entry-run (c ∷ cs) k value s key (some v) m = refl
entry-run (c ∷ cs) k value s key none m =
    find-assign (c ∷ cs) k value s key m ∙ elim (Bool-cases (text_eq (c ∷ cs) s && text_eq k key)) [
      | inl hit ↦ rw hit refl
      | inr miss ↦ rw miss refl
    ]

run-last_value :
    (ls : List Line) (current s key : Text) (m : SectionMap)
    → find_value (run_lines ls current m) s key
      ≡ or_else (last_value ls current s key) (find_value m s key)
unfolding run_lines last_value
run-last_value [] current s key m = refl
run-last_value (ignored ∷ ls) current s key m = run-last_value ls current s key m
run-last_value (section name ∷ ls) current s key m =
    run-last_value ls name s key (open_section name m)
    ∙ ap (or_else (last_value ls name s key)) (find-open_section name s key m)
run-last_value (entry k value ∷ ls) current s key m =
    run-last_value ls current s key (if is_empty current then m else assign current k value m)
    ∙ entry-run current k value s key (last_value ls current s key) m

or_else-none : (o : Option Text) → or_else o none ≡ o
or_else-none none = refl
or_else-none (some v) = refl

-- The configuration that `ParseAutoStartIniText` builds answers, for each section, key and fallback,
-- the value of the last line of the text that assigns it, or the fallback where none does.
pub get-parse :
    (text s key fallback : Text)
    → get_auto_start_value (parse_auto_start_ini_text text) s key fallback
      ≡ or_fallback fallback (last_value (read_lines (split_lines text)) [] s key)
unfolding get_auto_start_value parse_auto_start_ini_text find_value lookup
get-parse text s key fallback =
    let ls = read_lines (split_lines text) in
    ap (or_fallback fallback)
      (run-last_value ls [] s key [] ∙ or_else-none (last_value ls [] s key))
