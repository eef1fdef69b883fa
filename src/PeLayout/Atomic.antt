-- ===== src/PeLayout/Atomic.antt =====
-- The writes of the layout: they stay inside the image, and a refused image is left alone.
use vd_trace.Base.{
  ℕ, zero, suc, ◌+◌, ◌-◌, ◌*◌, ◌/◌, ◌≤◌, ◌≡◌, refl, sym, ap, ◌∙◌, subst, Bool, true, false, ◌||◌,
  List, [], ◌∷◌, ◌++◌, Option, none, some, ltb, leb, ◌==◌, arith, by_test, Bool-cases, inl, inr,
  length, take, drop, replicate, length-append, All,
}
use vd_trace.PeLayout.{
  Bytes, field, fits, read_at, write_at, le_bytes, SectionHeader, section_header_size,
  decode_section, encode_section, SectionPatch, Layout, ◌>>=◌, read_optional_header, read_by_magic,
  read_layout, read_sections, insert_section, sort_sections, patch_sections, write_sections,
  clear_security_directory, write_layout, normalize_with, read_image,
  normalize_memory_dump_pe_layout, accept_layout, read_dos_header, read_file_header,
}

module _ {A : Type 0} where
  length-take : (n : ℕ) (xs : List A) → n ≤ length xs → length (take n xs) ≡ n
  length-take zero xs h = refl
  length-take (suc n) [] h = absurd (omega arith)
  length-take (suc n) (x ∷ xs) h = omega (arith, length-take n xs (omega arith))

  length-drop : (n : ℕ) (xs : List A) → length (drop n xs) ≡ length xs - n
  length-drop zero xs = omega arith
  length-drop (suc n) [] = omega arith
  length-drop (suc n) (x ∷ xs) = omega (arith, length-drop n xs)

>>=-some :
    {A B : Type 0} (m : Option A) (f : A → Option B) {b : B}
    → (m >>= f) ≡ some b
    → (a : A) × (m ≡ some a) × (f a ≡ some b)
>>=-some none f h = cc
>>=-some (some a) f h = (a, refl, h)

abbrev value_or {ℓ} : {A : Type ℓ} → A → Option A → A
value_or d none = d
value_or d (some a) = a

some-injective : {A : Type 0} {a b : A} → some a ≡ some b → a ≡ b
some-injective {a = a} h = ap (value_or a) h

fits-le :
    (image : Bytes) (offset count : ℕ)
    → fits image offset count ≡ true
    → offset + count ≤ length image
unfolding fits
fits-le image offset count h = ground arith

le-fits :
    (image : Bytes) (offset count : ℕ)
    → offset + count ≤ length image
    → fits image offset count ≡ true
unfolding fits
le-fits image offset count h = ground arith

read_at-Inside :
    (image : Bytes) (offset count : ℕ) {v : Bytes}
    → read_at image offset count ≡ some v
    → (offset + count ≤ length image) × (length v ≡ count)
unfolding read_at
read_at-Inside image offset count {v} h = elim (Bool-cases (fits image offset count)) [
  | inl yes' ↦
      let inside = fits-le image offset count yes' in
      let e : take count (drop offset image) ≡ v = ground (arith, rw yes' at h) in
      (
        inside,
        ap length (sym e)
            ∙ length-take count (drop offset image)
                (omega (arith, inside, length-drop offset image)),
      )
  | inr no' ↦ (let e = rw no' at h in cc)
]

write_at-Inside :
    (image : Bytes) (offset : ℕ) (value : Bytes)
    → offset + length value ≤ length image
    → let r = write_at image offset value in (r.0 ≡ true) × (length r.1 ≡ length image)
unfolding write_at
write_at-Inside image offset value h = rw (le-fits image offset (length value) h) (
  refl,
  omega (
    arith,
    h,
    length-append (take offset image) (value ++ drop (offset + length value) image),
    length-append value (drop (offset + length value) image),
    length-take offset image (omega (arith, h)),
    length-drop (offset + length value) image,
  ),
)

length-le_bytes : (n v : ℕ) → length (le_bytes n v) ≡ n
unfolding le_bytes
length-le_bytes zero v = refl
length-le_bytes (suc n) v = omega (arith, length-le_bytes n (v / 256))

-- A header of the table lies in an image of `n` bytes, and has its size.
abbrev IsInside : ℕ → SectionPatch → Type 0
IsInside n p =
    (p.header_offset + section_header_size ≤ n)
    × (length p.header.name ≡ 8)
    × (length p.header.others ≡ 16)

length-encode_section :
    (s : SectionHeader)
    → length s.name ≡ 8
    → length s.others ≡ 16
    → length (encode_section s) ≡ section_header_size
unfolding encode_section
length-encode_section s h k =
    let raw = le_bytes 4 s.pointer_to_raw_data ++ s.others in
    let sized = le_bytes 4 s.size_of_raw_data ++ raw in
    let placed = le_bytes 4 s.virtual_address ++ sized in
    omega (
      arith,
      length-append s.name (le_bytes 4 s.virtual_size ++ placed),
      length-append (le_bytes 4 s.virtual_size) placed,
      length-append (le_bytes 4 s.virtual_address) sized,
      length-append (le_bytes 4 s.size_of_raw_data) raw,
      length-append (le_bytes 4 s.pointer_to_raw_data) s.others,
      length-le_bytes 4 s.virtual_size,
      length-le_bytes 4 s.virtual_address,
      length-le_bytes 4 s.size_of_raw_data,
      length-le_bytes 4 s.pointer_to_raw_data,
      h,
      k,
    )

read_sections-All :
    (image : Bytes) (offset n : ℕ) {ps : List SectionPatch}
    → read_sections image offset n ≡ some ps
    → All (IsInside (length image)) ps
unfolding read_sections decode_section
read_sections-All image offset zero {ps} h =
    subst (All (IsInside (length image))) (some-injective h) tt
read_sections-All image offset (suc n) {ps} h =
    let (header, e, k) = >>=-some (read_at image offset section_header_size) _ h in
    let (others, f, l) = >>=-some (read_sections image (offset + section_header_size) n) _ k in
    let (inside, size) = read_at-Inside image offset section_header_size e in
    subst (All (IsInside (length image))) (some-injective l) (
      (
        inside,
        length-take 8 header (omega (arith, size)),
        omega (arith, size, length-drop 24 header),
      ),
      read_sections-All image (offset + section_header_size) n f,
    )

module _ (P : SectionPatch → Type 0) where
  insert-All :
      (p : SectionPatch) (ps : List SectionPatch) → P p → All P ps → All P (insert_section p ps)
  unfolding insert_section
  insert-All p [] h k = (h, tt)
  insert-All p (q ∷ qs) h k =
      by_test (All P) (leb p.header.virtual_address q.header.virtual_address) {x = p ∷ q ∷ qs}
        {y = q ∷ insert_section p qs} (λ y. (h, k)) (λ n. (k.0, insert-All p qs h k.1))

  sort-All : (ps : List SectionPatch) → All P ps → All P (sort_sections ps)
  unfolding sort_sections
  sort-All [] k = tt
  sort-All (p ∷ ps) k = insert-All p (sort_sections ps) k.0 (sort-All ps k.1)

patch-All :
    (layout : Layout) (size n : ℕ) (ps : List SectionPatch)
    → All (IsInside n) ps
    → All (IsInside n) (patch_sections layout size ps)
unfolding patch_sections
patch-All layout size n [] k = tt
patch-All layout size n (p ∷ ps) k = (k.0, patch-All layout size n ps k.1)

-- A write that succeeds and leaves the size of the image as it was.
abbrev Fits : Bytes → Bool × Bytes → Type 0
Fits image r = (r.0 ≡ true) × (length r.1 ≡ length image)

write_sections-Fits :
    (ps : List SectionPatch) (image : Bytes)
    → All (IsInside (length image)) ps
    → Fits image (write_sections ps image)
unfolding write_sections
write_sections-Fits [] image k = (refl, refl)
write_sections-Fits (p ∷ ps) image k =
    let (a, b, c) = k.0 in
    let r = write_at image p.header_offset (encode_section p.header) in
    let (written, size) =
      write_at-Inside image p.header_offset (encode_section p.header)
        (omega (arith, a, length-encode_section p.header b c)) in
    let (done, same) =
      write_sections-Fits ps r.1 (subst (λ n. All (IsInside n) ps) (sym size) k.1) in
    rw written (done, same ∙ size)

clear-Fits :
    (layout : Layout) (image : Bytes)
    → layout.data_directory_offset + 40 ≤ length image
    → Fits image (clear_security_directory layout image)
unfolding clear_security_directory
clear-Fits layout image h =
    by_test (Fits image) (ltb 4 layout.number_of_rva_and_sizes)
      (λ y.
        write_at-Inside image (layout.data_directory_offset + 4 * 8) (replicate 8 0)
          (omega (arith, h)))
      (λ n. (refl, refl))

write_layout-Fits :
    (layout : Layout) (sections : List SectionPatch) (image : Bytes)
    → layout.data_directory_offset + 40 ≤ length image
    → All (IsInside (length image)) sections
    → Fits image (write_layout layout sections image)
unfolding write_layout
write_layout-Fits layout sections image h k =
    let (written, size) =
      write_sections-Fits (patch_sections layout (length image) (sort_sections sections)) image (
        patch-All layout (length image) (length image) (sort_sections sections)
          (sort-All (IsInside (length image)) sections k)) in
    let (cleared, same) = clear-Fits layout _ (omega (arith, h, size)) in
    rw written (cleared, same ∙ size)

optional-Inside :
    (image : Bytes) (offset : ℕ) (file_header : Bytes) (size count_offset directory_offset : ℕ)
    {layout : Layout}
    → directory_offset + 40 ≤ size
    → read_optional_header image offset file_header size count_offset directory_offset ≡ some layout
    → layout.data_directory_offset + 40 ≤ length image
unfolding read_optional_header
optional-Inside image offset file_header size count_offset directory_offset {layout} d h =
    let (header, e, k) = >>=-some (read_at image offset size) _ h in
    let (inside, s) = read_at-Inside image offset size e in ground (arith, k, inside)

magic-Inside :
    (image : Bytes) (offset : ℕ) (file_header : Bytes) (magic : ℕ) {layout : Layout}
    → read_by_magic image offset file_header magic ≡ some layout
    → layout.data_directory_offset + 40 ≤ length image
unfolding read_by_magic
magic-Inside image offset file_header magic {layout} h = elim (Bool-cases (magic == 0x10B)) [
  | inl narrow ↦ optional-Inside image offset file_header 224 92 96 (omega arith) (rw narrow at h)
  | inr other ↦ elim (Bool-cases (magic == 0x20B)) [
    | inl wide ↦
        optional-Inside image offset file_header 240 108 112 (omega arith) (rw (other, wide) at h)
    | inr none' ↦ (let e = rw (other, none') at h in cc)
  ]
]

accept-same :
    (image : Bytes) (l : Layout) {layout : Layout}
    → accept_layout image l ≡ some layout
    → l ≡ layout
unfolding accept_layout
accept-same image l {layout} h =
    elim (Bool-cases
      (l.file_alignment == 0 || l.size_of_image == 0 || ltb (length image) l.size_of_image)) [
        | inl bad ↦ (let e = rw bad at h in cc)
        | inr good ↦ some-injective (rw good at h)
      ]

layout-Inside :
    (image : Bytes) {layout : Layout}
    → read_layout image ≡ some layout
    → layout.data_directory_offset + 40 ≤ length image
unfolding read_layout
layout-Inside image {layout} h =
    let (nt_offset, a, h1) = >>=-some (read_dos_header image) _ h in
    let (file_header, b, h2) = >>=-some (read_file_header image nt_offset) _ h1 in
    let (magic, c, h3) = >>=-some (read_at image (nt_offset + 24) 2) _ h2 in
    let (read, d, h4) =
      >>=-some (read_by_magic image (nt_offset + 24) file_header (field magic 0 2)) _ h3 in
    subst (λ (l : Layout). l.data_directory_offset + 40 ≤ length image) (accept-same image read h4)
      (magic-Inside image (nt_offset + 24) file_header (field magic 0 2) d)

-- Where an image is refused it is as it was, and one that is normalised keeps its size.
pub normalize-atomic :
    (image : Bytes)
    → let r = normalize_memory_dump_pe_layout image in
      (length r.1 ≡ length image) × (r.0 ≡ false → r.1 ≡ image)
unfolding normalize_memory_dump_pe_layout normalize_with read_image
normalize-atomic image = by_read (read_image image) refl
  where
    by_read :
        (o : Option (Layout × List SectionPatch))
        → read_image image ≡ o
        → let r = normalize_with o image in
          (length r.1 ≡ length image) × (r.0 ≡ false → r.1 ≡ image)
    by_read none e = (refl, λ h. refl)
    by_read (some (layout, sections)) e =
        let (l, a, h1) = >>=-some (read_layout image) _ e in
        let (ps, b, h2) =
          >>=-some (read_sections image l.section_table_offset l.number_of_sections) _ h1 in
        let same = some-injective h2 in
        let (written, size) =
          write_layout-Fits layout sections image
            (subst (λ (x : Layout). x.data_directory_offset + 40 ≤ length image)
              (ap (λ (x : Layout × List SectionPatch). x.0) same) (layout-Inside image a))
            (subst (All (IsInside (length image)))
              (ap (λ (x : Layout × List SectionPatch). x.1) same)
              (read_sections-All image l.section_table_offset l.number_of_sections b)) in
        (size, λ h. cc)
