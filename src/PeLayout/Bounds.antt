-- ===== src/PeLayout/Bounds.antt =====
-- Where the raw data of the sections lie after the patch.
use vd_trace.Base.{
  ℕ, ◌+◌, ◌-◌, ◌≤◌, ◌<◌, ◌≡◌, ◌≢◌, refl, not, List, [], ◌∷◌, leb, ◌==◌, if◌then◌else◌, min, arith,
  by_test,
}
use vd_trace.PeLayout.{
  SectionHeader, SectionPatch, Layout, insert_section, sort_sections, raw_size, next_address,
  patch_sections,
}

-- The cap by the next section and by the end of the image, whatever size is asked for.
capped_size :
    (desired image_size next_rva address : ℕ)
    → let span = next_rva - address in
      let capped = if not (span == 0) then min desired span else desired in
      let raw = if leb image_size address then 0 else min capped (image_size - address) in
      (raw ≢ 0 → address + raw ≤ image_size) × (address < next_rva → address + raw ≤ next_rva)
capped_size desired image_size next_rva address = ground arith

raw_size-Bounds :
    (layout : Layout) (image_size next_rva : ℕ) (s : SectionHeader)
    → let raw = raw_size layout image_size next_rva s in
      (raw ≢ 0 → s.virtual_address + raw ≤ image_size)
      × (s.virtual_address < next_rva → s.virtual_address + raw ≤ next_rva)
unfolding raw_size
raw_size-Bounds layout image_size next_rva s = capped_size _ image_size next_rva s.virtual_address

-- No section of the table lies below the address.
abbrev pub IsAtMost : ℕ → List SectionPatch → Type 0
IsAtMost a [] = Unit
IsAtMost a (q ∷ qs) = (a ≤ q.header.virtual_address) × IsAtMost a qs

abbrev IsAscending : List SectionPatch → Type 0
IsAscending [] = Unit
IsAscending (p ∷ ps) = IsAtMost p.header.virtual_address ps × IsAscending ps

-- A table whose sections lie in the file where they lie in memory, in the order of their addresses.
abbrev pub IsLaidOut : Layout → ℕ → List SectionPatch → Type 0
IsLaidOut layout image_size [] = Unit
IsLaidOut layout image_size (p ∷ ps) =
    let h = p.header in
    let next = next_address layout ps in
    (h.pointer_to_raw_data ≡ h.virtual_address)
    × (h.size_of_raw_data ≢ 0 → h.pointer_to_raw_data + h.size_of_raw_data ≤ image_size)
    × (h.virtual_address < next → h.pointer_to_raw_data + h.size_of_raw_data ≤ next)
    × IsAtMost h.virtual_address ps
    × IsLaidOut layout image_size ps

IsAtMost-le : (a b : ℕ) (ps : List SectionPatch) → a ≤ b → IsAtMost b ps → IsAtMost a ps
IsAtMost-le a b [] h k = tt
IsAtMost-le a b (q ∷ qs) h k = (omega (arith, h, k.0), IsAtMost-le a b qs h k.1)

insert-IsAtMost :
    (a : ℕ) (p : SectionPatch) (ps : List SectionPatch)
    → a ≤ p.header.virtual_address
    → IsAtMost a ps
    → IsAtMost a (insert_section p ps)
unfolding insert_section
insert-IsAtMost a p [] h k = (h, tt)
insert-IsAtMost a p (q ∷ qs) h k =
    by_test (IsAtMost a) (leb p.header.virtual_address q.header.virtual_address) {x = p ∷ q ∷ qs}
      {y = q ∷ insert_section p qs} (λ y. (h, k)) (λ n. (k.0, insert-IsAtMost a p qs h k.1))

insert-IsAscending :
    (p : SectionPatch) (ps : List SectionPatch) → IsAscending ps → IsAscending (insert_section p ps)
unfolding insert_section
insert-IsAscending p [] k = (tt, tt)
insert-IsAscending p (q ∷ qs) k =
    by_test IsAscending (leb p.header.virtual_address q.header.virtual_address) {x = p ∷ q ∷ qs}
      {y = q ∷ insert_section p qs}
      (λ y.
        let le : p.header.virtual_address ≤ q.header.virtual_address = ground arith in
        ((le, IsAtMost-le _ _ qs le k.0), k))
      (λ n. (
        insert-IsAtMost q.header.virtual_address p qs (ground arith) k.0,
        insert-IsAscending p qs k.1,
      ))

sort-IsAscending : (ps : List SectionPatch) → IsAscending (sort_sections ps)
unfolding sort_sections
sort-IsAscending [] = tt
sort-IsAscending (p ∷ ps) = insert-IsAscending p (sort_sections ps) (sort-IsAscending ps)

patch-IsAtMost :
    (layout : Layout) (image_size a : ℕ) (ps : List SectionPatch)
    → IsAtMost a ps
    → IsAtMost a (patch_sections layout image_size ps)
unfolding patch_sections
patch-IsAtMost layout image_size a [] k = tt
patch-IsAtMost layout image_size a (p ∷ ps) k = (k.0, patch-IsAtMost layout image_size a ps k.1)

next_address-patch :
    (layout : Layout) (image_size : ℕ) (ps : List SectionPatch)
    → next_address layout (patch_sections layout image_size ps) ≡ next_address layout ps
unfolding next_address patch_sections
next_address-patch layout image_size [] = refl
next_address-patch layout image_size (p ∷ ps) = refl

patch-IsLaidOut :
    (layout : Layout) (image_size : ℕ) (ps : List SectionPatch)
    → IsAscending ps
    → IsLaidOut layout image_size (patch_sections layout image_size ps)
unfolding patch_sections
patch-IsLaidOut layout image_size [] k = tt
patch-IsLaidOut layout image_size (p ∷ ps) k =
    let (inside, apart) = raw_size-Bounds layout image_size (next_address layout ps) p.header in
    let e = next_address-patch layout image_size ps in
    (
      refl,
      inside,
      rw e apart,
      patch-IsAtMost layout image_size p.header.virtual_address ps k.0,
      patch-IsLaidOut layout image_size ps k.1,
    )

-- The patched headers of a table are in the order of their addresses, each section that has raw
-- data has them at its own address and inside the image, and where the next section, or the end
-- of the image by its header, lies above it they end there at the latest.
pub patched-IsLaidOut :
    (layout : Layout) (image_size : ℕ) (sections : List SectionPatch)
    → IsLaidOut layout image_size (patch_sections layout image_size (sort_sections sections))
patched-IsLaidOut layout image_size sections =
    patch-IsLaidOut layout image_size (sort_sections sections) (sort-IsAscending sections)
