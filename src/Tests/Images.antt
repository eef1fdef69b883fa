-- ===== src/Tests/Images.antt =====
-- The layout of a dumped image with one section, for a 32-bit header.
use vd_trace.Base.{refl, true, ℕ, ◌≡◌, false, List, [], ◌∷◌, ◌++◌, length, replicate}
use vd_trace.PeLayout.{
  read_image, read_layout, read_at, read_sections, write_sections, insert_section, write_at,
  encode_section, decode_section, Bytes, SectionPatch, Layout, patch_sections, sort_sections,
  normalize_memory_dump_pe_layout, le_bytes,
}
use vd_trace.PeLayout.Atomic.{normalize-atomic}
use vd_trace.PeLayout.Bounds.{IsLaidOut, patched-IsLaidOut}

abbrev dos_header : Bytes
dos_header = 0x4D ∷ 0x5A ∷ (replicate 58 0 ++ (64 ∷ 0 ∷ 0 ∷ 0 ∷ []))

abbrev file_header : Bytes
file_header = 0x50 ∷ 0x45 ∷ 0 ∷ 0 ∷ 0x4C ∷ 1 ∷ 1 ∷ 0 ∷ (replicate 12 0 ++ (224 ∷ 0 ∷ 0 ∷ 0 ∷ []))

-- An alignment of 512, an image of 400 bytes, and no directories.
abbrev optional_header : Bytes
optional_header =
    0x0B ∷ 1 ∷ (replicate 34 0 ++ (0 ∷ 2 ∷ 0 ∷ 0 ∷ (replicate 16 0 ++ (144 ∷ 1 ∷ replicate 166 0))))

-- 16 bytes at 360.
abbrev section_header : Bytes
section_header = replicate 8 97 ++ (16 ∷ 0 ∷ 0 ∷ 0 ∷ 104 ∷ 1 ∷ replicate 26 0)

abbrev image : Bytes
image = dos_header ++ (file_header ++ (optional_header ++ (section_header ++ replicate 48 7)))

normalize-atomic_example :
    let r = normalize_memory_dump_pe_layout image in
    (length r.1 ≡ 400) × (r.0 ≡ false → r.1 ≡ image)
normalize-atomic_example = normalize-atomic image

abbrev section_at : ℕ → ℕ → SectionPatch
section_at offset address = record {
  header_offset = offset;
  header = record {
    name = replicate 8 97;
    virtual_size = 16;
    virtual_address = address;
    size_of_raw_data = 0;
    pointer_to_raw_data = 0;
    others = replicate 16 0;
  };
}

abbrev layout : Layout
layout = record {
  section_table_offset = 312;
  number_of_sections = 2;
  file_alignment = 512;
  size_of_image = 400;
  number_of_rva_and_sizes = 0;
  data_directory_offset = 184;
}

abbrev table : List SectionPatch
table = section_at 312 380 ∷ section_at 352 360 ∷ []

patched-IsLaidOut_example : IsLaidOut layout 400 (patch_sections layout 400 (sort_sections table))
patched-IsLaidOut_example = patched-IsLaidOut layout 400 table

image_is_normalized : (normalize_memory_dump_pe_layout image).0 ≡ true
unfolding normalize_memory_dump_pe_layout read_image read_layout read_at read_sections
    write_sections patch_sections sort_sections insert_section write_at encode_section
    decode_section le_bytes
image_is_normalized = refl
