-- ===== src/PeLayout.antt =====
-- src/agent/VDTracePeLayout.cpp: how the dump of a loaded image becomes a file again, by making the
-- raw data of each section lie where the section was loaded. The image is the list of its bytes;
-- the structures of winnt.h are read at their offsets, in little-endian order. `std::sort` leaves
-- the order of sections with one address open: here it is that of the table.
pub mod Bounds
pub mod Atomic
use vd_trace.Base.{
  ℕ, zero, suc, ◌+◌, ◌-◌, ◌*◌, ◌/◌, ◌%◌, Bool, true, false, not, ◌&&◌, ◌||◌, List, [], ◌∷◌, ◌++◌,
  Option, none, some, ltb, leb, ◌==◌, if◌then◌else◌, u32_mod, length, take, drop, replicate, min,
  max,
}

abbrev pub Bytes : Type 0
Bytes = List ℕ

abbrev pub le_value : Bytes → ℕ
le_value [] = 0
le_value (b ∷ bs) = b + 256 * le_value bs

unfoldable pub le_bytes : ℕ → ℕ → Bytes
le_bytes zero v = []
le_bytes (suc n) v = v % 256 ∷ le_bytes n (v / 256)

-- The field of `count` bytes at an offset of a structure.
unfoldable pub field : Bytes → ℕ → ℕ → ℕ
field bytes offset count = le_value (take count (drop offset bytes))

-- `sizeof(T)` is `count`.
unfoldable pub fits : Bytes → ℕ → ℕ → Bool
fits bytes offset count = leb offset (length bytes) && leb count (length bytes - offset)

unfoldable pub read_at : Bytes → ℕ → ℕ → Option Bytes
unfolding fits
read_at bytes offset count =
    if fits bytes offset count then some (take count (drop offset bytes)) else none

unfoldable pub write_at : Bytes → ℕ → Bytes → Bool × Bytes
unfolding fits
write_at bytes offset value =
    if fits bytes offset (length value)
    then (true, take offset bytes ++ (value ++ drop (offset + length value) bytes))
    else (false, bytes)

unfoldable pub align_up : ℕ → ℕ → ℕ
align_up value alignment =
    if leb alignment 1 then value else ((value + alignment - 1) % u32_mod / alignment) * alignment

-- IMAGE_SECTION_HEADER: `name` has 8 bytes, and `others`, behind the raw data, 16.
pub record SectionHeader : Type 0 where
  pub name : Bytes
  pub virtual_size : ℕ
  pub virtual_address : ℕ
  pub size_of_raw_data : ℕ
  pub pointer_to_raw_data : ℕ
  pub others : Bytes

abbrev pub section_header_size : ℕ
section_header_size = 40

unfoldable pub decode_section : Bytes → SectionHeader
unfolding field
decode_section bytes = record {
  name = take 8 bytes;
  virtual_size = field bytes 8 4;
  virtual_address = field bytes 12 4;
  size_of_raw_data = field bytes 16 4;
  pointer_to_raw_data = field bytes 20 4;
  others = drop 24 bytes;
}

unfoldable pub encode_section : SectionHeader → Bytes
encode_section s =
    s.name
    ++ (le_bytes 4 s.virtual_size
        ++ (le_bytes 4 s.virtual_address
            ++ (le_bytes 4 s.size_of_raw_data ++ (le_bytes 4 s.pointer_to_raw_data ++ s.others))))

pub record SectionPatch : Type 0 where
  pub header_offset : ℕ
  pub header : SectionHeader

-- What the function reads of the headers before the table of sections.
pub record Layout : Type 0 where
  pub section_table_offset : ℕ
  pub number_of_sections : ℕ
  pub file_alignment : ℕ
  pub size_of_image : ℕ
  pub number_of_rva_and_sizes : ℕ
  pub data_directory_offset : ℕ

-- `none` is `return false`.
infixl 5 ◌>>=◌ ◌>>◌
abbrev pub ◌>>=◌ : {A B : Type 0} → Option A → (A → Option B) → Option B
none >>= f = none
some a >>= f = f a

abbrev pub ◌>>◌ : {B : Type 0} → Option (Unit {0}) → Option B → Option B
m >> k = m >>= λ _. k

abbrev pub guard : Bool → Option (Unit {0})
guard true = some tt
guard false = none

-- The two kinds of optional header: its size, and the offsets of `NumberOfRvaAndSizes` and
-- `DataDirectory`. `FileAlignment` and `SizeOfImage` are at 36 and 56 in both.
unfoldable pub read_optional_header : Bytes → ℕ → Bytes → ℕ → ℕ → ℕ → Option Layout
unfolding field
read_optional_header image optional_offset file_header size count_offset directory_offset = do
  header ← read_at image optional_offset size
  some (record {
    section_table_offset = optional_offset + field file_header 16 2;
    number_of_sections = field file_header 2 2;
    file_alignment = field header 36 4;
    size_of_image = field header 56 4;
    number_of_rva_and_sizes = field header count_offset 4;
    data_directory_offset = optional_offset + directory_offset;
  })

unfoldable pub read_by_magic : Bytes → ℕ → Bytes → ℕ → Option Layout
unfolding read_optional_header
read_by_magic image optional_offset file_header magic =
    if magic == 0x10B
    then read_optional_header image optional_offset file_header 224 92 96
    else if magic == 0x20B
    then read_optional_header image optional_offset file_header 240 108 112
    else none

-- `e_lfanew` is a LONG.
abbrev is_positive_long : ℕ → Bool
is_positive_long v = ltb 0 v && ltb v 0x80000000

-- The offset of the signature, by the DOS header.
unfoldable pub read_dos_header : Bytes → Option ℕ
unfolding field
read_dos_header image = do
  dos ← read_at image 0 64
  guard (field dos 0 2 == 0x5A4D && is_positive_long (field dos 60 4))
  some (field dos 60 4)

unfoldable pub read_file_header : Bytes → ℕ → Option Bytes
unfolding field
read_file_header image nt_offset = do
  signature ← read_at image nt_offset 4
  guard (field signature 0 4 == 0x4550)
  read_at image (nt_offset + 4) 20

unfoldable pub accept_layout : Bytes → Layout → Option Layout
accept_layout image layout =
    if layout.file_alignment == 0
      || layout.size_of_image == 0
      || ltb (length image) layout.size_of_image
    then none
    else some layout

unfoldable pub read_layout : Bytes → Option Layout
unfolding field read_by_magic read_dos_header read_file_header accept_layout
read_layout image = do
  nt_offset ← read_dos_header image
  file_header ← read_file_header image nt_offset
  magic ← read_at image (nt_offset + 24) 2
  layout ← read_by_magic image (nt_offset + 24) file_header (field magic 0 2)
  accept_layout image layout

-- The table, from the offset of the next header on.
unfoldable pub read_sections : Bytes → ℕ → ℕ → Option (List SectionPatch)
read_sections image offset zero = some []
read_sections image offset (suc n) =
    let rest = read_sections image (offset + section_header_size) n in
    do
      header ← read_at image offset section_header_size
      others ← rest
      some (record { header_offset = offset; header = decode_section header } ∷ others)

unfoldable pub insert_section : SectionPatch → List SectionPatch → List SectionPatch
insert_section p [] = p ∷ []
insert_section p (q ∷ qs) =
    if leb p.header.virtual_address q.header.virtual_address
    then p ∷ q ∷ qs
    else q ∷ insert_section p qs

unfoldable pub sort_sections : List SectionPatch → List SectionPatch
sort_sections [] = []
sort_sections (p ∷ ps) = insert_section p (sort_sections ps)

-- `desired_raw_size` of a section at the end of its round, with the address of the next one.
unfoldable pub raw_size : Layout → ℕ → ℕ → SectionHeader → ℕ
raw_size layout image_size next_rva section =
    let address = section.virtual_address in
    let available_span = next_rva - address in
    let larger = max section.virtual_size section.size_of_raw_data in
    let desired = align_up (if larger == 0 then available_span else larger) layout.file_alignment in
    let capped = if not (available_span == 0) then min desired available_span else desired in
    if leb image_size address then 0 else min capped (image_size - address)

unfoldable pub next_address : Layout → List SectionPatch → ℕ
next_address layout [] = layout.size_of_image
next_address layout (q ∷ qs) = q.header.virtual_address

-- The headers that the second loop writes. They depend on the table as it was read and on the
-- size of the image, which no write changes.
unfoldable pub patch_sections : Layout → ℕ → List SectionPatch → List SectionPatch
unfolding next_address
patch_sections layout image_size [] = []
patch_sections layout image_size (p ∷ ps) =
    record p {
      header = record p.header {
        pointer_to_raw_data = p.header.virtual_address;
        size_of_raw_data = raw_size layout image_size (next_address layout ps) p.header;
      };
    }
    ∷ patch_sections layout image_size ps

unfoldable pub write_sections : List SectionPatch → Bytes → Bool × Bytes
write_sections [] image = (true, image)
write_sections (p ∷ ps) image =
    let (written, next) = write_at image p.header_offset (encode_section p.header) in
    let rest = write_sections ps next in if written then rest else (false, next)

-- The entry of the certificates in the data directory.
unfoldable pub clear_security_directory : Layout → Bytes → Bool × Bytes
clear_security_directory layout image =
    if ltb 4 layout.number_of_rva_and_sizes
    then write_at image (layout.data_directory_offset + 4 * 8) (replicate 8 0)
    else (true, image)

unfoldable pub write_layout : Layout → List SectionPatch → Bytes → Bool × Bytes
unfolding clear_security_directory
write_layout layout sections image =
    let (written, next) =
      write_sections (patch_sections layout (length image) (sort_sections sections)) image in
    if written then clear_security_directory layout next else (false, next)

normalize_with : Option (Layout × List SectionPatch) → Bytes → Bool × Bytes
unfolding write_layout
normalize_with none image = (false, image)
normalize_with (some (layout, sections)) image = write_layout layout sections image

unfoldable pub read_image : Bytes → Option (Layout × List SectionPatch)
read_image image = do
  layout ← read_layout image
  sections ← read_sections image layout.section_table_offset layout.number_of_sections
  some (layout, sections)

unfoldable pub normalize_memory_dump_pe_layout : Bytes → Bool × Bytes
unfolding normalize_with
normalize_memory_dump_pe_layout image = normalize_with (read_image image) image
