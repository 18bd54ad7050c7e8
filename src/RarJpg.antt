-- ===== src/RarJpg.antt =====
-- 1-rarjpeg/main.c: whether a file is an image, a zip archive, or both, and the names in the archive.
--
-- A file is the list of its bytes, an offset a number. The host is little-endian. A read beyond the
-- end of the file leaves in a variable what it held: `Stale` says what, in each round.
pub mod Search
pub mod Listing
mod Tests
use otus_c.Common.{
  c_string, ℕ, zero, suc, ◌+◌, ◌-◌, ◌*◌, ◌%◌, ◌^◌, Bool, true, false, ◌&&◌, Option, none, some,
}
use otus_c.Common.{List, [], ◌∷◌, ◌++◌, ltb, leb, ◌==◌, if◌then◌else◌, Text, str_eq, length}
use otus_c.Common.{take, drop}

abbrev pub jpeg_signature : List ℕ
jpeg_signature = 0xFF ∷ 0xD8 ∷ 0xFF ∷ 0xE0 ∷ []

abbrev pub eocdr_signature : ℕ
eocdr_signature = 0x06054b50

abbrev pub cdr_file_header_signature : ℕ
cdr_file_header_signature = 0x02014b50

-- The number that bytes hold, the lowest byte first.
abbrev pub le_value : List ℕ → ℕ
le_value [] = 0
le_value (b ∷ bs) = b + 256 * le_value bs

-- `fseek` and `fread` of `n` bytes: those that the file has there.
abbrev pub bytes_at : ℕ → ℕ → List ℕ → List ℕ
bytes_at n offset file = take n (drop offset file)

-- `struct headerStruct`
pub record HeaderStruct : Type 0 where
  pub file_name_length : ℕ
  pub extra_field_length : ℕ
  pub file_length : ℕ

-- What the variables of a round of the listing hold before they are read.
pub record Stale : Type 0 where
  pub signature : ℕ
  pub fields : HeaderStruct
  pub name : ℕ → List ℕ

pub signature_at : Stale → ℕ → List ℕ → ℕ
signature_at stale offset file =
    if length (bytes_at 4 offset file) == 4
    then le_value (bytes_at 4 offset file)
    else stale.signature

pub fields_at : Stale → ℕ → List ℕ → HeaderStruct
fields_at stale offset file =
    if length (bytes_at 6 offset file) == 6
    then record {
      file_name_length = le_value (bytes_at 2 offset file);
      extra_field_length = le_value (bytes_at 2 (offset + 2) file);
      file_length = le_value (bytes_at 2 (offset + 4) file);
    }
    else stale.fields

-- The names printed, in order; how many zeros were written just behind the array of a name; and
-- whether the loop ended within the rounds allowed.
pub record Printed : Type 0 where
  pub names : List Text
  pub beyond : ℕ
  pub ended : Bool

abbrev pub add_name : Text → Printed → Printed
add_name name p = record { names = name ∷ p.names; beyond = p.beyond + 1; ended = p.ended }

-- `printAllFilenames`, for at most `fuel` rounds.
pub print_all_filenames : (ℕ → Stale) → List ℕ → ℕ → ℕ → Printed
unfolding signature_at fields_at c_string
print_all_filenames stale file zero file_header_offset = record {
  names = [];
  beyond = 0;
  ended = false;
}
print_all_filenames stale file (suc fuel) file_header_offset =
    let s = stale fuel in
    let fields = fields_at s (file_header_offset + 28) file in
    let got = bytes_at fields.file_name_length (file_header_offset + 46) file in
    let name = take fields.file_name_length (got ++ s.name (length got)) in
    let rest =
      print_all_filenames stale file fuel
        (file_header_offset + 46 + length got + fields.extra_field_length + fields.file_length) in
    if signature_at s file_header_offset file == cdr_file_header_signature
    then add_name (c_string name) rest
    else record { names = []; beyond = 0; ended = true }

-- The search from `i` downwards, for the given number of rounds; each round reads inside the file.
pub search_eocdr : List ℕ → ℕ → ℕ → Option ℕ
search_eocdr file zero i = none
search_eocdr file (suc rounds) i =
    let rest = search_eocdr file rounds (i - 1) in
    if le_value (bytes_at 4 i file) == eocdr_signature then some i else rest

-- From `fileSize - 22` to the greater of 0 and `fileSize - 65558`.
abbrev pub search_rounds : ℕ → ℕ
search_rounds file_size =
    if ltb file_size 22 then 0 else if leb 65536 (file_size - 22) then 65537 else file_size - 22 + 1

pub eocdr_offset : List ℕ → Option ℕ
unfolding search_eocdr
eocdr_offset file = search_eocdr file (search_rounds (length file)) (length file - 22)

-- `cdrOffset` for the record at `eocdr`: 32 bits, from the size of the central directory.
pub cdr_offset : List ℕ → ℕ → ℕ
cdr_offset file eocdr = (eocdr + 2 ^ 32 - le_value (bytes_at 4 (eocdr + 12) file)) % 2 ^ 32

pub is_jpeg : List ℕ → Bool
is_jpeg file = str_eq (bytes_at 4 0 file) jpeg_signature

-- The flags of the result.
pub record Kind : Type 0 where
  pub jpeg : Bool
  pub zip : Bool

-- `checkIfRarJpg` of a file that opens: the result and what is printed.
pub check_if_rar_jpg : (ℕ → Stale) → ℕ → List ℕ → Kind × Option Printed
unfolding is_jpeg eocdr_offset cdr_offset print_all_filenames
check_if_rar_jpg stale fuel file = elim (eocdr_offset file) [
  | none ↦ (record { jpeg = is_jpeg file; zip = false }, none)
  | some eocdr ↦ (
    record { jpeg = is_jpeg file; zip = true },
    some (print_all_filenames stale file fuel (cdr_offset file eocdr)),
  )
]

-- The lines of the summary, and the exits of `main`.
pub data Summary : Type 0 where
  usage not_opened too_many_arguments zip_archive image rarjpeg neither : Summary

abbrev pub summary : Kind → Summary
summary k =
    if k.jpeg then (if k.zip then rarjpeg else image) else if k.zip then zip_archive else neither

-- `args` are the arguments behind the program's name; `read_file` is what `fopen` gives for a name.
pub main : (Text → Option (List ℕ)) → (ℕ → Stale) → ℕ → List Text → Summary × Option Printed
unfolding check_if_rar_jpg
main read_file stale fuel [] = (usage, none)
main read_file stale fuel (file_name ∷ []) = elim (read_file file_name) [
  | none ↦ (not_opened, none)
  | some file ↦ let (kind, printed) = check_if_rar_jpg stale fuel file in (summary kind, printed)
]
main read_file stale fuel (a ∷ (b ∷ args)) = (too_many_arguments, none)
