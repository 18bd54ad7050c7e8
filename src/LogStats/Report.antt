-- ===== src/LogStats/Report.antt =====
-- The beginning and the end of 10-threads/main.c: the set-up of the report, the files of the
-- directory, and what is printed.
pub mod TopTen
pub mod Program
mod Tests
mod RunTests
use otus_c.Common.{ℕ, ◌+◌, ◌-◌, ◌*◌, sym, ◌/◌, ◌%◌, ◌^◌, ◌≡◌, arith, Bool, true, false, not}
use otus_c.Common.{
  Option, none, some, List, [], ◌∷◌, ◌++◌, map, ltb, ◌==◌, if◌then◌else◌, length, take,
}
use otus_c.Common.{Text, Bool-cases, Option-cases, inl, inr}
use otus_c.LogStats.{HashMap, ScanReport, add_file_to_scan}

-- What `init_scan_report` takes from the system.
pub data Resource : Type 0 where
  report mutex url_struct url_map referer_struct referer_map : Resource

-- Which of its calls succeed.
pub record Setup : Type 0 where
  pub report_memory : Bool
  pub mutex_init : Bool
  pub url_memory : Bool
  pub url_create : Bool
  pub referer_memory : Bool
  pub referer_create : Bool

-- `init_scan_report`: whether there is a report, and what is still held.
unfoldable pub init_scan_report : Setup → Bool × List Resource
init_scan_report k =
    if not k.report_memory
    then (false, [])
    else if not k.mutex_init
    then (false, [])
    else if not k.url_memory
    then (false, report ∷ mutex ∷ [])
    else if not k.url_create
    then (false, mutex ∷ [])
    else if not k.referer_memory
    then (false, mutex ∷ [])
    else if not k.referer_create
    then (false, mutex ∷ [])
    else (true, report ∷ mutex ∷ url_struct ∷ url_map ∷ referer_struct ∷ referer_map ∷ [])

-- An entry of the directory: its name, whether it is a regular file, if `stat` succeeds, and whether
-- there is memory for the copy of its path and for the element of the stack.
pub record DirEntry : Type 0 where
  pub d_name : Text
  pub regular : Option Bool
  pub copy_memory : Bool
  pub element_memory : Bool

abbrev pub full_path : Text → DirEntry → Text
full_path dir entry = dir ++ (b'/' ∷ entry.d_name)

-- The report and the exit code 0 or -1, or a write beyond `full_path`.
pub data Adding {M : Type 0} (H : HashMap M) : Type 0 where
  ended : ScanReport H → Bool → Adding H
  overflow : Adding H

module _ {M : Type 0} (H : HashMap M) where
  -- The loop of `add_files_to_scan`.
  pub add_entries : Text → List DirEntry → ScanReport H → Adding H
  unfolding add_file_to_scan
  add_entries dir [] r = ended r true
  add_entries dir (entry ∷ entries) r =
      let path = full_path dir entry in
      let added = add_file_to_scan H entry.element_memory path r in
      let skip = add_entries dir entries r in
      let on = add_entries dir entries added.0 in
      if not (ltb (length path) 4096) then overflow else elim entry.regular [
        | none ↦ ended r false
        | some b ↦
            if not b
            then skip
            else if not entry.copy_memory
            then ended r false
            else if added.1
            then on
            else ended added.0 false
      ]

  unfoldable pub add_files_to_scan : Bool → Text → List DirEntry → ScanReport H → Adding H
  unfolding add_entries
  add_files_to_scan opens dir entries r = if opens then add_entries dir entries r else ended r false

-- `struct map_record`
pub record MapRecord : Type 0 where
  pub key : Text
  pub value : ℕ

-- The order of `intmax_t`, from that of the bit patterns.
abbrev pub signed : ℕ → ℕ
signed v = (v + 2 ^ 63) % 2 ^ 64

-- 1, -1 or 0, as an `int`.
pub compare_map_records : MapRecord → MapRecord → ℕ
compare_map_records a b =
    if ltb (signed a.value) (signed b.value)
    then 1
    else if ltb (signed b.value) (signed a.value)
    then 2 ^ 32 - 1
    else 0

abbrev pub to_record : Text × ℕ → MapRecord
to_record (key, value) = record { key = key; value = value }

-- The array that `to_array_call` fills.
pub to_array : List (Text × ℕ) → List MapRecord
to_array pairs = map to_record pairs

-- The first ten of the array; none where it has fewer, and the loop reads beyond it.
pub top_ten : List MapRecord → Option (List MapRecord)
top_ten array = if ltb (length array) 10 then none else some (take 10 array)

-- What is printed, for a total that is not negative.
pub record Printed : Type 0 where
  pub urls : List MapRecord
  pub referers : List MapRecord
  pub megabytes : ℕ

-- `qsort` is what it makes of an array with `compare_map_records`.
module _ {M : Type 0} (H : HashMap M) (qsort : List MapRecord → List MapRecord) where
  abbrev pub ten_of : M → Option (List MapRecord)
  ten_of m = top_ten (qsort (to_array (H.pairs m)))

  pub process_scan_report : ScanReport H → Option Printed
  unfolding top_ten to_array
  process_scan_report r = elim (ten_of r.downloaded_per_url) [
    | none ↦ none
    | some urls ↦ elim (ten_of r.referer_count) [
      | none ↦ none
      | some referers ↦
          some (record {
            urls = urls;
            referers = referers;
            megabytes = r.total_served / (1024 * 1024);
          })
    ]
  ]

-- The number of threads that `main` starts, for the `int` that was read.
unfoldable pub thread_number : ℕ → ℕ
thread_number n = if n == 0 then 1 else if ltb n (2 ^ 31) then n else 1

-- The paths of the regular files, the last one first.
abbrev pub regular_paths : Text → List DirEntry → List Text → List Text
regular_paths dir [] rest = rest
regular_paths dir (entry ∷ entries) rest = elim entry.regular [
  | none ↦ regular_paths dir entries rest
  | some b ↦ regular_paths dir entries (if b then full_path dir entry ∷ rest else rest)
]

add_entries-files :
    {M : Type 0} (H : HashMap M) (dir : Text) (entries : List DirEntry) (r r' : ScanReport H)
    → add_entries H dir entries r ≡ ended r' true
    → r' ≡ record r { files = regular_paths dir entries r.files }
unfolding add_entries add_file_to_scan
add_entries-files H dir [] r r' e = let p : r ≡ r' = cc in sym p
add_entries-files H dir (entry ∷ entries) r r' e =
    let path = full_path dir entry in
    elim (Bool-cases (ltb (length path) 4096)) [
      | inr a ↦ absurd (ground (arith, a, e))
      | inl a ↦ elim (Option-cases entry.regular) [
        | inl b ↦ absurd (ground (arith, a, b, e))
        | inr (true, b) ↦ elim (Bool-cases entry.copy_memory) [
          | inr c ↦ absurd (ground (arith, a, b, c, e))
          | inl c ↦ elim (Bool-cases entry.element_memory) [
            | inr d ↦ absurd (ground (arith, a, b, c, d, e))
            | inl d ↦
                let on : ScanReport H = record r { files = path ∷ r.files } in
                let q : add_entries H dir entries on ≡ ended r' true =
                  ground (arith, a, b, c, d, e) in
                rw (b) (add_entries-files H dir entries on r' q)
          ]
        ]
        | inr (false, b) ↦
            let q : add_entries H dir entries r ≡ ended r' true = ground (arith, a, b, e) in
            rw (b) (add_entries-files H dir entries r r' q)
      ]
    ]

-- If `add_files_to_scan` ends with 0, the stack holds the paths of all regular files of the
-- directory, the last one read on top, above what it held, and nothing else of the report changed.
pub add_files_to_scan-files :
    {M : Type 0} (H : HashMap M) (dir : Text) (entries : List DirEntry) (r r' : ScanReport H)
    → add_files_to_scan H true dir entries r ≡ ended r' true
    → r' ≡ record r { files = regular_paths dir entries r.files }
unfolding add_files_to_scan
add_files_to_scan-files H dir entries r r' e = add_entries-files H dir entries r r' e
