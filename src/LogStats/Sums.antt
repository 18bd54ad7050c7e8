-- ===== src/LogStats/Sums.antt =====
-- What the maps of 10-threads/main.c add up: a file, and the merging of a thread's maps.
use otus_c.Common.{ℕ, ◌+◌, ◌%◌, ◌^◌, ◌≡◌, refl, subst, arith}
use otus_c.Common.{true, false, Bool-cases, Option, none, some, Option-cases, inl, inr}
use otus_c.Common.{List, [], ◌∷◌, Text, str_eq, str_eq→≡, if◌then◌else◌}
use otus_c.Common.{add64}
use otus_c.LogStats.{HashMap, Entry, Round, parsed, skipped, FileReport, ScanReport, bump}
use otus_c.LogStats.{
  scan_rounds, scan_file, add_bytes, merge_maps, merge_maps_call, update_scan_report,
}

abbrev pub amount_of : Option ℕ → ℕ
amount_of none = 0
amount_of (some n) = n

-- The values of one key in a list of pairs.
abbrev pub pairs_amount : Text → List (Text × ℕ) → ℕ
pairs_amount key [] = 0
pairs_amount key ((k, v) ∷ rest) = (if str_eq k key then v else 0) + pairs_amount key rest

-- What a hash map promises: a new key is found with its value, a write changes the value of its
-- key, other keys keep theirs, and the iteration visits each key once, with its value.
pub record Lawful {M : Type 0} (H : HashMap M) : Type 0 where
  pub get_empty : (key : Text) → H.get H.empty key ≡ none
  pub get_put : (key : Text) (n : ℕ) (m m' : M) → H.put key n m ≡ some m' → H.get m' key ≡ some n
  pub get_put_other :
      (key j : Text) (n : ℕ) (m m' : M)
      → str_eq key j ≡ false
      → H.put key n m ≡ some m'
      → H.get m' j ≡ H.get m j
  pub get_write :
      (key : Text) (n v : ℕ) (m : M) → H.get m key ≡ some v → H.get (H.write key n m) key ≡ some n
  pub get_write_other :
      (key j : Text) (n : ℕ) (m : M) → str_eq key j ≡ false → H.get (H.write key n m) j ≡ H.get m j
  pub pairs_get : (m : M) (key : Text) → pairs_amount key (H.pairs m) ≡ amount_of (H.get m key)

-- The map never fails to grow.
abbrev pub Grows : {M : Type 0} → HashMap M → Type 0
Grows {M = M} H = (key : Text) (n : ℕ) (m : M) → (m' : M) × (H.put key n m ≡ some m')

-- Equal as `intmax_t`.
abbrev pub Same64 : ℕ → ℕ → Type 0
Same64 a b = a % 2 ^ 64 ≡ b % 2 ^ 64

module _ {M : Type 0} (H : HashMap M) (lawful : Lawful H) (grows : Grows H) where
  abbrev pub amount : M → Text → ℕ
  amount m key = amount_of (H.get m key)

  put-amount :
      (key j : Text) (n : ℕ) (m m' : M)
      → H.get m key ≡ none
      → H.put key n m ≡ some m'
      → Same64 (amount m' j) (amount m j + (if str_eq key j then n else 0))
  put-amount key j n m m' e p = elim (Bool-cases (str_eq key j)) [
    | inl q ↦
        let same = str_eq→≡ key j q in
        let t : H.get m' j ≡ some n =
          subst (λ k. H.get m' k ≡ some n) same (lawful.get_put key n m m' p) in
        let u : H.get m j ≡ none = subst (λ k. H.get m k ≡ none) same e in
        rw (q, t, u) (omega arith)
    | inr q ↦ rw (q, lawful.get_put_other key j n m m' q p) (omega arith)
  ]

  write-amount :
      (key j : Text) (n v : ℕ) (m : M)
      → H.get m key ≡ some v
      → Same64 (amount (H.write key (add64 v n) m) j) (amount m j + (if str_eq key j then n else 0))
  write-amount key j n v m e = elim (Bool-cases (str_eq key j)) [
    | inl q ↦
        let w = H.write key (add64 v n) m in
        let same = str_eq→≡ key j q in
        let t : H.get w j ≡ some (add64 v n) =
          subst (λ k. H.get w k ≡ some (add64 v n)) same (lawful.get_write key (add64 v n) v m e) in
        let u : H.get m j ≡ some v = subst (λ k. H.get m k ≡ some v) same e in
        rw (q, t, u) (omega arith)
    | inr q ↦ rw (q, lawful.get_write_other key j (add64 v n) m q) (omega arith)
  ]

  -- What raising a key does to all amounts.
  pub bump-amount :
      (key : Text) (n : ℕ) (m : M)
      → (m' : M) × (bump H true key n m ≡ some m')
        × ((j : Text) → Same64 (amount m' j) (amount m j + (if str_eq key j then n else 0)))
  unfolding bump
  bump-amount key n m = elim (Option-cases (H.get m key)) [
    | inl e ↦
        let (m', p) = grows key n m in (m', ground (arith, e, p), λ j. put-amount key j n m m' e p)
    | inr (v, e) ↦ (H.write key (add64 v n) m, ground (arith, e), λ j. write-amount key j n v m e)
  ]

  -- Merging adds the amounts of the pairs.
  pub merge_maps-amount :
      (pairs : List (Text × ℕ)) (m : M)
      → (m' : M) × (merge_maps H (λ k. true) pairs m ≡ (m', true))
        × ((j : Text) → Same64 (amount m' j) (amount m j + pairs_amount j pairs))
  unfolding merge_maps merge_maps_call
  merge_maps-amount [] m = (m, refl, λ j. omega arith)
  merge_maps-amount ((key, n) ∷ rest) m =
      let (d, e, f) = bump-amount key n m in
      let (m', g, h) = merge_maps-amount rest d in
      (m', ground (arith, e, g), λ j. omega (arith, f j, h j))

-- What is counted: all bytes, those of a URL, and the requests of a referer.
pub data Count : Type 0 where
  served : Count
  url referer : Text → Count

abbrev pub weight : Count → Entry → ℕ
weight served e = e.size
weight (url j) e = if str_eq e.url j then e.size else 0
weight (referer j) e = if str_eq e.referer j then 1 else 0

-- The count over the lines of a file that could be parsed.
abbrev pub file_count : Count → List Round → ℕ
file_count c [] = 0
file_count c (skipped ∷ rounds) = file_count c rounds
file_count c (parsed e ∷ rounds) = weight c e + file_count c rounds

-- There is memory for each new key.
abbrev pub HasMemory : List Round → Type 0
HasMemory [] = Unit
HasMemory (skipped ∷ rounds) = HasMemory rounds
HasMemory (parsed e ∷ rounds) = (e.url_memory ≡ true) × (e.referer_memory ≡ true) × HasMemory rounds

module _ {M : Type 0} (H : HashMap M) (lawful : Lawful H) (grows : Grows H) where
  abbrev pub thread_count : Count → FileReport H → ℕ
  thread_count served r = r.bytes
  thread_count (url j) r = amount_of (H.get r.downloaded_per_url j)
  thread_count (referer j) r = amount_of (H.get r.referer_count j)

  abbrev pub report_count : Count → ScanReport H → ℕ
  report_count served r = r.total_served
  report_count (url j) r = amount_of (H.get r.downloaded_per_url j)
  report_count (referer j) r = amount_of (H.get r.referer_count j)

  -- The counts of a thread in the middle of a file, `n` bytes into it.
  abbrev pending : ℕ → Count → FileReport H → ℕ
  pending n served r = r.bytes + n
  pending n (url j) r = thread_count (url j) r
  pending n (referer j) r = thread_count (referer j) r

  scan_rounds-count :
      (rounds : List Round) (n : ℕ) (r : FileReport H)
      → HasMemory rounds
      → (r' : FileReport H) × (b : ℕ) × (scan_rounds H rounds n r ≡ (r', some b))
        × ((c : Count) → Same64 (pending b c r') (pending n c r + file_count c rounds))
  unfolding scan_rounds
  scan_rounds-count [] n r h = (r, n, refl, λ c. omega arith)
  scan_rounds-count (skipped ∷ rounds) n r h = scan_rounds-count rounds n r h
  scan_rounds-count (parsed e ∷ rounds) n r h =
      let (d, p, q) = bump-amount H lawful grows e.url e.size r.downloaded_per_url in
      let (m, u, v) = bump-amount H lawful grows e.referer 1 r.referer_count in
      let p' : bump H e.url_memory e.url e.size r.downloaded_per_url ≡ some d = rw (h.0) p in
      let u' : bump H e.referer_memory e.referer 1 r.referer_count ≡ some m = rw (h.1) u in
      let s : FileReport H = record r { downloaded_per_url = d; referer_count = m } in
      let (r', b, f, g) = scan_rounds-count rounds (add64 n e.size) s h.2 in
      (
        r',
        b,
        rw (scan_rounds, p', u') f,
        λ c.
            elim c
              as (λ c.
                Same64 (pending b c r') (pending n c r + (weight c e + file_count c rounds))) [
                  | served ↦ omega (arith, g served)
                  | url j ↦ omega (arith, q j, g (url j))
                  | referer j ↦ omega (arith, v j, g (referer j))
                ],
      )

  added :
      (r r' : FileReport H) (b : ℕ) (c : Count) (n : ℕ)
      → Same64 (pending b c r') (pending 0 c r + n)
      → Same64 (thread_count c (add_bytes H (r', some b)).0) (thread_count c r + n)
  added r r' b served n e = omega (arith, e)
  added r r' b (url j) n e = e
  added r r' b (referer j) n e = e

  -- A file that opens adds what it has to the counts of its thread, one that does not adds nothing.
  abbrev pub opened_count : Count → Option (List Round) → ℕ
  opened_count c none = 0
  opened_count c (some rounds) = file_count c rounds

  abbrev pub OpenedMemory : Option (List Round) → Type 0
  OpenedMemory none = Unit
  OpenedMemory (some rounds) = HasMemory rounds

  pub scan_file-count :
      (file : Option (List Round)) (r : FileReport H) (c : Count)
      → OpenedMemory file
      → Same64 (thread_count c (scan_file H file r).0) (thread_count c r + opened_count c file)
  unfolding scan_file
  scan_file-count none r c h = omega arith
  scan_file-count (some rounds) r c h =
      let (r', b, e, f) = scan_rounds-count rounds 0 r h in
      rw (e) (added r r' b c (file_count c rounds) (f c))

  -- A thread's counts go into the report, and the mutex is free again.
  pub update_scan_report-count :
      (r : FileReport H) (report : ScanReport H)
      → (report' : ScanReport H) × (update_scan_report H (λ k. true) r report ≡ (report', true))
        × (report'.locked ≡ false)
        × (report'.files ≡ report.files)
        × ((c : Count) → Same64 (report_count c report') (report_count c report + thread_count c r))
  unfolding update_scan_report
  update_scan_report-count r report =
      let (d, p, q) =
        merge_maps-amount H lawful grows (H.pairs r.downloaded_per_url) report.downloaded_per_url in
      let (m, u, v) =
        merge_maps-amount H lawful grows (H.pairs r.referer_count) report.referer_count in
      let report' : ScanReport H = record {
        total_served = add64 report.total_served r.bytes;
        locked = false;
        files = report.files;
        downloaded_per_url = d;
        referer_count = m;
      } in
      (
        report',
        rw (p, u) refl,
        refl,
        refl,
        λ c.
            elim c
              as (λ c. Same64 (report_count c report') (report_count c report + thread_count c r)) [
                | served ↦ omega arith
                | url j ↦ omega (arith, q j, lawful.pairs_get r.downloaded_per_url j)
                | referer j ↦ omega (arith, v j, lawful.pairs_get r.referer_count j)
              ],
      )
