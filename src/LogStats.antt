-- ===== src/LogStats.antt =====
-- 10-threads/main.c: threads that read the log files of a directory and count the bytes for each URL
-- and the requests for each referer.
--
-- The hash map (10-threads/hashmap.h) is the record `HashMap`, a section parameter. What `fscanf`
-- makes of a file is a list of rounds. An `intmax_t` is its bit pattern below 2 ^ 64. `mutex` is a
-- flag: a thread that waits for it takes no step.
pub mod Sums
pub mod Threads
pub mod Report
mod AssocMap
mod Tests
use otus_c.Common.{add64}
use otus_c.Common.{ℕ, zero, suc, ◌+◌, ◌*◌, ◌/◌, ◌%◌, ◌^◌, Bool, true, false, ◌&&◌, ◌||◌, not}
use otus_c.Common.{Option, none, some, List, [], ◌∷◌, ◌++◌, ltb, ◌==◌, if◌then◌else◌, length, take}
use otus_c.Common.{Text, text, get_elem?, set}

-- The calls of `hashmap_s`: `put` fails when it cannot grow; `write` is a store through the pointer
-- that `get` gave.
pub record HashMap (M : Type 0) : Type 0 where
  pub empty : M
  pub get : M → Text → Option ℕ
  pub put : Text → ℕ → M → Option M
  pub write : Text → ℕ → M → M
  pub pairs : M → List (Text × ℕ)

-- A round of `scan_file`: `fscanf` gives all 12 fields, or the rest of the line is skipped. The
-- flags say whether memory is had for a new key of either map. `size` is what the variable holds.
pub record Entry : Type 0 where
  pub url : Text
  pub size : ℕ
  pub referer : Text
  pub url_memory : Bool
  pub referer_memory : Bool

pub data Round : Type 0 where
  parsed : Entry → Round
  skipped : Round

-- What a callback of `hashmap_iterate_pairs` returns: -1, which takes the pair out of the map, 0, or
-- another value.
pub data Visit : Type 0 where
  removes continues stops : Visit

module _ {M : Type 0} (H : HashMap M) where
  -- `struct file_report`
  pub record FileReport : Type 0 where
    pub bytes : ℕ
    pub downloaded_per_url : M
    pub referer_count : M

  -- `struct scan_report`; `files` is the stack, its top first.
  pub record ScanReport : Type 0 where
    pub total_served : ℕ
    pub locked : Bool
    pub files : List Text
    pub downloaded_per_url : M
    pub referer_count : M

  -- The value of a key is raised, or a new key is stored if there is memory.
  pub bump : Bool → Text → ℕ → M → Option M
  bump memory key n m = elim (H.get m key) [
    | none ↦ if memory then H.put key n m else none
    | some v ↦ some (H.write key (add64 v n) m)
  ]

  -- The loop of `scan_file`: the report, and `resulting_bytes` where the loop ends.
  pub scan_rounds : List Round → ℕ → FileReport → FileReport × Option ℕ
  unfolding bump
  scan_rounds [] resulting_bytes r = (r, some resulting_bytes)
  scan_rounds (skipped ∷ rounds) resulting_bytes r = scan_rounds rounds resulting_bytes r
  scan_rounds (parsed e ∷ rounds) resulting_bytes r =
      elim (bump e.url_memory e.url e.size r.downloaded_per_url) [
        | none ↦ (r, none)
        | some d ↦ elim (bump e.referer_memory e.referer 1 r.referer_count) [
          | none ↦ (record r { downloaded_per_url = d }, none)
          | some c ↦
              scan_rounds rounds (add64 resulting_bytes e.size)
                (record r { downloaded_per_url = d; referer_count = c })
        ]
      ]

  abbrev pub add_bytes : FileReport × Option ℕ → FileReport × Bool
  add_bytes (r, none) = (r, false)
  add_bytes (r, some n) = (record r { bytes = add64 r.bytes n }, true)

  -- `scan_file`, for what the file has if it opens; the flag is that of success.
  pub scan_file : Option (List Round) → FileReport → FileReport × Bool
  unfolding scan_rounds
  scan_file none r = (r, false)
  scan_file (some rounds) r = add_bytes (scan_rounds rounds 0 r)

  -- `merge_maps_call` for a pair: what it leaves of the destination, and what it returns.
  pub merge_maps_call : Bool → Text → ℕ → M → M × Visit
  unfolding bump
  merge_maps_call memory key value dest = elim (bump memory key value dest) [
    | none ↦ (dest, removes)
    | some dest' ↦ (dest', continues)
  ]

  -- `merge_maps`: `hashmap_iterate_pairs` makes the call for each pair, goes on behind -1 and 0, and
  -- fails only behind another value.
  pub merge_maps : (Text → Bool) → List (Text × ℕ) → M → M × Bool
  unfolding merge_maps_call
  merge_maps memory [] dest = (dest, true)
  merge_maps memory ((key, value) ∷ rest) dest =
      let (dest', visit) = merge_maps_call (memory key) key value dest in
      let later = merge_maps memory rest dest' in
      elim visit [ removes ↦ later | continues ↦ later | stops ↦ (dest', false) ]

  -- `update_scan_report`, from the taking of the mutex on; it would stay taken if a merge failed.
  pub update_scan_report : (Text → Bool) → FileReport → ScanReport → ScanReport × Bool
  unfolding merge_maps
  update_scan_report memory r report =
      let (dpu, ok) = merge_maps memory (H.pairs r.downloaded_per_url) report.downloaded_per_url in
      let (rc, ok') = merge_maps memory (H.pairs r.referer_count) report.referer_count in
      let added = record report {
        total_served = add64 report.total_served r.bytes;
        downloaded_per_url = dpu;
        locked = true;
      } in
      if not ok
      then (added, false)
      else if not ok'
      then (record added { referer_count = rc }, false)
      else (record added { referer_count = rc; locked = false }, true)

  -- `add_file_to_scan`, where there is memory for the new element.
  pub add_file_to_scan : Bool → Text → ScanReport → ScanReport × Bool
  add_file_to_scan memory filename report =
      if memory then (record report { files = filename ∷ report.files }, true) else (report, false)

  -- `get_next_file_to_scan`; without memory for the copy, the mutex stays taken.
  pub get_next_file_to_scan : Bool → ScanReport → ScanReport × Option Text
  get_next_file_to_scan memory report = elim report.files [
    | [] ↦ (report, none)
    | filename ∷ rest ↦
        if memory
        then (record report { files = rest }, some filename)
        else (record report { locked = true }, none)
  ]
