-- ===== src/LogStats/Report/Program.antt =====
-- `main` of 10-threads/main.c: the report is made, filled with the files of the directory, handed to
-- the threads, and printed.
use otus_c.LogStats.Report.TopTen.{Sorts, TopTen, process_scan_report-TopTen}
use otus_c.LogStats.Report.TopTen.{process_scan_report-enough}
use otus_c.Common.{◌≤◌, ◌*◌, ◌/◌, ◌∙◌, length, refl}
use otus_c.Common.{ℕ, ◌<◌, ◌≡◌, ap, subst, arith}
use otus_c.Common.{Bool, true, false, not, Option, none, some, List, [], ltb, ◌==◌, if◌then◌else◌}
use otus_c.Common.{Text, replicate}
use otus_c.LogStats.{HashMap, ScanReport, Round}
use otus_c.LogStats.Sums.{Lawful, Grows, Same64, Count, report_count, OpenedMemory}
use otus_c.LogStats.Threads.{State, Steps, ready}
use otus_c.LogStats.Threads.Turns.{healthy, files_count}
use otus_c.LogStats.Threads.Conserve.{start, AllFinished, Steps-count}
use otus_c.LogStats.Report.{
  MapRecord, Resource, Setup, init_scan_report, DirEntry, add_files_to_scan,
}
use otus_c.LogStats.Report.{
  ended, overflow, Printed, process_scan_report, thread_number, regular_paths,
}
use otus_c.LogStats.Report.{add_files_to_scan-files}

-- What the system answers to `main`: the `int` that is read from the second argument, if it is one;
-- the set-up; the directory; how many threads are started before one fails, if one does; and whether
-- all are joined.
pub record Machine : Type 0 where
  pub number : Option ℕ
  pub setup : Setup
  pub opens : Bool
  pub entries : List DirEntry
  pub started : ℕ
  pub joined : Bool

-- The exit code is 0 or 1; what is printed of the report; what is still held. A path that is too
-- long, a report that is too short and the freeing of a report whose threads run are undefined.
pub data Outcome : Type 0 where
  undefined : Outcome
  exits : Bool → Option Printed → List Resource → Outcome

module _ {M : Type 0} (H : HashMap M) (qsort : List MapRecord → List MapRecord)
    (run : ℕ → ScanReport H → ScanReport H) where
  abbrev pub new_report : ScanReport H
  new_report = record {
    total_served = 0;
    locked = false;
    files = [];
    downloaded_per_url = H.empty;
    referer_count = H.empty;
  }

  -- Behind the threads: the end of `main`, which frees the whole report.
  pub print_report : ScanReport H → Outcome
  unfolding process_scan_report
  print_report r =
      if r.total_served == 0 then exits true none [] else elim (process_scan_report H qsort r) [
        | none ↦ undefined
        | some p ↦ exits true (some p) []
      ]

  -- `main`; `run` is what a number of threads leaves of a report.
  pub main : Machine → Text → Outcome
  unfolding init_scan_report add_files_to_scan thread_number print_report
  main k dir = elim k.number [
    | none ↦ exits false none []
    | some n ↦
        let made = init_scan_report k.setup in
        if not made.0
        then exits false none made.1
        else elim (add_files_to_scan H k.opens dir k.entries new_report) [
          | overflow ↦ undefined
          | ended r ok ↦
              if not ok
              then exits false none []
              else if ltb k.started (thread_number n)
              then (if k.started == 0 then exits false none [] else undefined)
              else if not k.joined
              then undefined
              else print_report (run (thread_number n) r)
        ]
  ]

thread_number_pos : (n : ℕ) → 0 < thread_number n
unfolding thread_number
thread_number_pos n = ground arith

module _ {M : Type 0} (H : HashMap M) (qsort : List MapRecord → List MapRecord)
    (run : ℕ → ScanReport H → ScanReport H) (lawful : Lawful H) (grows : Grows H)
    (file : Text → Option (List Round))
    (memory : (f : Text) → OpenedMemory H lawful grows (file f)) where
  -- Where the set-up succeeds and the directory can be read, and the threads have run in some order,
  -- with memory for everything, until all have ended, and their report has at least ten URLs and ten
  -- referers and not 0 bytes: `main` ends with 0 and prints megabytes and ten URLs and referers with
  -- the largest values of that report, which holds the bytes served, those of each URL and the
  -- requests of each referer, over the lines of all regular files of the directory that could be
  -- parsed. `qsort` is taken to do what the C library says.
  pub main-files_count :
      (k : Machine) (dir : Text) (n : ℕ) (r : ScanReport H) (s : State H) (c : Count)
      → Sorts qsort
      → k.number ≡ some n
      → (init_scan_report k.setup).0 ≡ true
      → k.opens ≡ true
      → add_files_to_scan H true dir k.entries (new_report H qsort run) ≡ ended r true
      → ltb k.started (thread_number n) ≡ false
      → k.joined ≡ true
      → Steps H
          (healthy file)
          (record { report = r; threads = replicate (thread_number n) ready })
          s
      → AllFinished H lawful grows file memory s.threads
      → run (thread_number n) r ≡ s.report
      → (s.report.total_served == 0) ≡ false
      → 10 ≤ length (H.pairs s.report.downloaded_per_url)
      → 10 ≤ length (H.pairs s.report.referer_count)
      → (p : Printed) × (main H qsort run k dir ≡ exits true (some p) [])
        × (p.megabytes ≡ s.report.total_served / (1024 * 1024))
        × TopTen H s.report.downloaded_per_url p.urls
        × TopTen H s.report.referer_count p.referers
        × Same64
            (report_count H lawful grows c s.report)
            (files_count H lawful grows file memory c (regular_paths dir k.entries []))
  unfolding main print_report
  main-files_count k dir n r s c sorts a b o d e j steps h f some_bytes urls referers =
      let empty = new_report H qsort run in
      let same : r ≡ record empty { files = regular_paths dir k.entries [] } =
        add_files_to_scan-files H dir k.entries empty r d in
      let paths = regular_paths dir k.entries [] in
      let w = thread_number n in
      let from_start : Steps H (healthy file) (start H lawful grows file memory w paths) s =
        subst (λ r. Steps H (healthy file) (record { report = r; threads = replicate w ready }) s)
          same steps in
      let (_, total) =
        Steps-count H lawful grows file memory w paths s c (thread_number_pos n) from_start h in
      let (p, prints, megabytes) =
        process_scan_report-enough H qsort s.report sorts urls referers in
      let top = process_scan_report-TopTen H qsort sorts s.report p prints in
      let printed : print_report H qsort run s.report ≡ exits true (some p) [] =
        rw (print_report, some_bytes, prints) refl in
      let ran : main H qsort run k dir ≡ print_report H qsort run s.report =
        rw (main, a, b, o, d, e, j) (ap (print_report H qsort run) f) in
      (p, ran ∙ printed, megabytes, top.0, top.1, total)
