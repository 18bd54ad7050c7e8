-- ===== src/LogStats/Report/RunTests.antt =====
-- A run of `main` of 10-threads/main.c with one thread, for a log with ten URLs and ten referers.
use otus_c.Common.{ℕ, zero, suc, ◌+◌, ◌*◌, ◌/◌, ◌≡◌, refl, arith, true, false, Option, some}
use otus_c.Common.{List, [], ◌∷◌, Text, text, set, replicate, subst, sym, ltb, length, ◌==◌}
use otus_c.LogStats.{Round, parsed, ScanReport, scan_file, update_scan_report}
use otus_c.LogStats.AssocMap.{assoc, assoc-Lawful, assoc-Grows}
use otus_c.LogStats.Sums.{Same64, served, report_count, OpenedMemory}
use otus_c.LogStats.Threads.{Thread, ready, thread_step, State, Steps, turn, done, next}
use otus_c.LogStats.Threads.Turns.{healthy, files_count}
use otus_c.LogStats.Threads.Conserve.{start, AllFinished}
use otus_c.LogStats.Report.{init_scan_report, thread_number, regular_paths}
use otus_c.LogStats.Report.{DirEntry, add_files_to_scan, ended}
use otus_c.LogStats.Report.TopTen.{TopTen}
use otus_c.LogStats.Report.Tests.{sort, sort-Sorts}
use otus_c.LogStats.Report.Program.{Machine, main, exits, main-files_count}
use otus_c.LogStats.Report.{Printed}

abbrev requests : ℕ → List Round
requests zero = []
requests (suc n) =
    parsed (record {
      url = (97 + n) ∷ [];
      size = 1048576;
      referer = (97 + n) ∷ [];
      url_memory = true;
      referer_memory = true;
    })
    ∷ requests n

abbrev log : Text → Option (List Round)
log f = some (requests 10)

log-memory : (f : Text) → OpenedMemory assoc assoc-Lawful assoc-Grows (log f)
log-memory f = (
  refl,
  refl,
  (
    refl,
    refl,
    (
      refl,
      refl,
      (
        refl,
        refl,
        (refl, refl, (refl, refl, (refl, refl, (refl, refl, (refl, refl, (refl, refl, tt)))))),
      ),
    ),
  ),
)

abbrev directory : List DirEntry
directory =
    record { d_name = text "."; regular = some false; copy_memory = true; element_memory = true }
    ∷ record {
      d_name = text "x.log";
      regular = some true;
      copy_memory = true;
      element_memory = true;
    }
    ∷ []

abbrev begin : State assoc
begin = start assoc assoc-Lawful assoc-Grows log log-memory 1 (text "logs/x.log" ∷ [])

-- The state behind a turn of the thread.
abbrev after : State assoc → Thread assoc → State assoc
after s t = record {
  report = (thread_step assoc (healthy log) t s.report).1;
  threads = set s.threads 0 (thread_step assoc (healthy log) t s.report).0;
}

abbrev in_file : Thread assoc
in_file = (thread_step assoc (healthy log) ready begin.report).0

abbrev all_ended : State assoc
all_ended = after (after begin ready) in_file

run : Steps assoc (healthy log) begin all_ended
unfolding thread_step scan_file update_scan_report
run =
    next (turn begin 0 ready refl (λ z. z) refl)
      (next (turn (after begin ready) 0 in_file refl (λ z. z) refl) (done all_ended))

ends : AllFinished assoc assoc-Lawful assoc-Grows log log-memory all_ended.threads
unfolding thread_step scan_file update_scan_report
ends = (tt, tt)

adds :
    add_files_to_scan assoc true (text "logs") directory (record {
      total_served = 0;
      locked = false;
      files = [];
      downloaded_per_url = [];
      referer_count = [];
    })
    ≡ ended begin.report true
unfolding add_files_to_scan
adds = refl

abbrev machine : Machine
machine = record {
  number = some 1;
  setup = record {
    report_memory = true;
    mutex_init = true;
    url_memory = true;
    url_create = true;
    referer_memory = true;
    referer_create = true;
  };
  opens = true;
  entries = directory;
  started = 1;
  joined = true;
}

made : (init_scan_report machine.setup).0 ≡ true
unfolding init_scan_report
made = refl

one : thread_number 1 ≡ 1
unfolding thread_number
one = refl

-- A thread that leaves what the one above left.
abbrev left : ℕ → ScanReport assoc → ScanReport assoc
left n r = all_ended.report

run_one :
    Steps assoc
      (healthy log)
      (record { report = begin.report; threads = replicate (thread_number 1) ready })
      all_ended
run_one =
    subst
      (λ n.
        Steps assoc (healthy log) (record { report = begin.report; threads = replicate n ready })
          all_ended)
      (sym one) run

not_fewer : ltb 1 (thread_number 1) ≡ false
unfolding thread_number
not_fewer = refl

ten :
    ((all_ended.report.total_served == 0) ≡ false)
    × (length (assoc.pairs all_ended.report.downloaded_per_url) ≡ 10)
    × (length (assoc.pairs all_ended.report.referer_count) ≡ 10)
unfolding thread_step scan_file update_scan_report
ten = (refl, refl, refl)

main-files_count_example :
    (p : Printed) × (main assoc sort left machine (text "logs") ≡ exits true (some p) [])
    × (p.megabytes ≡ all_ended.report.total_served / (1024 * 1024))
    × TopTen assoc all_ended.report.downloaded_per_url p.urls
    × TopTen assoc all_ended.report.referer_count p.referers
    × Same64 (report_count assoc assoc-Lawful assoc-Grows served all_ended.report) (
        files_count assoc assoc-Lawful assoc-Grows log log-memory served
          (regular_paths (text "logs") directory []))
main-files_count_example =
    main-files_count assoc sort left assoc-Lawful assoc-Grows log log-memory machine (text "logs") 1
      begin.report all_ended served sort-Sorts refl made refl adds not_fewer refl run_one ends refl
      ten.0 (omega (arith, ten.1)) (omega (arith, ten.2))
