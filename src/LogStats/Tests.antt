-- ===== src/LogStats/Tests.antt =====
-- Two threads of 10-threads/main.c and a small log, and the theorems there.
use otus_c.Common.{ℕ, ◌+◌, ◌≡◌, ◌⊎◌, refl, arith, true, false, Option, some}
use otus_c.Common.{List, [], ◌∷◌, Text, text, set}
use otus_c.LogStats.{
  Round, Entry, parsed, skipped, FileReport, ScanReport, scan_file, update_scan_report,
}
use otus_c.LogStats.AssocMap.{assoc, assoc-Lawful, assoc-Grows}
use otus_c.LogStats.Sums.{Same64, served, url, report_count, OpenedMemory}
use otus_c.LogStats.Threads.{
  System, Thread, ready, thread_step, State, Step, Steps, turn, done, next,
}
use otus_c.LogStats.Threads.Turns.{healthy, files_count}
use otus_c.LogStats.Threads.Conserve.{start, AllFinished, Steps-count}
use otus_c.LogStats.Threads.Order.{turns, turns_left, Steps-turns}
use otus_c.LogStats.Report.{DirEntry, add_files_to_scan, ended}

abbrev entry : ℕ → Entry
entry size = record {
  url = text "/a";
  size = size;
  referer = text "-";
  url_memory = true;
  referer_memory = true;
}

-- Two requests for one URL, with a line between them that does not parse.
abbrev log : Text → Option (List Round)
log f = some (parsed (entry 10) ∷ skipped ∷ parsed (entry 5) ∷ [])

log-memory : (f : Text) → OpenedMemory assoc assoc-Lawful assoc-Grows (log f)
log-memory f = (refl, refl, (refl, refl, tt))

abbrev files : List Text
files = text "logs/x.log" ∷ []

abbrev begin : State assoc
begin = start assoc assoc-Lawful assoc-Grows log log-memory 2 files

-- The state behind a turn of thread `i`.
abbrev after : ℕ → State assoc → Thread assoc → State assoc
after i s t = record {
  report = (thread_step assoc (healthy log) t s.report).1;
  threads = set s.threads i (thread_step assoc (healthy log) t s.report).0;
}

abbrev begun : State assoc
begun = after 0 begin ready

abbrev in_file : Thread assoc
in_file = (thread_step assoc (healthy log) ready begin.report).0

abbrev one_ended : State assoc
one_ended = after 1 begun ready

abbrev all_ended : State assoc
all_ended = after 0 one_ended in_file

run : Steps assoc (healthy log) begin all_ended
unfolding thread_step scan_file update_scan_report
run = next (turn begin 0 ready refl (λ z. z) refl) (
    next (turn begun 1 ready refl (λ z. z) refl)
      (next (turn one_ended 0 in_file refl (λ z. z) refl) (done all_ended)))

ends : AllFinished assoc assoc-Lawful assoc-Grows log log-memory all_ended.threads
unfolding thread_step scan_file update_scan_report
ends = (tt, (tt, tt))

counts :
    (all_ended.report.total_served ≡ 15)
    × (report_count assoc assoc-Lawful assoc-Grows (url (text "/a")) all_ended.report ≡ 15)
unfolding thread_step scan_file update_scan_report
counts = (refl, refl)

Steps-count_example :
    (all_ended.report.files ≡ [])
    × Same64
        (report_count assoc assoc-Lawful assoc-Grows served all_ended.report)
        (files_count assoc assoc-Lawful assoc-Grows log log-memory served files)
Steps-count_example =
    Steps-count assoc assoc-Lawful assoc-Grows log log-memory 2 files all_ended served (omega arith)
      run ends

Steps-turns_example :
    (turns assoc assoc-Lawful assoc-Grows log log-memory run
        + turns_left assoc assoc-Lawful assoc-Grows log log-memory all_ended
      ≡ 3)
    × (AllFinished assoc assoc-Lawful assoc-Grows log log-memory all_ended.threads
        ⊎ ((t : State assoc) × Step assoc (healthy log) all_ended t))
Steps-turns_example =
    Steps-turns assoc assoc-Lawful assoc-Grows log log-memory 2 files all_ended run

abbrev directory : List DirEntry
directory =
    record { d_name = text "."; regular = some false; copy_memory = true; element_memory = true }
    ∷ record {
      d_name = text "x.log";
      regular = some true;
      copy_memory = true;
      element_memory = true;
    }
    ∷ []

abbrev empty_report : ScanReport assoc
empty_report = record {
  total_served = 0;
  locked = false;
  files = [];
  downloaded_per_url = [];
  referer_count = [];
}

abbrev filled : ScanReport assoc
filled = record {
  total_served = 0;
  locked = false;
  files = text "logs/x.log" ∷ [];
  downloaded_per_url = [];
  referer_count = [];
}

adds : add_files_to_scan assoc true (text "logs") directory empty_report ≡ ended filled true
unfolding add_files_to_scan
adds = refl

abbrev no_memory : System
no_memory = record {
  file = log;
  copy_memory = true;
  map_memory = true;
  merge_memory = λ key. false;
}

abbrev one_url : FileReport assoc
one_url = record { bytes = 10; downloaded_per_url = (text "/a", 10) ∷ []; referer_count = [] }

-- A URL without memory is left out, its bytes are not.
forgets :
    ((update_scan_report assoc (λ key. false) one_url begin.report).0.downloaded_per_url ≡ [])
    × ((update_scan_report assoc (λ key. false) one_url begin.report).0.total_served ≡ 10)
    × ((update_scan_report assoc (λ key. false) one_url begin.report).0.locked ≡ false)
unfolding update_scan_report
forgets = (refl, refl, refl)
