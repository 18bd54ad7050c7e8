-- ===== src/LogStats/Threads.antt =====
-- The threads of 10-threads/main.c: `thread_func` cut at each place where it takes the mutex, and
-- their interleaving. The turn that finds no file also merges: the stack that is empty stays so, so
-- what others do between the two takings of the mutex is the same as if they had done it before.
pub mod Turns
pub mod Conserve
pub mod Order
use otus_c.Common.{ℕ, zero, suc, ◌+◌, ◌≡◌, Bool, true, false, Option, none, some, List, [], ◌∷◌}
use otus_c.Common.{Text, get_elem?, set, if◌then◌else◌, replicate}
use otus_c.LogStats.{HashMap, Round, FileReport, ScanReport, scan_file, update_scan_report}
use otus_c.LogStats.{get_next_file_to_scan}

-- What the system gives the threads: what each file has, if it opens, and where there is memory.
pub record System : Type 0 where
  pub file : Text → Option (List Round)
  pub copy_memory : Bool
  pub map_memory : Bool
  pub merge_memory : Text → Bool

module _ {M : Type 0} (H : HashMap M) where
  -- A thread before its first file, between two files, and at its end.
  pub data Thread : Type 0 where
    ready : Thread
    scanning : FileReport H → Thread
    finished : Bool → Thread

  abbrev pub fresh : FileReport H
  fresh = record { bytes = 0; downloaded_per_url = H.empty; referer_count = H.empty }

  abbrev pub merged : ScanReport H × Bool → Thread × ScanReport H
  merged (report, ok) = (finished ok, report)

  -- Behind the first call of `get_next_file_to_scan`.
  pub first_file : System → ScanReport H × Option Text → Thread × ScanReport H
  unfolding scan_file
  first_file k (report, none) = (finished true, report)
  first_file k (report, some filename) =
      if k.map_memory
      then (scanning (scan_file H (k.file filename) fresh).0, report)
      else (finished false, report)

  -- Behind the later ones: the next file, or the end; where the mutex is still taken, the thread
  -- waits for it for ever.
  pub next_file : System → FileReport H → ScanReport H × Option Text → Thread × ScanReport H
  unfolding scan_file update_scan_report
  next_file k r (report, none) =
      if report.locked
      then (scanning r, report)
      else merged (update_scan_report H k.merge_memory r report)
  next_file k r (report, some filename) = (scanning (scan_file H (k.file filename) r).0, report)

  unfoldable pub thread_step : System → Thread → ScanReport H → Thread × ScanReport H
  unfolding first_file next_file get_next_file_to_scan
  thread_step k ready report = first_file k (get_next_file_to_scan H k.copy_memory report)
  thread_step k (scanning r) report = next_file k r (get_next_file_to_scan H k.copy_memory report)
  thread_step k (finished ok) report = (finished ok, report)

  pub record State : Type 0 where
    pub report : ScanReport H
    pub threads : List Thread

  abbrev pub IsFinished : Thread → Type 0
  IsFinished (finished ok) = Unit
  IsFinished ready = ⊥
  IsFinished (scanning r) = ⊥

  -- Any thread that has not ended may go on while the mutex is free.
  pub data Step (k : System) : State → State → Type 0 where
    turn :
        (s : State) (i : ℕ) (t : Thread)
        → get_elem? s.threads i ≡ some t
        → ¬ IsFinished t
        → s.report.locked ≡ false
        → Step k s (record {
          report = (thread_step k t s.report).1;
          threads = set s.threads i (thread_step k t s.report).0;
        })

  pub data Steps (k : System) : State → State → Type 0 where
    done : (s : State) → Steps k s s
    next : {s t u : State} → Step k s t → Steps k t u → Steps k s u
