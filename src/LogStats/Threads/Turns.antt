-- ===== src/LogStats/Threads/Turns.antt =====
-- What one turn of a thread of 10-threads/main.c does to the counts.
use otus_c.Common.{ℕ, ◌+◌, ◌≡◌, refl, sym, ap, ◌∙◌, subst, arith, List-cases}
use otus_c.Common.{Bool, true, false, Option, none, some, inl, inr, List, [], ◌∷◌, Text}
use otus_c.Common.{length, Bool-cases, if◌then◌else◌}
use otus_c.LogStats.{HashMap, Round, FileReport, ScanReport, scan_file, update_scan_report}
use otus_c.LogStats.{get_next_file_to_scan}
use otus_c.LogStats.Sums.{
  Lawful, Grows, Same64, Count, served, url, referer, thread_count, report_count,
}
use otus_c.LogStats.Sums.{opened_count, OpenedMemory, scan_file-count, update_scan_report-count}
use otus_c.LogStats.Threads.{System, Thread, ready, scanning, finished, fresh, thread_step}
use otus_c.LogStats.Threads.{IsFinished, first_file, next_file, merged}

-- There is memory for everything.
abbrev pub healthy : (Text → Option (List Round)) → System
healthy file = record {
  file = file;
  copy_memory = true;
  map_memory = true;
  merge_memory = λ key. true;
}

module _ {M : Type 0} (H : HashMap M) (lawful : Lawful H) (grows : Grows H)
    (file : Text → Option (List Round))
    (memory : (f : Text) → OpenedMemory H lawful grows (file f)) where
  -- What the files and a thread hold of a count.
  abbrev pub files_count : Count → List Text → ℕ
  files_count c [] = 0
  files_count c (f ∷ fs) = opened_count H lawful grows c (file f) + files_count c fs

  abbrev pub held : Count → Thread H → ℕ
  held c ready = 0
  held c (scanning r) = thread_count H lawful grows c r
  held c (finished ok) = 0

  -- A thread that has not ended.
  abbrev pub alive : Thread H → ℕ
  alive ready = 1
  alive (scanning r) = 1
  alive (finished ok) = 0

  abbrev pub in_report : Count → ScanReport H → ℕ
  in_report c report = report_count H lawful grows c report + files_count c report.files

  fresh_count : (c : Count) → thread_count H lawful grows c (fresh H) ≡ 0
  fresh_count served = refl
  fresh_count (url j) = rw (lawful.get_empty j) refl
  fresh_count (referer j) = rw (lawful.get_empty j) refl

  -- What a turn does to the counts, the mutex and the files: a file or a thread is less.
  pub record Kept (t : Thread H) (report : ScanReport H) (out : Thread H × ScanReport H)
      : Type 0 where
    pub counts :
        (c : Count) → Same64 (held c out.0 + in_report c out.1) (held c t + in_report c report)
    pub one_less : length out.1.files + alive out.0 + 1 ≡ length report.files + alive t
    pub unlocked : out.1.locked ≡ false
    pub ends : (ok : Bool) → out.0 ≡ finished ok → out.1.files ≡ []
    pub stays_empty : report.files ≡ [] → out.1.files ≡ []

  report_files :
      (c : Count) (report : ScanReport H) (fs : List Text)
      → report_count H lawful grows c (record report { files = fs })
        ≡ report_count H lawful grows c report
  report_files served report fs = refl
  report_files (url j) report fs = refl
  report_files (referer j) report fs = refl

  scan_more :
      (f : Text) (fs : List Text) (r : FileReport H) (t : Thread H) (report : ScanReport H)
      → report.files ≡ f ∷ fs
      → report.locked ≡ false
      → ((c : Count) → held c t ≡ thread_count H lawful grows c r)
      → alive t ≡ 1
      → Kept t report (scanning (scan_file H (file f) r).0, record report { files = fs })
  scan_more f fs r t report e l h a = record {
    one_less = omega (arith, ap length e, a);
    counts = λ c. omega (
      arith,
      scan_file-count H lawful grows (file f) r c (memory f),
      h c,
      report_files c report fs,
      ap (files_count c) e,
    );
    unlocked = l;
    ends = λ ok q. absurd (ground (arith, q));
    stays_empty = λ q. absurd (ground (arith, e, q));
  }

  at_end :
      (r : FileReport H) (report : ScanReport H)
      → report.files ≡ []
      → Kept (scanning r) report (merged H (update_scan_report H (λ key. true) r report))
  at_end r report e =
      let (report', q, u, same, f) = update_scan_report-count H lawful grows r report in
      rw (q) (record {
        one_less = omega (arith, ap length same, ap length e);
        counts = λ c. omega (arith, f c, ap (files_count c) same);
        unlocked = u;
        ends = λ ok z. same ∙ e;
        stays_empty = λ z. same ∙ e;
      })

  no_file :
      (report : ScanReport H)
      → report.files ≡ []
      → get_next_file_to_scan H true report ≡ (report, none)
  unfolding get_next_file_to_scan
  no_file report e = ground (arith, e)

  a_file :
      (f : Text) (fs : List Text) (report : ScanReport H)
      → report.files ≡ f ∷ fs
      → get_next_file_to_scan H true report ≡ (record report { files = fs }, some f)
  unfolding get_next_file_to_scan
  a_file f fs report e = ground (arith, e)

  waits-Kept :
      (r : FileReport H) (report : ScanReport H)
      → report.locked ≡ false
      → report.files ≡ []
      → Kept (scanning r) report (next_file H (healthy file) r (report, none))
  unfolding next_file
  waits-Kept r report l e = elim (Bool-cases report.locked) [
    | inl q ↦ absurd (ground (arith, l, q))
    | inr q ↦
        subst
          (λ b. Kept (scanning r) report (
            if b
            then (scanning r, report)
            else merged H (update_scan_report H (λ key. true) r report)))
          (sym q) (at_end r report e)
  ]

  pub thread_step-Kept :
      (t : Thread H) (report : ScanReport H)
      → ¬ IsFinished H t
      → report.locked ≡ false
      → Kept t report (thread_step H (healthy file) t report)
  unfolding thread_step first_file next_file
  thread_step-Kept (finished ok) report n l = absurd (n tt)
  thread_step-Kept ready report n l = elim (List-cases report.files) [
    | inl e ↦
        subst (λ o. Kept ready report (first_file H (healthy file) o)) (sym (no_file report e))
          (record {
            one_less = omega (arith, ap length e);
            counts = λ c. omega arith;
            unlocked = l;
            ends = λ ok z. e;
            stays_empty = λ z. e;
          })
    | inr (f, fs, e) ↦
        subst (λ o. Kept ready report (first_file H (healthy file) o)) (sym (a_file f fs report e))
          (scan_more f fs (fresh H) ready report e l (λ c. sym (fresh_count c)) refl)
  ]
  thread_step-Kept (scanning r) report n l = elim (List-cases report.files) [
    | inl e ↦
        subst (λ o. Kept (scanning r) report (next_file H (healthy file) r o))
          (sym (no_file report e)) (waits-Kept r report l e)
    | inr (f, fs, e) ↦
        subst (λ o. Kept (scanning r) report (next_file H (healthy file) r o))
          (sym (a_file f fs report e)) (scan_more f fs r (scanning r) report e l (λ c. refl) refl)
  ]
