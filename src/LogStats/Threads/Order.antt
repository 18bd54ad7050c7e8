-- ===== src/LogStats/Threads/Order.antt =====
-- The threads of 10-threads/main.c come to an end, whichever takes its turn; and merging never keeps
-- the mutex.
use otus_c.Common.{ℕ, zero, suc, ◌+◌, ◌≡◌, refl, ap, arith}
use otus_c.Common.{Bool, true, false, Option, some, inl, inr, List, [], ◌∷◌, Text, get_elem?, set}
use otus_c.Common.{length, replicate, ◌⊎◌}
use otus_c.Common.{Option-cases}
use otus_c.LogStats.{bump, merge_maps_call}
use otus_c.LogStats.{HashMap, Round, FileReport, ScanReport, update_scan_report, merge_maps}
use otus_c.LogStats.Sums.{Lawful, Grows, OpenedMemory, Count}
use otus_c.LogStats.Threads.{Thread, ready, scanning, finished, thread_step, State, Step, turn}
use otus_c.LogStats.Threads.{Steps, done, next, IsFinished}
use otus_c.LogStats.Threads.Turns.{alive, healthy, thread_step-Kept, files_count}
use otus_c.LogStats.Threads.Conserve.{start, AllFinished, IsFair}
use otus_c.LogStats.Threads.Conserve.{Steps-IsFair, Step-IsFair, start-IsFair}

module _ {M : Type 0} (H : HashMap M) (lawful : Lawful H) (grows : Grows H)
    (file : Text → Option (List Round))
    (memory : (f : Text) → OpenedMemory H lawful grows (file f)) where
  abbrev all_alive : List (Thread H) → ℕ
  all_alive [] = 0
  all_alive (t ∷ ts) = alive H lawful grows file memory t + all_alive ts

  -- The turns that are left: one for each file, and one for each thread that has not ended.
  abbrev pub turns_left : State H → ℕ
  turns_left s = length s.report.files + all_alive s.threads

  abbrev pub turns : {s t : State H} → Steps H (healthy file) s t → ℕ
  turns (done s) = 0
  turns (next a r) = suc (turns r)

  all_alive-set :
      (ts : List (Thread H)) (i : ℕ) (t t' : Thread H)
      → get_elem? ts i ≡ some t
      → all_alive (set ts i t') + alive H lawful grows file memory t
        ≡ all_alive ts + alive H lawful grows file memory t'
  all_alive-set [] i t t' e = absurd (ground (arith, e))
  all_alive-set (x ∷ ts) zero t t' e =
      let p : x ≡ t = cc in omega (arith, ap (alive H lawful grows file memory) p)
  all_alive-set (x ∷ ts) (suc i) t t' e = omega (arith, all_alive-set ts i t t' e)

  Step-turns_left :
      (s t : State H)
      → s.report.locked ≡ false
      → Step H (healthy file) s t
      → turns_left t + 1 ≡ turns_left s
  Step-turns_left s t u (turn _ i x e nf l) =
      let k = thread_step-Kept H lawful grows file memory x s.report nf l in
      let o = thread_step H (healthy file) x s.report in
      omega (arith, k.one_less, all_alive-set s.threads i x o.0 e)

  Steps-turns_left :
      (w : ℕ) (n : Count → ℕ) (s t : State H) (r : Steps H (healthy file) s t)
      → IsFair H lawful grows file memory w n s
      → turns r + turns_left t ≡ turns_left s
  Steps-turns_left w n s t (done _) v = omega arith
  Steps-turns_left w n s t (next {t = u} a r) v =
      let v' = Step-IsFair H lawful grows file memory w n s u a v in
      omega (arith, Steps-turns_left w n u t r v', Step-turns_left s u v.unlocked a)

  ready_alive : (w : ℕ) → all_alive (replicate w ready) ≡ w
  ready_alive zero = refl
  ready_alive (suc w) = omega (arith, ready_alive w)

  -- A thread that may go on, if not all have ended.
  waiting :
      (ts : List (Thread H))
      → AllFinished H lawful grows file memory ts
        ⊎ ((i : ℕ) × (t : Thread H) × (get_elem? ts i ≡ some t) × (¬ IsFinished H t))
  waiting [] = inl tt
  waiting (ready ∷ ts) = inr (0, ready, refl, λ z. z)
  waiting (scanning r ∷ ts) = inr (0, scanning r, refl, λ z. z)
  waiting (finished ok ∷ ts) = elim (waiting ts) [
    | inl h ↦ inl (tt, h)
    | inr (i, t, e, n) ↦ inr (suc i, t, e, n)
  ]

  -- With memory for everything: a state that is reached after any turns has as many left as there
  -- were files and threads, less those taken; and either all threads have ended, or one can go on.
  -- So every order of turns ends, with no thread waiting for ever.
  pub Steps-turns :
      (w : ℕ) (files : List Text) (s : State H)
      → (r : Steps H (healthy file) (start H lawful grows file memory w files) s)
      → (turns r + turns_left s ≡ length files + w)
        × (AllFinished H lawful grows file memory s.threads
            ⊎ ((t : State H) × Step H (healthy file) s t))
  Steps-turns w files s r =
      let begin = start H lawful grows file memory w files in
      let n : Count → ℕ = λ c. files_count H lawful grows file memory c files in
      let fair = start-IsFair H lawful grows file memory w files in
      let v = Steps-IsFair H lawful grows file memory w n begin s r fair in
      (
        omega (arith, Steps-turns_left w n begin s r fair, ready_alive w),
        elim (waiting s.threads) [
          | inl h ↦ inl h
          | inr (i, t, e, nf) ↦ inr (
            record {
              report = (thread_step H (healthy file) t s.report).1;
              threads = set s.threads i (thread_step H (healthy file) t s.report).0;
            },
            turn s i t e nf v.unlocked,
          )
        ],
      )

merge_maps-succeeds :
    {M : Type 0} (H : HashMap M) (m : Text → Bool) (pairs : List (Text × ℕ)) (dest : M)
    → (merge_maps H m pairs dest).1 ≡ true
unfolding merge_maps merge_maps_call
merge_maps-succeeds H m [] dest = refl
merge_maps-succeeds H m ((key, value) ∷ rest) dest =
    let next = (merge_maps_call H (m key) key value dest).0 in
    elim (Option-cases (bump H (m key) key value dest)) [
      | inl e ↦ rw (merge_maps, e) (merge_maps-succeeds H m rest next)
      | inr (d, e) ↦ rw (merge_maps, e) (merge_maps-succeeds H m rest next)
    ]

-- Merging never fails, whatever memory there is: `update_scan_report` ends with the mutex released.
update_scan_report-unlocks :
    {M : Type 0} (H : HashMap M) (m : Text → Bool) (r : FileReport H) (report : ScanReport H)
    → ((update_scan_report H m r report).0.locked ≡ false)
      × ((update_scan_report H m r report).1 ≡ true)
unfolding update_scan_report
update_scan_report-unlocks H m r report =
    let p = merge_maps-succeeds H m (H.pairs r.downloaded_per_url) report.downloaded_per_url in
    let q = merge_maps-succeeds H m (H.pairs r.referer_count) report.referer_count in
    rw (p, q) (refl, refl)
