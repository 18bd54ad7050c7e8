-- ===== src/LogStats/Threads/Conserve.antt =====
-- The threads of 10-threads/main.c lose nothing and count nothing twice, in whatever order they run.
use otus_c.Common.{ℕ, zero, suc, ◌+◌, ◌<◌, ◌≡◌, refl, ap, ◌∙◌, arith}
use otus_c.Common.{Bool, false, Option, some, inl, inr, List, [], ◌∷◌, Text, get_elem?, set}
use otus_c.Common.{length, length-set, length-replicate, replicate, ◌⊎◌}
use otus_c.LogStats.{HashMap, Round}
use otus_c.LogStats.Sums.{Lawful, Grows, Same64, Count, served, url, referer, report_count}
use otus_c.LogStats.Sums.{OpenedMemory}
use otus_c.LogStats.Threads.{Thread, ready, scanning, finished, thread_step, State}
use otus_c.LogStats.Threads.{Step, turn, Steps, done, next, IsFinished}
use otus_c.LogStats.Threads.Turns.{healthy, files_count, held, in_report, thread_step-Kept}

module _ {M : Type 0} (H : HashMap M) (lawful : Lawful H) (grows : Grows H)
    (file : Text → Option (List Round))
    (memory : (f : Text) → OpenedMemory H lawful grows (file f)) where
  abbrev all_held : Count → List (Thread H) → ℕ
  all_held c [] = 0
  all_held c (t ∷ ts) = held H lawful grows file memory c t + all_held c ts

  -- What all hold together.
  abbrev state_count : Count → State H → ℕ
  state_count c s = in_report H lawful grows file memory c s.report + all_held c s.threads

  -- Nothing got lost from a count `n`, the mutex is free between two turns, and no thread has ended
  -- while there were files.
  pub record IsFair (w : ℕ) (n : Count → ℕ) (s : State H) : Type 0 where
    pub number : length s.threads ≡ w
    pub counts : (c : Count) → Same64 (state_count c s) (n c)
    pub unlocked : s.report.locked ≡ false
    pub ends :
        (i : ℕ) (ok : Bool) → get_elem? s.threads i ≡ some (finished ok) → s.report.files ≡ []

  all_held-set :
      (c : Count) (ts : List (Thread H)) (i : ℕ) (t t' : Thread H)
      → get_elem? ts i ≡ some t
      → all_held c (set ts i t') + held H lawful grows file memory c t
        ≡ all_held c ts + held H lawful grows file memory c t'
  all_held-set c [] i t t' e = absurd (ground (arith, e))
  all_held-set c (x ∷ ts) zero t t' e =
      let p : x ≡ t = cc in omega (arith, ap (held H lawful grows file memory c) p)
  all_held-set c (x ∷ ts) (suc i) t t' e = omega (arith, all_held-set c ts i t t' e)

  get-set :
      (ts : List (Thread H)) (i j : ℕ) (t : Thread H) (u : Thread H)
      → get_elem? (set ts i t) j ≡ some u
      → (t ≡ u) ⊎ (get_elem? ts j ≡ some u)
  get-set [] i j t u e = inr e
  get-set (x ∷ ts) zero zero t u e = inl cc
  get-set (x ∷ ts) zero (suc j) t u e = inr e
  get-set (x ∷ ts) (suc i) zero t u e = inr e
  get-set (x ∷ ts) (suc i) (suc j) t u e = get-set ts i j t u e

  pub Step-IsFair :
      (w : ℕ) (n : Count → ℕ) (s t : State H)
      → Step H (healthy file) s t
      → IsFair w n s
      → IsFair w n t
  Step-IsFair w n s t (turn _ i x e nf l) v =
      let k = thread_step-Kept H lawful grows file memory x s.report nf l in
      let o = thread_step H (healthy file) x s.report in
      record {
        number = length-set s.threads i o.0 ∙ v.number;
        counts = λ c. omega (arith, k.counts c, all_held-set c s.threads i x o.0 e, v.counts c);
        unlocked = k.unlocked;
        ends = λ j ok q. elim (get-set s.threads i j o.0 (finished ok) q) [
          | inl p ↦ k.ends ok p
          | inr p ↦ k.stays_empty (v.ends j ok p)
        ];
      }

  pub Steps-IsFair :
      (w : ℕ) (n : Count → ℕ) (s t : State H)
      → Steps H (healthy file) s t
      → IsFair w n s
      → IsFair w n t
  Steps-IsFair w n s t (done _) v = v
  Steps-IsFair w n s t (next {t = u} a r) v = Steps-IsFair w n u t r (Step-IsFair w n s u a v)

  abbrev pub start : ℕ → List Text → State H
  start w files = record {
    report = record {
      total_served = 0;
      locked = false;
      files = files;
      downloaded_per_url = H.empty;
      referer_count = H.empty;
    };
    threads = replicate w ready;
  }

  ready_held : (c : Count) (w : ℕ) → all_held c (replicate w ready) ≡ 0
  ready_held c zero = refl
  ready_held c (suc w) = omega (arith, ready_held c w)

  still_ready :
      (w i : ℕ) (ok : Bool)
      → ¬ (get_elem? (replicate {A = Thread H} w ready) i ≡ some (finished ok))
  still_ready zero i ok e = ground (arith, e)
  still_ready (suc w) zero ok e = ground (arith, e)
  still_ready (suc w) (suc i) ok e = still_ready w i ok e

  empty_report :
      (c : Count) (w : ℕ) (files : List Text)
      → report_count H lawful grows c (start w files).report ≡ 0
  empty_report served w files = refl
  empty_report (url j) w files = rw (lawful.get_empty j) refl
  empty_report (referer j) w files = rw (lawful.get_empty j) refl

  pub start-IsFair :
      (w : ℕ) (files : List Text)
      → IsFair w (λ c. files_count H lawful grows file memory c files) (start w files)
  start-IsFair w files = record {
    number = length-replicate w ready;
    counts = λ c. omega (arith, empty_report c w files, ready_held c w);
    unlocked = refl;
    ends = λ i ok e. absurd (still_ready w i ok e);
  }

  abbrev pub AllFinished : List (Thread H) → Type 0
  AllFinished [] = Unit
  AllFinished (t ∷ ts) = IsFinished H t × AllFinished ts

  finished_held : (c : Count) (ts : List (Thread H)) → AllFinished ts → all_held c ts ≡ 0
  finished_held c [] h = refl
  finished_held c (ready ∷ ts) h = absurd h.0
  finished_held c (scanning r ∷ ts) h = absurd h.0
  finished_held c (finished ok ∷ ts) h = omega (arith, finished_held c ts h.1)

  first_finished :
      (ts : List (Thread H))
      → AllFinished ts
      → 0 < length ts
      → (ok : Bool) × (get_elem? ts 0 ≡ some (finished ok))
  first_finished [] h p = absurd (omega arith)
  first_finished (ready ∷ ts) h p = absurd h.0
  first_finished (scanning r ∷ ts) h p = absurd h.0
  first_finished (finished ok ∷ ts) h p = (ok, refl)

  -- However the turns of one or more threads are ordered, with memory for everything: when all have
  -- ended, no file is left, and the report holds, as `intmax_t`, the bytes served, those of each URL
  -- and the requests of each referer, over the lines of all files that could be parsed.
  pub Steps-count :
      (w : ℕ) (files : List Text) (s : State H) (c : Count)
      → 0 < w
      → Steps H (healthy file) (start w files) s
      → AllFinished s.threads
      → (s.report.files ≡ [])
        × Same64
            (report_count H lawful grows c s.report)
            (files_count H lawful grows file memory c files)
  Steps-count w files s c p r h =
      let n : Count → ℕ = λ c. files_count H lawful grows file memory c files in
      let v = Steps-IsFair w n (start w files) s r (start-IsFair w files) in
      let (ok, q) = first_finished s.threads h (omega (arith, v.number)) in
      let none_left = v.ends 0 ok q in
      (
        none_left,
        omega (
          arith,
          v.counts c,
          finished_held c s.threads h,
          ap (files_count H lawful grows file memory c) none_left,
        ),
      )
