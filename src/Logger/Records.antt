-- ===== src/Logger/Records.antt =====
-- The file of 7-logger/logger/logger.c: the records of different threads do not mix.
use otus_c.Common.{ℕ, ◌≡◌, ◌≢◌, ◌⊎◌, refl, sym, ap, ◌∙◌, subst, arith, false, Bool-cases}
use otus_c.Common.{none, some, List, [], ◌∷◌, ◌++◌, append_assoc, append-nil, inl, inr}
use otus_c.Common.{◌==◌, ==→≡, ==→≢, ==_refl, Text}
use otus_c.Logger.{Phase, outside, inside, State, change, Step, lock, write}
use otus_c.Logger.{unlock, Steps, done, next}

abbrev pub join : List Text → Text
join [] = []
join (t ∷ ts) = t ++ join ts

-- What the calls of an execution write, in the order in which they take the mutex.
abbrev step_text : {s t : State} → Step s t → Text
step_text (lock s i c ts ok p q e) = join ts
step_text (write s i t ts p) = []
step_text (unlock s i p) = []

abbrev pub entered : {s t : State} → Steps s t → Text
entered (done s) = []
entered (next a r) = step_text a ++ entered r

-- Only the holder of the mutex is inside; the file and what the holder has yet to write are `all`.
pub record IsWhole (all : Text) (s : State) : Type 0 where
  pub owned : (i : ℕ) (ts : List Text) → s.phase i ≡ inside ts → s.owner ≡ some i
  pub pending : (i : ℕ) (ts : List Text) → s.phase i ≡ inside ts → s.file ++ join ts ≡ all
  pub idle : s.owner ≡ none → s.file ≡ all

inside_same : (ts us : List Text) → inside ts ≡ inside us → ts ≡ us
inside_same ts us e = cc

some_same : (i j : ℕ) → some i ≡ some j → i ≡ j
some_same i j e = cc

not_outside : (ts : List Text) → outside ≢ inside ts
not_outside ts = λ z. ground (arith, z)

not_none : (i : ℕ) → some i ≢ none
not_none i = λ z. ground (arith, z)

change_self : (i : ℕ) (x : Phase) (phase : ℕ → Phase) → change i x phase i ≡ x
change_self i x phase = rw (==_refl i) refl

change_other :
    (i j : ℕ) (x : Phase) (phase : ℕ → Phase) → (j == i) ≡ false → change i x phase j ≡ phase j
change_other i j x phase e = rw (e) refl

-- What a changed thread does: the thread itself, or another that is as before.
changed :
    (i j : ℕ) (x y : Phase) (phase : ℕ → Phase)
    → change i x phase j ≡ y
    → ((j ≡ i) × (x ≡ y)) ⊎ (((j == i) ≡ false) × (phase j ≡ y))
changed i j x y phase e = elim (Bool-cases (j == i)) [
  | inl q ↦ inl (==→≡ j i q, ground (arith, q, e))
  | inr q ↦ inr (q, ground (arith, q, e))
]

abbrev pub start : Text → State
start file = record { file = file; owner = none; phase = λ i. outside }

start-IsWhole : (file : Text) → IsWhole file (start file)
start-IsWhole file = record {
  owned = λ i ts e. absurd (not_outside ts e);
  pending = λ i ts e. absurd (not_outside ts e);
  idle = λ e. refl;
}

lock-IsWhole :
    (all : Text) (s : State) (i : ℕ) (ts : List Text)
    → s.owner ≡ none
    → IsWhole all s
    → IsWhole (all ++ join ts) (record s { owner = some i; phase = change i (inside ts) s.phase })
lock-IsWhole all s i ts q v =
    let none_inside : (j : ℕ) (us : List Text) → s.phase j ≢ inside us =
      λ j us e. not_none j (sym (v.owned j us e) ∙ q) in
    record {
      owned = λ j us e. elim (changed i j (inside ts) (inside us) s.phase e) [
        | inl (z, y) ↦ ap some (sym z)
        | inr (z, y) ↦ absurd (none_inside j us y)
      ];
      pending = λ j us e. elim (changed i j (inside ts) (inside us) s.phase e) [
        | inl (z, y) ↦
            subst (λ us. s.file ++ join us ≡ all ++ join ts) (inside_same ts us y)
              (ap (λ l. l ++ join ts) (v.idle q))
        | inr (z, y) ↦ absurd (none_inside j us y)
      ];
      idle = λ e. absurd (not_none i e);
    }

write-IsWhole :
    (all : Text) (s : State) (i : ℕ) (x : Text) (ts : List Text)
    → s.phase i ≡ inside (x ∷ ts)
    → IsWhole all s
    → IsWhole all (record s { file = s.file ++ x; phase = change i (inside ts) s.phase })
write-IsWhole all s i x ts p v =
    let mine = v.owned i (x ∷ ts) p in
    let alone : (j : ℕ) (us : List Text) → (j == i) ≡ false → s.phase j ≢ inside us =
      λ j us z e. ==→≢ j i z (some_same j i (sym (v.owned j us e) ∙ mine)) in
    record {
      owned = λ j us e. elim (changed i j (inside ts) (inside us) s.phase e) [
        | inl (z, y) ↦ mine ∙ ap some (sym z)
        | inr (z, y) ↦ absurd (alone j us z y)
      ];
      pending = λ j us e. elim (changed i j (inside ts) (inside us) s.phase e) [
        | inl (z, y) ↦
            subst (λ us. (s.file ++ x) ++ join us ≡ all) (inside_same ts us y)
              (append_assoc s.file x (join ts) ∙ v.pending i (x ∷ ts) p)
        | inr (z, y) ↦ absurd (alone j us z y)
      ];
      idle = λ e. absurd (not_none i (sym mine ∙ e));
    }

unlock-IsWhole :
    (all : Text) (s : State) (i : ℕ)
    → s.phase i ≡ inside []
    → IsWhole all s
    → IsWhole all (record s { owner = none; phase = change i outside s.phase })
unlock-IsWhole all s i p v =
    let mine = v.owned i [] p in
    let none_inside : (j : ℕ) (us : List Text) → change i outside s.phase j ≢ inside us = λ j us e.
      elim (changed i j outside (inside us) s.phase e) [
        | inl (z, y) ↦ not_outside us y
        | inr (z, y) ↦ ==→≢ j i z (some_same j i (sym (v.owned j us y) ∙ mine))
      ] in
    record {
      owned = λ j us e. absurd (none_inside j us e);
      pending = λ j us e. absurd (none_inside j us e);
      idle = λ e. sym (append-nil s.file) ∙ v.pending i [] p;
    }

Step-IsWhole :
    (all : Text) (s t : State) (a : Step s t) → IsWhole all s → IsWhole (all ++ step_text a) t
Step-IsWhole all s t (lock _ i c ts ok p q e) v = lock-IsWhole all s i ts q v
Step-IsWhole all s t (write _ i x ts p) v =
    subst (λ l. IsWhole l t) (sym (append-nil all)) (write-IsWhole all s i x ts p v)
Step-IsWhole all s t (unlock _ i p) v =
    subst (λ l. IsWhole l t) (sym (append-nil all)) (unlock-IsWhole all s i p v)

Steps-IsWhole :
    (all : Text) (s t : State) (r : Steps s t) → IsWhole all s → IsWhole (all ++ entered r) t
Steps-IsWhole all s t (done _) v = subst (λ l. IsWhole l s) (sym (append-nil all)) v
Steps-IsWhole all s t (next {t = u} a r) v =
    subst (λ l. IsWhole l t) (append_assoc all (step_text a) (entered r))
      (Steps-IsWhole (all ++ step_text a) u t r (Step-IsWhole all s u a v))

-- However the writes of the threads are ordered: while the mutex is free, the file is what it was at
-- the start and then the whole text of each call, in the order in which they took the mutex; and no
-- thread is inside that does not hold it.
pub Steps-file :
    (file : Text) (s : State) (r : Steps (start file) s)
    → s.owner ≡ none
    → (s.file ≡ file ++ entered r) × ((i : ℕ) (ts : List Text) → s.phase i ≢ inside ts)
Steps-file file s r free =
    let v = Steps-IsWhole file (start file) s r (start-IsWhole file) in
    (v.idle free, λ i ts e. not_none i (sym (v.owned i ts e) ∙ free))
