-- ===== src/LogStats/AssocMap.antt =====
-- A hash map for the tests of 10-threads/main.c: a list of pairs, the newest value of a key first.
use otus_c.Common.{ℕ, ◌≡◌, refl, arith, true, false, Bool-cases, inl, inr}
use otus_c.Common.{
  Option, none, some, List, [], ◌∷◌, Text, str_eq, str_eq→≡, str_eq_refl, if◌then◌else◌,
}
use otus_c.LogStats.{HashMap}
use otus_c.LogStats.Sums.{Lawful, Grows, amount_of, pairs_amount}

abbrev pub Assoc : Type 0
Assoc = List (Text × ℕ)

abbrev pub find : Assoc → Text → Option ℕ
find [] key = none
find ((k, v) ∷ rest) key = if str_eq k key then some v else find rest key

abbrev pub without : Text → Assoc → Assoc
without key [] = []
without key ((k, v) ∷ rest) = if str_eq key k then without key rest else (k, v) ∷ without key rest

abbrev pub newest : Assoc → List (Text × ℕ)
newest [] = []
newest ((k, v) ∷ rest) = (k, v) ∷ without k (newest rest)

abbrev pub assoc : HashMap Assoc
assoc = record {
  empty = [];
  get = find;
  put = λ key n m. some ((key, n) ∷ m);
  write = λ key n m. (key, n) ∷ m;
  pairs = newest;
}

pub assoc-Grows : Grows assoc
assoc-Grows key n m = ((key, n) ∷ m, refl)

without_self : (key j : Text) (m : Assoc) → str_eq key j ≡ true → pairs_amount j (without key m) ≡ 0
without_self key j [] e = refl
without_self key j ((k, v) ∷ m) e = elim (Bool-cases (str_eq key k)) [
  | inl f ↦ rw (f) (without_self key j m e)
  | inr f ↦ elim (Bool-cases (str_eq k j)) [
    | inl g ↦ let t : str_eq key k ≡ true = rw (str_eq→≡ k j g) e in absurd (ground (arith, t, f))
    | inr g ↦ ground (arith, f, g, without_self key j m e)
  ]
]

without_other :
    (key j : Text) (m : Assoc)
    → str_eq key j ≡ false
    → pairs_amount j (without key m) ≡ pairs_amount j m
without_other key j [] e = refl
without_other key j ((k, v) ∷ m) e = elim (Bool-cases (str_eq key k)) [
  | inr f ↦ ground (arith, f, without_other key j m e)
  | inl f ↦
      let t : str_eq k j ≡ false = rw (← str_eq→≡ key k f) e in
      ground (arith, f, t, without_other key j m e)
]

newest-amount : (m : Assoc) (key : Text) → pairs_amount key (newest m) ≡ amount_of (find m key)
newest-amount [] key = refl
newest-amount ((k, v) ∷ m) key = elim (Bool-cases (str_eq k key)) [
  | inl e ↦ ground (arith, e, without_self k key (newest m) e)
  | inr e ↦ ground (arith, e, without_other k key (newest m) e, newest-amount m key)
]

pub assoc-Lawful : Lawful assoc
assoc-Lawful = record {
  get_empty = λ key. refl;
  get_put = λ key n m m' e. let p : (key, n) ∷ m ≡ m' = cc in rw (← p, str_eq_refl key) refl;
  get_put_other = λ key j n m m' f e. let p : (key, n) ∷ m ≡ m' = cc in rw (← p, f) refl;
  get_write = λ key n v m e. rw (str_eq_refl key) refl;
  get_write_other = λ key j n m f. rw (f) refl;
  pairs_get = newest-amount;
}
