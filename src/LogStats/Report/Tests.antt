-- ===== src/LogStats/Report/Tests.antt =====
-- A report with eleven URLs for 10-threads/main.c, and a sort for it.
use mathlib.Core.List.{Perm}
use mathlib.Core.List.Perm
use otus_c.Common.{
  ℕ, zero, suc, ◌+◌, ◌*◌, ◌≡◌, ◌≢◌, refl, subst, arith, Bool, true, false, Bool-cases, some,
}
use otus_c.Common.{List, [], ◌∷◌, Text, ◌==◌, ==→≢, if◌then◌else◌, inl, inr, take, map}
use otus_c.LogStats.{ScanReport}
use otus_c.LogStats.AssocMap.{assoc}
use otus_c.LogStats.Report.{MapRecord, compare_map_records, process_scan_report, to_record}
use otus_c.LogStats.Report.TopTen.{Ordered, Sorts, TopTen, process_scan_report-TopTen}

abbrev pub insert : MapRecord → List MapRecord → List MapRecord
insert x [] = x ∷ []
insert x (y ∷ ys) =
    let later = y ∷ insert x ys in if compare_map_records x y == 1 then later else x ∷ y ∷ ys

abbrev pub sort : List MapRecord → List MapRecord
sort [] = []
sort (x ∷ xs) = insert x (sort xs)

insert-same : (x : MapRecord) (ys : List MapRecord) → Perm (insert x ys) (x ∷ ys)
insert-same x [] = Perm.refl (x ∷ [])
insert-same x (y ∷ ys) = elim (Bool-cases (compare_map_records x y == 1)) [
  | inl p ↦ rw (p) (Perm.trans (Perm.cons y (insert-same x ys)) (Perm.swap x y ys))
  | inr p ↦ rw (p) (Perm.refl (x ∷ y ∷ ys))
]

sort-same : (xs : List MapRecord) → Perm (sort xs) xs
sort-same [] = Perm.refl []
sort-same (x ∷ xs) = Perm.trans (insert-same x (sort xs)) (Perm.cons x (sort-same xs))

turned : (x y : MapRecord) → (compare_map_records x y == 1) ≡ true → compare_map_records y x ≢ 1
unfolding compare_map_records
turned x y e = λ z. ground (arith, e, z)

insert-Ordered : (x : MapRecord) (ys : List MapRecord) → Ordered ys → Ordered (insert x ys)
insert-Ordered x [] o = tt
insert-Ordered x (y ∷ []) o = elim (Bool-cases (compare_map_records x y == 1)) [
  | inl p ↦ rw (p) (turned x y p, tt)
  | inr p ↦ rw (p) (==→≢ (compare_map_records x y) 1 p, tt)
]
insert-Ordered x (y ∷ z ∷ ys) o = elim (Bool-cases (compare_map_records x y == 1)) [
  | inr p ↦ rw (p) (==→≢ (compare_map_records x y) 1 p, o)
  | inl p ↦
      let later = insert-Ordered x (z ∷ ys) o.1 in
      rw (p) (elim (Bool-cases (compare_map_records x z == 1)) [
        | inl q ↦
            let chosen : Bool → List MapRecord = λ b. if b then z ∷ insert x ys else x ∷ z ∷ ys in
            let later' : Ordered (z ∷ insert x ys) = subst (λ b. Ordered (chosen b)) q later in
            rw (q) (o.0, later')
        | inr q ↦
            let chosen : Bool → List MapRecord = λ b. if b then z ∷ insert x ys else x ∷ z ∷ ys in
            let later' : Ordered (x ∷ z ∷ ys) = subst (λ b. Ordered (chosen b)) q later in
            rw (q) (turned x y p, later')
      ])
]

sort-Ordered : (xs : List MapRecord) → Ordered (sort xs)
sort-Ordered [] = tt
sort-Ordered (x ∷ xs) = insert-Ordered x (sort xs) (sort-Ordered xs)

pub sort-Sorts : Sorts sort
sort-Sorts = record { same = sort-same; ordered = sort-Ordered }

-- Eleven keys with the values 3, 5, 7, ...
abbrev pairs : ℕ → List (Text × ℕ)
pairs zero = []
pairs (suc n) = ((97 + n) ∷ [], 3 + 2 * n) ∷ pairs n

abbrev eleven : ScanReport assoc
eleven = record {
  total_served = 3145728;
  locked = false;
  files = [];
  downloaded_per_url = pairs 11;
  referer_count = pairs 11;
}

abbrev largest : List MapRecord
largest = take 10 (map to_record (pairs 11))

prints :
    process_scan_report assoc sort eleven
    ≡ some (record { urls = largest; referers = largest; megabytes = 3 })
unfolding process_scan_report compare_map_records
prints = refl

process_scan_report-TopTen_example :
    TopTen assoc (pairs 11) largest × TopTen assoc (pairs 11) largest
process_scan_report-TopTen_example =
    process_scan_report-TopTen assoc sort sort-Sorts eleven
      (record { urls = largest; referers = largest; megabytes = 3 }) prints
