-- ===== src/LogStats/Report/TopTen.antt =====
-- What `process_scan_report` of 10-threads/main.c prints are the ten largest.
use mathlib.Core.List.{Perm}
use mathlib.Core.List
use mathlib.Core.List.Perm
use mathlib.Core.Nat as Unary
use otus_c.Common.{ℕ, zero, suc, ◌*◌, ◌/◌, ◌≤◌, ◌≡◌, ◌≢◌, refl, sym, ap, ◌∙◌, subst, arith}
use otus_c.Common.{Option, some, List, [], ◌∷◌, ◌++◌, ltb, length, take, map, Text, tests}
use otus_c.Common.{drop, Bool-cases, Option-cases, inl, inr, length-take, ltb→le}
use otus_c.LogStats.{HashMap, ScanReport}
use otus_c.LogStats.Report.{
  MapRecord, to_record, signed, compare_map_records, to_array, top_ten, Printed, ten_of,
}
use otus_c.LogStats.Report.{process_scan_report}

-- No two neighbours for which `compare_map_records` says that they should be swapped.
abbrev pub Ordered : List MapRecord → Type 0
Ordered [] = Unit
Ordered (x ∷ []) = Unit
Ordered (x ∷ y ∷ xs) = (compare_map_records x y ≢ 1) × Ordered (y ∷ xs)

-- What the C library says of `qsort` with this order.
pub record Sorts (qsort : List MapRecord → List MapRecord) : Type 0 where
  pub same : (xs : List MapRecord) → Perm (qsort xs) xs
  pub ordered : (xs : List MapRecord) → Ordered (qsort xs)

-- As `intmax_t`, no value is above the given one.
abbrev pub AllAtMost : MapRecord → List MapRecord → Type 0
AllAtMost x [] = Unit
AllAtMost x (y ∷ ys) = (signed y.value ≤ signed x.value) × AllAtMost x ys

abbrev pub Descending : List MapRecord → Type 0
Descending [] = Unit
Descending (x ∷ xs) = AllAtMost x xs × Descending xs

compare-signed : (x y : MapRecord) → compare_map_records x y ≢ 1 → signed y.value ≤ signed x.value
unfolding compare_map_records
compare-signed x y n = elim (Bool-cases (ltb (signed x.value) (signed y.value))) [
  | inl e ↦ absurd (n (rw (e) refl))
  | inr e ↦ ltb→le (signed x.value) (signed y.value) e
]

at_most_trans :
    (x y : MapRecord) (ys : List MapRecord)
    → signed y.value ≤ signed x.value
    → AllAtMost y ys
    → AllAtMost x ys
at_most_trans x y [] l a = tt
at_most_trans x y (z ∷ ys) l a = (omega (arith, l, a.0), at_most_trans x y ys l a.1)

Ordered-Descending : (xs : List MapRecord) → Ordered xs → Descending xs
Ordered-Descending [] o = tt
Ordered-Descending (x ∷ []) o = (tt, tt)
Ordered-Descending (x ∷ y ∷ xs) o =
    let d = Ordered-Descending (y ∷ xs) o.1 in
    let l = compare-signed x y o.0 in ((l, at_most_trans x y xs l d.0), d)

take-drop : (n : ℕ) (xs : List MapRecord) → take n xs ++ drop n xs ≡ xs
take-drop zero xs = refl
take-drop (suc n) [] = refl
take-drop (suc n) (x ∷ xs) = ap (λ l. x ∷ l) (take-drop n xs)

-- Ten of the pairs of the map, none of which is below one that is not among them.
pub record TopTen {M : Type 0} (H : HashMap M) (m : M) (urls : List MapRecord) : Type 0 where
  pub rest : List MapRecord
  pub ten : length urls ≡ 10
  pub same : Perm (urls ++ rest) (to_array (H.pairs m))
  pub descending : Descending (urls ++ rest)

module _ {M : Type 0} (H : HashMap M) (qsort : List MapRecord → List MapRecord)
    (sorts : Sorts qsort) where
  ten_of-TopTen : (m : M) (urls : List MapRecord) → ten_of H qsort m ≡ some urls → TopTen H m urls
  unfolding top_ten
  ten_of-TopTen m urls e =
      let sorted = qsort (to_array (H.pairs m)) in
      elim (Bool-cases (ltb (length sorted) 10)) [
        | inl p ↦ absurd (ground (arith, p, e))
        | inr p ↦
            let q : take 10 sorted ≡ urls = ground (arith, p, e) in
            let whole = take-drop 10 sorted in
            subst (λ urls. TopTen H m urls) q
              (record {
                rest = drop 10 sorted;
                ten = length-take 10 sorted (ltb→le (length sorted) 10 p);
                same =
                    subst (λ l. Perm l (to_array (H.pairs m))) (sym whole)
                      (sorts.same (to_array (H.pairs m)));
                descending =
                    subst Descending (sym whole)
                      (Ordered-Descending sorted (sorts.ordered (to_array (H.pairs m))));
              })
      ]

  -- Where `process_scan_report` prints, and `qsort` does what the C library says, the URLs are ten of
  -- those in the report, from the largest value down, and no other has a larger one; so are the
  -- referers.
  pub process_scan_report-TopTen :
      (r : ScanReport H) (p : Printed)
      → process_scan_report H qsort r ≡ some p
      → TopTen H r.downloaded_per_url p.urls × TopTen H r.referer_count p.referers
  unfolding process_scan_report
  process_scan_report-TopTen r p e = elim (Option-cases (ten_of H qsort r.downloaded_per_url)) [
    | inl a ↦ absurd (ground (arith, a, e))
    | inr (urls, a) ↦ elim (Option-cases (ten_of H qsort r.referer_count)) [
      | inl b ↦ absurd (ground (arith, a, b, e))
      | inr (referers, b) ↦
          let out : Printed = record {
            urls = urls;
            referers = referers;
            megabytes = r.total_served / (1024 * 1024);
          } in
          let e' : process_scan_report H qsort r ≡ some out = rw (process_scan_report, a, b) refl in
          let both : ◌≡◌ {A = Option Printed} (some out) (some p) = sym e' ∙ e in
          let q : out ≡ p = cc in
          (
            subst (λ p. TopTen H r.downloaded_per_url p.urls) q
                (ten_of-TopTen r.downloaded_per_url urls a),
            subst (λ p. TopTen H r.referer_count p.referers) q
                (ten_of-TopTen r.referer_count referers b),
          )
    ]
  ]

abbrev native : Unary.ℕ → ℕ
native Unary.zero = 0
native (Unary.suc n) = suc (native n)

native-length : (xs : List MapRecord) → native (List.length xs) ≡ length xs
native-length [] = refl
native-length (x ∷ xs) = ap suc (native-length xs)

length-Perm : (xs ys : List MapRecord) → Perm xs ys → length xs ≡ length ys
length-Perm xs ys p =
    sym (native-length xs) ∙ (ap native (Perm.length-eq {l₁ = xs} {l₂ = ys} p) ∙ native-length ys)

length-map : (l : List (Text × ℕ)) → length (map to_record l) ≡ length l
length-map [] = refl
length-map (x ∷ l) = ap suc (length-map l)

ten_of-some :
    {M : Type 0} (H : HashMap M) (qsort : List MapRecord → List MapRecord)
    → Sorts qsort
    → (m : M) → 10 ≤ length (H.pairs m)
    → (urls : List MapRecord) × (ten_of H qsort m ≡ some urls)
unfolding top_ten to_array
ten_of-some H qsort sorts m h =
    let sorted = qsort (to_array (H.pairs m)) in
    let e : length sorted ≡ length (H.pairs m) =
      length-Perm sorted (to_array (H.pairs m)) (sorts.same (to_array (H.pairs m)))
      ∙ length-map (H.pairs m) in
    (
      take 10 sorted,
      elim (Bool-cases (ltb (length sorted) 10)) [
        | inl p ↦ absurd (omega (tests, p))
        | inr p ↦ ground (arith, p)
      ],
    )

-- Ten URLs and ten referers are enough for a report.
pub process_scan_report-enough :
    {M : Type 0} (H : HashMap M) (qsort : List MapRecord → List MapRecord) (r : ScanReport H)
    → Sorts qsort
    → 10 ≤ length (H.pairs r.downloaded_per_url)
    → 10 ≤ length (H.pairs r.referer_count)
    → (p : Printed) × (process_scan_report H qsort r ≡ some p)
      × (p.megabytes ≡ r.total_served / (1024 * 1024))
unfolding process_scan_report top_ten to_array
process_scan_report-enough H qsort r sorts h k =
    let ten = ten_of-some H qsort sorts in
    let (urls, p) = ten r.downloaded_per_url h in
    let (referers, q) = ten r.referer_count k in
    (
      record { urls = urls; referers = referers; megabytes = r.total_served / (1024 * 1024) },
      rw (process_scan_report, p, q) refl,
      refl,
    )
