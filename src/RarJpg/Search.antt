-- ===== src/RarJpg/Search.antt =====
-- The search of 1-rarjpeg/main.c for the end of central directory record, and the kinds of files.
use otus_c.Common.{ℕ, zero, suc, ◌+◌, ◌-◌, ◌≤◌, ◌<◌, ◌≡◌, refl, Option, none, some}
use otus_c.Common.{List, length, ◌==◌, ==→≡, ==→≢, Bool-cases, inl, inr, arith}
use otus_c.Common.{subst, ◌⊎◌, ltb, leb, ltb→lt, ltb→le}
use otus_c.RarJpg.{eocdr_signature, le_value, bytes_at, search_eocdr, eocdr_offset}

-- The signature stands at an offset.
abbrev pub Signed : List ℕ → ℕ → Type 0
Signed file i = le_value (bytes_at 4 i file) ≡ eocdr_signature

-- What the search promises from `i` downwards for a number of rounds.
abbrev pub Finds : List ℕ → ℕ → ℕ → Option ℕ → Type 0
Finds file rounds i none = (j : ℕ) → j ≤ i → i < j + rounds → ¬ Signed file j
Finds file rounds i (some k) =
    (k ≤ i) × (i < k + rounds) × Signed file k × ((j : ℕ) → j ≤ i → k < j → ¬ Signed file j)

unsigned_below :
    (file : List ℕ) (i j : ℕ)
    → ¬ Signed file i
    → (j < i → ¬ Signed file j)
    → j ≤ i
    → ¬ Signed file j
unsigned_below file i j n f l = elim (Bool-cases (ltb j i)) [
  | inl t ↦ f (ltb→lt j i t)
  | inr t ↦ let e : i ≡ j = omega (arith, ltb→le j i t) in subst (λ x. ¬ Signed file x) e n
]

one_more :
    (file : List ℕ) (rounds i : ℕ) (o : Option ℕ)
    → rounds ≤ i
    → ¬ Signed file i
    → Finds file rounds (i - 1) o
    → Finds file (suc rounds) i o
one_more file rounds i none h n f =
    λ j l m. unsigned_below file i j n (λ k. f j (omega arith) (omega arith)) l
one_more file zero i (some k) h n f = absurd (omega (arith, f.0, f.1))
one_more file (suc rounds) i (some k) h n f = (
  omega (arith, f.0),
  omega (arith, f.1),
  f.2,
  λ j l m. unsigned_below file i j n (λ b. f.3 j (omega arith) m) l,
)

search-Finds :
    (file : List ℕ) (rounds i : ℕ)
    → rounds ≤ i + 1
    → Finds file rounds i (search_eocdr file rounds i)
unfolding search_eocdr
search-Finds file zero i h = λ j l m. absurd (omega arith)
search-Finds file (suc rounds) i h =
    elim (Bool-cases (le_value (bytes_at 4 i file) == eocdr_signature)) [
      | inl e ↦ rw (e) (
        omega arith,
        omega arith,
        ==→≡ (le_value (bytes_at 4 i file)) eocdr_signature e,
        λ j l m. absurd (omega arith),
      )
      | inr e ↦ rw (e) (
          one_more file rounds i (search_eocdr file rounds (i - 1)) (omega arith)
            (==→≢ (le_value (bytes_at 4 i file)) eocdr_signature e)
            (search-Finds file rounds (i - 1) (omega arith)))
    ]

-- The last place, among those that leave 22 bytes and at most 65558, where the signature stands.
abbrev pub IsLast : List ℕ → Option ℕ → Type 0
IsLast file none = (j : ℕ) → j + 22 ≤ length file → length file ≤ j + 65558 → ¬ Signed file j
IsLast file (some k) =
    (k + 22 ≤ length file)
    × (length file ≤ k + 65558)
    × Signed file k
    × ((j : ℕ) → j + 22 ≤ length file → k < j → ¬ Signed file j)

Finds-IsLast :
    (file : List ℕ) (rounds : ℕ) (o : Option ℕ)
    → 22 ≤ length file
    → ((rounds ≡ 65537) × (65558 ≤ length file))
      ⊎ ((rounds ≡ length file - 22 + 1) × (length file ≤ 65558))
    → Finds file rounds (length file - 22) o
    → IsLast file o
Finds-IsLast file rounds none h (inl r) f = λ j l m. f j (omega arith) (omega (arith, r.0))
Finds-IsLast file rounds none h (inr r) f = λ j l m. f j (omega arith) (omega (arith, r.0))
Finds-IsLast file rounds (some k) h (inl r) f =
    (omega (arith, f.0), omega (arith, f.1, r.0), f.2, λ j l m. f.3 j (omega arith) m)
Finds-IsLast file rounds (some k) h (inr r) f =
    (omega (arith, f.0), omega (arith, f.1, r.1), f.2, λ j l m. f.3 j (omega arith) m)

-- The search finds the last place that leaves from 22 to 65558 bytes of the file where the signature
-- of the end of central directory record stands, and finds nothing only where there is no such place.
pub eocdr_offset-IsLast : (file : List ℕ) → IsLast file (eocdr_offset file)
unfolding eocdr_offset
eocdr_offset-IsLast file = elim (Bool-cases (ltb (length file) 22)) [
  | inl s ↦ rw (s) (λ j l m. absurd (omega (arith, ltb→lt (length file) 22 s)))
  | inr s ↦
      let long = ltb→le (length file) 22 s in
      elim (Bool-cases (leb 65536 (length file - 22))) [
        | inl b ↦
            rw (s, b)
              (Finds-IsLast file 65537 (search_eocdr file 65537 (length file - 22)) long
                (inl (refl, ground (arith, b)))
                (search-Finds file 65537 (length file - 22) (ground (arith, b))))
        | inr b ↦
            rw (s, b)
              (Finds-IsLast file (length file - 22 + 1)
                (search_eocdr file (length file - 22 + 1) (length file - 22)) long
                (inr (refl, ground (arith, b)))
                (search-Finds file (length file - 22 + 1) (length file - 22) (omega arith)))
      ]
]
