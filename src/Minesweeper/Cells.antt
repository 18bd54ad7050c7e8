-- ===== src/Minesweeper/Cells.antt =====
-- Cells of the field of 17-minesweeper/main.c: what a write changes, and which cells are neighbours.
use otus_c.Common.{ℕ, zero, suc, ◌+◌, ◌-◌, ◌*◌, ◌^◌, ◌<◌, ◌≤◌, ◌≡◌, ◌≢◌, refl, ap, arith}
use otus_c.Common.{true, some, List, [], ◌∷◌, get_elem?, length}
use otus_c.Common.{get_or-set_self, ltb, ltb→lt, Bool-cases, inl, inr, ◌⊎◌}
use otus_c.Common.{subst, ltb→le, ◌==◌, ==→≡, ==→≢, to_int}
use otus_c.Minesweeper.{Cell, Grid, blank, at, put, inside, neighbours, rows, cols}

abbrev pub IsInside : ℕ → ℕ → Type 0
IsInside x y = (x < cols) × (y < rows)

pub IsInside-inside : (x y : ℕ) → IsInside x y → inside x y ≡ true
IsInside-inside x y h = ground (arith, h.0, h.1)

pub inside-IsInside : (x y : ℕ) → inside x y ≡ true → IsInside x y
inside-IsInside x y h = ground arith

-- Cells that touch, or are the same.
abbrev pub Adjacent : ℕ → ℕ → ℕ → ℕ → Type 0
Adjacent x y u v = (x ≤ u + 1) × (u ≤ x + 1) × (y ≤ v + 1) × (v ≤ y + 1)

-- An element of a list.
abbrev pub Among : List (ℕ × ℕ) → ℕ → ℕ → Type 0
Among ps u v = (i : ℕ) × (get_elem? ps i ≡ some (u, v))

pub Among-cases :
    (x y : ℕ) (ps : List (ℕ × ℕ)) (u v : ℕ)
    → Among ((x, y) ∷ ps) u v
    → ((x ≡ u) × (y ≡ v)) ⊎ Among ps u v
Among-cases x y ps u v (zero, e) =
    let q : ◌≡◌ {A = ℕ × ℕ} (x, y) (u, v) = cc in inl (ap (λ p. p.0) q, ap (λ p. p.1) q)
Among-cases x y ps u v (suc i, e) = inr (i, e)

near_cases :
    (x u : ℕ)
    → x < 10
    → u < 10
    → x ≤ u + 1
    → u ≤ x + 1
    → (u ≡ to_int (x + (2 ^ 32 - 1))) ⊎ ((u ≡ to_int x) ⊎ (u ≡ to_int (x + 1)))
near_cases x u a b c d = elim (Bool-cases (ltb u x)) [
  | inl l ↦ inl (omega (arith, ltb→lt u x l))
  | inr l ↦ elim (Bool-cases (ltb x u)) [
    | inl m ↦ inr (inr (omega (arith, ltb→lt x u m)))
    | inr m ↦ inr (inl (omega (arith, ltb→le u x l, ltb→le x u m)))
  ]
]

pub Adjacent-Among :
    (x y u v : ℕ) → IsInside x y → IsInside u v → Adjacent x y u v → Among (neighbours x y) u v
unfolding neighbours
Adjacent-Among x y u v h k (a, b, c, d) = elim (near_cases x u h.0 k.0 a b) [
  | inl e ↦ elim (near_cases y v h.1 k.1 c d) [
    | inl f ↦ (0, rw (e, f) refl)
    | inr (inl f) ↦ (1, rw (e, f) refl)
    | inr (inr f) ↦ (2, rw (e, f) refl)
  ]
  | inr (inl e) ↦ elim (near_cases y v h.1 k.1 c d) [
    | inl f ↦ (3, rw (e, f) refl)
    | inr (inl f) ↦ (4, rw (e, f) refl)
    | inr (inr f) ↦ (5, rw (e, f) refl)
  ]
  | inr (inr e) ↦ elim (near_cases y v h.1 k.1 c d) [
    | inl f ↦ (6, rw (e, f) refl)
    | inr (inl f) ↦ (7, rw (e, f) refl)
    | inr (inr f) ↦ (8, rw (e, f) refl)
  ]
]

abbrev AllPairs : (ℕ → ℕ → Type 0) → List (ℕ × ℕ) → Type 0
AllPairs P [] = Unit
AllPairs P ((u, v) ∷ ps) = P u v × AllPairs P ps

all_among :
    (P : ℕ → ℕ → Type 0) (ps : List (ℕ × ℕ)) (u v : ℕ) → AllPairs P ps → Among ps u v → P u v
all_among P [] u v h (i, e) = absurd (ground arith)
all_among P ((a, b) ∷ ps) u v h (zero, e) =
    let q : ◌≡◌ {A = ℕ × ℕ} (a, b) (u, v) = cc in subst (λ p. P p.0 p.1) q h.0
all_among P ((a, b) ∷ ps) u v h (suc i, e) = all_among P ps u v h.1 (i, e)

pub Among-Adjacent :
    (x y u v : ℕ) → IsInside x y → Among (neighbours x y) u v → IsInside u v → Adjacent x y u v
unfolding neighbours
Among-Adjacent x y u v h m =
    all_among (λ a b. IsInside a b → Adjacent x y a b) (neighbours x y) u v
      (
        λ k. omega arith,
        (
          λ k. omega arith,
          (
            λ k. omega arith,
            (
              λ k. omega arith,
              (
                λ k. omega arith,
                (λ k. omega arith, (λ k. omega arith, (λ k. omega arith, (λ k. omega arith, tt)))),
              ),
            ),
          ),
        ),
      )
      m

-- What is read behind a write.
pub at-put_self :
    (x y : ℕ) (c : Cell) (g : Grid) → length g ≡ 100 → IsInside x y → at (put x y c g) x y ≡ c
at-put_self x y c g l h = get_or-set_self g (x * rows + y) c blank (omega (arith, h.0, h.1))

pub same_or_other :
    (x y u v : ℕ)
    → IsInside x y
    → IsInside u v
    → ((x ≡ u) × (y ≡ v)) ⊎ (x * rows + y ≢ u * rows + v)
same_or_other x y u v h k = elim (Bool-cases (x * rows + y == u * rows + v)) [
  | inl e ↦ inl (
    omega (arith, ==→≡ (x * rows + y) (u * rows + v) e, h.1, k.1),
    omega (arith, ==→≡ (x * rows + y) (u * rows + v) e, h.1, k.1),
  )
  | inr e ↦ inr (==→≢ (x * rows + y) (u * rows + v) e)
]
