-- ===== src/Minesweeper/Reveal.antt =====
-- What `revealCell` of 17-minesweeper/main.c reveals: the cells that can be reached from the one that
-- was clicked through cells with no mines around.
use otus_c.Common.{ℕ, zero, suc, ◌+◌, ◌*◌, ◌<◌, ◌≤◌, ◌≡◌, refl, sym, ap, ◌∙◌, subst, arith, ◌⊎◌}
use otus_c.Common.{Bool, true, false, not, ◌&&◌, Bool-cases, inl, inr, List, [], ◌∷◌}
use otus_c.Common.{==→≡, ==→≢, length-set, length, get_or, set, get_or-set_ne, ◌==◌, if◌then◌else◌}
use otus_c.Minesweeper.{Cell, Grid, blank, at, put, show, rows}
use otus_c.Minesweeper.Cells.{IsInside, Adjacent, Among}
use otus_c.Minesweeper.Cells.{at-put_self}

abbrev pub IsRevealed : Grid → ℕ → ℕ → Type 0
IsRevealed g x y = (at g x y).is_revealed ≡ true

-- A cell that has no mine, and none around.
abbrev pub opens : Cell → Bool
opens c = c.neighbor_count == 0 && not c.has_mine

abbrev pub IsFresh : Grid → ℕ → ℕ → Type 0
IsFresh g x y = IsInside x y × ((at g x y).is_revealed ≡ false)

-- The cell (a, b) can be reached from a fresh cell through fresh cells, each but the last without
-- mines around.
pub data Reaches (g : Grid) (a b : ℕ) : ℕ → ℕ → Type 0 where
  start : IsFresh g a b → Reaches g a b a b
  step :
      {x y u v : ℕ}
      → IsFresh g x y
      → opens (at g x y) ≡ true
      → Adjacent x y u v
      → Reaches g a b u v
      → Reaches g a b x y

-- Cells may only become revealed.
abbrev pub Shown : Cell → Cell → Type 0
Shown c d = (c ≡ d) ⊎ ((c.is_revealed ≡ false) × (d ≡ show c))

pub record Grows (g h : Grid) : Type 0 where
  pub same_length : length h ≡ length g
  pub cell : (k : ℕ) → Shown (get_or g k blank) (get_or h k blank)

Shown-refl : (c : Cell) → Shown c c
Shown-refl c = inl refl

Shown-trans : (c d e : Cell) → Shown c d → Shown d e → Shown c e
Shown-trans c d e (inl p) (inl q) = inl (p ∙ q)
Shown-trans c d e (inl p) (inr q) = inr (ap (λ k. k.is_revealed) p ∙ q.0, q.1 ∙ ap show (sym p))
Shown-trans c d e (inr p) (inl q) = inr (p.0, sym q ∙ p.1)
Shown-trans c d e (inr p) (inr q) =
    let t : d.is_revealed ≡ true = ap (λ k. k.is_revealed) p.1 in absurd (ground (arith, t, q.0))

pub Grows-refl : (g : Grid) → Grows g g
Grows-refl g = record { same_length = refl; cell = λ k. inl refl }

pub Grows-trans : (g h i : Grid) → Grows g h → Grows h i → Grows g i
Grows-trans g h i p q = record {
  same_length = q.same_length ∙ p.same_length;
  cell = λ k.
      Shown-trans (get_or g k blank) (get_or h k blank) (get_or i k blank) (p.cell k) (q.cell k);
}

pub Shown-revealed : (c d : Cell) → Shown c d → c.is_revealed ≡ true → d.is_revealed ≡ true
Shown-revealed c d (inl p) h = ap (λ k. k.is_revealed) (sym p) ∙ h
Shown-revealed c d (inr p) h = ap (λ k. k.is_revealed) p.1

pub Shown-opens : (c d : Cell) → Shown c d → opens d ≡ opens c
Shown-opens c d (inl p) = ap opens (sym p)
Shown-opens c d (inr p) = ap opens p.1

pub Shown-fresh : (c d : Cell) → Shown c d → d.is_revealed ≡ false → c.is_revealed ≡ false
Shown-fresh c d (inl p) h = ap (λ k. k.is_revealed) p ∙ h
Shown-fresh c d (inr p) h = p.0

pub show-Grows :
    (x y : ℕ) (g : Grid) → length g ≡ 100 → IsFresh g x y → Grows g (put x y (show (at g x y)) g)
show-Grows x y g l h = record {
  same_length = length-set g (x * rows + y) (show (at g x y));
  cell = λ k. elim (Bool-cases (x * rows + y == k)) [
    | inl e ↦
        subst (λ j. Shown (get_or g j blank) (get_or (put x y (show (at g x y)) g) j blank))
          (==→≡ (x * rows + y) k e) (inr (h.1, at-put_self x y (show (at g x y)) g l h.0))
    | inr e ↦
        inl
          (sym (get_or-set_ne g (x * rows + y) k (show (at g x y)) blank (==→≢ (x * rows + y) k e)))
  ];
}

-- How many cells are not revealed.
abbrev pub unrevealed : Grid → ℕ
unrevealed [] = 0
unrevealed (c ∷ cs) = (if c.is_revealed then 0 else 1) + unrevealed cs

pub unrevealed-set :
    (g : Grid) (k : ℕ) (c : Cell)
    → k < length g
    → (get_or g k blank).is_revealed ≡ false
    → c.is_revealed ≡ true
    → unrevealed (set g k c) + 1 ≡ unrevealed g
unrevealed-set [] k c l h r = absurd (omega arith)
unrevealed-set (d ∷ g) zero c l h r = ground arith
unrevealed-set (d ∷ g) (suc k) c l h r = omega (arith, unrevealed-set g k c (omega arith) h r)

-- Cells that become revealed.
abbrev pub IsNew : Grid → Grid → ℕ → ℕ → Type 0
IsNew g h a b = IsFresh g a b × IsRevealed h a b

-- The neighbours of a cell that became revealed and has no mines around are revealed too.
abbrev pub Closed : Grid → Grid → Type 0
Closed g h =
    (x y u v : ℕ)
    → IsNew g h x y
    → opens (at g x y) ≡ true
    → Adjacent x y u v
    → IsInside u v
    → IsRevealed h u v

-- What a call of `reveal_cell` does to a field.
pub record Reveals (x y : ℕ) (g h : Grid) : Type 0 where
  pub grows : Grows g h
  pub fewer : unrevealed h ≤ unrevealed g
  pub closed : Closed g h
  pub shown : IsInside x y → IsRevealed h x y
  pub sound : (a b : ℕ) → IsNew g h a b → Reaches g a b x y

-- What the loop over the neighbours does.
pub record RevealsEach (ps : List (ℕ × ℕ)) (g h : Grid) : Type 0 where
  pub grows : Grows g h
  pub fewer : unrevealed h ≤ unrevealed g
  pub closed : Closed g h
  pub shown : (x y : ℕ) → Among ps x y → IsInside x y → IsRevealed h x y
  pub sound : (a b : ℕ) → IsNew g h a b → (x : ℕ) × (y : ℕ) × Among ps x y × Reaches g a b x y

pub stays : (g h : Grid) (x y : ℕ) → Grows g h → IsRevealed g x y → IsRevealed h x y
stays g h x y w r = Shown-revealed (at g x y) (at h x y) (w.cell (x * rows + y)) r

pub IsFresh-Grows : (g h : Grid) (x y : ℕ) → Grows g h → IsFresh h x y → IsFresh g x y
IsFresh-Grows g h x y w f = (f.0, Shown-fresh (at g x y) (at h x y) (w.cell (x * rows + y)) f.1)

pub same_opens : (g h : Grid) (x y : ℕ) → Grows g h → opens (at h x y) ≡ opens (at g x y)
same_opens g h x y w = Shown-opens (at g x y) (at h x y) (w.cell (x * rows + y))

pub reached_before : (g h : Grid) (a b x y : ℕ) → Grows g h → Reaches h a b x y → Reaches g a b x y
reached_before g h a b x y w (start f) = start (IsFresh-Grows g h a b w f)
reached_before g h a b x y w (step {u = u} {v = v} f o j r) =
    step (IsFresh-Grows g h x y w f) (sym (same_opens g h x y w) ∙ o) j
      (reached_before g h a b u v w r)

pub Reaches-IsInside : (g : Grid) (a b x y : ℕ) → Reaches g a b x y → IsInside x y
Reaches-IsInside g a b x y (start f) = f.0
Reaches-IsInside g a b x y (step f o j r) = f.0

pub Closed-trans : (g h i : Grid) → Grows g h → Grows h i → Closed g h → Closed h i → Closed g i
Closed-trans g h i p q c d x y u v n o j k = elim (Bool-cases ((at h x y).is_revealed)) [
  | inl r ↦ stays h i u v q (c x y u v (n.0, r) o j k)
  | inr r ↦ d x y u v ((n.0.0, r), n.1) (same_opens g h x y p ∙ o) j k
]

pub Closed-refl : (g : Grid) → Closed g g
Closed-refl g x y u v n o j k = absurd (ground (arith, n.0.1, n.1))
