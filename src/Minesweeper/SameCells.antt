-- ===== src/Minesweeper/SameCells.antt =====
-- Fields of 17-minesweeper/main.c with the same mines and numbers.
use otus_c.Common.{ℕ, zero, suc, ◌+◌, ◌*◌, ◌<◌, ◌≡◌, refl, ap, ◌∙◌, subst}
use otus_c.Common.{true, false, Bool-cases, inl, inr, List, [], ◌∷◌, arith}
use otus_c.Common.{length, get_or, set, length-set, get_or-set_ne, if◌then◌else◌, ◌==◌}
use otus_c.Common.{==→≡, ==→≢}
use otus_c.Minesweeper.{Cell, Grid, blank, at, put, neighbours, count_mines, rows}
use otus_c.Minesweeper.Cells.{IsInside, at-put_self}

-- The mines of a field.
abbrev pub total : Grid → ℕ
total [] = 0
total (c ∷ cs) = (if c.has_mine then 1 else 0) + total cs

-- Two fields with the same mines and the same numbers; or with the same mines.
pub record SameMines (g h : Grid) : Type 0 where
  pub same_length : length h ≡ length g
  pub same_mine : (k : ℕ) → (get_or h k blank).has_mine ≡ (get_or g k blank).has_mine

-- The number on each cell without a mine is that of the mines around it.
abbrev pub Counted : Grid → Type 0
Counted g =
    (x y : ℕ)
    → IsInside x y
    → (at g x y).has_mine ≡ false
    → (at g x y).neighbor_count ≡ count_mines g (neighbours x y)

pub total_same : (g h : Grid) → SameMines g h → total h ≡ total g
total_same [] [] s = refl
total_same [] (d ∷ h) s = absurd (omega (arith, s.same_length))
total_same (c ∷ g) [] s = absurd (omega (arith, s.same_length))
total_same (c ∷ g) (d ∷ h) s =
    let t : SameMines g h = record {
      same_length = omega (arith, s.same_length);
      same_mine = λ k. s.same_mine (suc k);
    } in
    ground (arith, s.same_mine 0, total_same g h t)

pub count_mines_same :
    (g h : Grid) (ps : List (ℕ × ℕ)) → SameMines g h → count_mines h ps ≡ count_mines g ps
unfolding count_mines
count_mines_same g h [] s = refl
count_mines_same g h ((x, y) ∷ ps) s =
    ground (arith, s.same_mine (x * rows + y), count_mines_same g h ps s)

-- A write that keeps the mine of its cell.
pub put-SameMines :
    (x y : ℕ) (c : Cell) (g : Grid)
    → length g ≡ 100
    → IsInside x y
    → c.has_mine ≡ (at g x y).has_mine
    → SameMines g (put x y c g)
put-SameMines x y c g l h e = record {
  same_length = length-set g (x * rows + y) c;
  same_mine = λ k. elim (Bool-cases (x * rows + y == k)) [
    | inl q ↦
        subst (λ j. (get_or (put x y c g) j blank).has_mine ≡ (get_or g j blank).has_mine)
          (==→≡ (x * rows + y) k q) (ap (λ d. d.has_mine) (at-put_self x y c g l h) ∙ e)
    | inr q ↦
        ap (λ d. d.has_mine) (get_or-set_ne g (x * rows + y) k c blank (==→≢ (x * rows + y) k q))
  ];
}

pub SameMines-refl : (g : Grid) → SameMines g g
SameMines-refl g = record { same_length = refl; same_mine = λ k. refl }

pub SameMines-trans : (g h i : Grid) → SameMines g h → SameMines h i → SameMines g i
SameMines-trans g h i s t = record {
  same_length = t.same_length ∙ s.same_length;
  same_mine = λ k. t.same_mine k ∙ s.same_mine k;
}

pub total-set :
    (g : Grid) (k : ℕ) (c : Cell)
    → k < length g
    → (get_or g k blank).has_mine ≡ false
    → c.has_mine ≡ true
    → total (set g k c) ≡ total g + 1
total-set [] k c l h e = absurd (omega arith)
total-set (d ∷ g) zero c l h e = ground arith
total-set (d ∷ g) (suc k) c l h e = omega (arith, total-set g k c (omega arith) h e)
