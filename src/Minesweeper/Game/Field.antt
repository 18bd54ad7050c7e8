-- ===== src/Minesweeper/Game/Field.antt =====
-- The field of 17-minesweeper/main.c under the clicks of a game: no mine is revealed before the game
-- is lost.
use otus_c.Common.{ℕ, zero, suc, ◌+◌, ◌*◌, ◌<◌, ◌≤◌, ◌≡◌, refl, sym, ap, ◌∙◌, subst, arith}
use otus_c.Common.{Bool, true, false, Bool-cases, inl, inr, List, [], ◌∷◌, map}
use otus_c.Common.{length, get_or, get_or-set_ne, ◌==◌, ==→≡, ==→≢}
use otus_c.Minesweeper.{Cell, Grid, blank, at, put, neighbours, count_mines, reveal_cell, rows}
use otus_c.Minesweeper.{reveal_mine, reveal_all_mines, check_win}
use otus_c.Minesweeper.Cells.{
  IsInside, IsInside-inside, Among, Among-cases, Adjacent-Among, at-put_self,
}
use otus_c.Minesweeper.Reveal.{IsRevealed, Reaches, start, step, Shown, Grows, Reaches-IsInside}
use otus_c.Minesweeper.Reveal.{unrevealed}
use otus_c.Minesweeper.Flood.{reveal_cell_all}
use otus_c.Minesweeper.SameCells.{
  total, SameMines, Counted, total_same, count_mines_same, put-SameMines,
}
use otus_c.Minesweeper.Mines.{Initial}

-- A field in play: 100 cells, the mines that were asked for, the right numbers, and, unless the game
-- is over, no mine revealed.
pub record FieldOk (mines : ℕ) (over : Bool) (g : Grid) : Type 0 where
  pub len : length g ≡ 100
  pub placed : total g ≡ mines
  pub counted : Counted g
  pub safe :
      over ≡ false → (x y : ℕ) → IsInside x y → IsRevealed g x y → (at g x y).has_mine ≡ false

pub Initial-FieldOk : (mines : ℕ) (g : Grid) → Initial mines g → FieldOk mines false g
Initial-FieldOk mines g i = record {
  len = i.len;
  placed = i.mines_placed;
  counted = i.counted;
  safe = λ e x y k r. absurd (ground (arith, r, i.hidden (x * rows + y)));
}

-- The same mines and the same numbers.
record SameField (g h : Grid) : Type 0 where
  mines : SameMines g h
  numbers : (k : ℕ) → (get_or h k blank).neighbor_count ≡ (get_or g k blank).neighbor_count

Counted-SameField : (g h : Grid) → SameField g h → Counted g → Counted h
Counted-SameField g h s c x y i f =
    s.numbers (x * rows + y)
    ∙ c x y i (sym (s.mines.same_mine (x * rows + y)) ∙ f)
    ∙ sym (count_mines_same g h (neighbours x y) s.mines)

Shown-mine : (c d : Cell) → Shown c d → d.has_mine ≡ c.has_mine
Shown-mine c d (inl p) = ap (λ k. k.has_mine) (sym p)
Shown-mine c d (inr p) = ap (λ k. k.has_mine) p.1

Shown-number : (c d : Cell) → Shown c d → d.neighbor_count ≡ c.neighbor_count
Shown-number c d (inl p) = ap (λ k. k.neighbor_count) (sym p)
Shown-number c d (inr p) = ap (λ k. k.neighbor_count) p.1

Grows-SameField : (g h : Grid) → Grows g h → SameField g h
Grows-SameField g h w = record {
  mines = record {
    same_length = w.same_length;
    same_mine = λ k. Shown-mine (get_or g k blank) (get_or h k blank) (w.cell k);
  };
  numbers = λ k. Shown-number (get_or g k blank) (get_or h k blank) (w.cell k);
}

count_mines-Among :
    (g : Grid) (ps : List (ℕ × ℕ)) (u v : ℕ)
    → count_mines g ps ≡ 0
    → Among ps u v
    → IsInside u v
    → (at g u v).has_mine ≡ false
unfolding count_mines
count_mines-Among g [] u v z (i, e) k = absurd (ground arith)
count_mines-Among g ((x, y) ∷ ps) u v z m k = elim (Among-cases x y ps u v m) [
  | inl q ↦
      let j : IsInside x y = rw (q.0, q.1) k in
      let t : (at g x y).has_mine ≡ false = ground (arith, z, IsInside-inside x y j) in
      rw (← q.0, ← q.1) t
  | inr q ↦ count_mines-Among g ps u v (omega (arith, z)) q k
]

reached_safe :
    (g : Grid) (a b x y : ℕ)
    → Counted g
    → Reaches g a b x y
    → (at g x y).has_mine ≡ false
    → (at g a b).has_mine ≡ false
reached_safe g a b x y c (start f) m = m
reached_safe g a b x y c (step {u = u} {v = v} f o j r) m =
    let k = Reaches-IsInside g a b u v r in
    let none_around : count_mines g (neighbours x y) ≡ 0 =
      sym (c x y f.0 m) ∙ ==→≡ (at g x y).neighbor_count 0 (ground (arith, o)) in
    reached_safe g a b u v c r
      (count_mines-Among g (neighbours x y) u v none_around (Adjacent-Among x y u v f.0 k j) k)

unrevealed_le : (g : Grid) → unrevealed g ≤ length g
unrevealed_le [] = omega arith
unrevealed_le (c ∷ g) = ground (arith, unrevealed_le g)

-- Revealing from a cell without a mine.
pub reveal_cell-FieldOk :
    (mines x y : ℕ) (g : Grid)
    → FieldOk mines false g
    → (at g x y).has_mine ≡ false
    → FieldOk mines false (reveal_cell 101 x y g)
reveal_cell-FieldOk mines x y g w m =
    let h = reveal_cell 101 x y g in
    let (grows, exactly) =
      reveal_cell_all 101 x y g w.len (omega (arith, unrevealed_le g, w.len)) in
    let s = Grows-SameField g h grows in
    record {
      len = grows.same_length ∙ w.len;
      placed = total_same g h s.mines ∙ w.placed;
      counted = Counted-SameField g h s w.counted;
      safe = λ e a b k r. s.mines.same_mine (a * rows + b) ∙ elim ((exactly a b k).0 r) [
        | inl t ↦ w.safe refl a b k t
        | inr t ↦ reached_safe g a b x y w.counted t m
      ];
    }

abbrev SameButFlag : Cell → Cell → Type 0
SameButFlag c d =
    (d.neighbor_count ≡ c.neighbor_count)
    × (d.is_revealed ≡ c.is_revealed)
    × (d.has_mine ≡ c.has_mine)

flag_keeps :
    (x y : ℕ) (b : Bool) (g : Grid)
    → length g ≡ 100
    → IsInside x y
    → (k : ℕ)
    → SameButFlag
        (get_or g k blank)
        (get_or (put x y (record (at g x y) { is_flagged = b }) g) k blank)
flag_keeps x y b g l i k =
    let c : Cell = record (at g x y) { is_flagged = b } in
    elim (Bool-cases (x * rows + y == k)) [
      | inl q ↦
          subst (λ j. SameButFlag (get_or g j blank) (get_or (put x y c g) j blank))
            (==→≡ (x * rows + y) k q)
            (subst (SameButFlag (at g x y)) (sym (at-put_self x y c g l i)) (refl, refl, refl))
      | inr q ↦
          subst (SameButFlag (get_or g k blank))
            (sym (get_or-set_ne g (x * rows + y) k c blank (==→≢ (x * rows + y) k q)))
            (refl, refl, refl)
    ]

-- A write that keeps all but the flag.
pub flag-FieldOk :
    (mines x y : ℕ) (over b : Bool) (g : Grid)
    → IsInside x y
    → FieldOk mines over g
    → FieldOk mines over (put x y (record (at g x y) { is_flagged = b }) g)
flag-FieldOk mines x y over b g i w =
    let c : Cell = record (at g x y) { is_flagged = b } in
    let h = put x y c g in
    let keeps = flag_keeps x y b g w.len i in
    let m = put-SameMines x y c g w.len i refl in
    let s : SameField g h = record { mines = m; numbers = λ k. (keeps k).0 } in
    record {
      len = m.same_length ∙ w.len;
      placed = total_same g h m ∙ w.placed;
      counted = Counted-SameField g h s w.counted;
      safe = λ e u v k r.
          m.same_mine (u * rows + v) ∙ w.safe e u v k (sym (keeps (u * rows + v)).1 ∙ r);
    }

get_or-map :
    (f : Cell → Cell) (g : Grid) (k : ℕ)
    → f blank ≡ blank
    → get_or (map f g) k blank ≡ f (get_or g k blank)
get_or-map f [] k e = sym e
get_or-map f (c ∷ g) zero e = refl
get_or-map f (c ∷ g) (suc k) e = get_or-map f g k e

length-map : (f : Cell → Cell) (g : Grid) → length (map f g) ≡ length g
length-map f [] = refl
length-map f (c ∷ g) = ap suc (length-map f g)

reveal_mine_keeps :
    (c : Cell)
    → ((reveal_mine c).has_mine ≡ c.has_mine) × ((reveal_mine c).neighbor_count ≡ c.neighbor_count)
unfolding reveal_mine
reveal_mine_keeps c = ground arith

-- The end of a lost game.
pub reveal_all_mines-FieldOk :
    (mines : ℕ) (over : Bool) (g : Grid)
    → FieldOk mines over g
    → FieldOk mines true (reveal_all_mines g)
unfolding reveal_all_mines
reveal_all_mines-FieldOk mines over g w =
    let h = map reveal_mine g in
    let at_k : (k : ℕ) → get_or h k blank ≡ reveal_mine (get_or g k blank) =
      λ k. get_or-map reveal_mine g k refl in
    let s : SameField g h = record {
      mines = record {
        same_length = length-map reveal_mine g;
        same_mine = λ k. ap (λ d. d.has_mine) (at_k k) ∙ (reveal_mine_keeps (get_or g k blank)).0;
      };
      numbers = λ k. ap (λ d. d.neighbor_count) (at_k k) ∙ (reveal_mine_keeps (get_or g k blank)).1;
    } in
    record {
      len = s.mines.same_length ∙ w.len;
      placed = total_same g h s.mines ∙ w.placed;
      counted = Counted-SameField g h s w.counted;
      safe = λ e. absurd (ground (arith, e));
    }

-- Every cell without a mine is revealed.
abbrev pub IsCleared : Grid → Type 0
IsCleared g = (x y : ℕ) → IsInside x y → (at g x y).has_mine ≡ false → IsRevealed g x y

check_win_at :
    (g : Grid) (k : ℕ)
    → check_win g ≡ true
    → k < length g
    → (get_or g k blank).has_mine ≡ false
    → (get_or g k blank).is_revealed ≡ true
unfolding check_win
check_win_at [] k e l m = absurd (omega arith)
check_win_at (c ∷ g) zero e l m = ground arith
check_win_at (c ∷ g) (suc k) e l m = check_win_at g k (ground arith) (omega arith) m

pub check_win-IsCleared : (g : Grid) → length g ≡ 100 → check_win g ≡ true → IsCleared g
check_win-IsCleared g l e x y i m = check_win_at g (x * rows + y) e (omega (arith, l, i.0, i.1)) m

pub flag-IsCleared :
    (x y : ℕ) (b : Bool) (g : Grid)
    → length g ≡ 100
    → IsInside x y
    → IsCleared g
    → IsCleared (put x y (record (at g x y) { is_flagged = b }) g)
flag-IsCleared x y b g l i c u v k m =
    let keeps = flag_keeps x y b g l i (u * rows + v) in keeps.1 ∙ c u v k (sym keeps.2 ∙ m)
