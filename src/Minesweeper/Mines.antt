-- ===== src/Minesweeper/Mines.antt =====
-- The mines that `initGame` of 17-minesweeper/main.c places, and the numbers that it writes.
use otus_c.Common.{ℕ, zero, suc, ◌+◌, ◌*◌, ◌/◌, ◌%◌, ◌<◌, ◌≤◌, ◌≡◌, refl, sym, ap, ◌∙◌, subst}
use otus_c.Common.{true, false, Bool-cases, inl, inr, Option, none, some, List, [], ◌∷◌, arith}
use otus_c.Common.{length, get_or, length-set, get_or-set_ne, if◌then◌else◌, ◌==◌}
use otus_c.Common.{replicate, ==→≡, ==→≢, Option-cases}
use otus_c.Minesweeper.{
  Cell, Grid, blank, at, put, neighbours, place_mines, count_mines, rows, cols,
}
use otus_c.Minesweeper.{count_cell, count_cells, on_grid, init_grid, empty_grid}
use otus_c.Minesweeper.Cells.{IsInside, at-put_self, same_or_other}
use otus_c.Minesweeper.SameCells.{
  total, SameMines, Counted, total_same, count_mines_same, put-SameMines, SameMines-refl,
  SameMines-trans, total-set,
}

-- What placing mines keeps: nothing is revealed and no flag is set.
abbrev pub IsHidden : Grid → Type 0
IsHidden g = (k : ℕ) → (get_or g k blank).is_revealed ≡ false

put-IsHidden :
    (x y : ℕ) (c : Cell) (g : Grid)
    → length g ≡ 100
    → IsInside x y
    → c.is_revealed ≡ false
    → IsHidden g
    → IsHidden (put x y c g)
put-IsHidden x y c g l h e f k = elim (Bool-cases (x * rows + y == k)) [
  | inl q ↦
      subst (λ j. (get_or (put x y c g) j blank).is_revealed ≡ false) (==→≡ (x * rows + y) k q)
        (ap (λ d. d.is_revealed) (at-put_self x y c g l h) ∙ e)
  | inr q ↦
      ap (λ d. d.is_revealed) (get_or-set_ne g (x * rows + y) k c blank (==→≢ (x * rows + y) k q))
      ∙ f k
]

-- What `place_mines` leaves: the mines that were asked for.
record Placed (g h : Grid) (n : ℕ) : Type 0 where
  len : length h ≡ 100
  mines : total h ≡ total g + n
  hidden : IsHidden h

place_mines-Placed :
    (rands : List ℕ) (n : ℕ) (g h : Grid) (rest : List ℕ)
    → length g ≡ 100
    → IsHidden g
    → place_mines rands n g ≡ some (h, rest)
    → Placed g h n
unfolding place_mines
place_mines-Placed rands zero g h rest l k e =
    let q : g ≡ h = cc in
    subst (λ j. Placed g j 0) q (record { len = l; mines = omega arith; hidden = k })
place_mines-Placed [] (suc n) g h rest l k e = absurd (ground arith)
place_mines-Placed (r ∷ []) (suc n) g h rest l k e = absurd (ground arith)
place_mines-Placed (r ∷ (s ∷ rands)) (suc n) g h rest l k e =
    let x = r % cols in
    let y = s % rows in
    let i : IsInside x y = (omega arith, omega arith) in
    let c : Cell = record (at g x y) { has_mine = true } in
    elim (Bool-cases ((at g x y).has_mine)) [
      | inl m ↦ place_mines-Placed rands (suc n) g h rest l k (ground (arith, m, e))
      | inr m ↦
          let t = total-set g (x * rows + y) c (omega (arith, i.0, i.1)) m refl in
          let p =
            place_mines-Placed rands n (put x y c g) h rest (length-set g (x * rows + y) c ∙ l)
              (put-IsHidden x y c g l i (k (x * rows + y)) k) (ground (arith, m, e)) in
          record { len = p.len; mines = omega (arith, t, p.mines); hidden = p.hidden }
    ]

-- What `n` rounds of the counting leave of a field.
record Numbered (g : Grid) (n : ℕ) (h : Grid) : Type 0 where
  same : SameMines g h
  hidden : IsHidden h
  number :
      (x y : ℕ)
      → IsInside x y
      → x * rows + y < n
      → (at g x y).has_mine ≡ false
      → (at h x y).neighbor_count ≡ count_mines g (neighbours x y)

module _ (g h : Grid) (n x y : ℕ) (i : IsInside x y) (here_now : x * rows + y ≡ n)
    (l : length g ≡ 100) (w : Numbered g n h) where
  skip-Numbered : (at h x y).has_mine ≡ true → Numbered g (suc n) h
  skip-Numbered t = record {
    same = w.same;
    hidden = w.hidden;
    number = λ u v j k f. elim (same_or_other x y u v i j) [
      | inl q ↦
          let f' : (at g x y).has_mine ≡ false = rw (q.0, q.1) f in
          absurd (ground (arith, t, f', w.same.same_mine (x * rows + y)))
      | inr q ↦ w.number u v j (omega (arith, here_now, q)) f
    ];
  }

  write-Numbered :
      (m : ℕ)
      → m ≡ count_mines g (neighbours x y)
      → Numbered g (suc n) (put x y (record (at h x y) { neighbor_count = m }) h)
  write-Numbered m e =
      let c : Cell = record (at h x y) { neighbor_count = m } in
      let lh = w.same.same_length ∙ l in
      record {
        same = SameMines-trans g h (put x y c h) w.same (put-SameMines x y c h lh i refl);
        hidden = put-IsHidden x y c h lh i (w.hidden (x * rows + y)) w.hidden;
        number = λ u v j k f. elim (same_or_other x y u v i j) [
          | inl q ↦
              let t : (at (put x y c h) x y).neighbor_count ≡ count_mines g (neighbours x y) =
                ap (λ d. d.neighbor_count) (at-put_self x y c h lh i) ∙ e in
              rw (← q.0, ← q.1) t
          | inr q ↦
              ap (λ d. d.neighbor_count) (get_or-set_ne h (x * rows + y) (u * rows + v) c blank q)
              ∙ w.number u v j (omega (arith, here_now, q)) f
        ];
      }

  count_cell-Numbered : Numbered g (suc n) (count_cell x y h)
  unfolding count_cell
  count_cell-Numbered =
      let m = count_mines h (neighbours x y) in
      let c : Cell = record (at h x y) { neighbor_count = m } in
      elim (Bool-cases ((at h x y).has_mine)) [
        | inl t ↦
            subst (λ b. Numbered g (suc n) (if b then h else put x y c h)) (sym t) (skip-Numbered t)
        | inr t ↦
            subst (λ b. Numbered g (suc n) (if b then h else put x y c h)) (sym t)
              (write-Numbered m (count_mines_same g h (neighbours x y) w.same))
      ]

count_cells-Numbered :
    (n : ℕ) (g : Grid) → length g ≡ 100 → n ≤ 100 → IsHidden g → Numbered g n (count_cells n g)
unfolding count_cells
count_cells-Numbered zero g l b k = record {
  same = SameMines-refl g;
  hidden = k;
  number = λ u v j m f. absurd (omega arith);
}
count_cells-Numbered (suc n) g l b k =
    count_cell-Numbered g (count_cells n g) n (n / rows) (n % rows) (omega arith, omega arith)
      (omega arith) l (count_cells-Numbered n g l (omega arith) k)

-- The field that `initGame` makes, whenever the loop that places the mines ends: it has 100 cells,
-- exactly the mines asked for, nothing revealed, and on each cell without a mine the number of mines
-- on it and around it.
pub record Initial (mines : ℕ) (g : Grid) : Type 0 where
  pub len : length g ≡ 100
  pub mines_placed : total g ≡ mines
  pub hidden : IsHidden g
  pub counted : Counted g

replicate-IsHidden : (n : ℕ) → IsHidden (replicate n blank)
replicate-IsHidden zero k = refl
replicate-IsHidden (suc n) zero = refl
replicate-IsHidden (suc n) (suc k) = replicate-IsHidden n k

Numbered-Initial :
    (n : ℕ) (h g : Grid) → length h ≡ 100 → total h ≡ n → Numbered h 100 g → Initial n g
Numbered-Initial n h g l t w = record {
  len = w.same.same_length ∙ l;
  mines_placed = total_same h g w.same ∙ t;
  hidden = w.hidden;
  counted = λ x y i f.
      w.number x y i (omega (arith, i.0, i.1)) (sym (w.same.same_mine (x * rows + y)) ∙ f)
      ∙ sym (count_mines_same h g (neighbours x y) w.same);
}

mapped :
    (f : Grid → Grid) (o : Option (Grid × List ℕ)) (h g : Grid) (r rest : List ℕ)
    → o ≡ some (h, r)
    → on_grid f o ≡ some (g, rest)
    → f h ≡ g
mapped f o h g r rest q e = ground (arith, q, e)

stuck :
    (f : Grid → Grid) (o : Option (Grid × List ℕ)) (g : Grid) (rest : List ℕ)
    → o ≡ none
    → on_grid f o ≡ some (g, rest)
    → ⊥
stuck f o g rest q e = ground (arith, q, e)

pub init_grid-Initial :
    (rands : List ℕ) (mine_count : ℕ) (g : Grid) (rest : List ℕ)
    → init_grid rands mine_count ≡ some (g, rest)
    → Initial mine_count g
unfolding init_grid
init_grid-Initial rands n g rest e = elim (Option-cases (place_mines rands n empty_grid)) [
  | inl q ↦ absurd (stuck (count_cells 100) (place_mines rands n empty_grid) g rest q e)
  | inr ((h, r), q) ↦
      let p = place_mines-Placed rands n empty_grid h r refl (replicate-IsHidden 100) q in
      let w = count_cells-Numbered 100 h p.len (omega arith) p.hidden in
      let f = mapped (count_cells 100) (place_mines rands n empty_grid) h g r rest q e in
      subst (Initial n) f
        (Numbered-Initial n h (count_cells 100 h) p.len (omega (arith, p.mines)) w)
]
