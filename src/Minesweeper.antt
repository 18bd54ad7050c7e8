-- ===== src/Minesweeper.antt =====
-- 17-minesweeper/main.c: the game. Here is the field with its operations and the table of scores;
-- Game has the loop of `main`.
--
-- `grid[x][y]` is the element x * ROWS + y of a list. An `int` is its bit pattern (Common.Words), so
-- -1 is 2 ^ 32 - 1. `rand` is the list of its values.
pub mod Cells
pub mod Reveal
pub mod Flood
pub mod SameCells
pub mod Mines
pub mod Game
mod Tests
use otus_c.Common.{ℕ, zero, suc, ◌+◌, ◌-◌, ◌*◌, ◌/◌, ◌%◌, ◌^◌, Bool, true, false, ◌&&◌, ◌||◌, not}
use otus_c.Common.{Option, none, some, List, [], ◌∷◌, map, ltb, ◌==◌, if◌then◌else◌, get_or, set}
use otus_c.Common.{replicate, Text, text, to_int}

abbrev pub cols : ℕ
cols = 10

abbrev pub rows : ℕ
rows = 10

pub record Cell : Type 0 where
  pub has_mine : Bool
  pub is_revealed : Bool
  pub is_flagged : Bool
  pub neighbor_count : ℕ

-- `(Cell){0}`
abbrev pub blank : Cell
blank = record { has_mine = false; is_revealed = false; is_flagged = false; neighbor_count = 0 }

abbrev pub Grid : Type 0
Grid = List Cell

abbrev pub at : Grid → ℕ → ℕ → Cell
at grid x y = get_or grid (x * rows + y) blank

abbrev pub put : ℕ → ℕ → Cell → Grid → Grid
put x y c grid = set grid (x * rows + y) c

-- A negative coordinate is a large bit pattern.
abbrev pub inside : ℕ → ℕ → Bool
inside x y = ltb x cols && ltb y rows

-- `x - 1`, `x`, `x + 1`
abbrev pub around : ℕ → List ℕ
around x = to_int (x + (2 ^ 32 - 1)) ∷ to_int x ∷ to_int (x + 1) ∷ []

abbrev pub row : ℕ → List ℕ → List (ℕ × ℕ) → List (ℕ × ℕ)
row x [] rest = rest
row x (y ∷ ys) rest = (x, y) ∷ row x ys rest

abbrev pub pairs : List ℕ → List ℕ → List (ℕ × ℕ)
pairs [] ys = []
pairs (x ∷ xs) ys = row x ys (pairs xs ys)

-- The 9 coordinates that the loops over `i` and `j` visit, in their order.
pub neighbours : ℕ → ℕ → List (ℕ × ℕ)
neighbours x y = pairs (around x) (around y)

-- `initGame`: the mines. A cell is drawn by two values of `rand`; there is no result where the
-- values given do not suffice.
pub place_mines : List ℕ → ℕ → Grid → Option (Grid × List ℕ)
place_mines rands zero grid = some (grid, rands)
place_mines [] (suc left) grid = none
place_mines (r ∷ []) (suc left) grid = none
place_mines (r ∷ (s ∷ rands)) (suc left) grid =
    let rx = r % cols in
    let ry = s % rows in
    let again = place_mines rands (suc left) grid in
    let on = place_mines rands left (put rx ry (record (at grid rx ry) { has_mine = true }) grid) in
    if (at grid rx ry).has_mine then again else on

-- The mines on some coordinates.
pub count_mines : Grid → List (ℕ × ℕ) → ℕ
count_mines grid [] = 0
count_mines grid ((x, y) ∷ ps) =
    (if inside x y && (at grid x y).has_mine then 1 else 0) + count_mines grid ps

-- The body of the loop over `x` and `y`.
pub count_cell : ℕ → ℕ → Grid → Grid
unfolding count_mines neighbours
count_cell x y grid =
    if (at grid x y).has_mine
    then grid
    else put x y (record (at grid x y) { neighbor_count = count_mines grid (neighbours x y) }) grid

-- The first `n` rounds of the loops over `x` and `y`: round k is at x = k / ROWS, y = k % ROWS.
pub count_cells : ℕ → Grid → Grid
unfolding count_cell
count_cells zero grid = grid
count_cells (suc n) grid = count_cell (n / rows) (n % rows) (count_cells n grid)

abbrev pub empty_grid : Grid
empty_grid = replicate 100 blank

abbrev pub on_grid : (Grid → Grid) → Option (Grid × List ℕ) → Option (Grid × List ℕ)
on_grid f none = none
on_grid f (some (grid, rands)) = some (f grid, rands)

-- The field that `initGame` makes, and what is left of the values of `rand`.
pub init_grid : List ℕ → ℕ → Option (Grid × List ℕ)
unfolding place_mines count_cells
init_grid rands mine_count = on_grid (count_cells 100) (place_mines rands mine_count empty_grid)

abbrev pub show : Cell → Cell
show c = record c { is_revealed = true }

pub each : (ℕ → ℕ → Grid → Grid) → List (ℕ × ℕ) → Grid → Grid
each f [] grid = grid
each f ((x, y) ∷ ps) grid = each f ps (f x y grid)

-- `revealCell`, with calls nested at most `fuel` deep.
pub reveal_cell : ℕ → ℕ → ℕ → Grid → Grid
unfolding neighbours each
reveal_cell zero x y grid = grid
reveal_cell (suc fuel) x y grid = elim (not (inside x y) || (at grid x y).is_revealed) [
  | true ↦ grid
  | false ↦
      let c = at grid x y in
      elim (c.neighbor_count == 0 && not c.has_mine) [
        | true ↦ each (reveal_cell fuel) (neighbours x y) (put x y (show c) grid)
        | false ↦ put x y (show c) grid
      ]
]

pub reveal_mine : Cell → Cell
reveal_mine c = if c.has_mine then show c else c

pub reveal_all_mines : Grid → Grid
unfolding reveal_mine
reveal_all_mines grid = map reveal_mine grid

pub check_win : Grid → Bool
check_win [] = true
check_win (c ∷ cs) = if not c.has_mine && not c.is_revealed then false else check_win cs

pub count_flags : Grid → ℕ
count_flags [] = 0
count_flags (c ∷ cs) = (if c.is_flagged && not c.is_revealed then 1 else 0) + count_flags cs
