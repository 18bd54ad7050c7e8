-- ===== src/Minesweeper/Game/Screen/Cover.antt =====
-- What the drawing of 17-minesweeper/main.c tells the player of the field.
use otus_c.Common.{ℕ, zero, suc, ◌+◌, ◌*◌, ◌/◌, ◌%◌, ◌^◌, ◌<◌, ◌≡◌, refl, ap, ap₂, ◌∙◌, arith}
use otus_c.Common.{false, Bool-cases, inl, inr, some, List, [], ◌∷◌, ◌++◌, map, ltb, ltb→le, lt→ltb}
use otus_c.Common.{get_or, if◌then◌else◌, value, value-decimal}
use otus_c.Minesweeper.{Cell, Grid, blank, at, rows, count_flags}
use otus_c.Minesweeper.Game.{Game, GameState, state_menu, state_difficulty, state_game, state_input}
use otus_c.Minesweeper.Game.{state_highscores}
use otus_c.Minesweeper.Game.Screen.{Draw, draw_rectangle, draw_text, draw_texture_pro, lightgray}
use otus_c.Minesweeper.Game.Screen.{gray, mine_texture, flag_texture, Screen, draw_cell, draw_cells}
use otus_c.Minesweeper.Game.Screen.{status_bar, draw_game, draw_state, draw, below}
use otus_c.Minesweeper.Game.Screen.{clear_background, raywhite, dest, number_text}

-- What the player may know of a cell.
pub data Look : Type 0 where
  covered flagged mine : Look
  number : ℕ → Look

abbrev pub look : Cell → Look
look c =
    if c.is_revealed
    then (if c.has_mine then mine else number c.neighbor_count)
    else if c.is_flagged
    then flagged
    else covered

-- What is read off the drawing of a cell; a revealed cell without a text has the number 0.
abbrev pub seen : List Draw → Look
seen (draw_rectangle r lightgray ∷ (draw_texture_pro mine_texture q ∷ [])) = mine
seen (draw_rectangle r lightgray ∷ (draw_text t x y size colour ∷ [])) = number (value 0 t)
seen (draw_rectangle r lightgray ∷ []) = number 0
seen (draw_rectangle r gray ∷ (draw_texture_pro flag_texture q ∷ [])) = flagged
seen _ = covered

-- A field without what its covered cells hide.
abbrev pub view : Cell → Cell
view c = if c.is_revealed then c else record c { has_mine = false; neighbor_count = 0 }

abbrev pub viewed : Game → Game
viewed s = record s { grid = map view s.grid }

seen_number :
    (i j n : ℕ)
    → n < 2 ^ 31
    → seen (draw_rectangle (dest i j) lightgray ∷ number_text i j n) ≡ number n
seen_number i j n h = elim (Bool-cases (ltb 0 n)) [
  | inl e ↦ rw (e, lt→ltb n (2 ^ 31) h, value-decimal 10 n (omega arith)) refl
  | inr e ↦ rw (e) (ap number (omega (arith, ltb→le 0 n e)))
]

seen-draw_cell : (i j : ℕ) (c : Cell) → c.neighbor_count < 2 ^ 31 → seen (draw_cell i j c) ≡ look c
unfolding draw_cell
seen-draw_cell i j c h = elim (Bool-cases c.is_revealed) [
  | inl r ↦ elim (Bool-cases c.has_mine) [
    | inl m ↦ rw (r, m) refl
    | inr m ↦ rw (r, m) (seen_number i j c.neighbor_count h)
  ]
  | inr r ↦ elim (Bool-cases c.is_flagged) [ inl f ↦ rw (r, f) refl | inr f ↦ rw (r, f) refl ]
]

draw_cell-view : (i j : ℕ) (c : Cell) → draw_cell i j (view c) ≡ draw_cell i j c
unfolding draw_cell
draw_cell-view i j c = ground arith

get_or-map-view : (g : Grid) (k : ℕ) → get_or (map view g) k blank ≡ view (get_or g k blank)
get_or-map-view [] k = refl
get_or-map-view (c ∷ g) zero = refl
get_or-map-view (c ∷ g) (suc k) = get_or-map-view g k

draw_cells-view : (n : ℕ) (g : Grid) → draw_cells n (map view g) ≡ draw_cells n g
unfolding draw_cells
draw_cells-view zero g = refl
draw_cells-view (suc n) g =
    let i = n / rows in
    let j = n % rows in
    ap₂ (λ ds es. ds ++ es) (draw_cells-view n g)
      (ap (draw_cell i j) (get_or-map-view g (i * rows + j)) ∙ draw_cell-view i j (at g i j))

count_flags-view : (g : Grid) → count_flags (map view g) ≡ count_flags g
unfolding count_flags
count_flags-view [] = refl
count_flags-view (c ∷ g) = ground (arith, count_flags-view g)

draw_game-viewed : (scr : Screen) (s : Game) → draw_game scr (viewed s) ≡ draw_game scr s
unfolding draw_game status_bar
draw_game-viewed scr s = rw (draw_cells-view 100 s.grid, count_flags-view s.grid) refl

draw_state-viewed :
    (scr : Screen) (s : Game) (t : GameState) → draw_state scr (viewed s) t ≡ draw_state scr s t
unfolding draw_state
draw_state-viewed scr s state_menu = refl
draw_state-viewed scr s state_difficulty = refl
draw_state-viewed scr s state_game = ap some (draw_game-viewed scr s)
draw_state-viewed scr s state_highscores = refl
draw_state-viewed scr s state_input = refl

-- The screen does not depend on what covered cells hide: without their mines and numbers the same is
-- drawn. Of a cell with a number below 2 ^ 31 the drawing tells whether it is covered, flagged, a
-- mine or revealed, and then its number.
pub draw-seen :
    (scr : Screen) (s : Game) (i j : ℕ) (c : Cell)
    → c.neighbor_count < 2 ^ 31
    → (draw scr (viewed s) ≡ draw scr s) × (seen (draw_cell i j c) ≡ look c)
unfolding draw
draw-seen scr s i j c h = (
  ap (below (clear_background raywhite)) (draw_state-viewed scr s s.current_state),
  seen-draw_cell i j c h,
)
