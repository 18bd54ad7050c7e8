-- ===== src/Minesweeper/Game/Screen/Aim.antt =====
-- Where the player of 17-minesweeper/main.c clicks, and what is drawn there.
use otus_c.Common.{ℕ, ◌+◌, ◌*◌, ◌<◌, ◌≤◌, ◌≡◌, refl, arith}
use otus_c.Common.{if◌then◌else◌}
use otus_c.Minesweeper.Cells.{IsInside, IsInside-inside}
use otus_c.Minesweeper.Game.{Game, Frame, play, click, flag, cell_of}
use otus_c.Minesweeper.Game.Screen.{Rectangle, dest}

-- A pixel that a rectangle covers.
abbrev pub Covers : Rectangle → ℕ → ℕ → Type 0
Covers r x y = (r.left ≤ x) × (x < r.left + r.width) × (r.top ≤ y) × (y < r.top + r.height)

cell_of_drawn : (i v : ℕ) → i < 10 → i * 40 ≤ v → v < i * 40 + 38 → cell_of v ≡ i
cell_of_drawn i v h a b = ground arith

-- While the mouse is on the square that is drawn for the cell of column x and row y, the left button
-- opens that very cell and the right button turns its flag, and nothing else happens.
pub play-Covers :
    (f : Frame) (s : Game) (x y : ℕ)
    → IsInside x y
    → Covers (dest x y) f.mouse_x f.mouse_y
    → play f s ≡ (
        let s' = if f.left_button then click f x y s else s in
        if f.right_button then flag x y s' else s')
unfolding play
play-Covers f s x y h (a, b, c, d) =
    rw (cell_of_drawn x f.mouse_x h.0 a b, cell_of_drawn y f.mouse_y h.1 c d, IsInside-inside x y h)
      refl
