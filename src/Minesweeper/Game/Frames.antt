-- ===== src/Minesweeper/Game/Frames.antt =====
-- Every frame of 17-minesweeper/main.c keeps the invariant of the game.
use otus_c.Common.{
  ℕ, zero, suc, ◌+◌, ◌*◌, get_or, ap, ◌≡◌, refl, sym, ◌∙◌, subst, arith, some, replicate,
}
use otus_c.Common.{List, [], ◌∷◌, if◌then◌else◌, ◌&&◌}
use otus_c.Minesweeper.{count_mines, blank, empty_grid, rows, neighbours}
use otus_c.Minesweeper.Game.{Game, Frame, GameState, state_menu, state_difficulty, state_game}
use otus_c.Minesweeper.Game.{state_highscores, state_input, frame, new_game, highscores}
use otus_c.Minesweeper.Game.{in_state}
use otus_c.Minesweeper.Game.Play.{IsValid, AllValid, state-IsValid, either-IsValid, leave-IsValid}
use otus_c.Minesweeper.Game.Play.{menu-IsValid, difficulty-AllValid, in_game-AllValid}
use otus_c.Common.{inl, inr}
use otus_c.Minesweeper.Game.Names.{input-IsValid}

highscores-IsValid : (f : Frame) (s : Game) → IsValid s → IsValid (highscores f s)
unfolding highscores
highscores-IsValid f s v =
    let m : Game = record s { current_state = state_menu } in
    let t = if f.left_button && f.on_button 320 then m else s in
    leave-IsValid f t
      (either-IsValid (f.left_button && f.on_button 320) m s (state-IsValid s state_menu v) v)

in_state-AllValid : (f : Frame) (s : Game) (t : GameState) → IsValid s → AllValid (in_state f s t)
unfolding in_state
in_state-AllValid f s state_menu v = menu-IsValid f s v
in_state-AllValid f s state_difficulty v = difficulty-AllValid f s v
in_state-AllValid f s state_game v = in_game-AllValid f s v
in_state-AllValid f s state_highscores v = highscores-IsValid f s v
in_state-AllValid f s state_input v = input-IsValid f s v

frame-IsValid : (f : Frame) (s s' : Game) → IsValid s → frame f s ≡ some s' → IsValid s'
unfolding frame
frame-IsValid f s s' v e = subst AllValid e (in_state-AllValid f s s.current_state v)

-- The games that frames lead to, from the start of the program.
pub data Reachable : Game → Type 0 where
  starts : Reachable new_game
  goes_on : {s t : Game} (f : Frame) → Reachable s → frame f s ≡ some t → Reachable t

blank_at : (n k : ℕ) → get_or (replicate n blank) k blank ≡ blank
blank_at zero k = refl
blank_at (suc n) zero = refl
blank_at (suc n) (suc k) = blank_at n k

no_mines : (ps : List (ℕ × ℕ)) → count_mines empty_grid ps ≡ 0
unfolding count_mines
no_mines [] = refl
no_mines ((x, y) ∷ ps) = ground (arith, blank_at 100 (x * rows + y), no_mines ps)

new_game-IsValid : IsValid new_game
unfolding new_game
new_game-IsValid = record {
  players = record {
    five = refl;
    ranked = (omega arith, (omega arith, (omega arith, (omega arith, tt))));
    named = (
      inr refl,
      (inl (omega arith), (inl (omega arith), (inl (omega arith), (inl (omega arith), tt)))),
    );
    array = refl;
    letters = omega arith;
    ended = refl;
  };
  field = record {
    len = refl;
    placed = refl;
    counted = λ x y i m.
        ap (λ c. c.neighbor_count) (blank_at 100 (x * rows + y)) ∙ sym (no_mines (neighbours x y));
    safe = λ e x y i r. ap (λ c. c.has_mine) (blank_at 100 (x * rows + y));
  };
  cleared = λ e. absurd (ground (arith, e));
}

-- In every game that is reached: the field has 100 cells, the mines that the difficulty asks for,
-- and on every cell without a mine the number of those around; no mine is revealed unless the game
-- is lost; if it is won, all cells without a mine are revealed; the table has five entries, does
-- not rise, and its only name of ten characters is Duke Nukem; and the name typed is at most 9 characters, ended by a zero inside its array.
pub Reachable-IsValid : (s : Game) → Reachable s → IsValid s
Reachable-IsValid s starts = new_game-IsValid
Reachable-IsValid t (goes_on {s = s} f r e) = frame-IsValid f s t (Reachable-IsValid s r) e
