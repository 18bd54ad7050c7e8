-- ===== src/Minesweeper/Tests.antt =====
-- Small games of 17-minesweeper/main.c, and its theorems there.
use otus_c.Common.{◌≡◌, refl, ◌↔◌, ◌⊎◌, arith, true, false, some, []}
use otus_c.Common.{◌∷◌, text, decimal, length, take, ◌*◌, ◌/◌, ◌^◌, ◌-◌, ◌==◌}
use otus_c.Minesweeper.{Grid, Cell, blank, at, put, empty_grid, count_cells, init_grid, place_mines}
use otus_c.Minesweeper.{reveal_cell, check_win}
use otus_c.Minesweeper.Reveal.{IsRevealed, Reaches, Shown}
use otus_c.Minesweeper.Flood.{reveal_cell-Reaches}
use otus_c.Minesweeper.Mines.{Initial, init_grid-Initial}
use otus_c.Minesweeper.Game.{Game, Frame, HighScore, add_score, first_players, new_game, frame}
use otus_c.Minesweeper.Game.{state_difficulty, state_game}
use otus_c.Minesweeper.Game.Scores.{IsRanked, insert, add_score-insert}
use otus_c.Minesweeper.Game.Play.{IsValid}
use otus_c.Minesweeper.Game.Screen.{Screen, draw, draw_cell, draw_rectangle, draw_text, rect}
use otus_c.Minesweeper.Game.Screen.{lightgray, darkgray, half, int_text_3}
use otus_c.Minesweeper.Game.Screen.Cover.{viewed, seen, number, draw-seen}
use otus_c.Minesweeper.Game.Screen.Table.{is_none, is_none-draw}
use otus_c.Minesweeper.Game.{state_highscores}
use otus_c.Minesweeper.Game.Frames.{Reachable, starts, goes_on, Reachable-IsValid}

-- One mine in the corner.
abbrev one_mine : Grid
one_mine = count_cells 100 (put 0 0 (record blank { has_mine = true }) empty_grid)

-- The second draw hits the mine again, and is not counted.
draws : init_grid (20 ∷ 30 ∷ []) 1 ≡ some (one_mine, [])
unfolding init_grid place_mines
draws = refl

-- Its neighbour has the number 1, and a click far away clears the field.
clears :
    ((at one_mine 1 1).neighbor_count ≡ 1)
    × (check_win (reveal_cell 101 9 9 one_mine) ≡ true)
    × (check_win (reveal_cell 101 1 1 one_mine) ≡ false)
unfolding count_cells check_win reveal_cell
clears = (refl, refl, refl)

reveal_cell-Reaches_example :
    Shown (at empty_grid 3 4) (at (reveal_cell 101 0 0 empty_grid) 3 4)
    × (IsRevealed (reveal_cell 101 0 0 empty_grid) 3 4
        ↔ (IsRevealed empty_grid 3 4 ⊎ Reaches empty_grid 3 4 0 0))
reveal_cell-Reaches_example =
    reveal_cell-Reaches 101 0 0 3 4 empty_grid refl (omega arith) (omega arith, omega arith)

init_grid-Initial_example : Initial 1 one_mine
init_grid-Initial_example = init_grid-Initial (20 ∷ 30 ∷ []) 1 one_mine [] draws

abbrev ranger : HighScore
ranger = record { name = text "me"; score = 5 }

ranks :
    take 4 (add_score ranger first_players)
    ≡ record { name = text "Duke Nukem"; score = 15 }
      ∷ record { name = text "Doom guy"; score = 10 }
      ∷ record { name = text "Ranger"; score = 5 }
      ∷ ranger
      ∷ []
unfolding add_score
ranks = refl

add_score-insert_example :
    (add_score ranger first_players ≡ take 5 (insert ranger first_players))
    × IsRanked (add_score ranger first_players)
    × (length (add_score ranger first_players) ≡ 5)
add_score-insert_example =
    add_score-insert ranger first_players refl
      (omega arith, (omega arith, (omega arith, (omega arith, tt))))

-- The button START GAME is clicked.
abbrev starting : Frame
starting = record {
  left_button = true;
  right_button = false;
  mouse_x = 100;
  mouse_y = 150;
  on_button = λ y. y == 140;
  escape = false;
  key_r = false;
  backspace = false;
  enter = false;
  chars = [];
  now = 0;
  seconds_since = λ t. 0;
  rands = [];
}

abbrev choosing : Game
choosing = record {
  grid = empty_grid;
  current_state = state_difficulty;
  game_over = false;
  game_won = false;
  top_players = first_players;
  player_name = 0 ∷ 0 ∷ 0 ∷ 0 ∷ 0 ∷ 0 ∷ 0 ∷ 0 ∷ 0 ∷ 0 ∷ [];
  letter_count = 0;
  mines_to_place = 0;
  start_time = 0;
  final_time_in_seconds = 0;
}

reaches : Reachable choosing
unfolding frame new_game
reaches = goes_on starting starts refl

Reachable-IsValid_example : IsValid choosing
Reachable-IsValid_example = Reachable-IsValid choosing reaches

-- The window as the program makes it, with letters of half their height.
abbrev window : Screen
window = record {
  screen_width = 400;
  screen_height = 440;
  measure_text = λ t size. length t * size / 2;
  seconds_since = λ t. 7;
}

-- The game on the field with a mine in the corner.
abbrev playing : Game
playing = record choosing { grid = one_mine; current_state = state_game }

times :
    (int_text_3 7 ≡ text "007") × (int_text_3 123 ≡ text "123") × (half (2 ^ 32 - 3) ≡ 2 ^ 32 - 1)
unfolding decimal
times = (refl, refl, refl)

abbrev two : Cell
two = record blank { is_revealed = true; neighbor_count = 2 }

draws_number :
    draw_cell 1 2 two
    ≡ draw_rectangle (rect 40 80 38 38) lightgray ∷ draw_text (text "2") 55 90 20 darkgray ∷ []
unfolding draw_cell decimal
draws_number = refl

draw-seen_example :
    (draw window (viewed playing) ≡ draw window playing) × (seen (draw_cell 1 2 two) ≡ number 2)
draw-seen_example = draw-seen window playing 1 2 two (omega arith)

-- The button TOP PLAYERS is clicked.
abbrev table : Game
table = record choosing { current_state = state_highscores }

abbrev looking : Frame
looking = record starting { on_button = λ y. y == 210 }

reaches_table : Reachable table
unfolding frame new_game
reaches_table = goes_on looking starts refl

is_none-draw_example : is_none (draw window table) ≡ true
is_none-draw_example = is_none-draw window table reaches_table
