-- ===== src/Minesweeper/Game.antt =====
-- The table of scores and the loop of `main` of 17-minesweeper/main.c. One frame is a step of the
-- state; what raylib tells of the mouse, the keys and the clock, and the values of `rand`, are its
-- input. What is drawn is in Screen; the sounds read the state only.
pub mod Scores
pub mod Field
pub mod Play
pub mod Names
pub mod Frames
pub mod Screen
use otus_c.Common.{ℕ, zero, suc, ◌+◌, ◌-◌, ◌*◌, ◌/◌, ◌%◌, ◌^◌, Bool, true, false, ◌&&◌, ◌||◌, not}
use otus_c.Common.{Option, none, some, List, [], ◌∷◌, ltb, leb, ◌==◌, if◌then◌else◌, get_or, set}
use otus_c.Common.{replicate, Text, text, c_string}
use otus_c.Minesweeper.{Grid, at, put, inside, init_grid, reveal_cell, reveal_all_mines, check_win}
use otus_c.Minesweeper.{empty_grid, blank}

-- `name` is the text of the array; `Duke Nukem` fills it, with no zero behind it.
pub record HighScore : Type 0 where
  pub name : Text
  pub score : ℕ

abbrev pub nobody : HighScore
nobody = record { name = []; score = 0 }

-- The inner loop, for `j` downwards: the entry `j - 1` moves to `j`.
pub shift_scores : ℕ → ℕ → List HighScore → List HighScore
shift_scores zero j top_players = top_players
shift_scores (suc rounds) j top_players =
    shift_scores rounds (j - 1) (set top_players j (get_or top_players (j - 1) nobody))

-- The outer loop from `i` on.
pub add_from : ℕ → ℕ → HighScore → List HighScore → List HighScore
unfolding shift_scores
add_from zero i new top_players = top_players
add_from (suc left) i new top_players =
    let later = add_from left (i + 1) new top_players in
    if ltb (get_or top_players i nobody).score new.score
    then set (shift_scores (4 - i) 4 top_players) i new
    else later

unfoldable pub add_score : HighScore → List HighScore → List HighScore
unfolding add_from
add_score new top_players = add_from 5 0 new top_players

pub data GameState : Type 0 where
  state_menu state_difficulty state_game state_highscores state_input : GameState

-- The global variables. `start_time` is a moment of the clock.
pub record Game : Type 0 where
  pub grid : Grid
  pub current_state : GameState
  pub game_over : Bool
  pub game_won : Bool
  pub top_players : List HighScore
  pub player_name : List ℕ
  pub letter_count : ℕ
  pub mines_to_place : ℕ
  pub start_time : ℕ
  pub final_time_in_seconds : ℕ

abbrev pub first_players : List HighScore
first_players =
    record { name = text "Duke Nukem"; score = 15 }
    ∷ record { name = text "Doom guy"; score = 10 }
    ∷ record { name = text "Ranger"; score = 5 }
    ∷ record { name = text "Peasant"; score = 3 }
    ∷ record { name = text "Chicken"; score = 1 }
    ∷ []

unfoldable pub new_game : Game
new_game = record {
  grid = empty_grid;
  current_state = state_menu;
  game_over = false;
  game_won = false;
  top_players = first_players;
  player_name = replicate 10 0;
  letter_count = 0;
  mines_to_place = 0;
  start_time = 0;
  final_time_in_seconds = 0;
}

-- What a frame is given: the buttons and keys that were just pressed, the mouse in whole pixels, the
-- heights of the buttons on the screen (80 to 320) that it is on, the characters typed, the moment,
-- the whole seconds that have passed since a moment, and the values that `rand` will have.
pub record Frame : Type 0 where
  pub left_button : Bool
  pub right_button : Bool
  pub mouse_x : ℕ
  pub mouse_y : ℕ
  pub on_button : ℕ → Bool
  pub escape : Bool
  pub key_r : Bool
  pub backspace : Bool
  pub enter : Bool
  pub chars : List ℕ
  pub now : ℕ
  pub seconds_since : ℕ → ℕ
  pub rands : List ℕ

-- `(int)v / CELL_SIZE`, which rounds towards 0.
abbrev pub cell_of : ℕ → ℕ
cell_of v = if ltb v (2 ^ 31) then v / 40 else (2 ^ 32 - (2 ^ 32 - v) / 40) % 2 ^ 32

-- `initGame` and the start of the clock.
abbrev pub restarted : ℕ → Game → Option (Grid × List ℕ) → Option Game
restarted now s none = none
restarted now s (some (grid, rands)) =
    some (record s { grid = grid; game_over = false; game_won = false; start_time = now })

pub restart : Frame → Game → Option Game
unfolding init_grid
restart f s = restarted f.now s (init_grid f.rands s.mines_to_place)

abbrev pub leave : Frame → Game → Game
leave f s = if f.escape then record s { current_state = state_menu } else s

unfoldable pub menu : Frame → Game → Game
menu f s =
    if f.left_button
    then (let s' = if f.on_button 140 then record s { current_state = state_difficulty } else s in
        if f.on_button 210 then record s' { current_state = state_highscores } else s')
    else s

-- The mines of the difficulty that was clicked.
abbrev pub difficulty_mines : Frame → Option ℕ
difficulty_mines f =
    if f.on_button 100
    then some 10
    else if f.on_button 170
    then some 15
    else if f.on_button 240
    then some 20
    else none

abbrev pub enter_game : Frame → Option Game → Option Game
enter_game f none = none
enter_game f (some s) = some (leave f (record s { current_state = state_game }))

abbrev pub chosen : Frame → Game → Option ℕ → Option Game
chosen f s none = some s
chosen f s (some mines) = enter_game f (restart f (record s { mines_to_place = mines }))

pub difficulty : Frame → Game → Option Game
unfolding restart
difficulty f s = if f.left_button then chosen f s (difficulty_mines f) else some (leave f s)

abbrev pub won : Frame → Game → Game
won f s = record s {
  game_won = true;
  final_time_in_seconds = f.seconds_since s.start_time;
  current_state = state_input;
}

-- The left button on a cell of the field. The calls of `revealCell` are nested at most as deep as
-- there are cells, and one more.
pub click : Frame → ℕ → ℕ → Game → Game
unfolding reveal_cell reveal_all_mines check_win
click f x y s =
    if (at s.grid x y).is_flagged || (at s.grid x y).is_revealed
    then s
    else if (at s.grid x y).has_mine
    then record s { game_over = true; grid = reveal_all_mines s.grid }
    else let s' = record s { grid = reveal_cell 101 x y s.grid } in
      if check_win s'.grid then won f s' else s'

-- The right button on a cell.
pub flag : ℕ → ℕ → Game → Game
flag x y s =
    let c = at s.grid x y in
    if c.is_revealed
    then s
    else record s { grid = put x y (record c { is_flagged = not c.is_flagged }) s.grid }

pub play : Frame → Game → Game
unfolding click flag
play f s =
    let x = cell_of f.mouse_x in
    let y = cell_of f.mouse_y in
    if inside x y
    then (let s' = if f.left_button then click f x y s else s in
        if f.right_button then flag x y s' else s')
    else s

abbrev pub leave_some : Frame → Option Game → Option Game
leave_some f none = none
leave_some f (some s) = some (leave f s)

pub in_game : Frame → Game → Option Game
unfolding play restart
in_game f s =
    if not s.game_over && not s.game_won
    then some (leave f (play f s))
    else if f.key_r
    then leave_some f (restart f s)
    else some (leave f s)

-- The characters typed, in order.
pub type_chars : List ℕ → Game → Game
type_chars [] s = s
type_chars (key ∷ keys) s =
    let n = s.letter_count in
    let typed = record s {
      player_name = set (set s.player_name n key) (n + 1) 0;
      letter_count = n + 1;
    } in
    type_chars keys (if leb 32 key && (leb key 125 && ltb n 9) then typed else s)

pub erase : Game → Game
erase s = record s {
  player_name = set s.player_name (s.letter_count - 1) 0;
  letter_count = s.letter_count - 1;
}

abbrev pub final_score : Game → ℕ
final_score s =
    let penalty = s.final_time_in_seconds / 60 in
    if ltb s.mines_to_place penalty then 0 else s.mines_to_place - penalty

pub submit : Game → Game
unfolding add_score c_string
submit s = record s {
  top_players =
      add_score (record { name = c_string s.player_name; score = final_score s }) s.top_players;
  current_state = state_highscores;
  player_name = set s.player_name 0 0;
  letter_count = 0;
}

pub input : Frame → Game → Game
unfolding type_chars erase submit
input f s =
    let t = type_chars f.chars s in
    let e = if f.backspace && ltb 0 t.letter_count then erase t else t in
    if f.enter && ltb 0 e.letter_count then submit e else e

pub highscores : Frame → Game → Game
highscores f s =
    leave f
      (if f.left_button && f.on_button 320 then record s { current_state = state_menu } else s)

-- The switch on the state.
unfoldable pub in_state : Frame → Game → GameState → Option Game
unfolding menu difficulty in_game input highscores
in_state f s state_menu = some (menu f s)
in_state f s state_difficulty = difficulty f s
in_state f s state_game = in_game f s
in_state f s state_highscores = some (highscores f s)
in_state f s state_input = some (input f s)

-- One round of the loop of `main`; none if `initGame` needs more values of `rand` than are given.
unfoldable pub frame : Frame → Game → Option Game
unfolding in_state
frame f s = in_state f s s.current_state
