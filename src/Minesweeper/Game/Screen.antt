-- ===== src/Minesweeper/Game/Screen.antt =====
-- What a frame of 17-minesweeper/main.c draws between `BeginDrawing` and `EndDrawing`: the calls of
-- raylib, in order.
--
-- The size of the screen, the width of a text and the moment of the drawing are what raylib answers.
-- A coordinate is an `int`, as its bit pattern.
pub mod Cover
pub mod Aim
pub mod Table
use otus_c.Common.{ℕ, zero, suc, ◌+◌, ◌-◌, ◌*◌, ◌/◌, ◌%◌, ◌^◌, Bool, true, false, ◌||◌, ◌&&◌}
use otus_c.Common.{Option, none, some, List, [], ◌∷◌, ◌++◌, ltb, ◌==◌, if◌then◌else◌, get_or}
use otus_c.Common.{Text, text, c_string, int_text, to_int, length}
use otus_c.Minesweeper.{Cell, Grid, at, count_flags, rows}
use otus_c.Minesweeper.Game.{Game, HighScore, nobody, state_menu, state_difficulty, state_game}
use otus_c.Minesweeper.Game.{state_input, state_highscores, GameState}

-- `faded` is `Fade`, in tenths.
pub data Colour : Type 0 where
  raywhite darkgray lightgray black green orange red white gray maroon : Colour
  faded : Colour → ℕ → Colour

pub record Rectangle : Type 0 where
  pub left : ℕ
  pub top : ℕ
  pub width : ℕ
  pub height : ℕ

pub data Picture : Type 0 where
  mine_texture flag_texture : Picture

-- `draw_texture_pro` has the whole picture for its source, no rotation and no tint;
-- `draw_rectangle` is `DrawRectangle` and `DrawRectangleRec`.
pub data Draw : Type 0 where
  clear_background : Colour → Draw
  draw_rectangle : Rectangle → Colour → Draw
  draw_texture_pro : Picture → Rectangle → Draw
  draw_text : Text → ℕ → ℕ → ℕ → Colour → Draw

-- What raylib answers: `seconds_since` is `(int)(GetTime() - startTime)`.
pub record Screen : Type 0 where
  pub screen_width : ℕ
  pub screen_height : ℕ
  pub measure_text : Text → ℕ → ℕ
  pub seconds_since : ℕ → ℕ

abbrev pub rect : ℕ → ℕ → ℕ → ℕ → Rectangle
rect x y w h = record { left = x; top = y; width = w; height = h }

-- The place of the cell on the screen.
abbrev pub dest : ℕ → ℕ → Rectangle
dest i j = rect (i * 40) (j * 40) 38 38

abbrev pub number_text : ℕ → ℕ → ℕ → List Draw
number_text i j n =
    if ltb 0 n && ltb n (2 ^ 31)
    then draw_text (int_text n) (i * 40 + 15) (j * 40 + 10) 20 darkgray ∷ []
    else []

-- The body of the loops over `i` and `j`, for the cell `c` there.
unfoldable pub draw_cell : ℕ → ℕ → Cell → List Draw
draw_cell i j c =
    if c.is_revealed
    then draw_rectangle (dest i j) lightgray
      ∷ (if c.has_mine
          then draw_texture_pro mine_texture (dest i j) ∷ []
          else number_text i j c.neighbor_count)
    else draw_rectangle (dest i j) gray
      ∷ (if c.is_flagged then draw_texture_pro flag_texture (dest i j) ∷ [] else [])

-- The first `n` rounds of the loops: round k is at i = k / ROWS, j = k % ROWS.
pub draw_cells : ℕ → Grid → List Draw
unfolding draw_cell
draw_cells zero grid = []
draw_cells (suc n) grid =
    draw_cells n grid ++ draw_cell (n / rows) (n % rows) (at grid (n / rows) (n % rows))

-- `%03d` of an `int`.
abbrev pub int_text_3 : ℕ → Text
int_text_3 n =
    if ltb n 10
    then text "00" ++ int_text n
    else if ltb n 100
    then text "0" ++ int_text n
    else if ltb (2 ^ 32 - 10) n
    then text "-0" ++ int_text (2 ^ 32 - n)
    else int_text n

-- `timeNow`
abbrev pub time_now : Screen → Game → ℕ
time_now scr s =
    if s.game_over || s.game_won then s.final_time_in_seconds else scr.seconds_since s.start_time

pub status_bar : Screen → Game → List Draw
unfolding count_flags
status_bar scr s =
    draw_rectangle (rect 0 (10 * 40) scr.screen_width 40) darkgray
    ∷ draw_text
        (text "MINES: " ++ int_text (to_int (s.mines_to_place + (2 ^ 32 - count_flags s.grid)))) 15
        410 18 white
    ∷ draw_text (text "TIME: " ++ (int_text_3 (time_now scr s) ++ text "s")) 280 410 18 white
    ∷ []

-- Half of an `int`, rounded towards 0.
abbrev pub half : ℕ → ℕ
half v = if ltb v (2 ^ 31) then v / 2 else to_int (2 ^ 32 - (2 ^ 32 - v) / 2)

-- A text in the middle of the screen, `dy` (an `int`) below its middle.
abbrev pub centred : Screen → Text → ℕ → ℕ → Colour → Draw
centred scr t dy size colour =
    draw_text t (half (to_int (scr.screen_width + (2 ^ 32 - scr.measure_text t size))))
      (to_int (half scr.screen_height + dy)) size colour

pub wasted : Screen → List Draw
wasted scr =
    draw_rectangle (rect 0 0 scr.screen_width scr.screen_height) (faded black 7)
    ∷ centred scr (text "WASTED") (2 ^ 32 - 50) 60 red
    ∷ centred scr (text "Press [R] to Restart") 20 20 raywhite
    ∷ []

pub draw_game : Screen → Game → List Draw
unfolding draw_cells status_bar wasted
draw_game scr s =
    draw_cells 100 s.grid ++ (status_bar scr s ++ (if s.game_over then wasted scr else []))

-- A button of the menus: its height on the screen, its colour, its text.
abbrev pub button : ℕ → Colour → Text → ℕ → Colour → List Draw → List Draw
button y colour t x ink rest =
    draw_rectangle (rect 80 y 240 50) colour ∷ draw_text t x (y + 15) 20 ink ∷ rest

pub draw_menu : List Draw
draw_menu =
    draw_text (text "MINESWEEPER") 60 60 40 darkgray
    ∷ button 140 lightgray (text "START GAME") 135 black
        (button 210 lightgray (text "TOP PLAYERS") 135 black [])

pub draw_difficulty : List Draw
draw_difficulty =
    draw_text (text "SELECT DIFFICULTY") 65 40 25 darkgray
    ∷ button 100 green (text "EASY (10)") 145 white (
        button 170 orange (text "NORMAL (15)") 135 white
          (button 240 red (text "HARD (20)") 145 white []))

pub draw_input : Screen → Game → List Draw
unfolding c_string
draw_input scr s =
    draw_rectangle (rect 0 0 scr.screen_width scr.screen_height) (faded black 8)
    ∷ draw_text (text "YOU WON!") 140 50 30 green
    ∷ draw_text (text "ENTER YOUR NAME:") 110 130 15 raywhite
    ∷ draw_rectangle (rect 80 160 240 50) raywhite
    ∷ draw_text (c_string s.player_name) 95 175 25 maroon
    ∷ []

-- `%d. %s - %d pts`. A name of ten characters has no zero behind it in its array: undefined.
abbrev pub score_text : ℕ → HighScore → Option Text
score_text i p =
    if ltb (length p.name) 10
    then some (
        int_text (i + 1)
        ++ (text ". " ++ (p.name ++ (text " - " ++ (int_text p.score ++ text " pts")))))
    else none

abbrev pub below : Draw → Option (List Draw) → Option (List Draw)
below d none = none
below d (some ds) = some (d ∷ ds)

-- The loop over the table from `i` on, and what is drawn behind it.
pub draw_scores : ℕ → ℕ → List HighScore → List Draw → Option (List Draw)
draw_scores zero i top_players rest = some rest
draw_scores (suc left) i top_players rest =
    let later = draw_scores left (i + 1) top_players rest in
    elim (score_text i (get_or top_players i nobody)) [
      | none ↦ none
      | some t ↦ below (draw_text t 80 (100 + i * 40) 20 black) later
    ]

pub draw_state : Screen → Game → GameState → Option (List Draw)
unfolding draw_game draw_menu draw_difficulty draw_input draw_scores
draw_state scr s state_menu = some draw_menu
draw_state scr s state_difficulty = some draw_difficulty
draw_state scr s state_game = some (draw_game scr s)
draw_state scr s state_input = some (draw_input scr s)
draw_state scr s state_highscores =
    let end = button 320 lightgray (text "BACK") 175 black [] in
    below (draw_text (text "TOP PLAYERS") 80 40 30 darkgray) (draw_scores 5 0 s.top_players end)

-- One drawing; none where it reads beyond a name.
unfoldable pub draw : Screen → Game → Option (List Draw)
unfolding draw_state
draw scr s = below (clear_background raywhite) (draw_state scr s s.current_state)
