-- ===== src/Minesweeper/Game/Play.antt =====
-- The invariant of the game of 17-minesweeper/main.c, from its start and through every frame.
use otus_c.Common.{ℕ, ◌≤◌, ◌≡◌, refl, sym, subst, arith}
use otus_c.Common.{Bool, true, false, not, ◌&&◌, ◌||◌, Bool-cases, Option, none, some, inl, inr}
use otus_c.Common.{List, length, get_or, if◌then◌else◌}
use otus_c.Minesweeper.{Grid, at, put, inside, init_grid, reveal_cell, check_win, reveal_all_mines}
use otus_c.Minesweeper.Cells.{IsInside, inside-IsInside}
use otus_c.Minesweeper.Mines.{init_grid-Initial, Initial}
use otus_c.Minesweeper.Game.{Game, Frame, GameState, state_menu, state_game, HighScore}
use otus_c.Minesweeper.Game.{
  state_difficulty, state_highscores, difficulty_mines, enter_game, leave_some, chosen, cell_of,
}
use otus_c.Minesweeper.Game.{
  restart, restarted, leave, menu, difficulty, click, flag, play, in_game,
}
use otus_c.Minesweeper.Game.{won}
use otus_c.Minesweeper.Game.Scores.{IsRanked, AreNamed}
use otus_c.Minesweeper.Game.Field.{FieldOk, Initial-FieldOk, reveal_cell-FieldOk, flag-FieldOk}
use otus_c.Minesweeper.Game.Field.{reveal_all_mines-FieldOk, IsCleared, check_win-IsCleared}
use otus_c.Minesweeper.Game.Field.{flag-IsCleared}

-- The table has five entries and does not rise, and names in it that fill their array are those of
-- the start; the name typed so far has at most 9 characters, with
-- a zero behind them in its array of 10.
pub record PlayersOk (top_players : List HighScore) (player_name : List ℕ) (letter_count : ℕ)
    : Type 0 where
  pub five : length top_players ≡ 5
  pub ranked : IsRanked top_players
  pub named : AreNamed top_players
  pub array : length player_name ≡ 10
  pub letters : letter_count ≤ 9
  pub ended : get_or player_name letter_count 1 ≡ 0

abbrev pub Players : Game → Type 0
Players s = PlayersOk s.top_players s.player_name s.letter_count

pub record IsValid (s : Game) : Type 0 where
  pub players : Players s
  pub field : FieldOk s.mines_to_place s.game_over s.grid
  pub cleared : s.game_won ≡ true → IsCleared s.grid

pub state-IsValid :
    (s : Game) (t : GameState) → IsValid s → IsValid (record s { current_state = t })
state-IsValid s t v = record { players = v.players; field = v.field; cleared = v.cleared }

pub either-IsValid : (b : Bool) (s t : Game) → IsValid s → IsValid t → IsValid (if b then s else t)
either-IsValid true s t v w = v
either-IsValid false s t v w = w

pub leave-IsValid : (f : Frame) (s : Game) → IsValid s → IsValid (leave f s)
leave-IsValid f s v =
    either-IsValid f.escape (record s { current_state = state_menu }) s
      (state-IsValid s state_menu v) v

-- The game that there is, if there is one, is valid.
abbrev pub AllValid : Option Game → Type 0
AllValid none = Unit
AllValid (some s) = IsValid s

either-AllValid :
    (b : Bool) (o p : Option Game) → AllValid o → AllValid p → AllValid (if b then o else p)
either-AllValid true o p v w = v
either-AllValid false o p v w = w

restarted-AllValid :
    (now : ℕ) (s : Game) (o : Option (Grid × List ℕ))
    → Players s
    → ((g : Grid) (r : List ℕ) → o ≡ some (g, r) → Initial s.mines_to_place g)
    → AllValid (restarted now s o)
restarted-AllValid now s none v i = tt
restarted-AllValid now s (some (g, r)) v i = record {
  players = v;
  field = Initial-FieldOk s.mines_to_place g (i g r refl);
  cleared = λ w. absurd (ground (arith, w));
}

restart-AllValid : (f : Frame) (s : Game) → Players s → AllValid (restart f s)
unfolding restart
restart-AllValid f s v =
    restarted-AllValid f.now s (init_grid f.rands s.mines_to_place) v
      (λ g r e. init_grid-Initial f.rands s.mines_to_place g r e)

pub menu-IsValid : (f : Frame) (s : Game) → IsValid s → IsValid (menu f s)
unfolding menu
menu-IsValid f s v =
    let d = record s { current_state = state_difficulty } in
    let s' = if f.on_button 140 then d else s in
    let v' = either-IsValid (f.on_button 140) d s (state-IsValid s state_difficulty v) v in
    let h = record s' { current_state = state_highscores } in
    either-IsValid f.left_button (if f.on_button 210 then h else s') s
      (either-IsValid (f.on_button 210) h s' (state-IsValid s' state_highscores v') v') v

enter_game-AllValid : (f : Frame) (o : Option Game) → AllValid o → AllValid (enter_game f o)
enter_game-AllValid f none v = tt
enter_game-AllValid f (some s) v =
    leave-IsValid f (record s { current_state = state_game }) (state-IsValid s state_game v)

leave_some-AllValid : (f : Frame) (o : Option Game) → AllValid o → AllValid (leave_some f o)
leave_some-AllValid f none v = tt
leave_some-AllValid f (some s) v = leave-IsValid f s v

chosen-AllValid : (f : Frame) (s : Game) (o : Option ℕ) → IsValid s → AllValid (chosen f s o)
chosen-AllValid f s none v = v
chosen-AllValid f s (some n) v =
    let t : Game = record s { mines_to_place = n } in
    enter_game-AllValid f (restart f t) (restart-AllValid f t v.players)

pub difficulty-AllValid : (f : Frame) (s : Game) → IsValid s → AllValid (difficulty f s)
unfolding difficulty
difficulty-AllValid f s v =
    either-AllValid f.left_button (chosen f s (difficulty_mines f)) (some (leave f s))
      (chosen-AllValid f s (difficulty_mines f) v) (leave-IsValid f s v)

module _ (f : Frame) (x y : ℕ) (s : Game) (o : s.game_over ≡ false) (w : s.game_won ≡ false)
    (v : IsValid s) where
  lost-IsValid : IsValid (record s { game_over = true; grid = reveal_all_mines s.grid })
  lost-IsValid = record {
    players = v.players;
    field = reveal_all_mines-FieldOk s.mines_to_place s.game_over s.grid v.field;
    cleared = λ e. absurd (ground (arith, w, e));
  }

  shown-FieldOk :
      (at s.grid x y).has_mine ≡ false
      → FieldOk s.mines_to_place s.game_over (reveal_cell 101 x y s.grid)
  shown-FieldOk m =
      subst (λ b. FieldOk s.mines_to_place b (reveal_cell 101 x y s.grid)) (sym o)
        (reveal_cell-FieldOk s.mines_to_place x y s.grid
          (subst (λ b. FieldOk s.mines_to_place b s.grid) o v.field) m)

  -- A click is possible only while the game is neither lost nor won.
  click-IsValid : IsValid (click f x y s)
  unfolding click
  click-IsValid =
      let c = at s.grid x y in
      let s' : Game = record s { grid = reveal_cell 101 x y s.grid } in
      elim (Bool-cases (c.is_flagged || c.is_revealed)) [
        | inl a ↦ rw (a) v
        | inr a ↦ elim (Bool-cases c.has_mine) [
          | inl m ↦ subst IsValid (ground (arith, a, m)) lost-IsValid
          | inr m ↦ elim (Bool-cases (check_win s'.grid)) [
            | inl q ↦
                let e : won f s' ≡ click f x y s = ground (arith, a, m, q) in
                subst IsValid e (record {
                  players = v.players;
                  field = shown-FieldOk m;
                  cleared = λ e. check_win-IsCleared s'.grid (shown-FieldOk m).len q;
                })
            | inr q ↦
                let e : s' ≡ click f x y s = ground (arith, a, m, q) in
                subst IsValid e (record {
                  players = v.players;
                  field = shown-FieldOk m;
                  cleared = λ e. absurd (ground (arith, w, e));
                })
          ]
        ]
      ]

flag-IsValid : (x y : ℕ) (s : Game) → IsInside x y → IsValid s → IsValid (flag x y s)
unfolding flag
flag-IsValid x y s i v =
    let b = not (at s.grid x y).is_flagged in
    let c = record (at s.grid x y) { is_flagged = b } in
    either-IsValid (at s.grid x y).is_revealed s (record s { grid = put x y c s.grid }) v
      (record {
        players = v.players;
        field = flag-FieldOk s.mines_to_place x y s.game_over b s.grid i v.field;
        cleared = λ e. flag-IsCleared x y b s.grid v.field.len i (v.cleared e);
      })

play-IsValid :
    (f : Frame) (s : Game)
    → s.game_over ≡ false
    → s.game_won ≡ false
    → IsValid s
    → IsValid (play f s)
unfolding play
play-IsValid f s o w v =
    let x = cell_of f.mouse_x in
    let y = cell_of f.mouse_y in
    let s' = if f.left_button then click f x y s else s in
    let v' = either-IsValid f.left_button (click f x y s) s (click-IsValid f x y s o w v) v in
    elim (Bool-cases (inside x y)) [
      | inl i ↦ rw (i) (
          either-IsValid f.right_button (flag x y s') s'
            (flag-IsValid x y s' (inside-IsInside x y i) v') v')
      | inr i ↦ rw (i) v
    ]

pub in_game-AllValid : (f : Frame) (s : Game) → IsValid s → AllValid (in_game f s)
unfolding in_game
in_game-AllValid f s v = elim (Bool-cases (not s.game_over && not s.game_won)) [
  | inl e ↦
      rw (e)
        (leave-IsValid f (play f s) (play-IsValid f s (ground (arith, e)) (ground (arith, e)) v))
  | inr e ↦ rw (e) (
      either-AllValid f.key_r (leave_some f (restart f s)) (some (leave f s))
        (leave_some-AllValid f (restart f s) (restart-AllValid f s v.players))
        (leave-IsValid f s v))
]
