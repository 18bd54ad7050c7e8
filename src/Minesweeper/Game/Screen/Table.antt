-- ===== src/Minesweeper/Game/Screen/Table.antt =====
-- When the table of scores of 17-minesweeper/main.c is drawn from names without a zero behind them.
use otus_c.Common.{ℕ, suc, ◌+◌, ◌≡◌, refl, ap, subst, ◌∙◌, arith}
use otus_c.Common.{Bool, true, false, not, ◌&&◌, ◌||◌, Bool-cases, inl, inr, Option, none, some}
use otus_c.Common.{List, [], ◌∷◌, length, ltb, lt→ltb, str_eq, str_eq→≡, text}
use otus_c.Common.{get_or}
use otus_c.Minesweeper.Game.{Game, GameState, HighScore, state_menu, state_difficulty, state_game}
use otus_c.Minesweeper.Game.{state_highscores, state_input, nobody}
use otus_c.Minesweeper.Game.Scores.{IsNamed, AreNamed, five_elements}
use otus_c.Minesweeper.Game.Frames.{Reachable, Reachable-IsValid}
use otus_c.Minesweeper.Game.Screen.{Draw, Screen, below, draw_scores, draw_state, draw}

-- Whether there is no result.
abbrev pub is_none {ℓ} : {A : Type ℓ} → Option A → Bool
is_none none = true
is_none (some a) = false

abbrev pub shows_table : GameState → Bool
shows_table state_highscores = true
shows_table _ = false

-- Whether the name of the start that fills its array is in the table.
abbrev pub has_duke : List HighScore → Bool
has_duke [] = false
has_duke (p ∷ l) = str_eq p.name (text "Duke Nukem") || has_duke l

is_none-below : (d : Draw) (o : Option (List Draw)) → is_none (below d o) ≡ is_none o
is_none-below d none = refl
is_none-below d (some ds) = refl

is_duke :
    (p : HighScore) → IsNamed p → str_eq p.name (text "Duke Nukem") ≡ not (ltb (length p.name) 10)
is_duke p (inl h) = elim (Bool-cases (str_eq p.name (text "Duke Nukem"))) [
  | inl e ↦
      let q : length p.name ≡ 10 = ap length (str_eq→≡ p.name (text "Duke Nukem") e) in
      absurd (omega arith)
  | inr e ↦ rw (e, lt→ltb (length p.name) 10 h) refl
]
is_duke p (inr e) = rw (e) refl

is_none-draw_scores :
    (left i : ℕ) (l : List HighScore) (rest : List Draw)
    → IsNamed (get_or l i nobody)
    → is_none (draw_scores (suc left) i l rest) ≡ (
        str_eq (get_or l i nobody).name (text "Duke Nukem")
        || is_none (draw_scores left (i + 1) l rest))
unfolding draw_scores
is_none-draw_scores left i l rest n =
    let p = get_or l i nobody in
    elim (Bool-cases (ltb (length p.name) 10)) [
      | inl e ↦ rw (is_duke p n, draw_scores, e) (is_none-below _ (draw_scores left (i + 1) l rest))
      | inr e ↦ rw (is_duke p n, draw_scores, e) refl
    ]

draw_five :
    (a b c d e : HighScore) (rest : List Draw)
    → AreNamed (a ∷ b ∷ c ∷ d ∷ e ∷ [])
    → let l = a ∷ b ∷ c ∷ d ∷ e ∷ [] in is_none (draw_scores 5 0 l rest) ≡ has_duke l
unfolding draw_scores
draw_five a b c d e rest (m, (n, (o, (p, (q, r))))) =
    let l : List HighScore = a ∷ b ∷ c ∷ d ∷ e ∷ [] in
    rw
      (
        is_none-draw_scores 4 0 l rest m,
        is_none-draw_scores 3 1 l rest n,
        is_none-draw_scores 2 2 l rest o,
        is_none-draw_scores 1 3 l rest p,
        is_none-draw_scores 0 4 l rest q,
      )
      refl

draw_table :
    (l : List HighScore) (rest : List Draw)
    → length l ≡ 5
    → AreNamed l
    → is_none (draw_scores 5 0 l rest) ≡ has_duke l
draw_table l rest h n =
    let (a, b, c, d, e, q) = five_elements l h in
    rw (q) (draw_five a b c d e rest (subst AreNamed q n))

state_table :
    (scr : Screen) (s : Game) (t : GameState)
    → length s.top_players ≡ 5
    → AreNamed s.top_players
    → is_none (draw_state scr s t) ≡ (shows_table t && has_duke s.top_players)
unfolding draw_state
state_table scr s state_menu h n = refl
state_table scr s state_difficulty h n = refl
state_table scr s state_game h n = refl
state_table scr s state_highscores h n =
    is_none-below _ (draw_scores 5 0 s.top_players _) ∙ draw_table s.top_players _ h n
state_table scr s state_input h n = refl

-- In every game that is reached, the drawing of a frame is defined except for the table of scores
-- while `Duke Nukem` is in it: his name leaves no room for its zero, and no other name does so.
pub is_none-draw :
    (scr : Screen) (s : Game)
    → Reachable s
    → is_none (draw scr s) ≡ (shows_table s.current_state && has_duke s.top_players)
unfolding draw
is_none-draw scr s r =
    let v = (Reachable-IsValid s r).players in
    is_none-below _ (draw_state scr s s.current_state)
    ∙ state_table scr s s.current_state v.five v.named
