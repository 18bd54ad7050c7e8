-- ===== src/Minesweeper/Game/Names.antt =====
-- The name that is typed after a won game of 17-minesweeper/main.c: it never leaves its array.
use otus_c.Common.{ℕ, zero, suc, ◌+◌, ◌-◌, ◌<◌, ◌≤◌, ◌≡◌, ◌∙◌, arith}
use otus_c.Common.{◌&&◌, Bool-cases, inl, inr, List, [], ◌∷◌, length, get_or, set, length-set}
use otus_c.Common.{get_or-set_self, if◌then◌else◌, ltb, leb, ltb→lt, c_string}
use otus_c.Minesweeper.Game.{Game, Frame, HighScore, type_chars, erase, submit, input, final_score}
use otus_c.Minesweeper.Game.Scores.{add_score-insert, add_score-AreNamed}
use otus_c.Minesweeper.Game.Play.{IsValid, either-IsValid}

type_chars-IsValid : (keys : List ℕ) (s : Game) → IsValid s → IsValid (type_chars keys s)
unfolding type_chars
type_chars-IsValid [] s v = v
type_chars-IsValid (key ∷ keys) s v =
    let n = s.letter_count in
    let name = set (set s.player_name n key) (n + 1) 0 in
    let typed : Game = record s { player_name = name; letter_count = n + 1 } in
    let wide : length name ≡ 10 =
      length-set (set s.player_name n key) (n + 1) 0
      ∙ length-set s.player_name n key
      ∙ v.players.array in
    elim (Bool-cases (leb 32 key && (leb key 125 && ltb n 9))) [
      | inr e ↦ rw (e) (type_chars-IsValid keys s v)
      | inl e ↦
          let small : n < 9 = ltb→lt n 9 (ground (arith, e)) in
          rw (e) (
            type_chars-IsValid keys typed (record {
              players = record {
                five = v.players.five;
                ranked = v.players.ranked;
                named = v.players.named;
                array = wide;
                letters = omega arith;
                ended =
                    get_or-set_self (set s.player_name n key) (n + 1) 0 1
                      (omega (arith, small, length-set s.player_name n key, v.players.array));
              };
              field = v.field;
              cleared = v.cleared;
            }))
    ]

erase-IsValid : (s : Game) → IsValid s → IsValid (erase s)
unfolding erase
erase-IsValid s v = record {
  players = record {
    five = v.players.five;
    ranked = v.players.ranked;
    named = v.players.named;
    array = length-set s.player_name (s.letter_count - 1) 0 ∙ v.players.array;
    letters = omega (arith, v.players.letters);
    ended =
        get_or-set_self s.player_name (s.letter_count - 1) 0 1
          (omega (arith, v.players.letters, v.players.array));
  };
  field = v.field;
  cleared = v.cleared;
}

short_string : (l : List ℕ) (n : ℕ) → get_or l n 1 ≡ 0 → length (c_string l) ≤ n
unfolding c_string
short_string [] n e = omega arith
short_string (c ∷ l) zero e = ground arith
short_string (c ∷ l) (suc n) e = ground (arith, short_string l n)

-- The name that `strcpy` copies has at most 9 characters, so it fits into the 10 of an entry.
pub name_fits : (s : Game) → IsValid s → length (c_string s.player_name) < 10
name_fits s v =
    omega (arith, short_string s.player_name s.letter_count v.players.ended, v.players.letters)

submit-IsValid : (s : Game) → IsValid s → IsValid (submit s)
unfolding submit
submit-IsValid s v =
    let new : HighScore = record { name = c_string s.player_name; score = final_score s } in
    let (same, ranked, five) = add_score-insert new s.top_players v.players.five v.players.ranked in
    record {
      players = record {
        five = five;
        ranked = ranked;
        named =
            add_score-AreNamed new s.top_players v.players.five v.players.ranked
              (inl (name_fits s v)) v.players.named;
        array = length-set s.player_name 0 0 ∙ v.players.array;
        letters = omega arith;
        ended = get_or-set_self s.player_name 0 0 1 (omega (arith, v.players.array));
      };
      field = v.field;
      cleared = v.cleared;
    }

pub input-IsValid : (f : Frame) (s : Game) → IsValid s → IsValid (input f s)
unfolding input
input-IsValid f s v =
    let t = type_chars f.chars s in
    let v' = type_chars-IsValid f.chars s v in
    let e = if f.backspace && ltb 0 t.letter_count then erase t else t in
    let w =
      either-IsValid (f.backspace && ltb 0 t.letter_count) (erase t) t (erase-IsValid t v') v' in
    either-IsValid (f.enter && ltb 0 e.letter_count) (submit e) e (submit-IsValid e w) w
