-- ===== src/Minesweeper/Game/Scores.antt =====
-- The table of scores of 17-minesweeper/main.c stays sorted, and `addScore` inserts.
use otus_c.Common.{
  ℕ, zero, suc, ◌≤◌, ◌≡◌, refl, List, [], ◌∷◌, length, length-take, take, ltb, if◌then◌else◌,
}
use otus_c.Common.{◌<◌, ◌⊎◌, text}
use otus_c.Common.{subst, arith, ltb→lt, ltb→le, Bool-cases, inl, inr}
use otus_c.Minesweeper.Game.{HighScore, shift_scores, add_from, add_score}

-- The scores do not rise.
abbrev pub IsRanked : List HighScore → Type 0
IsRanked [] = Unit
IsRanked (a ∷ []) = Unit
IsRanked (a ∷ (b ∷ l)) = (b.score ≤ a.score) × IsRanked (b ∷ l)

-- A name that leaves room for its zero, or the one of the start that does not.
abbrev pub IsNamed : HighScore → Type 0
IsNamed p = (length p.name < 10) ⊎ (p.name ≡ text "Duke Nukem")

abbrev pub AreNamed : List HighScore → Type 0
AreNamed [] = Unit
AreNamed (p ∷ l) = IsNamed p × AreNamed l

-- Insertion behind all scores that are as good.
abbrev pub insert : HighScore → List HighScore → List HighScore
insert new [] = new ∷ []
insert new (a ∷ l) = if ltb a.score new.score then new ∷ a ∷ l else a ∷ insert new l

add_score_five :
    (new a b c d e : HighScore)
    → add_score new (a ∷ b ∷ c ∷ d ∷ e ∷ []) ≡ take 5 (insert new (a ∷ b ∷ c ∷ d ∷ e ∷ []))
unfolding add_score add_from shift_scores
add_score_five new a b c d e = ground arith

pub five_elements :
    (l : List HighScore)
    → length l ≡ 5
    → (a : HighScore) × (b : HighScore) × (c : HighScore) × (d : HighScore) × (e : HighScore) × (l
        ≡ a ∷ b ∷ c ∷ d ∷ e ∷ [])
five_elements [] h = absurd (omega arith)
five_elements (a ∷ []) h = absurd (omega arith)
five_elements (a ∷ (b ∷ [])) h = absurd (omega arith)
five_elements (a ∷ (b ∷ (c ∷ []))) h = absurd (omega arith)
five_elements (a ∷ (b ∷ (c ∷ (d ∷ [])))) h = absurd (omega arith)
five_elements (a ∷ (b ∷ (c ∷ (d ∷ (e ∷ []))))) h = (a, b, c, d, e, refl)
five_elements (a ∷ (b ∷ (c ∷ (d ∷ (e ∷ (f ∷ l)))))) h = absurd (omega arith)

insert-IsRanked : (new : HighScore) (l : List HighScore) → IsRanked l → IsRanked (insert new l)
insert-IsRanked new [] r = tt
insert-IsRanked new (a ∷ []) r = elim (Bool-cases (ltb a.score new.score)) [
  | inl t ↦ rw (t) (omega (arith, ltb→lt a.score new.score t), tt)
  | inr t ↦ rw (t) (omega (arith, ltb→le a.score new.score t), tt)
]
insert-IsRanked new (a ∷ (b ∷ l)) r =
    let rest = insert-IsRanked new (b ∷ l) r.1 in
    elim (Bool-cases (ltb a.score new.score)) [
      | inl t ↦ rw (t) (omega (arith, ltb→lt a.score new.score t), r)
      | inr t ↦ elim (Bool-cases (ltb b.score new.score)) [
        | inl u ↦
            rw (t, u)
              (
                omega (arith, ltb→le a.score new.score t),
                (omega (arith, ltb→lt b.score new.score u), r.1),
              )
        | inr u ↦
            rw (t, u)
              (r.0, subst (λ k. IsRanked (if k then new ∷ b ∷ l else b ∷ insert new l)) u rest)
      ]
    ]

length-insert : (new : HighScore) (l : List HighScore) → length (insert new l) ≡ suc (length l)
length-insert new [] = refl
length-insert new (a ∷ l) = ground (arith, length-insert new l)

take-IsRanked : (n : ℕ) (l : List HighScore) → IsRanked l → IsRanked (take n l)
take-IsRanked zero l r = tt
take-IsRanked (suc n) [] r = tt
take-IsRanked (suc zero) (a ∷ []) r = tt
take-IsRanked (suc (suc n)) (a ∷ []) r = tt
take-IsRanked (suc zero) (a ∷ (b ∷ l)) r = tt
take-IsRanked (suc (suc n)) (a ∷ (b ∷ l)) r = (r.0, take-IsRanked (suc n) (b ∷ l) r.1)

-- A table of five that does not rise still does not rise, and still has five entries, after
-- `addScore`, which inserts the new score behind those as good and drops the last.
pub add_score-insert :
    (new : HighScore) (l : List HighScore)
    → length l ≡ 5
    → IsRanked l
    → (add_score new l ≡ take 5 (insert new l))
      × IsRanked (add_score new l)
      × (length (add_score new l) ≡ 5)
add_score-insert new l h r =
    let (a, b, c, d, e, q) = five_elements l h in
    let five : add_score new l ≡ take 5 (insert new l) = rw (q) (add_score_five new a b c d e) in
    (
      five,
      rw (five) (take-IsRanked 5 (insert new l) (insert-IsRanked new l r)),
      rw (five) (length-take 5 (insert new l) (omega (arith, length-insert new l, h))),
    )

insert-AreNamed :
    (new : HighScore) (l : List HighScore) → IsNamed new → AreNamed l → AreNamed (insert new l)
insert-AreNamed new [] n h = (n, tt)
insert-AreNamed new (a ∷ l) n h = elim (Bool-cases (ltb a.score new.score)) [
  | inl e ↦ rw (e) (n, h)
  | inr e ↦ rw (e) (h.0, insert-AreNamed new l n h.1)
]

take-AreNamed : (n : ℕ) (l : List HighScore) → AreNamed l → AreNamed (take n l)
take-AreNamed zero l h = tt
take-AreNamed (suc n) [] h = tt
take-AreNamed (suc n) (a ∷ l) h = (h.0, take-AreNamed n l h.1)

pub add_score-AreNamed :
    (new : HighScore) (l : List HighScore)
    → length l ≡ 5
    → IsRanked l
    → IsNamed new
    → AreNamed l
    → AreNamed (add_score new l)
add_score-AreNamed new l h r n m =
    let (e, ranked, five) = add_score-insert new l h r in
    rw (e) (take-AreNamed 5 (insert new l) (insert-AreNamed new l n m))
