-- ===== src/Minesweeper/Flood.antt =====
-- `revealCell` of 17-minesweeper/main.c reveals what can be reached, and no more.
use otus_c.Common.{ℕ, zero, suc, ◌+◌, ◌*◌, ◌<◌, ◌≡◌, refl, ap, ◌∙◌, arith, ◌⊎◌}
use otus_c.Common.{true, false, not, ◌||◌, Bool-cases, inl, inr, List, [], ◌∷◌}
use otus_c.Common.{length, get_or-set_ne}
use otus_c.Minesweeper.{Grid, blank, at, put, inside, neighbours, show, each, reveal_cell, rows}
use otus_c.Minesweeper.Cells.{IsInside, IsInside-inside, inside-IsInside, Adjacent}
use otus_c.Minesweeper.Cells.{
  Among-cases, Adjacent-Among, Among-Adjacent, at-put_self, same_or_other,
}
use otus_c.Minesweeper.Reveal.{Shown, IsRevealed, opens, IsFresh, Reaches, start, step}
use otus_c.Minesweeper.Reveal.{
  Grows, Grows-refl, Grows-trans, show-Grows, unrevealed, unrevealed-set,
}
use otus_c.Minesweeper.Reveal.{IsNew, Closed, Reveals, RevealsEach, stays}
use otus_c.Minesweeper.Reveal.{
  same_opens, reached_before, Reaches-IsInside, Closed-trans, Closed-refl,
}
use otus_c.Common.{◌↔◌}

module _ (n : ℕ) (f : ℕ → ℕ → Grid → Grid)
    (reveals : (x y : ℕ) (g : Grid)
      → length g ≡ 100
      → unrevealed g < n
      → Reveals x y g (f x y g)) where
  each-Reveals :
      (ps : List (ℕ × ℕ)) (g : Grid)
      → length g ≡ 100
      → unrevealed g < n
      → RevealsEach ps g (each f ps g)
  unfolding each
  each-Reveals [] g l m = record {
    grows = Grows-refl g;
    fewer = omega arith;
    closed = Closed-refl g;
    shown = λ x y (i, e) k. absurd (ground (arith, e));
    sound = λ a b w. absurd (ground (arith, w.0.1, w.1));
  }
  each-Reveals ((x, y) ∷ ps) g l m =
      let h = f x y g in
      let s = reveals x y g l m in
      let r = each-Reveals ps h (s.grows.same_length ∙ l) (omega (arith, s.fewer)) in
      record {
        grows = Grows-trans g h (each f ps h) s.grows r.grows;
        fewer = omega (arith, s.fewer, r.fewer);
        closed = Closed-trans g h (each f ps h) s.grows r.grows s.closed r.closed;
        shown = λ u v m k. elim (Among-cases x y ps u v m) [
          | inl q ↦
              let k' : IsInside x y = rw (q.0, q.1) k in
              let t : IsRevealed h u v = rw (← q.0, ← q.1) (s.shown k') in
              stays h (each f ps h) u v r.grows t
          | inr q ↦ r.shown u v q k
        ];
        sound = λ a b w. elim (Bool-cases ((at h a b).is_revealed)) [
          | inl q ↦ (x, y, (0, refl), s.sound a b (w.0, q))
          | inr q ↦
              let (u, v, (i, e), c) = r.sound a b ((w.0.0, q), w.1) in
              (u, v, (suc i, e), reached_before g h a b u v s.grows c)
        ];
      }

-- The only new cell of a single write.
only_new :
    (x y a b : ℕ) (g : Grid)
    → length g ≡ 100
    → IsInside x y
    → IsNew g (put x y (show (at g x y)) g) a b
    → (x ≡ a) × (y ≡ b)
only_new x y a b g l h n = elim (same_or_other x y a b h n.0.0) [
  | inl e ↦ e
  | inr e ↦
      let t = get_or-set_ne g (x * rows + y) (a * rows + b) (show (at g x y)) blank e in
      absurd (ground (arith, t, n.0.1, n.1))
]

reveal_one :
    (x y : ℕ) (g : Grid)
    → length g ≡ 100
    → IsFresh g x y
    → opens (at g x y) ≡ false
    → Reveals x y g (put x y (show (at g x y)) g)
reveal_one x y g l h o =
    let c = show (at g x y) in
    let less = unrevealed-set g (x * rows + y) c (omega (arith, h.0.0, h.0.1)) h.1 refl in
    record {
      grows = show-Grows x y g l h;
      fewer = omega (arith, less);
      closed = λ a b u v n p j k.
          let e = only_new x y a b g l h.0 n in absurd (ground (arith, e.0, e.1, o, p));
      shown = λ k. ap (λ d. d.is_revealed) (at-put_self x y c g l h.0);
      sound = λ a b n. let e = only_new x y a b g l h.0 n in rw (e.0, e.1) (start n.0);
    }

reveal_around :
    (n x y : ℕ) (f : ℕ → ℕ → Grid → Grid) (g : Grid)
    → ((x y : ℕ) (g : Grid) → length g ≡ 100 → unrevealed g < n → Reveals x y g (f x y g))
    → length g ≡ 100
    → unrevealed g < suc n
    → IsFresh g x y
    → opens (at g x y) ≡ true
    → Reveals x y g (each f (neighbours x y) (put x y (show (at g x y)) g))
reveal_around n x y f g reveals l m h o =
    let c = show (at g x y) in
    let w = show-Grows x y g l h in
    let g' = put x y c g in
    let less = unrevealed-set g (x * rows + y) c (omega (arith, h.0.0, h.0.1)) h.1 refl in
    let i = each f (neighbours x y) g' in
    let r =
      each-Reveals n f reveals (neighbours x y) g' (w.same_length ∙ l) (omega (arith, less)) in
    record {
      grows = Grows-trans g g' i w r.grows;
      fewer = omega (arith, less, r.fewer);
      closed = λ a b u v q p j k. elim (Bool-cases ((at g' a b).is_revealed)) [
        | inl t ↦
            let e = only_new x y a b g l h.0 (q.0, t) in
            let j' : Adjacent x y u v = rw (e.0, e.1) j in
            r.shown u v (Adjacent-Among x y u v h.0 k j') k
        | inr t ↦ r.closed a b u v ((q.0.0, t), q.1) (same_opens g g' a b w ∙ p) j k
      ];
      shown = λ k. stays g' i x y r.grows (ap (λ d. d.is_revealed) (at-put_self x y c g l h.0));
      sound = λ a b q. elim (Bool-cases ((at g' a b).is_revealed)) [
        | inl t ↦ let e = only_new x y a b g l h.0 (q.0, t) in rw (e.0, e.1) (start q.0)
        | inr t ↦
            let (u, v, k, z) = r.sound a b ((q.0.0, t), q.1) in
            let b' = reached_before g g' a b u v w z in
            step h o (Among-Adjacent x y u v h.0 k (Reaches-IsInside g a b u v b')) b'
      ];
    }

reveal_cell-Reveals :
    (n x y : ℕ) (g : Grid) → length g ≡ 100 → unrevealed g < n → Reveals x y g (reveal_cell n x y g)
unfolding reveal_cell
reveal_cell-Reveals zero x y g l m = absurd (omega arith)
reveal_cell-Reveals (suc n) x y g l m =
    elim (Bool-cases (not (inside x y) || (at g x y).is_revealed)) [
      | inl e ↦
          rw (e, reveal_cell)
            (record {
              grows = Grows-refl g;
              fewer = omega arith;
              closed = Closed-refl g;
              shown = λ k. ground (arith, e, IsInside-inside x y k);
              sound = λ a b q. absurd (ground (arith, q.0.1, q.1));
            })
      | inr e ↦
          let h : IsFresh g x y = (inside-IsInside x y (ground (arith, e)), ground (arith, e)) in
          elim (Bool-cases (opens (at g x y))) [
            | inl o ↦
                rw (e, o, reveal_cell)
                  (reveal_around n x y (reveal_cell n) g (reveal_cell-Reveals n) l m h o)
            | inr o ↦ rw (e, o, reveal_cell) (reveal_one x y g l h o)
          ]
    ]

all_reached :
    (g h : Grid) (a b x y : ℕ)
    → Closed g h
    → Reaches g a b x y
    → IsRevealed h x y
    → IsRevealed h a b
all_reached g h a b x y c (start f) r = r
all_reached g h a b x y c (step {u = u} {v = v} f o j t) r =
    all_reached g h a b u v c t (c x y u v (f, r) o j (Reaches-IsInside g a b u v t))

pub reveal_cell_all :
    (fuel x y : ℕ) (g : Grid)
    → length g ≡ 100
    → unrevealed g < fuel
    → Grows g (reveal_cell fuel x y g)
      × ((a b : ℕ)
          → IsInside a b
          → IsRevealed (reveal_cell fuel x y g) a b ↔ (IsRevealed g a b ⊎ Reaches g a b x y))
reveal_cell_all fuel x y g l m =
    let r = reveal_cell-Reveals fuel x y g l m in
    let h = reveal_cell fuel x y g in
    (
      r.grows,
      λ a b k. (
        λ s. elim (Bool-cases ((at g a b).is_revealed)) [
          | inl t ↦ inl t
          | inr t ↦ inr (r.sound a b ((k, t), s))
        ],
        λ s. elim s [
          | inl t ↦ stays g h a b r.grows t
          | inr t ↦ all_reached g h a b x y r.closed t (r.shown (Reaches-IsInside g a b x y t))
        ],
      ),
    )

-- On a field of 100 cells, with more fuel than there are cells left to reveal, for any cell (a, b) of
-- the field: `revealCell` leaves the cell as it was or only reveals it, and the cell is revealed
-- afterwards exactly if it was before or can be reached from (x, y) through cells that were not
-- revealed, each but the last with no mines around.
pub reveal_cell-Reaches :
    (fuel x y a b : ℕ) (g : Grid)
    → length g ≡ 100
    → unrevealed g < fuel
    → IsInside a b
    → Shown (at g a b) (at (reveal_cell fuel x y g) a b)
      × (IsRevealed (reveal_cell fuel x y g) a b ↔ (IsRevealed g a b ⊎ Reaches g a b x y))
reveal_cell-Reaches fuel x y a b g l m k =
    let (grows, exactly) = reveal_cell_all fuel x y g l m in
    (grows.cell (a * rows + b), exactly a b k)
