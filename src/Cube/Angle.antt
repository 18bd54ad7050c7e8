-- ===== src/Cube/Angle.antt =====
-- `angle` of 16-cube/main.c, a `float` that every tick adds 1.5 to.
use otus_c.Common.{ℕ, zero, suc, ◌+◌, ◌*◌, ◌%◌, ◌^◌, ◌<◌, ◌≤◌, ◌≡◌, refl, sym, subst, ap, ◌∙◌, ◌⊎◌}
use otus_c.Common.{inl, inr, arith, ltb, lt→ltb, ltb→le, ltb→lt, Bool-cases}
use otus_c.Cube.{turn}

-- The angle after some ticks, in halves of a degree.
unfoldable pub angle_after : ℕ → ℕ
unfolding turn
angle_after zero = 0
angle_after (suc n) = turn (angle_after n)

-- A `float` up to 2 ^ 26 halves: a multiple of the spacing.
record IsAngle (v : ℕ) : Type 0 where
  most : v ≤ 2 ^ 26
  even : (v < 2 ^ 24) ⊎ (v % 2 ≡ 0)
  fourth : (v < 2 ^ 25) ⊎ (v % 4 ≡ 0)

turn_exact : (v : ℕ) → v + 3 < 2 ^ 24 → turn v ≡ v + 3
unfolding turn
turn_exact v h = rw (lt→ltb (v + 3) (2 ^ 24) h) (ground arith)

turn_last : turn (2 ^ 26) ≡ 2 ^ 26
unfolding turn
turn_last = refl

-- From 2 ^ 24 halves on, floats are even; from 2 ^ 25 on, they are multiples of 4.
turn_even :
    (v : ℕ)
    → 2 ^ 24 ≤ v + 3
    → v + 3 < 2 ^ 25
    → (v < 2 ^ 24) ⊎ (v % 2 ≡ 0)
    → (v + 2 ≤ turn v) × (turn v ≤ v + 4) × (turn v % 2 ≡ 0)
unfolding turn
turn_even v l h e = (ground arith, ground arith, ground arith)

turn_fourth :
    (v : ℕ)
    → 2 ^ 25 ≤ v + 3
    → v + 3 < 2 ^ 26
    → v % 2 ≡ 0
    → (v < 2 ^ 25) ⊎ (v % 4 ≡ 0)
    → (v + 2 ≤ turn v) × (turn v ≤ v + 4) × (turn v % 4 ≡ 0)
unfolding turn
turn_fourth v l h e f = (ground arith, ground arith, ground arith)

below_last : (v : ℕ) → v < 2 ^ 26 → (v < 2 ^ 25) ⊎ (v % 4 ≡ 0) → v + 3 < 2 ^ 26
below_last v h f = ground arith

turn-IsAngle : (v : ℕ) → IsAngle v → v < 2 ^ 26 → IsAngle (turn v) × (v + 2 ≤ turn v)
turn-IsAngle v a h = elim (Bool-cases (ltb (v + 3) (2 ^ 24))) [
  | inl s ↦
      let e = turn_exact v (ltb→lt (v + 3) (2 ^ 24) s) in
      (
        record {
          most = omega (arith, ltb→lt (v + 3) (2 ^ 24) s);
          even = inl (omega (arith, ltb→lt (v + 3) (2 ^ 24) s));
          fourth = inl (omega (arith, ltb→lt (v + 3) (2 ^ 24) s));
        },
        omega arith,
      )
  | inr b ↦ elim (Bool-cases (ltb (v + 3) (2 ^ 25))) [
    | inl s ↦
        let t = turn_even v (ltb→le (v + 3) (2 ^ 24) b) (ltb→lt (v + 3) (2 ^ 25) s) a.even in
        (
          record {
            most = omega (arith, t.1, ltb→lt (v + 3) (2 ^ 25) s);
            even = inr t.2;
            fourth = ground (arith, t.0, t.1, t.2, ltb→lt (v + 3) (2 ^ 25) s, a.even);
          },
          t.0,
        )
    | inr c ↦
        let t =
          turn_fourth v (ltb→le (v + 3) (2 ^ 25) c) (below_last v h a.fourth)
            (ground (arith, a.even, ltb→le (v + 3) (2 ^ 25) c)) a.fourth in
        (
          record {
            most = omega (arith, t.1, below_last v h a.fourth);
            even = inr (omega (arith, t.2));
            fourth = inr t.2;
          },
          t.0,
        )
  ]
]

-- Each tick turns the cube by at least a degree until the angle is 2 ^ 26 halves of a degree.
grows : (n : ℕ) → IsAngle (angle_after n) × ((2 * n ≤ angle_after n) ⊎ (angle_after n ≡ 2 ^ 26))
unfolding angle_after
grows zero = (record { most = omega arith; even = inr refl; fourth = inr refl }, inl (omega arith))
grows (suc n) =
    let (a, g) = grows n in
    elim (Bool-cases (ltb (angle_after n) (2 ^ 26))) [
      | inl s ↦
          let (b, m) = turn-IsAngle (angle_after n) a (ltb→lt (angle_after n) (2 ^ 26) s) in
          (b, inl (ground (arith, g, m, ltb→lt (angle_after n) (2 ^ 26) s)))
      | inr s ↦
          let e : angle_after n ≡ 2 ^ 26 =
            omega (arith, a.most, ltb→le (angle_after n) (2 ^ 26) s) in
          let f : turn (angle_after n) ≡ 2 ^ 26 = ap turn e ∙ turn_last in
          (subst IsAngle (sym (f ∙ sym e)) a, inr f)
    ]

angle_early : (n : ℕ) → 3 * n < 2 ^ 24 → angle_after n ≡ 3 * n
unfolding angle_after
angle_early zero h = refl
angle_early (suc n) h =
    let e : angle_after n ≡ 3 * n = angle_early n (omega arith) in
    ap turn e ∙ (turn_exact (3 * n) (omega arith) ∙ omega arith)

-- The angle never exceeds 2 ^ 26 halves of a degree. It is exact, 1.5 degrees for each tick, while
-- that is below 2 ^ 24 halves; 2 ^ 25 ticks and later it stands still at 2 ^ 26 halves.
pub angle_after-stops :
    (n m k : ℕ)
    → 3 * n < 2 ^ 24
    → 2 ^ 25 ≤ m
    → (angle_after n ≡ 3 * n) × (angle_after m ≡ 2 ^ 26) × (angle_after k ≤ 2 ^ 26)
angle_after-stops n m k h l =
    (angle_early n h, ground (arith, (grows m).1, (grows m).0.most), (grows k).0.most)
