-- ===== src/Cube/Faces.antt =====
-- The corners that 16-cube/main.c draws, and what makes them a cube.
use otus_c.Common.{
  ℕ, ◌+◌, Bool, true, false, ◌&&◌, ◌||◌, List, [], ◌∷◌, ◌==◌, if◌then◌else◌, length,
}
use otus_c.Cube.{Side, low, high}

-- The place in the picture, and that on the screen.
abbrev pub Corner : Type 0
Corner = ℕ × ℕ × Side × Side × Side

abbrev pub cube : List Corner
cube =
    (0, 0, low, low, high)
    ∷ (1, 0, high, low, high)
    ∷ (1, 1, high, high, high)
    ∷ (0, 1, low, high, high)
    ∷ (1, 0, low, low, low)
    ∷ (1, 1, low, high, low)
    ∷ (0, 1, high, high, low)
    ∷ (0, 0, high, low, low)
    ∷ (0, 1, low, high, low)
    ∷ (0, 0, low, high, high)
    ∷ (1, 0, high, high, high)
    ∷ (1, 1, high, high, low)
    ∷ (1, 1, low, low, low)
    ∷ (0, 1, high, low, low)
    ∷ (0, 0, high, low, high)
    ∷ (1, 0, low, low, high)
    ∷ (0, 0, low, low, low)
    ∷ (1, 0, low, low, high)
    ∷ (1, 1, low, high, high)
    ∷ (0, 1, low, high, low)
    ∷ (1, 0, high, low, low)
    ∷ (1, 1, high, high, low)
    ∷ (0, 1, high, high, high)
    ∷ (0, 0, high, low, high)
    ∷ []

abbrev pub same_side : Side → Side → Bool
same_side low low = true
same_side high high = true
same_side _ _ = false

-- A side of the cube: the corners with one coordinate, the first, second or third, low or high.
abbrev pub on_side : ℕ → Side → Corner → Bool
on_side axis side (s, t, x, y, z) =
    same_side side (if axis == 0 then x else if axis == 1 then y else z)

abbrev pub count_of : Bool → ℕ
count_of b = if b then 1 else 0

-- Corners that differ in `n` coordinates of the picture and in as many on the screen.
abbrev pub differ : ℕ → Corner → Corner → Bool
differ n (s, t, x, y, z) (s', t', x', y', z') =
    count_of (s == s') + count_of (t == t') + n == 2
    && count_of (same_side x x') + count_of (same_side y y') + count_of (same_side z z') + n == 3

-- Four corners on a side: a ring of edges, with the first opposite the third and the second opposite
-- the fourth.
abbrev pub is_face : ℕ → Side → Corner → Corner → Corner → Corner → Bool
is_face axis side a b c d =
    (on_side axis side a && (on_side axis side b && (on_side axis side c && on_side axis side d)))
    && (differ 1 a b && (differ 1 b c && (differ 1 c d && differ 1 d a)))
    && (differ 2 a c && differ 2 b d)

abbrev pub has_face : ℕ → Side → List Corner → Bool
has_face axis side (a ∷ (b ∷ (c ∷ (d ∷ cs)))) = is_face axis side a b c d || has_face axis side cs
has_face axis side _ = false

-- Six faces, one on each side.
abbrev pub is_cube : List Corner → Bool
is_cube cs =
    length cs == 24
    && (has_face 0 low cs && has_face 0 high cs)
    && (has_face 1 low cs && has_face 1 high cs)
    && (has_face 2 low cs && has_face 2 high cs)
