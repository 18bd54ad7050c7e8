-- ===== src/Cube/Upload.antt =====
-- How much of the block of stb_image the upload of the picture in 16-cube/main.c reads. The rows of
-- `glTexImage2D` start at multiples of 4 bytes, as OpenGL's manual says of `GL_UNPACK_ALIGNMENT`
-- that is not set; stb_image's block has its rows without gaps.
use native.Mathlib.Nat.{mul-le-mul_left, mul-lt-mul_of_pos_left, le_of_mul-le-mul_left}
use otus_c.Common.{subst}
use otus_c.Common.{ℕ, zero, suc, ◌+◌, ◌-◌, ◌*◌, ◌/◌, ◌%◌, ◌<◌, ◌≤◌, ◌≡◌, refl, ◌⊎◌, inl, inr, ◌↔◌}
use otus_c.Common.{List, [], ◌∷◌, some, arith}
use otus_c.Cube.{Call, Format, rgb, rgba, Image, tex_image, load_texture, format}

abbrev pub bytes : Format → ℕ
bytes rgb = 3
bytes rgba = 4

-- The bytes from the first to the last one that an upload reads.
abbrev pub reach : ℕ → ℕ → ℕ → ℕ
reach n w h = (h - 1) * ((w * n + 3) / 4 * 4) + w * n

unfoldable pub uploaded : List Call → ℕ
uploaded [] = 0
uploaded (tex_image f w h ∷ cs) = reach (bytes f) w h + uploaded cs
uploaded (_ ∷ cs) = uploaded cs

-- What stb_image promises of a picture.
abbrev pub IsImage : Image → Type 0
IsImage i = (0 < i.width) × (0 < i.height) × (0 < i.channels) × (i.channels ≤ 4)

-- Rows of `r` bytes in a block of `h` rows of `p` bytes.
rows_fit : (h r p : ℕ) → 0 < h → (h - 1) * r + p ≤ h * p → (h ≡ 1) ⊎ (r ≤ p)
rows_fit zero r p o l = absurd (omega arith)
rows_fit (suc zero) r p o l = inl refl
rows_fit (suc (suc k)) r p o l =
    let e : suc (suc k) - 1 ≡ suc k = omega arith in
    let l' : suc k * r + p ≤ suc (suc k) * p = subst (λ j. j * r + p ≤ suc (suc k) * p) e l in
    inr (le_of_mul-le-mul_left {k = suc k} (omega arith) (omega arith))

fit_rows : (h r p : ℕ) → 0 < h → (h ≡ 1) ⊎ (r ≤ p) → (h - 1) * r + p ≤ h * p
fit_rows zero r p o s = absurd (omega arith)
fit_rows (suc k) r p o (inl e) = rw e (omega arith)
fit_rows (suc k) r p o (inr s) =
    let e : suc k - 1 ≡ k = omega arith in rw e (omega (arith, mul-le-mul_left k s))

-- A block of shorter rows is too small.
short_rows : (h r p q : ℕ) → 0 < h → p ≤ r → q < p → h * q < (h - 1) * r + p
short_rows zero r p q o s l = absurd (omega arith)
short_rows (suc k) r p q o s l =
    let e : suc k - 1 ≡ k = omega arith in
    rw e (omega (arith, mul-le-mul_left k s, mul-le-mul_left {m = q} {n = p} k (omega arith)))

-- An upload of `n` bytes a pixel from a block of as many.
reach-fits : (n w h : ℕ) → 0 < h → (reach n w h ≤ h * (w * n)) ↔ ((h ≡ 1) ⊎ (w * n % 4 ≡ 0))
reach-fits n w h o = (
  λ l. elim (rows_fit h ((w * n + 3) / 4 * 4) (w * n) o l) [
    | inl z ↦ inl z
    | inr m ↦ inr (omega arith)
  ],
  λ s.
      fit_rows h ((w * n + 3) / 4 * 4) (w * n) o
        (elim s [ inl z ↦ inl z | inr m ↦ inr (omega arith) ]),
)

uploaded-load_texture :
    (i : Image) (name : ℕ)
    → uploaded (load_texture (some i) name) ≡ reach (bytes (format i.channels)) i.width i.height
unfolding uploaded load_texture
uploaded-load_texture i name = omega arith

-- Fewer than 3 bytes a pixel in the block.
reach_short : (w h c : ℕ) → 0 < w → 0 < h → c < 3 → h * (w * c) < reach 3 w h
reach_short w h c o p l =
    short_rows h ((w * 3 + 3) / 4 * 4) (w * 3) (w * c) p (omega arith) (mul-lt-mul_of_pos_left l o)

abbrev Fits : ℕ → ℕ → ℕ → Type 0
Fits w h c = (c ≡ 4) ⊎ ((c ≡ 3) × ((h ≡ 1) ⊎ (w * 3 % 4 ≡ 0)))

too_few : (w h c : ℕ) → 0 < w → 0 < h → c < 3 → (reach 3 w h ≤ h * (w * c)) ↔ Fits w h c
too_few w h c o p l =
    (λ m. absurd (omega (arith, reach_short w h c o p l, m)), λ s. absurd (ground (arith, s)))

reach-Fits :
    (w h c : ℕ) → 0 < w → 0 < h → c ≤ 4 → (reach (bytes (format c)) w h ≤ h * (w * c)) ↔ Fits w h c
unfolding format
reach-Fits w h zero o p d = too_few w h 0 o p (omega arith)
reach-Fits w h (suc zero) o p d = too_few w h 1 o p (omega arith)
reach-Fits w h (suc (suc zero)) o p d = too_few w h 2 o p (omega arith)
reach-Fits w h (suc (suc (suc zero))) o p d = (
  λ l. inr (refl, (reach-fits 3 w h p).0 l),
  λ s. elim s [ inl q ↦ absurd (omega arith) | inr q ↦ (reach-fits 3 w h p).1 q.1 ],
)
reach-Fits w h (suc (suc (suc (suc zero)))) o p d =
    (λ l. inl refl, λ s. (reach-fits 4 w h p).1 (inr (omega arith)))
reach-Fits w h (suc (suc (suc (suc (suc c))))) o p d = absurd (omega arith)

-- The upload of a picture of 1 to 4 channels stays inside stb_image's block exactly if the picture
-- has 4 channels, or has 3 and one row or rows of a multiple of 4 bytes.
pub load_texture-fits :
    (i : Image) (name : ℕ)
    → IsImage i
    → (uploaded (load_texture (some i) name) ≤ i.height * (i.width * i.channels))
      ↔ ((i.channels ≡ 4) ⊎ ((i.channels ≡ 3) × ((i.height ≡ 1) ⊎ (i.width * 3 % 4 ≡ 0))))
load_texture-fits i name (w, h, c, d) =
    rw (uploaded-load_texture i name) (reach-Fits i.width i.height i.channels w h d)
