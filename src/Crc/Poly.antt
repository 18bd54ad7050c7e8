-- ===== src/Crc/Poly.antt =====
-- The byte step of 9-crc32/main.c against the usual definition of CRC-32, and that no change of a
-- byte goes unnoticed.
use Prim.Native.Nat.{bit_and, bit_xor}
use native.Mathlib.Nat.{pow-suc}
use native.Mathlib.Decide.{dec_lt}
use otus_c.Common.{ℕ, zero, suc, ◌+◌, ◌*◌, ◌/◌, ◌%◌, ◌^◌, ◌≤◌, ◌<◌, ◌≡◌, ◌≢◌, refl, sym, ap, ◌∙◌}
use otus_c.Common.{List, [], ◌∷◌, ◌++◌, arith, ltb, ◌==◌, if◌then◌else◌, Bool-cases, inl, inr}
use otus_c.Common.Bits.{bit_xor-half, bit_xor-low, bit_xor_lt, bit_xor_comm, bit_xor_assoc}
use otus_c.Common.Bits.{bit_xor-zero, bit_xor_cancel, bit_xor_inj, bit_and-one}
use otus_c.Crc.{promote, shift_char, crc32_rounds, crc32_bitwise, crc32_bytes}

abbrev pub poly : ℕ
poly = 0xEDB88320

-- Division of a polynomial by `x`, in the reflected order of the bits: the lowest bit leaves.
pub divide : ℕ → ℕ
divide x = if x % 2 == 0 then x / 2 else bit_xor (x / 2) poly

pub divide_times : ℕ → ℕ → ℕ
divide_times zero x = x
divide_times (suc n) x = divide_times n (divide x)

-- The lowest bit of `ch ^ crc`.
low_bit : (crc ch : ℕ) → bit_and (bit_xor (promote ch) crc) 1 ≡ (crc + ch) % 2
low_bit crc ch = bit_and-one _ ∙ bit_xor-low (promote ch) crc ∙ ground arith

-- One round of the loop, where the not yet used part of the byte is `byte`.
divide-bit_xor :
    (crc byte : ℕ)
    → divide (bit_xor crc byte)
      ≡ bit_xor (if (crc + byte) % 2 == 0 then crc / 2 else bit_xor (crc / 2) poly) (byte / 2)
unfolding divide
divide-bit_xor crc byte =
    rw (bit_xor-low, bit_xor-half)
      (elim (Bool-cases ((crc + byte) % 2 == 0)) [
        | inl e ↦ rw e
        | inr e ↦ rw e (
            bit_xor_assoc (crc / 2) (byte / 2) poly
            ∙ ap (bit_xor (crc / 2)) (bit_xor_comm (byte / 2) poly)
            ∙ sym (bit_xor_assoc (crc / 2) poly (byte / 2)))
      ])

-- The bits above the `n` that are left do not count.
crc32_rounds-divide :
    (n q s crc ch byte : ℕ)
    → 2 ^ n * q ≡ 256
    → byte < 2 ^ n
    → ch ≡ byte + 2 ^ n * s
    → crc32_rounds n crc ch ≡ divide_times n (bit_xor crc byte)
unfolding crc32_rounds divide_times
crc32_rounds-divide zero q s crc ch byte e l c =
    let none_left : byte ≡ 0 = omega arith in rw (none_left, bit_xor-zero)
crc32_rounds-divide (suc n) q s crc ch byte e l c =
    rw (low_bit crc ch, same_bit, divide-bit_xor crc byte)
      (crc32_rounds-divide n (2 * q) (if ltb ch 128 then s else s + q) _ (shift_char ch) (byte / 2)
        (omega (arith, pow-suc 2 n, twice q, twice s))
        (omega (arith, pow-suc 2 n, twice q, twice s)) shifted)
  where
    twice : (t : ℕ) → 2 ^ suc n * t ≡ 2 * (2 ^ n * t)
    twice t = omega (arith, ap (λ (u : ℕ). u * t) (pow-suc 2 n))

    same_bit : (crc + ch) % 2 ≡ (crc + byte) % 2
    same_bit = omega (arith, pow-suc 2 n, twice q, twice s)

    shifted : shift_char ch ≡ byte / 2 + 2 ^ n * (if ltb ch 128 then s else s + q)
    shifted = elim (Bool-cases (ltb ch 128)) [
      | inl low ↦ rw low (omega (arith, pow-suc 2 n, twice q, twice s))
      | inr high ↦ rw high (omega (arith, pow-suc 2 n, twice q, twice s))
    ]

-- For every 32-bit CRC and byte, the loop of `crc32_bitwise`, which takes in the byte bit by bit
-- and as a signed `char`, gives the textbook step: exclusive or with the byte, then eight divisions.
pub crc32_bitwise-divide :
    (crc ch : ℕ) → ch < 256 → crc32_bitwise crc ch ≡ divide_times 8 (bit_xor crc ch)
unfolding crc32_bitwise
crc32_bitwise-divide crc ch h = crc32_rounds-divide 8 1 0 crc ch ch refl h (omega arith)

-- The generator has its top bit set, so the top bit of a quotient tells the bit that left.
divide_bounds :
    (x : ℕ)
    → x < 2 ^ 32
    → (divide x < 2 ^ 32) × (x % 2 ≡ 0 → divide x < 2 ^ 31) × (x % 2 ≡ 1 → 2 ^ 31 ≤ divide x)
unfolding divide
divide_bounds x h = ground (arith, bit_xor_lt 32 (x / 2) poly (omega arith) (omega arith), top)
  where
    top : 2 ^ 31 ≤ bit_xor (x / 2) poly
    top = elim (dec_lt (bit_xor (x / 2) poly) (2 ^ 31)) [
      | yes p ↦
          absurd (omega (arith, bit_xor_lt 31 (bit_xor (x / 2) poly) (x / 2) p (omega arith), back))
      | no p ↦ omega arith
    ]
      where
        back : bit_xor (bit_xor (x / 2) poly) (x / 2) ≡ poly
        back = ap (λ t. bit_xor t (x / 2)) (bit_xor_comm (x / 2) poly) ∙ bit_xor_cancel poly (x / 2)

divide_inj : (x y : ℕ) → x < 2 ^ 32 → y < 2 ^ 32 → divide x ≡ divide y → x ≡ y
unfolding divide
divide_inj x y p q e =
    ground (arith, divide_bounds x p, divide_bounds y q, bit_xor_inj (x / 2) (y / 2) poly)

divide_times_lt : (n x : ℕ) → x < 2 ^ 32 → divide_times n x < 2 ^ 32
unfolding divide_times
divide_times_lt zero x h = h
divide_times_lt (suc n) x h = divide_times_lt n (divide x) (divide_bounds x h).0

divide_times_inj :
    (n x y : ℕ) → x < 2 ^ 32 → y < 2 ^ 32 → divide_times n x ≡ divide_times n y → x ≡ y
unfolding divide_times
divide_times_inj zero x y p q e = e
divide_times_inj (suc n) x y p q e =
    divide_inj x y p q
      (divide_times_inj n (divide x) (divide y) (divide_bounds x p).0 (divide_bounds y q).0 e)

abbrev pub IsBytes : List ℕ → Type 0
IsBytes [] = Unit
IsBytes (b ∷ bs) = (b < 256) × IsBytes bs

pub crc32_bytes_lt :
    (crc : ℕ) (bs : List ℕ) → crc < 2 ^ 32 → IsBytes bs → crc32_bytes crc bs < 2 ^ 32
unfolding crc32_bytes
crc32_bytes_lt crc [] h k = h
crc32_bytes_lt crc (b ∷ bs) h (k, ks) =
    crc32_bytes_lt (crc32_bitwise crc b) bs
      (rw (crc32_bitwise-divide crc b k)
        (divide_times_lt 8 (bit_xor crc b) (bit_xor_lt 32 crc b h (omega arith))))
      ks

-- The step loses nothing of the CRC, nor of the byte.
crc32_bitwise_inj :
    (crc crc' ch ch' : ℕ)
    → crc < 2 ^ 32
    → crc' < 2 ^ 32
    → ch < 256
    → ch' < 256
    → crc32_bitwise crc ch ≡ crc32_bitwise crc' ch'
    → bit_xor crc ch ≡ bit_xor crc' ch'
crc32_bitwise_inj crc crc' ch ch' p q r s e =
    divide_times_inj 8 (bit_xor crc ch) (bit_xor crc' ch') (bit_xor_lt 32 crc ch p (omega arith))
      (bit_xor_lt 32 crc' ch' q (omega arith))
      (sym (crc32_bitwise-divide crc ch r) ∙ e ∙ crc32_bitwise-divide crc' ch' s)

step_lt : (crc ch : ℕ) → crc < 2 ^ 32 → ch < 256 → crc32_bitwise crc ch < 2 ^ 32
unfolding crc32_bytes
step_lt crc ch h k = crc32_bytes_lt crc (ch ∷ []) h (k, tt)

crc32_bytes_inj :
    (crc crc' : ℕ) (bs : List ℕ)
    → crc < 2 ^ 32
    → crc' < 2 ^ 32
    → IsBytes bs
    → crc32_bytes crc bs ≡ crc32_bytes crc' bs
    → crc ≡ crc'
unfolding crc32_bytes
crc32_bytes_inj crc crc' [] p q r e = e
crc32_bytes_inj crc crc' (b ∷ bs) p q (r, rs) e = bit_xor_inj crc crc' b (
    crc32_bitwise_inj crc crc' b b p q r r (
      crc32_bytes_inj (crc32_bitwise crc b) (crc32_bitwise crc' b) bs (step_lt crc b p r)
        (step_lt crc' b q r) rs e))

-- A change of one byte, wherever it stands, changes the CRC.
pub crc32_bytes-change :
    (crc b b' : ℕ) (xs ys : List ℕ)
    → crc < 2 ^ 32
    → b < 256
    → b' < 256
    → IsBytes xs
    → IsBytes ys
    → b ≢ b'
    → crc32_bytes crc (xs ++ (b ∷ ys)) ≢ crc32_bytes crc (xs ++ (b' ∷ ys))
unfolding crc32_bytes
crc32_bytes-change crc b b' [] ys p q r s t ne e = ne (
    bit_xor_inj b b' crc (
      bit_xor_comm b crc
      ∙ crc32_bitwise_inj crc crc b b' p p q r (
          crc32_bytes_inj (crc32_bitwise crc b) (crc32_bitwise crc b') ys (step_lt crc b p q)
            (step_lt crc b' p r) t e)
      ∙ bit_xor_comm crc b'))
crc32_bytes-change crc b b' (x ∷ xs) ys p q r (s, ss) t ne e =
    crc32_bytes-change (crc32_bitwise crc x) b b' xs ys (step_lt crc x p s) q r ss t ne e
