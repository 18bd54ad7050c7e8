-- ===== src/Common/Bits.antt =====
-- Laws of bitwise and, and of exclusive or, at variables, from the lowest digit.
use Prim.Native.Nat.{ℕ, zero, suc, ◌+◌, ◌*◌, ◌/◌, ◌%◌, ◌^◌, ◌≤◌, ◌<◌, bit_xor, bit_xor-bitwise}
use Prim.Native.Nat.{◌-◌}
use Prim.Native.Nat.{digits, differ, min, bit_and, bit_and-bitwise}
use mathlib.Core.Path.{◌≡◌, refl, sym, ap, ◌∙◌}
use native.Mathlib.Omega.{arith}
use native.Mathlib.Nat.{
  pow-suc, one-le-pow, div-add-mod, mod-lt, mod-eq_of_lt, mul-add-mod_self_left,
}

-- One recursion serves both operations: more rounds than the first argument needs change nothing.
module _ (rest : ℕ → ℕ) (op : ℕ → ℕ → ℕ) where
  digits_enough : (k l a b : ℕ) → a ≤ k → a ≤ l → digits rest op k a b ≡ digits rest op l a b
  digits_enough zero zero a b h i = refl
  digits_enough zero (suc l) zero b h i = refl
  digits_enough (suc k) zero zero b h i = refl
  digits_enough (suc k) (suc l) zero b h i = refl
  digits_enough zero l (suc a) b h i = absurd (omega arith)
  digits_enough (suc k) zero (suc a) b h i = absurd (omega arith)
  digits_enough (suc k) (suc l) (suc a) b h i =
      let half = digits_enough k l (suc a / 2) (b / 2) (omega arith) (omega arith) in omega arith

differ_of_bits : (a b : ℕ) → differ (a % 2) (b % 2) ≡ (a + b) % 2
differ_of_bits a b = go (a % 2) (b % 2) (omega arith) (omega arith) ∙ omega arith
  where
    go : (x y : ℕ) → x < 2 → y < 2 → differ x y ≡ (x + y) % 2
    go zero zero p q = refl
    go zero (suc zero) p q = refl
    go zero (suc (suc y)) p q = absurd (omega arith)
    go (suc zero) zero p q = refl
    go (suc zero) (suc zero) p q = refl
    go (suc zero) (suc (suc y)) p q = absurd (omega arith)
    go (suc (suc x)) y p q = absurd (omega arith)

pub zero-bit_xor : (b : ℕ) → bit_xor 0 b ≡ b
zero-bit_xor b = bit_xor-bitwise 0 b

pub bit_xor_step : (a b : ℕ) → bit_xor a b ≡ bit_xor (a / 2) (b / 2) * 2 + (a + b) % 2
bit_xor_step zero b = omega (arith, zero-bit_xor b, zero-bit_xor (b / 2))
bit_xor_step (suc a) b =
    let fewer =
      digits_enough (λ b. b) differ a (suc a / 2) (suc a / 2) (b / 2) (omega arith) (omega arith) in
    omega (
      arith,
      bit_xor-bitwise (suc a) b,
      bit_xor-bitwise (suc a / 2) (b / 2),
      differ_of_bits (suc a) b,
    )

-- The two halves of the step.
pub bit_xor-half : (a b : ℕ) → bit_xor a b / 2 ≡ bit_xor (a / 2) (b / 2)
bit_xor-half a b = omega (arith, bit_xor_step a b)

pub bit_xor-low : (a b : ℕ) → bit_xor a b % 2 ≡ (a + b) % 2
bit_xor-low a b = omega (arith, bit_xor_step a b)

-- Two numbers with the same halves and lowest digits are equal; below 2 ^ k it takes k steps.
pub bit_xor_lt : (k a b : ℕ) → a < 2 ^ k → b < 2 ^ k → bit_xor a b < 2 ^ k
bit_xor_lt zero zero b p q = rw zero-bit_xor q
bit_xor_lt zero (suc a) b p q = absurd (omega arith)
bit_xor_lt (suc k) a b p q = omega (
  arith,
  pow-suc 2 k,
  bit_xor_step a b,
  bit_xor_lt k (a / 2) (b / 2) (omega (arith, pow-suc 2 k)) (omega (arith, pow-suc 2 k)),
)

bit_xor_comm_below : (n a b : ℕ) → a ≤ n → b ≤ n → bit_xor a b ≡ bit_xor b a
bit_xor_comm_below zero zero zero p q = refl
bit_xor_comm_below zero zero (suc b) p q = absurd (omega arith)
bit_xor_comm_below zero (suc a) b p q = absurd (omega arith)
bit_xor_comm_below (suc n) a b p q = omega (
  arith,
  bit_xor_step a b,
  bit_xor_step b a,
  bit_xor_comm_below n (a / 2) (b / 2) (omega arith) (omega arith),
)

pub bit_xor_comm : (a b : ℕ) → bit_xor a b ≡ bit_xor b a
bit_xor_comm a b = bit_xor_comm_below (a + b) a b (omega arith) (omega arith)

bit_xor_assoc_below :
    (n a b c : ℕ) → a + b + c ≤ n → bit_xor (bit_xor a b) c ≡ bit_xor a (bit_xor b c)
bit_xor_assoc_below zero zero zero zero p = refl
bit_xor_assoc_below zero zero zero (suc c) p = absurd (omega arith)
bit_xor_assoc_below zero zero (suc b) c p = absurd (omega arith)
bit_xor_assoc_below zero (suc a) b c p = absurd (omega arith)
bit_xor_assoc_below (suc n) a b c p = omega (
  arith,
  bit_xor_step (bit_xor a b) c,
  bit_xor_step a (bit_xor b c),
  bit_xor-low a b,
  bit_xor-low b c,
  ap (λ t. bit_xor t (c / 2)) (bit_xor-half a b),
  ap (λ t. bit_xor (a / 2) t) (bit_xor-half b c),
  bit_xor_assoc_below n (a / 2) (b / 2) (c / 2) (omega arith),
)

pub bit_xor_assoc : (a b c : ℕ) → bit_xor (bit_xor a b) c ≡ bit_xor a (bit_xor b c)
bit_xor_assoc a b c = bit_xor_assoc_below (a + b + c) a b c (omega arith)

pub bit_xor-zero : (a : ℕ) → bit_xor a 0 ≡ a
bit_xor-zero a = bit_xor_comm a 0 ∙ zero-bit_xor a

bit_xor_self_below : (n a : ℕ) → a ≤ n → bit_xor a a ≡ 0
bit_xor_self_below zero zero p = refl
bit_xor_self_below zero (suc a) p = absurd (omega arith)
bit_xor_self_below (suc n) a p =
    omega (arith, bit_xor_step a a, bit_xor_self_below n (a / 2) (omega arith))

pub bit_xor_self : (a : ℕ) → bit_xor a a ≡ 0
bit_xor_self a = bit_xor_self_below a a (omega arith)

-- A second exclusive or by the same number undoes the first.
pub bit_xor_cancel : (a b : ℕ) → bit_xor (bit_xor a b) b ≡ a
bit_xor_cancel a b = bit_xor_assoc a b b ∙ ap (bit_xor a) (bit_xor_self b) ∙ bit_xor-zero a

pub bit_xor_inj : (a b c : ℕ) → bit_xor a c ≡ bit_xor b c → a ≡ b
bit_xor_inj a b c e = sym (bit_xor_cancel a c) ∙ ap (λ t. bit_xor t c) e ∙ bit_xor_cancel b c

-- A mask of one bit.
and_one_digits : (k a : ℕ) → a ≤ k → digits (λ b. zero) min k a 0 ≡ 0
and_one_digits zero a h = refl
and_one_digits (suc k) zero h = refl
and_one_digits (suc k) (suc a) h =
    let half = and_one_digits k (suc a / 2) (omega arith) in omega arith

pub bit_and-one : (a : ℕ) → bit_and a 1 ≡ a % 2
bit_and-one zero = bit_and-bitwise 0 1
bit_and-one (suc a) =
    let above = and_one_digits a (suc a / 2) (omega arith) in
    omega (arith, bit_and-bitwise (suc a) 1)

bit_and_step : (a b : ℕ) → bit_and a b ≡ bit_and (a / 2) (b / 2) * 2 + min (a % 2) (b % 2)
bit_and_step zero b =
    let whole = bit_and-bitwise 0 b in let half = bit_and-bitwise 0 (b / 2) in omega arith
bit_and_step (suc a) b =
    let fewer =
      digits_enough (λ b. zero) min a (suc a / 2) (suc a / 2) (b / 2) (omega arith) (omega arith) in
    omega (arith, bit_and-bitwise (suc a) b, bit_and-bitwise (suc a / 2) (b / 2))

bit_and-le_below : (k a b : ℕ) → a ≤ k → bit_and a b ≤ a
bit_and-le_below zero zero b h = omega (arith, bit_and-bitwise 0 b)
bit_and-le_below zero (suc a) b h = absurd (omega arith)
bit_and-le_below (suc k) a b h =
    omega (arith, bit_and_step a b, bit_and-le_below k (a / 2) (b / 2) (omega arith))

pub bit_and-le : (a b : ℕ) → bit_and a b ≤ a
bit_and-le a b = bit_and-le_below a a b (omega arith)

bit_and_cong : (a b c d : ℕ) → a ≡ c → b ≡ d → bit_and a b ≡ bit_and c d
bit_and_cong a b c d e f = cc

-- The operation works on the `k` low digits and on the others apart.
pub bit_and_fields :
    (k x y x' y' : ℕ)
    → y < 2 ^ k
    → y' < 2 ^ k
    → bit_and (x * 2 ^ k + y) (x' * 2 ^ k + y') ≡ bit_and x x' * 2 ^ k + bit_and y y'
bit_and_fields zero x y x' y' h h' =
    let low : y ≡ 0 = omega arith in
    omega (
      arith,
      bit_and_cong (x * 1 + y) (x' * 1 + y') x x' (omega arith) (omega arith),
      bit_and-le y y',
    )
bit_and_fields (suc k) x y x' y' h h' =
    let p = 2 ^ k in
    omega (
      arith,
      pow-suc 2 k,
      twice x,
      twice x',
      twice (bit_and x x'),
      bit_and_step (x * 2 ^ suc k + y) (x' * 2 ^ suc k + y'),
      bit_and_cong ((x * 2 ^ suc k + y) / 2) ((x' * 2 ^ suc k + y') / 2) (x * 2 ^ k + y / 2)
          (x' * 2 ^ k + y' / 2) (omega (arith, twice x)) (omega (arith, twice x')),
      bit_and_fields k x (y / 2) x' (y' / 2) (omega (arith, pow-suc 2 k))
          (omega (arith, pow-suc 2 k)),
      bit_and_step y y',
    )
  where
    twice : (t : ℕ) → t * 2 ^ suc k ≡ 2 * (t * 2 ^ k)
    twice t = omega (arith, ap (λ (u : ℕ). t * u) (pow-suc 2 k))

pub bit_and-zero : (a : ℕ) → bit_and a 0 ≡ 0
bit_and-zero zero = bit_and-bitwise 0 0
bit_and-zero (suc a) = bit_and-bitwise (suc a) 0 ∙ and_one_digits (suc a) (suc a) (omega arith)

mod_double : (a p : ℕ) → 0 < p → a % (2 * p) ≡ 2 * (a / 2 % p) + a % 2
mod_double a p h =
    let q = a / 2 / p in
    let t = 2 * (a / 2 % p) + a % 2 in
    let split : a ≡ 2 * p * q + t = omega (arith, ap (λ (u : ℕ). 2 * u) (div-add-mod (a / 2) p)) in
    let short : t < 2 * p = omega (arith, mod-lt (a / 2) h) in
    ap (λ u. u % (2 * p)) split ∙ mul-add-mod_self_left (2 * p) q t ∙ mod-eq_of_lt short

-- A mask of ones keeps the low digits.
pub bit_and_ones : (k a : ℕ) → bit_and a (2 ^ k - 1) ≡ a % 2 ^ k
bit_and_ones zero a = omega (arith, bit_and-zero a)
bit_and_ones (suc k) a =
    let twice : 2 ^ suc k ≡ 2 * 2 ^ k = omega (arith, pow-suc 2 k) in
    omega (
      arith,
      pow-suc 2 k,
      one-le-pow k 2,
      bit_and_step a (2 ^ suc k - 1),
      bit_and_cong (a / 2) ((2 ^ suc k - 1) / 2) (a / 2) (2 ^ k - 1) (omega arith)
          (omega (arith, pow-suc 2 k)),
      bit_and_ones k (a / 2),
      ap (λ (p : ℕ). a % p) twice,
      mod_double a (2 ^ k) (omega (arith, one-le-pow k 2)),
    )
