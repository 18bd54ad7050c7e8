-- ===== src/AuthK8s/Masks.antt =====
-- The masks of project/auth_k8s.c: `htonl`, and the addresses of a network.
use Prim.Native.Nat.{bit_and}
use native.Mathlib.Nat.{pow-suc, one-le-pow, mod-lt, mod-eq_of_lt, div-add-mod, div-lt_iff_lt-mul}
use otus_c.Common.{
  ℕ, zero, suc, ◌+◌, ◌-◌, ◌*◌, ◌/◌, ◌%◌, ◌^◌, ◌≤◌, ◌<◌, ◌≡◌, ◌↔◌, refl, sym, ap, ap₂, ◌∙◌,
}
use otus_c.Common.{arith}
use otus_c.Common.Bits.{bit_and_fields, bit_and-le, bit_and_ones, bit_and-zero}
use otus_c.AuthK8s.{htonl, cidr_mask}

-- An `and`, and what is above and in its lowest byte.
and_bytes :
    (a b : ℕ) → bit_and a b ≡ bit_and (a / 256) (b / 256) * 256 + bit_and (a % 256) (b % 256)
and_bytes a b =
    ap₂ bit_and {x = a} {y = a / 256 * 256 + a % 256} {u = b} {v = b / 256 * 256 + b % 256}
      (omega arith) (omega arith)
    ∙ bit_and_fields 8 (a / 256) (a % 256) (b / 256) (b % 256) (omega arith) (omega arith)

byte : ℕ → ℕ → ℕ
byte zero x = x % 256
byte (suc k) x = byte k (x / 256)

byte-lt : (k x : ℕ) → byte k x < 256
unfolding byte
byte-lt zero x = omega arith
byte-lt (suc k) x = byte-lt k (x / 256)

byte-bit_and : (k a b : ℕ) → byte k (bit_and a b) ≡ bit_and (byte k a) (byte k b)
unfolding byte
byte-bit_and zero a b = omega (arith, and_bytes a b, bit_and-le (a % 256) (b % 256))
byte-bit_and (suc k) a b =
    let above : bit_and a b / 256 ≡ bit_and (a / 256) (b / 256) =
      omega (arith, and_bytes a b, bit_and-le (a % 256) (b % 256)) in
    ap (byte k) above ∙ byte-bit_and k (a / 256) (b / 256)

htonl_bytes :
    (x : ℕ) → htonl x ≡ ((byte 0 x * 2 ^ 8 + byte 1 x) * 2 ^ 8 + byte 2 x) * 2 ^ 8 + byte 3 x
unfolding htonl byte
htonl_bytes x = omega arith

-- `htonl` permutes the bytes, so it goes under an `and`.
htonl-bit_and : (a b : ℕ) → htonl (bit_and a b) ≡ bit_and (htonl a) (htonl b)
htonl-bit_and a b =
    rw
      (
        htonl_bytes (bit_and a b),
        htonl_bytes a,
        htonl_bytes b,
        byte-bit_and 0 a b,
        byte-bit_and 1 a b,
        byte-bit_and 2 a b,
        byte-bit_and 3 a b,
      )
      (sym (
        bit_and_fields 8 _ (byte 3 a) _ (byte 3 b) (byte-lt 3 a) (byte-lt 3 b)
        ∙ ap (λ t. t * 2 ^ 8 + bit_and (byte 3 a) (byte 3 b))
            (bit_and_fields 8 _ (byte 2 a) _ (byte 2 b) (byte-lt 2 a) (byte-lt 2 b)
              ∙ ap (λ t. t * 2 ^ 8 + bit_and (byte 2 a) (byte 2 b))
                  (bit_and_fields 8 _ (byte 1 a) _ (byte 1 b) (byte-lt 1 a) (byte-lt 1 b)))))

htonl_inj : (a b : ℕ) → a < 2 ^ 32 → b < 2 ^ 32 → htonl a ≡ htonl b → a ≡ b
unfolding htonl
htonl_inj a b p q e = omega arith

two_pow-add : (k h : ℕ) → 2 ^ k * 2 ^ h ≡ 2 ^ (k + h)
two_pow-add zero h = omega (arith, ap (λ (n : ℕ). 2 ^ n) (same h))
  where
    same : (n : ℕ) → zero + n ≡ n
    same n = omega arith
two_pow-add (suc k) h = omega (
  arith,
  two_pow-add k h,
  ap (λ (n : ℕ). n * 2 ^ h) (pow-suc 2 k),
  pow-suc 2 (k + h),
  ap (λ (n : ℕ). 2 ^ n) (same k h),
)
  where
    same : (m n : ℕ) → suc m + n ≡ suc (m + n)
    same m n = omega arith

-- A mask of `k` ones above `h` zeros keeps what is above the `h` low digits.
bit_and_high :
    (k h a : ℕ) → a < 2 ^ k * 2 ^ h → bit_and a (2 ^ k * 2 ^ h - 2 ^ h) ≡ a / 2 ^ h * 2 ^ h
bit_and_high k h a l =
    let pos : 0 < 2 ^ h = omega (arith, one-le-pow h 2) in
    let more : 2 ^ k ≡ (2 ^ k - 1) + 1 = omega (arith, one-le-pow k 2) in
    ap₂ bit_and {x = a} {y = a / 2 ^ h * 2 ^ h + a % 2 ^ h} {u = 2 ^ k * 2 ^ h - 2 ^ h}
      {v = (2 ^ k - 1) * 2 ^ h + 0} (omega (arith, div-add-mod a (2 ^ h)))
      (omega (arith, ap (λ (u : ℕ). u * 2 ^ h) more))
    ∙ bit_and_fields h (a / 2 ^ h) (a % 2 ^ h) (2 ^ k - 1) 0 (mod-lt a pos) pos
    ∙ rw
        (
          bit_and_ones,
          bit_and-zero,
          mod-eq_of_lt {n = a / 2 ^ h} {m = 2 ^ k} ((div-lt_iff_lt-mul pos).1 l),
        )
        (omega arith)

cidr_mask-suc : (k : ℕ) → cidr_mask (suc k) ≡ htonl (2 ^ 32 - 1 - (2 ^ (32 - suc k) - 1))
unfolding cidr_mask
cidr_mask-suc k = ground arith

htonl-zero : htonl 0 ≡ 0
unfolding htonl
htonl-zero = refl

cidr_mask-zero : cidr_mask 0 ≡ 0
unfolding cidr_mask
cidr_mask-zero = refl

-- The `and` of an address with the mask of a network of `bits` bits, both in network order.
masked :
    (bits a : ℕ)
    → bits ≤ 32
    → a < 2 ^ 32
    → bit_and (htonl a) (cidr_mask bits) ≡ htonl (a / 2 ^ (32 - bits) * 2 ^ (32 - bits))
masked zero a h l =
    ap (bit_and (htonl a)) cidr_mask-zero
    ∙ bit_and-zero (htonl a)
    ∙ sym htonl-zero
    ∙ ap htonl {x = 0} {y = a / 2 ^ 32 * 2 ^ 32} (omega arith)
masked (suc k) a h l =
    ap (bit_and (htonl a)) (cidr_mask-suc k ∙ ap htonl mask)
    ∙ sym (htonl-bit_and a (2 ^ suc k * 2 ^ (32 - suc k) - 2 ^ (32 - suc k)))
    ∙ ap htonl (bit_and_high (suc k) (32 - suc k) a (rw whole l))
  where
    whole : 2 ^ suc k * 2 ^ (32 - suc k) ≡ 2 ^ 32
    whole =
        two_pow-add (suc k) (32 - suc k)
        ∙ ap (λ n. 2 ^ n) {x = suc k + (32 - suc k)} {y = 32} (omega arith)

    mask : 2 ^ 32 - 1 - (2 ^ (32 - suc k) - 1) ≡ 2 ^ suc k * 2 ^ (32 - suc k) - 2 ^ (32 - suc k)
    mask = omega (arith, whole, one-le-pow (32 - suc k) 2)

mul_cancel : (a b c : ℕ) → 0 < c → a * c ≡ b * c → a ≡ b
mul_cancel a b c h e = grind arith

-- For addresses below 2 ^ 32 the test holds exactly when the two agree on their first bits.
pub same_network :
    (bits a n : ℕ)
    → bits ≤ 32
    → a < 2 ^ 32
    → n < 2 ^ 32
    → (bit_and (htonl a) (cidr_mask bits) ≡ bit_and (htonl n) (cidr_mask bits))
      ↔ (a / 2 ^ (32 - bits) ≡ n / 2 ^ (32 - bits))
same_network bits a n h la ln = (
  λ e.
      mul_cancel (a / 2 ^ (32 - bits)) (n / 2 ^ (32 - bits)) (2 ^ (32 - bits))
        (omega (arith, one-le-pow (32 - bits) 2))
        (htonl_inj (a / 2 ^ (32 - bits) * 2 ^ (32 - bits)) (n / 2 ^ (32 - bits) * 2 ^ (32 - bits))
          (omega (arith, div-add-mod a (2 ^ (32 - bits))))
          (omega (arith, div-add-mod n (2 ^ (32 - bits))))
          (sym (masked bits a h la) ∙ e ∙ masked bits n h ln)),
  λ e. masked bits a h la ∙ ap (λ t. htonl (t * 2 ^ (32 - bits))) e ∙ sym (masked bits n h ln),
)
