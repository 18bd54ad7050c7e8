-- ===== src/Common/Strings.antt =====
-- C strings as lists of character codes, without the terminating zero.
use Prim.Native.Nat.{ℕ, ◌<◌, zero, suc, ◌+◌, ◌-◌, ◌*◌, ◌/◌, ◌%◌, ◌^◌}
use native.Mathlib.Nat.{pow-suc}
use mathlib.Core.Path.{◌≡◌, refl}
use mathlib.Core.Bool.{Bool, true, false, ◌&&◌, ◌||◌}
use mathlib.Core.List.{List, [], ◌∷◌, ◌++◌}
use Prim.Native.Char.{code}
use Prim.Native.String.{String}
use native.Mathlib.Omega.{arith}
use mathlib.Core.Logic.{inl, inr}
use otus_c.Common.Tests.{Bool-cases, ◌==◌, leb, ltb, if◌then◌else◌}

abbrev pub Text : Type 0
Text = List ℕ

abbrev pub text : String → Text
text String.[] = []
text (String.◌∷◌ c s) = code c ∷ text s

-- `isspace`
abbrev pub is_space : ℕ → Bool
is_space c = c == 32 || (leb 9 c && leb c 13)

-- `strcmp(a, b) == 0`
abbrev pub str_eq : Text → Text → Bool
str_eq [] [] = true
str_eq [] (y ∷ b) = false
str_eq (x ∷ a) [] = false
str_eq (x ∷ a) (y ∷ b) = x == y && str_eq a b

pub str_eq→≡ : (a b : Text) → str_eq a b ≡ true → a ≡ b
str_eq→≡ [] [] h = refl
str_eq→≡ [] (y ∷ b) h = cc
str_eq→≡ (x ∷ a) [] h = cc
str_eq→≡ (x ∷ a) (y ∷ b) h = ground (arith, str_eq→≡ a b)

pub str_eq_refl : (a : Text) → str_eq a a ≡ true
str_eq_refl [] = refl
str_eq_refl (x ∷ a) = ground (arith, str_eq_refl a)

abbrev pub is_digit : ℕ → Bool
is_digit c = leb b'0' c && leb c b'9'

-- The number that the leading digits stand for, behind those that stand for `acc`.
abbrev pub digits_value : ℕ → Text → ℕ
digits_value acc [] = acc
digits_value acc (c ∷ cs) =
    let more = digits_value (acc * 10 + (c - b'0')) cs in if is_digit c then more else acc

-- `%ld` of a number with at most `fuel` digits.
unfoldable pub decimal : ℕ → ℕ → Text
decimal zero n = []
decimal (suc fuel) n =
    let front = decimal fuel (n / 10) in
    if ltb n 10 then (n + 48) ∷ [] else front ++ ((n % 10 + 48) ∷ [])

-- The number that decimal digits stand for.
abbrev pub value : ℕ → Text → ℕ
value acc [] = acc
value acc (d ∷ ds) = value (acc * 10 + (d - 48)) ds

value-snoc :
    (acc : ℕ) (ds : Text) (d : ℕ) → value acc (ds ++ (d ∷ [])) ≡ value acc ds * 10 + (d - 48)
value-snoc acc [] d = refl
value-snoc acc (e ∷ ds) d = value-snoc (acc * 10 + (e - 48)) ds d

-- The decimal digits that are written for a number below 10 ^ fuel are read back as that number.
pub value-decimal : (fuel n : ℕ) → n < 10 ^ fuel → value 0 (decimal fuel n) ≡ n
unfolding decimal
value-decimal zero n h = omega arith
value-decimal (suc fuel) n h = elim (Bool-cases (ltb n 10)) [
  | inl small ↦ rw small (ground arith)
  | inr big ↦
      rw
        (
          big,
          value-snoc 0 (decimal fuel (n / 10)) (n % 10 + 48),
          value-decimal fuel (n / 10) (omega (arith, pow-suc 10 fuel)),
        )
        (omega arith)
]

-- `%d` of an `int`.
abbrev pub int_text : ℕ → Text
int_text n = if ltb n (2 ^ 31) then decimal 10 n else b'-' ∷ decimal 10 (2 ^ 32 - n)

-- The string that a buffer of bytes holds ends at its first zero.
unfoldable pub c_string : List ℕ → Text
c_string [] = []
c_string (c ∷ cs) = let rest = c_string cs in if c == 0 then [] else c ∷ rest
