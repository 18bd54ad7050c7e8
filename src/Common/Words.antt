-- ===== src/Common/Words.antt =====
-- C integers as bit patterns: an `int` is a number below 2 ^ 32, a `size_t` one below 2 ^ 64.
use Prim.Native.Nat.{ℕ, ◌+◌, ◌-◌, ◌%◌, ◌^◌}
use otus_c.Common.Tests.{ltb, if◌then◌else◌}

-- What is kept of a value that is stored in an `int`.
abbrev pub to_int : ℕ → ℕ
to_int n = n % 2 ^ 32

-- An `int` converted to `size_t`: a negative one is sign-extended.
abbrev pub size_of_int : ℕ → ℕ
size_of_int n = if ltb n (2 ^ 31) then n else n + (2 ^ 64 - 2 ^ 32)

-- The sum of two `size_t` or `intmax_t`.
abbrev pub add64 : ℕ → ℕ → ℕ
add64 a b = (a + b) % 2 ^ 64
