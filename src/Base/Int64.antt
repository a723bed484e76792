-- ===== src/Base/Int64.antt =====
-- Go's int64 as its bit pattern, a number below 2 ^ 64: sums wrap round, and a pattern from 2 ^ 63 on
-- is negative.
use Prim.Native.Nat.{ℕ, ◌+◌, ◌-◌, ◌%◌, ◌≤◌, ◌<◌}
use mathlib.Core.Path.{◌≡◌}
use mathlib.Core.Bool.{Bool, true, false, ◌&&◌}
use native.Mathlib.Omega.{arith}
use logpond.Base.Tests.{ltb}

abbrev pub modulus : ℕ
modulus = 18446744073709551616

-- 2 ^ 63
abbrev pub sign : ℕ
sign = 9223372036854775808

unfoldable pub add64 : ℕ → ℕ → ℕ
add64 a b = (a + b) % modulus

unfoldable pub sub64 : ℕ → ℕ → ℕ
sub64 a b = (a + modulus - b) % modulus

-- `a > 0`, and `a > b` for signed numbers
abbrev pub is_positive : ℕ → Bool
is_positive a = ltb 0 a && ltb a sign

unfoldable pub greater : ℕ → ℕ → Bool
greater a b = ltb ((b + sign) % modulus) ((a + sign) % modulus)

pub add64-eq : (a b : ℕ) → a + b < sign → add64 a b ≡ a + b
unfolding add64
add64-eq a b h = omega arith

pub greater-lt : (a b : ℕ) → a < sign → b < sign → greater a b ≡ true → b < a
unfolding greater
greater-lt a b p q h = ground arith

pub greater-le : (a b : ℕ) → a < sign → b < sign → greater a b ≡ false → a ≤ b
unfolding greater
greater-le a b p q h = ground arith

-- A positive number less a smaller one.
pub sub64-eq : (a b : ℕ) → a < sign → b ≤ a → sub64 a b ≡ a - b
unfolding sub64
sub64-eq a b p q = omega arith

-- A number less a larger one is negative.
pub sub64-negative : (a b : ℕ) → a < b → b < sign → is_positive (sub64 a b) ≡ false
unfolding sub64
sub64-negative a b p q = ground arith
