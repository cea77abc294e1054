-- ===== src/Base/Int64.antt =====
-- Go's int and int64 as 64-bit patterns: a natural number below 2 ^ 64 in two's complement.
use Prim.Native.Nat.{ℕ, ◌+◌, ◌-◌, ◌*◌, ◌%◌, ◌<◌}
use mathlib.Core.Path.{◌≡◌}
use mathlib.Core.Bool.{Bool}
use native.Mathlib.Omega.{arith}
use fast_bypass.Base.Bools.{ltb, leb}

abbrev pub int_mod : ℕ
int_mod = 0x1_0000_0000_0000_0000

-- The patterns from here on stand for negative numbers.
abbrev pub int_half : ℕ
int_half = 0x8000_0000_0000_0000

unfoldable pub add_int : ℕ → ℕ → ℕ
add_int a b = (a + b) % int_mod

unfoldable pub sub_int : ℕ → ℕ → ℕ
sub_int a b = (a + int_mod - b) % int_mod

unfoldable pub mul_int : ℕ → ℕ → ℕ
mul_int a b = a * b % int_mod

-- `a < b` and `a <= b` on signed numbers: the half is added so that the patterns are in order.
unfoldable pub lt_int : ℕ → ℕ → Bool
lt_int a b = ltb ((a + int_half) % int_mod) ((b + int_half) % int_mod)

unfoldable pub le_int : ℕ → ℕ → Bool
le_int a b = leb ((a + int_half) % int_mod) ((b + int_half) % int_mod)

-- On numbers that are not negative the signed order is the order.
pub le_int-leb : (a b : ℕ) → a < int_half → b < int_half → le_int a b ≡ leb a b
unfolding le_int
le_int-leb a b ha hb = ground arith

pub lt_int-ltb : (a b : ℕ) → a < int_half → b < int_half → lt_int a b ≡ ltb a b
unfolding lt_int
lt_int-ltb a b ha hb = ground arith

pub add_int-add : (a b : ℕ) → a + b < int_mod → add_int a b ≡ a + b
unfolding add_int
add_int-add a b h = omega arith

pub add_int-lt : (a b : ℕ) → add_int a b < int_mod
unfolding add_int
add_int-lt a b = omega arith
