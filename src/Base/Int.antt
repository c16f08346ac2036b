-- ===== src/Base/Int.antt =====
-- Signed integers over the native numbers, under the library's names, and Go's `int64` wrap-around.
use Prim.Native.Nat.{ℕ, suc, ◌+◌, ◌-◌, ◌*◌, ◌/◌, ◌%◌, ◌^◌, ◌<◌}
use mathlib.Core.Path.{◌≡◌}
use mathlib.Core.Bool.{Bool}
use native.Mathlib.Omega.{arith}
use altershield_operator.Base.Tests.{ltb, leb, eqb, if◌then◌else◌}

-- `negsuc n` is -(n + 1).
pub data ℤ : Type 0 where
  pos : ℕ → ℤ
  negsuc : ℕ → ℤ

abbrev pub pos_part : ℤ → ℕ
pos_part (pos n) = n
pos_part (negsuc n) = 0

abbrev pub neg_part : ℤ → ℕ
neg_part (pos n) = 0
neg_part (negsuc n) = suc n

-- a - b, as an integer.
abbrev pub sub_ℕ : ℕ → ℕ → ℤ
sub_ℕ a b = if leb b a then pos (a - b) else negsuc (b - a - 1)

infixl 65 ◌-ℤ◌
infixl 70 ◌*ℤ◌
abbrev pub ◌-ℤ◌ : ℤ → ℤ → ℤ
a -ℤ b = sub_ℕ (pos_part a + neg_part b) (neg_part a + pos_part b)

abbrev pub ◌*ℤ◌ : ℤ → ℤ → ℤ
a *ℤ b =
    sub_ℕ (pos_part a * pos_part b + neg_part a * neg_part b)
      (pos_part a * neg_part b + neg_part a * pos_part b)

-- Go's division truncates towards zero; the divisor is a positive constant.
abbrev pub div_ℤ : ℤ → ℕ → ℤ
div_ℤ (pos n) d = pos (n / d)
div_ℤ (negsuc n) d = sub_ℕ 0 (suc n / d)

abbrev pub ltb_ℤ : ℤ → ℤ → Bool
ltb_ℤ a b = ltb (pos_part a + neg_part b) (pos_part b + neg_part a)

abbrev pub leb_ℤ : ℤ → ℤ → Bool
leb_ℤ a b = leb (pos_part a + neg_part b) (pos_part b + neg_part a)

abbrev pub eqb_ℤ : ℤ → ℤ → Bool
eqb_ℤ a b = eqb (pos_part a + neg_part b) (pos_part b + neg_part a)

-- The integer that an `int64` holds after wrap-around of an exact result.
abbrev pub signed64 : ℕ → ℤ
signed64 m = if ltb m (2 ^ 63) then pos m else negsuc (2 ^ 64 - m - 1)

abbrev pub wrap64 : ℤ → ℤ
wrap64 (pos n) = signed64 (n % 2 ^ 64)
wrap64 (negsuc n) = signed64 ((2 ^ 64 - suc n % 2 ^ 64) % 2 ^ 64)

-- `int64` subtraction and multiplication.
unfoldable pub sub64 : ℤ → ℤ → ℤ
sub64 a b = wrap64 (a -ℤ b)

unfoldable pub mul64 : ℤ → ℤ → ℤ
mul64 a b = wrap64 (a *ℤ b)

-- A product of two numbers below 2^63 does not wrap.
pub mul64_small : (a b : ℕ) → a * b < 2 ^ 63 → mul64 (pos a) (pos b) ≡ pos (a * b)
unfolding mul64
mul64_small a b h = ground arith

-- The difference of two non-negative `int64` values does not wrap.
pub sub64_small : (a b : ℕ) → a < 2 ^ 63 → b < 2 ^ 63 → sub64 (pos a) (pos b) ≡ sub_ℕ a b
unfolding sub64
sub64_small a b h k = ground arith
