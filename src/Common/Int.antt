-- ===== src/Common/Int.antt =====
-- Signed integers over the native numbers, and Go's 64-bit wrap-around.
use Prim.Native.Nat.{ℕ, suc, ◌+◌, ◌-◌, ◌%◌, ◌≤◌, ◌<◌}
use mathlib.Core.Path.{◌≡◌}
use mathlib.Core.Bool.{Bool}
use native.Mathlib.Omega.{arith}
use r.Common.Tests.{ltb, leb, if◌then◌else◌}

-- `negsuc n` is -(n + 1).
pub data ℤ : Type 0 where
  pos : ℕ → ℤ
  negsuc : ℕ → ℤ

abbrev pub pos_part : ℤ → ℕ
pos_part (pos n) = n
pos_part (negsuc n) = 0

abbrev pub neg_part : ℤ → ℕ
neg_part (pos n) = 0
neg_part (negsuc n) = suc n

-- a - b, as an integer.
abbrev pub sub_ℕ : ℕ → ℕ → ℤ
sub_ℕ a b = if leb b a then pos (a - b) else negsuc (b - a - 1)

abbrev pub ltb_ℤ : ℤ → ℤ → Bool
ltb_ℤ a b = ltb (pos_part a + neg_part b) (pos_part b + neg_part a)

abbrev pub leb_ℤ : ℤ → ℤ → Bool
leb_ℤ a b = leb (pos_part a + neg_part b) (pos_part b + neg_part a)

infix 50 ◌≤ℤ◌
abbrev pub ◌≤ℤ◌ : ℤ → ℤ → Type 0
a ≤ℤ b = pos_part a + neg_part b ≤ pos_part b + neg_part a

abbrev pub two_63 : ℕ
two_63 = 9223372036854775808

abbrev pub two_64 : ℕ
two_64 = 18446744073709551616

-- The 64-bit pattern of an integer, and the integer that a pattern stands for.
abbrev pub bits_64 : ℤ → ℕ
bits_64 (pos n) = n % two_64
bits_64 (negsuc n) = two_64 - 1 - n % two_64

abbrev pub signed_64 : ℕ → ℤ
signed_64 m = if ltb m two_63 then pos m else negsuc (two_64 - 1 - m)

-- `atomic.Int64.Add`: addition on int64 wraps round.
unfoldable pub add_64 : ℤ → ℤ → ℤ
add_64 a b = signed_64 ((bits_64 a + bits_64 b) % two_64)

-- Counting up by one from a number below the largest int64 does not wrap.
pub add_64-one :
    (a : ℤ) → neg_part a ≡ 0 → pos_part a + 1 < two_63 → add_64 a (pos 1) ≡ pos (pos_part a + 1)
unfolding add_64
add_64-one a z h = ground arith

abbrev pub two_31 : ℕ
two_31 = 2147483648

abbrev pub two_32 : ℕ
two_32 = 4294967296

abbrev pub bits_32 : ℤ → ℕ
bits_32 (pos n) = n % two_32
bits_32 (negsuc n) = two_32 - 1 - n % two_32

abbrev pub signed_32 : ℕ → ℤ
signed_32 m = if ltb m two_31 then pos m else negsuc (two_32 - 1 - m)

-- `atomic.Int32.Add`: addition on int32 wraps round.
unfoldable pub add_32 : ℤ → ℤ → ℤ
add_32 a b = signed_32 ((bits_32 a + bits_32 b) % two_32)

pub add_32-one : (n : ℕ) → n + 1 < two_31 → add_32 (pos n) (pos 1) ≡ pos (n + 1)
unfolding add_32
add_32-one n h = ground arith

pub add_32-minus_one : (n : ℕ) → n + 1 < two_31 → add_32 (pos (n + 1)) (negsuc 0) ≡ pos n
unfolding add_32
add_32-minus_one n h = ground arith
