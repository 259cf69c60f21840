-- ===== src/Common/Float.antt =====
-- float64 as the program uses it: a type and its operations, which are not part of the program.
use Prim.Native.Nat.{ℕ}
use Prim.Native.String.{String}
use mathlib.Core.Path.{◌≡◌}
use mathlib.Core.Bool.{Bool, false}
use r.Common.Int.{ℤ, pos, neg_part, ◌≤ℤ◌}

pub record Floats : Type 1 where
  pub Float : Type 0
  -- `float64(n)`, also of a literal
  pub of_int : ℤ → Float
  -- `int64(x)`
  pub trunc : Float → ℤ
  pub add : Float → Float → Float
  pub sub : Float → Float → Float
  pub mul : Float → Float → Float
  pub div : Float → Float → Float
  -- `math.Min`
  pub min : Float → Float → Float
  -- `x < y`
  pub less : Float → Float → Bool
  -- `Duration.Seconds`, of nanoseconds
  pub seconds : ℤ → Float
  -- The format `%.2f`
  pub two_decimals : Float → String

-- Documented behaviour of float64: the smaller of two is not above the first; multiplication by a
-- positive constant and truncation keep the order, where the larger result is one of int64 and not
-- negative; and a whole number divided by a million is below one if it is below a million.
pub record IsOrdered (F : Floats) : Type 0 where
  pub min_le : (a b : F.Float) → F.less a (F.min a b) ≡ false
  pub scale_mono :
      (a b : F.Float) (n : ℕ)
      → F.less b a ≡ false
      → neg_part (F.trunc (F.mul b (F.of_int (pos n)))) ≡ 0
      → F.trunc (F.mul a (F.of_int (pos n))) ≤ℤ F.trunc (F.mul b (F.of_int (pos n)))
  pub quotient_one :
      (a : ℤ)
      → F.less (F.div (F.of_int a) (F.of_int (pos 1000000))) (F.of_int (pos 1)) ≡ false
      → pos 1000000 ≤ℤ a
