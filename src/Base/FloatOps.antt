-- ===== src/Base/FloatOps.antt =====
-- Python's `float`, which the scripts do not implement: a type with the operations that they call.
-- A model takes it as a parameter and uses no law that is not named as a hypothesis.
use Prim.Native.Nat.{ℕ}
use mathlib.Core.Bool.{Bool}
use mathlib.Core.Option.{Option}

pub record Floats : Type 1 where
  pub Float : Type 0
  -- `float(n)`
  pub of_nat : ℕ → Float
  -- the literal `n / 10 ** k`, as in `0.5` (5 and 1)
  pub decimal : ℕ → ℕ → Float
  pub lt : Float → Float → Bool
  pub le : Float → Float → Bool
  pub add : Float → Float → Float
  pub sub : Float → Float → Float
  pub mul : Float → Float → Float
  pub div : Float → Float → Float
  -- `a / b` of two integers, where `b` is not 0
  pub quotient : ℕ → ℕ → Float
  -- `math.isfinite`
  pub is_finite : Float → Bool
  -- `int(x)` of a float that is not negative; none where Python raises (infinities and NaN)
  pub trunc : Float → Option ℕ
