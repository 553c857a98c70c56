-- ===== src/Base/Numbers.antt =====
-- The arithmetic that the code takes from Python: floats, which round, and their passage to and
-- from Decimal. A Decimal is an integer number of units, `per_unit` to one; comparisons, sums and
-- differences of Decimals are exact, and Decimal quotients appear only where they are turned into
-- a float at once.
use k.Base.Int.{ℤ}
use Prim.Native.Nat.{ℕ}
use mathlib.Core.Bool.{Bool}

pub record Numbers : Type 1 where
  pub Float : Type 0
  -- `a < b`, `a <= b` and `a == b`, as IEEE orders them: all are false at a NaN.
  pub lt : Float → Float → Bool
  pub le : Float → Float → Bool
  pub eq : Float → Float → Bool
  -- The literals of the code.
  pub zero : Float
  pub one : Float
  pub three_halves : Float
  pub two : Float
  pub ten : Float
  pub hundred : Float
  pub neg : Float → Float
  pub add : Float → Float → Float
  pub sub : Float → Float → Float
  pub mul : Float → Float → Float
  -- `a / b` for a `b` that is not zero.
  pub div : Float → Float → Float
  -- `a ** n`
  pub pow : Float → ℕ → Float
  pub log : Float → Float
  -- An int as a float, and `int(x)` of a float.
  pub of_int : ℤ → Float
  pub truncate : Float → ℤ
  pub per_unit : ℕ
  -- `Decimal(str(x))`
  pub to_decimal : Float → ℤ
  -- `float(a / b)` of Decimals or ints with `b` positive.
  pub ratio : ℤ → ℤ → Float
