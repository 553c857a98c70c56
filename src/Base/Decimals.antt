-- ===== src/Base/Decimals.antt =====
-- Products and quotients of Decimals. A Decimal is an integer number of units; the context of the
-- decimal module rounds a product and a quotient, so they are arguments, with the numbers of units
-- that `Decimal("1")` and `Decimal("0.5")` are.
use Prim.Native.Nat.{ℕ, ◌*◌}
use k.Base.Int.{ℤ, pos, pos_part, ◌≤ℤ◌, ◌<ℤ◌}

pub record Decimals : Type 0 where
  pub one : ℤ
  pub half : ℤ
  pub times : ℤ → ℤ → ℤ
  -- `a / b` for a `b` that is not zero.
  pub over : ℤ → ℤ → ℤ
  -- `a.quantize(Decimal("0.00000001"))`
  pub quantize : ℤ → ℤ

-- `Decimal(n)` of an int.
abbrev pub decimal : Decimals → ℕ → ℤ
decimal D n = pos (n * pos_part D.one)

-- What the code relies on of products: factors that are not negative have a product that is not, and
-- half of a positive amount is less than it.
pub record OrderedProducts (D : Decimals) : Type 0 where
  pub times_nonneg : (a b : ℤ) → pos 0 ≤ℤ a → pos 0 ≤ℤ b → pos 0 ≤ℤ D.times a b
  pub half_nonneg : pos 0 ≤ℤ D.half
  pub half_less : (a : ℤ) → pos 0 <ℤ a → D.times a D.half <ℤ a
