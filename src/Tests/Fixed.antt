-- ===== src/Tests/Fixed.antt =====
-- A concrete arithmetic to run the models with: hundredths, for floats and for Decimals.
use k.Base.{
  ℕ, zero, suc, ◌*◌, ◌/◌, ◌≡◌, refl, ℤ, pos, negsuc, ◌+ℤ◌, ◌-ℤ◌, ltb_ℤ, leb_ℤ, arith, ◌&&◌,
}
use k.Base.Numbers.{Numbers}
use k.Risk.Gaps.{ExactAtHundred}
use k.Risk.Totality.{KeepsOrder}

-- Minus a number.
abbrev opposite : ℕ → ℤ
opposite zero = pos 0
opposite (suc n) = negsuc n

abbrev pub times : ℤ → ℤ → ℤ
times (pos a) (pos b) = pos (a * b / 100)
times (pos a) (negsuc b) = opposite (a * suc b / 100)
times (negsuc a) (pos b) = opposite (suc a * b / 100)
times (negsuc a) (negsuc b) = pos (suc a * suc b / 100)

abbrev pub quotient : ℤ → ℤ → ℤ
quotient (pos a) (pos b) = pos (a * 100 / b)
quotient (pos a) (negsuc b) = opposite (a * 100 / suc b)
quotient (negsuc a) (pos b) = opposite (suc a * 100 / b)
quotient (negsuc a) (negsuc b) = pos (suc a * 100 / suc b)

unfoldable pub plus : ℤ → ℤ → ℤ
unfolding ◌+ℤ◌
plus a b = a +ℤ b

unfoldable pub minus : ℤ → ℤ → ℤ
unfolding ◌-ℤ◌
minus a b = a -ℤ b

abbrev power : ℤ → ℕ → ℤ
power a zero = pos 100
power a (suc n) = times a (power a n)

abbrev times_hundred : ℤ → ℤ
times_hundred (pos n) = pos (n * 100)
times_hundred (negsuc n) = opposite (suc n * 100)

abbrev over_hundred : ℤ → ℤ
over_hundred (pos n) = pos (n / 100)
over_hundred (negsuc n) = opposite (suc n / 100)

-- Its logarithm is only a stand-in: no test depends on its values.
abbrev pub fixed : Numbers
fixed = record {
  Float = ℤ;
  lt = ltb_ℤ;
  le = leb_ℤ;
  eq = λ a b. leb_ℤ a b && leb_ℤ b a;
  zero = pos 0;
  one = pos 100;
  three_halves = pos 150;
  two = pos 200;
  ten = pos 1000;
  hundred = pos 10000;
  neg = minus (pos 0);
  add = plus;
  sub = minus;
  mul = times;
  div = quotient;
  pow = power;
  log = λ x. x;
  of_int = times_hundred;
  truncate = over_hundred;
  per_unit = 100;
  to_decimal = λ x. x;
  ratio = quotient;
}

times_zero : (x : ℤ) → times x (pos 0) ≡ pos 0
times_zero (pos n) = ground arith
times_zero (negsuc n) = ground arith

pub fixed-exact : ExactAtHundred fixed
unfolding ◌-ℤ◌ minus
fixed-exact = record {
  hundred_percent = refl;
  one_less_one = refl;
  times_zero = λ x h. times_zero x;
  zero_eq = refl;
  hundred_ne = refl;
}

pub fixed-order : KeepsOrder fixed
fixed-order = record {
  of_nonneg = λ x h. ground arith;
  of_positive = λ x h. ground arith;
  of_ten = λ x h. ground arith;
}
