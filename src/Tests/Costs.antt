-- ===== src/Tests/Costs.antt =====
-- The estimates of a long trade of 24 USDT: entered at 100, with a stop at 95 and a target at 112.
-- Amounts are in hundredths; a quotient below zero counts as zero.
use native.Mathlib.Nat.{le-div_iff_mul-le, div-mul-le_self, mul-le-mul_left}
use k.Base.{
  ◌+ℤ◌, ◌-ℤ◌, ℕ, ◌*◌, ◌/◌, ◌≤◌, ◌<◌, ℤ, pos, pos_part, ◌≤ℤ◌, ◌<ℤ◌, true, ◌≡◌, ◌≢◌, refl, ◌↔◌, is_ok,
  arith,
}
use k.Base.Decimals.{Decimals, OrderedProducts}
use k.Decision.{long, EntryType}
use k.Risk.Checks.{FeeEstimate, check_fee_gate}
use k.Estimates.Fees.{FeeRates, Roundings, fees_of, estimate_fees, rates_are_valid}
use k.Estimates.Slippage.{estimate_for_decision}
use k.Estimates.Costs.{OrderedQuotients, OnTheirSides, passed_fee_gate}
use k.Estimates.Estimable.{InRange, estimate_for_decision_iff}
use k.Tests.Fixed.{fixed, times}
use k.Tests.Managed.{decimals, ordered}
use k.Tests.Risk.{trade}

-- A numerator that grows and a denominator that shrinks.
div-less : (a b c d : ℕ) → a ≤ b → 0 < c → c ≤ d → a / d ≤ b / c
div-less a b c d h g l =
    (le-div_iff_mul-le g).1 (omega (arith, mul-le-mul_left (a / d) l, div-mul-le_self a d))

abbrev over : ℤ → ℤ → ℤ
over a b = pos (pos_part a * 100 / pos_part b)

abbrev rounded : Decimals
rounded = record decimals { over = over }

abbrev roundings : Roundings
roundings = record { up = λ a. a; floor = λ a. a }

rounded-ordered : OrderedProducts rounded
rounded-ordered = record {
  times_nonneg = ordered.times_nonneg;
  half_nonneg = ordered.half_nonneg;
  half_less = ordered.half_less;
}

quotients : OrderedQuotients rounded roundings
quotients = record {
  over_less = over_less;
  over_nonneg = λ a b h g. omega arith;
  floor_less = λ a b h. h;
  up_nonneg = λ a h. h;
}
  where
    over_less : (a b c d : ℤ) → a ≤ℤ b → pos 0 <ℤ b → pos 0 <ℤ c → c ≤ℤ d → over a d ≤ℤ over b c
    over_less a b c d h g k l =
        let below : pos_part a * 100 ≤ pos_part b * 100 = ground arith in
        let c_positive : 0 < pos_part c = ground arith in
        let d_above : pos_part c ≤ pos_part d = ground arith in
        omega (
          arith,
          div-less (pos_part a * 100) (pos_part b * 100) (pos_part c) (pos_part d) below c_positive
              d_above,
        )

abbrev rates : FeeRates
rates = record { maker = pos 0; taker = pos 1 }

-- At 1 %, the 24 USDT pay 0.24 in and 0.26 or 0.22 out; 9.88 are won for 6.95 at risk.
abbrev estimate : FeeEstimate
estimate = record {
  entry_fee_usdt = pos 24;
  exit_fee_at_tp_usdt = pos 26;
  exit_fee_at_sl_usdt = pos 22;
  gross_risk_reward = pos 240;
  net_risk_reward = pos 142;
  entry_rate = pos 1;
  exit_rate = pos 1;
}

passed_fee_gate_example :
    OnTheirSides long (pos 10000) (pos 9500) (pos 11200)
    × (fixed.to_decimal (pos 120) ≤ℤ estimate.net_risk_reward)
    × (estimate.net_risk_reward ≤ℤ estimate.gross_risk_reward)
    × (pos 0 ≤ℤ estimate.entry_fee_usdt)
    × (pos 0 ≤ℤ estimate.exit_fee_at_tp_usdt)
    × (pos 0 ≤ℤ estimate.exit_fee_at_sl_usdt)
unfolding rates_are_valid estimate_fees fees_of check_fee_gate ◌+ℤ◌ ◌-ℤ◌
passed_fee_gate_example =
    passed_fee_gate rounded roundings rounded-ordered quotients fixed long EntryType.market
      (pos 2400) (pos 10000) (pos 9500) (pos 11200) rates (pos 120) {estimate = estimate} refl refl
      refl

estimate_for_decision_iff_example :
    (is_ok (
        estimate_for_decision rounded fixed "BTCUSDT"
          (pos 9990)
          (pos 10010)
          trade
          (pos 800)
          (pos 300)
          (pos 200))
      ≡ true)
    ↔ ((trade.execute ≡ true)
        × (trade.entry_type ≢ EntryType.no_entry)
        × ("BTCUSDT" ≡ trade.symbol)
        × InRange
            (times (pos 800) (pos 300))
            (pos 9990)
            (pos 10010)
            (fixed.to_decimal trade.entry_price)
            (pos 200))
estimate_for_decision_iff_example =
    estimate_for_decision_iff rounded fixed "BTCUSDT" (pos 9990) (pos 10010) trade (pos 800)
      (pos 300) (pos 200)
