-- ===== src/Estimates/Fees.antt =====
-- backend/core/fees.py: the fees of a trade and its ratio of reward to risk.
use k.Base.{
  ℤ, pos, ◌+ℤ◌, ◌-ℤ◌, leb_ℤ, ltb_ℤ, Bool, true, false, not, ◌&&◌, ◌||◌, Result, ok, err,
  if◌then◌else◌,
}
use k.Base.Numbers.{Numbers}
use k.Base.Decimals.{Decimals}
use k.Decision.{DecisionType, long, short, no_operar, EntryType, ModelDecision}
use k.Risk.Checks.{FeeEstimate}

-- The `ValueError`s of the estimates: no direction, no order, an amount out of range, prices that
-- are not coherent, the quotes of another symbol.
pub data EstimateError : Type 0 where
  no_direction no_order out_of_range incoherent wrong_symbol : EstimateError

pub record FeeRates : Type 0 where
  pub maker : ℤ
  pub taker : ℤ

-- The roundings of `quantize` that the estimates use: up to `QUANT`, and down to `_RR_QUANT`.
pub record Roundings : Type 0 where
  pub up : ℤ → ℤ
  pub floor : ℤ → ℤ

-- `__post_init__` of the rates.
unfoldable pub rates_are_valid : Decimals → FeeRates → Bool
rates_are_valid D r =
    (leb_ℤ (pos 0) r.maker && ltb_ℤ r.maker D.one) && (leb_ℤ (pos 0) r.taker && ltb_ℤ r.taker D.one)

-- What a unit gains at the target and loses at the stop, before fees.
abbrev pub reward_per_unit : DecisionType → ℤ → ℤ → ℤ
reward_per_unit long entry_price take_profit = take_profit -ℤ entry_price
reward_per_unit short entry_price take_profit = entry_price -ℤ take_profit
reward_per_unit no_operar entry_price take_profit = entry_price -ℤ take_profit

abbrev pub risk_per_unit : DecisionType → ℤ → ℤ → ℤ
risk_per_unit long entry_price stop_loss = entry_price -ℤ stop_loss
risk_per_unit short entry_price stop_loss = stop_loss -ℤ entry_price
risk_per_unit no_operar entry_price stop_loss = stop_loss -ℤ entry_price

abbrev pub is_direction : DecisionType → Bool
is_direction long = true
is_direction short = true
is_direction no_operar = false

abbrev pub is_entry : EntryType → Bool
is_entry EntryType.market = true
is_entry EntryType.limit = true
is_entry EntryType.no_entry = false

abbrev pub entry_rate_of : EntryType → FeeRates → ℤ
entry_rate_of EntryType.market rates = rates.taker
entry_rate_of EntryType.limit rates = rates.maker
entry_rate_of EntryType.no_entry rates = rates.maker

module _ (D : Decimals) (R : Roundings) where
  -- The estimate of inputs that have passed the checks.
  unfoldable pub fees_of : DecisionType → EntryType → ℤ → ℤ → ℤ → ℤ → FeeRates → FeeEstimate
  fees_of side entry_type notional_usdt entry_price stop_loss take_profit rates =
      let entry_rate = entry_rate_of entry_type rates in
      let exit_rate = rates.taker in
      let quantity = D.over notional_usdt entry_price in
      let reward = reward_per_unit side entry_price take_profit in
      let risk = risk_per_unit side entry_price stop_loss in
      let entry_cost = D.times entry_price entry_rate in
      record {
        entry_fee_usdt = R.up (D.times notional_usdt entry_rate);
        exit_fee_at_tp_usdt = R.up (D.times (D.times quantity take_profit) exit_rate);
        exit_fee_at_sl_usdt = R.up (D.times (D.times quantity stop_loss) exit_rate);
        gross_risk_reward = R.floor (D.over reward risk);
        net_risk_reward = R.floor (
            D.over (reward -ℤ entry_cost -ℤ D.times take_profit exit_rate)
              (risk +ℤ entry_cost +ℤ D.times stop_loss exit_rate));
        entry_rate = entry_rate;
        exit_rate = exit_rate;
      }

  unfoldable pub estimate_fees :
      DecisionType → EntryType → ℤ → ℤ → ℤ → ℤ → FeeRates → Result EstimateError FeeEstimate
  unfolding fees_of
  estimate_fees side entry_type notional_usdt entry_price stop_loss take_profit rates =
      if not (is_direction side)
      then err no_direction
      else if not (is_entry entry_type)
      then err no_order
      else if leb_ℤ notional_usdt (pos 0)
      then err out_of_range
      else if leb_ℤ entry_price (pos 0) || leb_ℤ stop_loss (pos 0) || leb_ℤ take_profit (pos 0)
      then err out_of_range
      else if leb_ℤ (reward_per_unit side entry_price take_profit) (pos 0)
          || leb_ℤ (risk_per_unit side entry_price stop_loss) (pos 0)
      then err incoherent
      else ok (fees_of side entry_type notional_usdt entry_price stop_loss take_profit rates)

  module _ (N : Numbers) where
    unfoldable pub estimate_fees_for_decision :
        ModelDecision N → ℤ → ℤ → FeeRates → Result EstimateError FeeEstimate
    unfolding estimate_fees
    estimate_fees_for_decision decision margin_usdt leverage rates =
        estimate_fees decision.decision decision.entry_type (D.times margin_usdt leverage)
          (N.to_decimal decision.entry_price) (N.to_decimal decision.stop_loss)
          (N.to_decimal decision.take_profit) rates
