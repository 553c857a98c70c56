-- ===== src/Risk/Checks/Gates.antt =====
-- The gates of backend/risk_engine/checks.py on data from the exchange: funding, open positions,
-- fees and slippage, with the estimates of backend/core/fees.py and backend/core/slippage.py.
use k.Base.{ℤ, ltb_ℤ, leb_ℤ, Option, none, some, if◌then◌else◌, not}
use k.Base.Numbers.{Numbers}
use k.Config.{FundingGateConfig}
use k.Decision.{DecisionType, is_no_operar, is_long, ModelDecision}
use k.Risk.Results.{Rule, Reason, CheckResult, passes, blocks}

-- `FeeEstimate`; the identifier of the method is left out.
pub record FeeEstimate : Type 0 where
  pub entry_fee_usdt : ℤ
  pub exit_fee_at_tp_usdt : ℤ
  pub exit_fee_at_sl_usdt : ℤ
  pub gross_risk_reward : ℤ
  pub net_risk_reward : ℤ
  pub entry_rate : ℤ
  pub exit_rate : ℤ

-- `SlippageEstimate`; the identifier of the method is left out.
pub record SlippageEstimate : Type 0 where
  pub estimated_slippage_usdt : ℤ
  pub half_spread_usdt : ℤ
  pub impact_usdt : ℤ
  pub expected_fill_price : ℤ
  pub bid : ℤ
  pub ask : ℤ

unfoldable pub check_slippage_estimate : Option SlippageEstimate → CheckResult
check_slippage_estimate none = passes Rule.slippage_estimate Reason.no_slippage_estimate
check_slippage_estimate (some estimate) = passes Rule.slippage_estimate Reason.slippage_projected

module _ (N : Numbers) where
  open N use {Float, le, neg, to_decimal}

  -- What the trade would pay: the rate for a LONG, its opposite for a SHORT.
  unfoldable pub adverse_rate : DecisionType → Float → Float
  adverse_rate side rate = if is_long side then rate else neg rate

  unfoldable pub check_funding_gate :
      ModelDecision N → Option Float → FundingGateConfig N → CheckResult
  unfolding adverse_rate
  check_funding_gate d funding_rate config =
      if not config.enabled
      then passes Rule.funding_gate Reason.gate_disabled
      else if is_no_operar d.decision
      then passes Rule.funding_gate Reason.no_trade
      else elim funding_rate [
        | none ↦
            if config.block_if_funding_unknown
            then blocks Rule.funding_gate Reason.funding_unknown
            else passes Rule.funding_gate Reason.funding_unknown_accepted
        | some rate ↦
            if le config.max_adverse_funding_rate (adverse_rate d.decision rate)
            then blocks Rule.funding_gate Reason.funding_adverse
            else passes Rule.funding_gate Reason.funding_below_limit
      ]

  unfoldable pub check_max_open_positions : ModelDecision N → Option ℤ → ℤ → CheckResult
  check_max_open_positions d open_positions_count max_open_positions =
      if is_no_operar d.decision
      then passes Rule.max_open_positions Reason.no_trade
      else elim open_positions_count [
        | none ↦ blocks Rule.max_open_positions Reason.count_unreliable
        | some count ↦
            if leb_ℤ max_open_positions count
            then blocks Rule.max_open_positions Reason.limit_reached
            else passes Rule.max_open_positions Reason.within_limit
      ]

  unfoldable pub check_fee_gate : Option FeeEstimate → Float → CheckResult
  check_fee_gate none min_net_risk_reward = blocks Rule.fee_gate Reason.no_fee_estimate
  check_fee_gate (some estimate) min_net_risk_reward =
      if ltb_ℤ estimate.net_risk_reward (to_decimal min_net_risk_reward)
      then blocks Rule.fee_gate Reason.net_rr_low
      else passes Rule.fee_gate Reason.fees_projected
