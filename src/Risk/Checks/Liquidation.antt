-- ===== src/Risk/Checks/Liquidation.antt =====
-- `check_liquidation_safety` of backend/risk_engine/checks.py and its private helpers. A float
-- division by zero raises ZeroDivisionError in Python; the helper that may divide by zero returns
-- the error.
use k.Base.{Bool, Result, ok, err, if◌then◌else◌, not, ◌&&◌}
use k.Base.Numbers.{Numbers}
use k.Config.{LiquidationSafetyConfig}
use k.Decision.{DecisionType, is_no_operar, is_long, ModelDecision}
use k.Risk.Results.{
  Rule, Reason, CheckResult, passes, blocks, adjusts, RiskError, zero_division_error,
}

module _ (N : Numbers) where
  open N use {Float, lt, le, eq, zero, one, hundred, add, sub, mul, div}

  -- `_estimate_liquidation_price`
  unfoldable pub estimate_liquidation_price : Float → Float → DecisionType → Float
  estimate_liquidation_price entry_price liq_dist_pct direction =
      if is_long direction
      then mul entry_price (sub one (div liq_dist_pct hundred))
      else mul entry_price (add one (div liq_dist_pct hundred))

  -- `_sl_is_past_liquidation`
  unfoldable pub sl_is_past_liquidation : Float → Float → DecisionType → Bool
  sl_is_past_liquidation sl liq_price direction =
      if is_long direction then le sl liq_price else le liq_price sl

  -- `_sl_buffer_percent`
  unfoldable pub sl_buffer_percent : Float → Float → DecisionType → Result RiskError Float
  sl_buffer_percent sl liq_price direction =
      if eq liq_price zero
      then err zero_division_error
      else ok (
          if is_long direction
          then mul (div (sub sl liq_price) liq_price) hundred
          else mul (div (sub liq_price sl) liq_price) hundred)

  -- Rule 6, the buffer between the stop and the liquidation price.
  unfoldable pub check_buffer :
      Float → Float → DecisionType → LiquidationSafetyConfig N → Result RiskError CheckResult
  unfolding sl_buffer_percent
  check_buffer sl liq_price direction config = elim (sl_buffer_percent sl liq_price direction) [
    | err e ↦ err e
    | ok buffer_pct ↦ ok (
        if lt buffer_pct zero
        then blocks Rule.sl_after_liquidation Reason.buffer_negative
        else if lt buffer_pct config.min_buffer_stop_to_liquidation_percent
        then adjusts Rule.sl_liq_buffer Reason.buffer_short
        else passes Rule.liquidation_safety Reason.liquidation_far)
  ]

  -- Rules 4 to 6, on a known distance.
  unfoldable pub check_distance :
      ModelDecision N → LiquidationSafetyConfig N → Float → Result RiskError CheckResult
  unfolding sl_is_past_liquidation check_buffer
  check_distance d config liq_price =
      if sl_is_past_liquidation d.stop_loss liq_price d.decision
      then ok (
          if config.block_if_stop_after_liquidation
          then blocks Rule.sl_after_liquidation Reason.sl_past
          else passes Rule.liquidation_safety Reason.sl_past_accepted)
      else if lt d.liquidation_distance_percent_estimated
          config.min_distance_entry_to_liquidation_percent
      then ok (adjusts Rule.entry_liq_distance Reason.distance_short)
      else check_buffer d.stop_loss liq_price d.decision config

  unfoldable pub check_liquidation_safety :
      ModelDecision N → LiquidationSafetyConfig N → Result RiskError CheckResult
  unfolding estimate_liquidation_price check_distance
  check_liquidation_safety d config =
      if not config.enabled
      then ok (passes Rule.liquidation_safety Reason.gate_disabled)
      else if is_no_operar d.decision
      then ok (passes Rule.liquidation_safety Reason.no_trade)
      else if d.execute && le d.stop_loss zero
      then ok (blocks Rule.liquidation_safety Reason.sl_missing)
      else if eq d.liquidation_distance_percent_estimated zero
      then ok (
          if config.block_if_liquidation_unknown
          then blocks Rule.liquidation_unknown Reason.distance_unknown
          else passes Rule.liquidation_safety Reason.distance_unknown_accepted)
      else if le d.entry_price zero
      then ok (blocks Rule.liquidation_safety Reason.invalid_entry)
      else check_distance d config (
          estimate_liquidation_price d.entry_price d.liquidation_distance_percent_estimated
            d.decision)
