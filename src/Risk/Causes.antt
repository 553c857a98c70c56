-- ===== src/Risk/Causes.antt =====
-- For each check of backend/risk_engine/checks.py, when it does not block: one lemma to a check,
-- in terms of the trade and the account alone.
use k.Base.{
  ℤ, pos, ◌≤ℤ◌, ◌<ℤ◌, ◌≡◌, ◌↔◌, ◌⊎◌, true, false, Option, none, some, Result, ok, err, arith,
}
use k.Base.Numbers.{Numbers}
use k.Config.{FundingGateConfig, LiquidationSafetyConfig}
use k.Decision.{is_no_operar, DecisionType, ModelDecision}
use k.Risk.Results.{CheckResult, is_block, RiskError}
use k.Risk.Checks.{
  FeeEstimate, has_exit_plan, loss_percent, adverse_rate, check_sl_required, check_tp_or_exit_plan,
  check_daily_drawdown, check_total_drawdown, check_funding_gate, check_max_open_positions,
  check_fee_gate, estimate_liquidation_price, sl_is_past_liquidation, sl_buffer_percent,
  check_liquidation_safety, check_anti_martingala, check_anti_leverage_escalation,
  check_anti_averaging,
}

-- After a loss the size does not go up.
abbrev pub NotRaised : ℤ → Option ℤ → Option ℤ → Type 0
NotRaised proposed (some pnl) (some last) = pnl <ℤ pos 0 → proposed ≤ℤ last
NotRaised proposed _ _ = Unit

abbrev pub NotLosing : Option ℤ → Type 0
NotLosing none = Unit
NotLosing (some pnl) = pos 0 ≤ℤ pnl

abbrev pub FeesCovered : Option FeeEstimate → ℤ → Type 0
FeesCovered none minimum = ⊥
FeesCovered (some e) minimum = minimum ≤ℤ e.net_risk_reward

abbrev pub HasRoom : Option ℤ → ℤ → Type 0
HasRoom none max = ⊥
HasRoom (some n) max = n <ℤ max

pub martingala_lem :
    (margin : ℤ) (pnl last : Option ℤ) (c : CheckResult)
    → check_anti_martingala margin pnl last ≡ ok c
    → (is_block c ≡ false) ↔ NotRaised margin pnl last
unfolding check_anti_martingala
martingala_lem margin none none c e = ground arith
martingala_lem margin none (some m) c e = ground arith
martingala_lem margin (some p) none c e = ground arith
martingala_lem margin (some p) (some m) c e = ground arith

pub leverage_escalation_lem :
    (leverage : ℤ) (pnl last : Option ℤ) (c : CheckResult)
    → check_anti_leverage_escalation leverage pnl last ≡ ok c
    → (is_block c ≡ false) ↔ NotRaised leverage pnl last
unfolding check_anti_leverage_escalation
leverage_escalation_lem leverage none none c e = ground arith
leverage_escalation_lem leverage none (some m) c e = ground arith
leverage_escalation_lem leverage (some p) none c e = ground arith
leverage_escalation_lem leverage (some p) (some m) c e = ground arith

pub averaging_lem : (pnl : Option ℤ) → (is_block (check_anti_averaging pnl) ≡ false) ↔ NotLosing pnl
unfolding check_anti_averaging
averaging_lem none = ground arith
averaging_lem (some pnl) = ground arith

module _ (N : Numbers) where
  open N use {Float, lt, le, eq, zero, to_decimal}

  pub sl_required_lem :
      (d : ModelDecision N)
      → d.execute ≡ true
      → (is_block (check_sl_required N d) ≡ false) ↔ (le d.stop_loss zero ≡ false)
  unfolding check_sl_required
  sl_required_lem d x = ground arith

  pub tp_or_exit_plan_lem :
      (d : ModelDecision N)
      → d.execute ≡ true
      → (is_block (check_tp_or_exit_plan N d) ≡ false)
        ↔ ((lt zero d.take_profit ≡ true) ⊎ (has_exit_plan d.position_management_plan ≡ true))
  unfolding check_tp_or_exit_plan
  tp_or_exit_plan_lem d x = ground arith

  pub daily_drawdown_lem :
      (loss balance : ℤ) (max : Float)
      → (is_block (check_daily_drawdown N loss balance max) ≡ false)
        ↔ ((pos 0 <ℤ balance) × (le max (loss_percent N loss balance) ≡ false))
  unfolding check_daily_drawdown
  daily_drawdown_lem loss balance max = ground arith

  pub total_drawdown_lem :
      (loss balance : ℤ) (max : Float)
      → (is_block (check_total_drawdown N loss balance max) ≡ false)
        ↔ ((pos 0 <ℤ balance) × (le max (loss_percent N loss balance) ≡ false))
  unfolding check_total_drawdown
  total_drawdown_lem loss balance max = ground arith

  -- What the funding gate asks of a rate that is known, and of one that is not.
  abbrev pub FundingAccepted : DecisionType → Option Float → FundingGateConfig N → Type 0
  FundingAccepted side none config = config.block_if_funding_unknown ≡ false
  FundingAccepted side (some rate) config =
      le config.max_adverse_funding_rate (adverse_rate N side rate) ≡ false

  pub funding_gate_lem :
      (d : ModelDecision N) (rate : Option Float) (config : FundingGateConfig N)
      → is_no_operar d.decision ≡ false
      → (is_block (check_funding_gate N d rate config) ≡ false)
        ↔ ((config.enabled ≡ false) ⊎ FundingAccepted d.decision rate config)
  unfolding check_funding_gate
  funding_gate_lem d none config h = ground arith
  funding_gate_lem d (some rate) config h = ground arith

  pub max_open_positions_lem :
      (d : ModelDecision N) (count : Option ℤ) (max : ℤ)
      → is_no_operar d.decision ≡ false
      → (is_block (check_max_open_positions N d count max) ≡ false) ↔ HasRoom count max
  unfolding check_max_open_positions
  max_open_positions_lem d none max h = ground arith
  max_open_positions_lem d (some count) max h = ground arith

  pub fee_gate_lem :
      (estimate : Option FeeEstimate) (min : Float)
      → (is_block (check_fee_gate N estimate min) ≡ false) ↔ FeesCovered estimate (to_decimal min)
  unfolding check_fee_gate
  fee_gate_lem none min = ground arith
  fee_gate_lem (some e) min = ground arith

  abbrev pub liquidation_price : ModelDecision N → Float
  liquidation_price d =
      estimate_liquidation_price N d.entry_price d.liquidation_distance_percent_estimated d.decision

  -- The buffer between the stop and the liquidation price is not negative.
  abbrev pub HasBuffer : Result RiskError Float → Type 0
  HasBuffer (err _) = ⊥
  HasBuffer (ok b) = lt b zero ≡ false

  -- What the liquidation check asks of a trade that executes.
  abbrev pub LiquidationAccepted : ModelDecision N → LiquidationSafetyConfig N → Type 0
  LiquidationAccepted d config =
      (config.enabled ≡ false)
      ⊎ ((le d.stop_loss zero ≡ false)
          × (((eq d.liquidation_distance_percent_estimated zero ≡ true)
                × (config.block_if_liquidation_unknown ≡ false))
              ⊎ ((eq d.liquidation_distance_percent_estimated zero ≡ false)
                  × (le d.entry_price zero ≡ false)
                  × (((sl_is_past_liquidation N d.stop_loss (liquidation_price d) d.decision ≡ true)
                        × (config.block_if_stop_after_liquidation ≡ false))
                      ⊎ ((sl_is_past_liquidation N d.stop_loss (liquidation_price d) d.decision
                            ≡ false)
                          × ((lt d.liquidation_distance_percent_estimated
                                  config.min_distance_entry_to_liquidation_percent
                                ≡ true)
                              ⊎ HasBuffer (
                                  sl_buffer_percent N d.stop_loss (liquidation_price d)
                                    d.decision)))))))

  pub liquidation_lem :
      (d : ModelDecision N) (config : LiquidationSafetyConfig N) (c : CheckResult)
      → d.execute ≡ true
      → is_no_operar d.decision ≡ false
      → check_liquidation_safety N d config ≡ ok c
      → (is_block c ≡ false) ↔ LiquidationAccepted d config
  unfolding check_liquidation_safety
  liquidation_lem d config c x o e = ground arith
