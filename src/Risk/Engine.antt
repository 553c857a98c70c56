-- ===== src/Risk/Engine.antt =====
-- backend/risk_engine/engine.py and adjustments.py: `validate`, from a decision, the losses and
-- the data of the cycle to a RiskValidationResult.
use k.Base.{
  ℤ, min_ℤ, Option, none, some, List, [], ◌∷◌, String, Result, ok, err, any, ◌>>=◌, if◌then◌else◌,
  not,
}
use k.Base.Numbers.{Numbers}
use k.Config.{AppConfig, LeverageConfig, Environment, cap_for_env}
use k.Decision.{ModelDecision}
use k.Risk.Results.{Rule, Reason, CheckResult, is_block, is_adjust_down, RiskError, value_error}
use k.Risk.Checks.{
  FeeEstimate, SlippageEstimate, check_sl_required, check_tp_or_exit_plan, check_daily_drawdown,
  check_total_drawdown, check_margin_cap, check_leverage_cap, check_funding_gate,
  check_max_open_positions, check_fee_gate, check_slippage_estimate, check_liquidation_safety,
  check_anti_martingala, check_anti_leverage_escalation, check_anti_averaging,
}
use k.Risk.Schemas.{
  RiskDecision, approve, adjust_down, block, no_operar, AdjustedParameters, Reasons,
  RiskValidationResult, record_checks, new_parameters, new_result,
}

unfoldable pub compute_adjusted_margin : ℤ → ℤ → ℤ
compute_adjusted_margin original max_margin = min_ℤ original max_margin

unfoldable pub compute_adjusted_leverage : ℤ → LeverageConfig → Environment → ℤ
compute_adjusted_leverage original config environment =
    min_ℤ original (cap_for_env config environment)

module _ (N : Numbers) where
  open N use {Float, le, zero, per_unit, to_decimal}

  -- The arguments of `validate` beside the decision and the configuration.
  pub record RiskInputs : Type 0 where
    pub aggregation_id : String
    pub daily_loss_usdt : ℤ
    pub total_loss_usdt : ℤ
    pub last_trade_pnl_usdt : Option ℤ
    pub last_trade_margin_usdt : Option ℤ
    pub open_position_unrealized_pnl_usdt : Option ℤ
    pub funding_rate : Option Float
    pub open_positions_count : Option ℤ
    pub fee_estimate : Option FeeEstimate
    pub slippage_estimate : Option SlippageEstimate
    pub last_account_trade_pnl_usdt : Option ℤ
    pub last_account_trade_leverage : Option ℤ

  -- The list `block_checks`; a check that raises ends it.
  unfoldable pub block_checks :
      ModelDecision N → RiskInputs → AppConfig N → Result RiskError (List CheckResult)
  block_checks d i config =
      let margin = to_decimal d.margin_usdt in
      let balance = to_decimal config.initial_balance_usdt in
      do
        liquidation ← check_liquidation_safety N d config.liquidation_safety
        martingala ← check_anti_martingala margin i.last_trade_pnl_usdt i.last_trade_margin_usdt
        escalation ←
            check_anti_leverage_escalation d.leverage i.last_account_trade_pnl_usdt
              i.last_account_trade_leverage
        ok (
            check_sl_required N d
            ∷ check_tp_or_exit_plan N d
            ∷ check_daily_drawdown N i.daily_loss_usdt balance config.risk.max_daily_loss_percent
            ∷ check_total_drawdown N i.total_loss_usdt balance config.risk.max_total_loss_percent
            ∷ liquidation
            ∷ check_funding_gate N d i.funding_rate config.funding_gate
            ∷ check_fee_gate N i.fee_estimate config.risk.min_net_risk_reward
            ∷ check_max_open_positions N d i.open_positions_count config.trading.max_open_positions
            ∷ martingala
            ∷ escalation
            ∷ check_anti_averaging i.open_position_unrealized_pnl_usdt
            ∷ check_slippage_estimate i.slippage_estimate
            ∷ [])

  -- The list `adjust_checks`.
  unfoldable pub adjust_checks : ModelDecision N → AppConfig N → List CheckResult
  adjust_checks d config =
      check_margin_cap (to_decimal d.margin_usdt) (to_decimal config.risk.max_margin_per_trade_usdt)
      ∷ check_leverage_cap d.leverage config.leverage config.environment
      ∷ []

  -- The RiskValidationResult of each exit, before it is validated.
  abbrev pub result_of :
      ModelDecision N
      → RiskInputs
      → RiskDecision
      → Option AdjustedParameters
      → Reasons
      → RiskValidationResult
  result_of d i decision parameters reasons = record {
    aggregation_id = i.aggregation_id;
    symbol = d.symbol;
    decision = decision;
    original_margin_usdt = to_decimal d.margin_usdt;
    original_leverage = d.leverage;
    adjusted_parameters = parameters;
    daily_loss_at_check_usdt = some i.daily_loss_usdt;
    total_loss_at_check_usdt = some i.total_loss_usdt;
    reasons = reasons;
  }

  -- Phases 2 and 3: no check of the list blocks.
  unfoldable pub adjust_or_approve :
      ModelDecision N
      → RiskInputs
      → AppConfig N
      → List CheckResult
      → Result RiskError RiskValidationResult
  unfolding adjust_checks compute_adjusted_margin compute_adjusted_leverage
  adjust_or_approve d i config checks =
      let margin = to_decimal d.margin_usdt in
      let reasons = record_checks (adjust_checks d config) (record_checks checks []) in
      if any is_adjust_down (adjust_checks d config)
      then (do
        p ←
            new_parameters per_unit
              (compute_adjusted_margin margin (to_decimal config.risk.max_margin_per_trade_usdt))
              (compute_adjusted_leverage d.leverage config.leverage config.environment)
        new_result per_unit (result_of d i adjust_down (some p) reasons))
      else (do
        p ← new_parameters per_unit margin d.leverage
        new_result per_unit (result_of d i approve (some p) reasons))

  -- Phase 1 on the list of checks, and the phases after it.
  unfoldable pub decide :
      ModelDecision N
      → RiskInputs
      → AppConfig N
      → List CheckResult
      → Result RiskError RiskValidationResult
  unfolding adjust_or_approve
  decide d i config checks =
      if any is_block checks
      then new_result per_unit (result_of d i block none (record_checks checks []))
      else adjust_or_approve d i config checks

  unfoldable pub validate :
      ModelDecision N → RiskInputs → AppConfig N → Result RiskError RiskValidationResult
  unfolding decide block_checks
  validate d i config =
      if not d.execute
      then new_result per_unit
          (result_of d i no_operar none ((Rule.no_operar, Reason.no_edge) ∷ []))
      else if le d.margin_usdt zero
      then err value_error
      else block_checks d i config >>= decide d i config
