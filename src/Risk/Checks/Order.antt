-- ===== src/Risk/Checks/Order.antt =====
-- The checks of backend/risk_engine/checks.py on the order itself and on the losses so far.
use k.Base.{ℤ, pos, leb_ℤ, ltb_ℤ, Bool, not, ◌&&◌, ◌||◌, if◌then◌else◌, ltb}
use k.Base.Numbers.{Numbers}
use k.Config.{Environment, LeverageConfig, cap_for_env}
use k.Decision.{ModelDecision, PositionManagementPlan, has_text}
use k.Risk.Results.{Rule, Reason, CheckResult, passes, blocks, adjusts}

-- Some element of the plan closes the position.
unfoldable pub has_exit_plan : PositionManagementPlan → Bool
unfolding has_text
has_exit_plan plan =
    plan.use_trailing_stop
    || plan.move_to_break_even
    || has_text plan.partial_close_plan
    || ltb 0 plan.max_time_in_trade_minutes

unfoldable pub check_margin_cap : ℤ → ℤ → CheckResult
check_margin_cap margin_usdt max_margin =
    if ltb_ℤ max_margin margin_usdt
    then adjusts Rule.margin_cap Reason.over_cap
    else passes Rule.margin_cap Reason.within_cap

unfoldable pub check_leverage_cap : ℤ → LeverageConfig → Environment → CheckResult
check_leverage_cap leverage config environment =
    if ltb_ℤ (cap_for_env config environment) leverage
    then adjusts Rule.leverage_cap Reason.over_cap
    else passes Rule.leverage_cap Reason.within_cap

module _ (N : Numbers) where
  open N use {Float, le, zero, hundred, mul, ratio}

  unfoldable pub check_sl_required : ModelDecision N → CheckResult
  check_sl_required d =
      if d.execute && le d.stop_loss zero
      then blocks Rule.sl_required Reason.sl_missing
      else passes Rule.sl_required Reason.sl_present

  unfoldable pub check_tp_or_exit_plan : ModelDecision N → CheckResult
  check_tp_or_exit_plan d =
      if not d.execute
      then passes Rule.tp_or_exit_plan Reason.not_executing
      else if not (N.lt zero d.take_profit) && not (has_exit_plan d.position_management_plan)
      then blocks Rule.tp_or_exit_plan Reason.no_exit
      else passes Rule.tp_or_exit_plan Reason.exit_present

  -- `float(loss / balance) * 100`
  unfoldable pub loss_percent : ℤ → ℤ → Float
  loss_percent loss balance = mul (ratio loss balance) hundred

  unfoldable pub check_daily_drawdown : ℤ → ℤ → Float → CheckResult
  check_daily_drawdown daily_loss_usdt initial_balance_usdt max_daily_loss_percent =
      if leb_ℤ initial_balance_usdt (pos 0)
      then blocks Rule.daily_drawdown Reason.invalid_balance
      else if le max_daily_loss_percent (loss_percent daily_loss_usdt initial_balance_usdt)
      then blocks Rule.daily_drawdown Reason.limit_reached
      else passes Rule.daily_drawdown Reason.within_limit

  unfoldable pub check_total_drawdown : ℤ → ℤ → Float → CheckResult
  check_total_drawdown total_loss_usdt initial_balance_usdt max_total_loss_percent =
      if leb_ℤ initial_balance_usdt (pos 0)
      then blocks Rule.total_drawdown Reason.invalid_balance
      else if le max_total_loss_percent (loss_percent total_loss_usdt initial_balance_usdt)
      then blocks Rule.total_drawdown Reason.limit_reached
      else passes Rule.total_drawdown Reason.within_limit
