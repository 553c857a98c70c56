-- ===== src/Risk/Checks.antt =====
-- backend/risk_engine/checks.py: the checks, a child module for each group of them.
mod Order
mod Gates
mod Liquidation
mod History
unfoldable pub use Order.{
  check_sl_required, check_tp_or_exit_plan, check_daily_drawdown, check_total_drawdown,
  check_margin_cap, check_leverage_cap, has_exit_plan, loss_percent,
}
unfoldable pub use Gates.{
  check_funding_gate, check_max_open_positions, check_fee_gate, check_slippage_estimate,
  adverse_rate,
}
pub use Gates.{FeeEstimate, SlippageEstimate}
unfoldable pub use Liquidation.{
  estimate_liquidation_price, sl_is_past_liquidation, sl_buffer_percent, check_liquidation_safety,
}
unfoldable pub use History.{
  check_anti_martingala, check_anti_leverage_escalation, check_anti_averaging,
}
