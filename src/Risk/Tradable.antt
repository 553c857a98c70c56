-- ===== src/Risk/Tradable.antt =====
-- What a trade has to satisfy for the Risk Engine (backend/risk_engine/engine.py) not to block it,
-- in terms of the trade, the account and the configuration alone, and the proof that the list of
-- checks decides it.
use k.Base.{pos, ◌<ℤ◌, ◌≡◌, ◌⊎◌, true, false, List, [], ◌∷◌, ok, Result-cases, arith, inl, inr}
use k.Base.Numbers.{Numbers}
use k.Config.{AppConfig}
use k.Decision.{ModelDecision}
use k.Risk.Results.{CheckResult}
use k.Risk.Checks.{
  has_exit_plan, loss_percent, check_sl_required, check_tp_or_exit_plan, check_daily_drawdown,
  check_total_drawdown, check_funding_gate, check_max_open_positions, check_fee_gate,
  check_slippage_estimate, check_liquidation_safety, check_anti_martingala,
  check_anti_leverage_escalation, check_anti_averaging,
}
use k.Risk.Engine.{RiskInputs, block_checks}
use k.Risk.Causes.{NotRaised, NotLosing, FeesCovered, HasRoom, FundingAccepted, LiquidationAccepted}

module _ (N : Numbers) (d : ModelDecision N) (i : RiskInputs N) (config : AppConfig N) where
  open N use {lt, le, zero, to_decimal}

  pub record Tradable : Type 0 where
    pub has_stop : le d.stop_loss zero ≡ false
    pub has_exit :
        (lt zero d.take_profit ≡ true) ⊎ (has_exit_plan d.position_management_plan ≡ true)
    pub has_balance : pos 0 <ℤ to_decimal config.initial_balance_usdt
    pub daily_below :
        le config.risk.max_daily_loss_percent
          (loss_percent N i.daily_loss_usdt (to_decimal config.initial_balance_usdt))
        ≡ false
    pub total_below :
        le config.risk.max_total_loss_percent
          (loss_percent N i.total_loss_usdt (to_decimal config.initial_balance_usdt))
        ≡ false
    pub liquidation_accepted : LiquidationAccepted N d config.liquidation_safety
    pub funding_accepted :
        (config.funding_gate.enabled ≡ false)
        ⊎ FundingAccepted N d.decision i.funding_rate config.funding_gate
    pub fees_covered : FeesCovered i.fee_estimate (to_decimal config.risk.min_net_risk_reward)
    pub has_room : HasRoom i.open_positions_count config.trading.max_open_positions
    pub margin_not_raised :
        NotRaised (to_decimal d.margin_usdt) i.last_trade_pnl_usdt i.last_trade_margin_usdt
    pub leverage_not_raised :
        NotRaised d.leverage i.last_account_trade_pnl_usdt i.last_account_trade_leverage
    pub not_averaging : NotLosing i.open_position_unrealized_pnl_usdt

  -- The three checks that may raise, and the list made of them.
  abbrev pub checks_with : CheckResult → CheckResult → CheckResult → List CheckResult
  checks_with liquidation martingala escalation =
      check_sl_required N d
      ∷ check_tp_or_exit_plan N d
      ∷ check_daily_drawdown N i.daily_loss_usdt (to_decimal config.initial_balance_usdt)
          config.risk.max_daily_loss_percent
      ∷ check_total_drawdown N i.total_loss_usdt (to_decimal config.initial_balance_usdt)
          config.risk.max_total_loss_percent
      ∷ liquidation
      ∷ check_funding_gate N d i.funding_rate config.funding_gate
      ∷ check_fee_gate N i.fee_estimate config.risk.min_net_risk_reward
      ∷ check_max_open_positions N d i.open_positions_count config.trading.max_open_positions
      ∷ martingala
      ∷ escalation
      ∷ check_anti_averaging i.open_position_unrealized_pnl_usdt
      ∷ check_slippage_estimate i.slippage_estimate
      ∷ []

  pub record Made (checks : List CheckResult) : Type 0 where
    pub liquidation : CheckResult
    pub martingala : CheckResult
    pub escalation : CheckResult
    pub liquidation_ok : check_liquidation_safety N d config.liquidation_safety ≡ ok liquidation
    pub martingala_ok :
        check_anti_martingala
          (to_decimal d.margin_usdt)
          i.last_trade_pnl_usdt
          i.last_trade_margin_usdt
        ≡ ok martingala
    pub escalation_ok :
        check_anti_leverage_escalation d.leverage i.last_account_trade_pnl_usdt
          i.last_account_trade_leverage
        ≡ ok escalation
    pub list_is : checks ≡ checks_with liquidation martingala escalation

  pub block_checks-Made :
      (checks : List CheckResult) → block_checks N d i config ≡ ok checks → Made checks
  unfolding block_checks
  block_checks-Made checks e =
      elim (Result-cases (check_liquidation_safety N d config.liquidation_safety)) [
        | inr (x, l) ↦ ground arith
        | inl (l, le) ↦
            elim (Result-cases (
              check_anti_martingala (to_decimal d.margin_usdt) i.last_trade_pnl_usdt
                i.last_trade_margin_usdt)) [
                  | inr (x, m) ↦ ground arith
                  | inl (m, me) ↦
                      elim (Result-cases (
                        check_anti_leverage_escalation d.leverage i.last_account_trade_pnl_usdt
                          i.last_account_trade_leverage)) [
                            | inr (x, s) ↦ ground arith
                            | inl (s, se) ↦ record {
                              liquidation = l;
                              martingala = m;
                              escalation = s;
                              liquidation_ok = le;
                              martingala_ok = me;
                              escalation_ok = se;
                              list_is = ground arith;
                            }
                          ]
                ]
      ]
