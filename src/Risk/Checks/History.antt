-- ===== src/Risk/Checks/History.antt =====
-- The checks of backend/risk_engine/checks.py against the last trade and the open position. The
-- code's isinstance tests on their arguments always pass here: an argument has its type.
use k.Base.{ℤ, pos, leb_ℤ, ltb_ℤ, Option, none, some, Result, ok, err, if◌then◌else◌}
use k.Risk.Results.{Rule, Reason, CheckResult, passes, blocks, RiskError, value_error}

-- Once the proposed size is positive: the last trade, if any, must have a positive size too; then
-- a larger size after a loss blocks. The size is the margin or the leverage.
escalation : Rule → ℤ → Option ℤ → Option ℤ → Result RiskError CheckResult
escalation rule proposed last_pnl none = ok (passes rule Reason.no_history)
escalation rule proposed none (some last) =
    if leb_ℤ last (pos 0) then err value_error else ok (passes rule Reason.no_history)
escalation rule proposed (some pnl) (some last) =
    if leb_ℤ last (pos 0)
    then err value_error
    else ok (
        if leb_ℤ (pos 0) pnl
        then passes rule Reason.last_trade_won
        else if ltb_ℤ last proposed
        then blocks rule Reason.size_raised
        else passes rule Reason.size_not_raised)

unfoldable pub check_anti_martingala : ℤ → Option ℤ → Option ℤ → Result RiskError CheckResult
unfolding escalation
check_anti_martingala proposed_margin_usdt last_trade_pnl_usdt last_trade_margin_usdt =
    if leb_ℤ proposed_margin_usdt (pos 0)
    then err value_error
    else escalation Rule.anti_martingala proposed_margin_usdt last_trade_pnl_usdt
        last_trade_margin_usdt

unfoldable pub check_anti_leverage_escalation :
    ℤ → Option ℤ → Option ℤ → Result RiskError CheckResult
unfolding escalation
check_anti_leverage_escalation proposed_leverage last_trade_pnl_usdt last_trade_leverage =
    if leb_ℤ proposed_leverage (pos 0)
    then err value_error
    else escalation Rule.anti_leverage_escalation proposed_leverage last_trade_pnl_usdt
        last_trade_leverage

unfoldable pub check_anti_averaging : Option ℤ → CheckResult
check_anti_averaging none = passes Rule.anti_averaging Reason.no_position
check_anti_averaging (some pnl) =
    if leb_ℤ (pos 0) pnl
    then passes Rule.anti_averaging Reason.position_winning
    else blocks Rule.anti_averaging Reason.position_losing
