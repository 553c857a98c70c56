-- ===== src/Risk/Results.antt =====
-- backend/risk_engine/checks.py: the result of a check. A rule is named by a string in the code
-- and by a constructor here. A reason is the message by its kind; the numbers that the code
-- formats into the text are left out.
use k.Base.{ℕ, Bool, true, false, ◌==◌}

pub data CheckOutcome : Type 0 where
  pass block adjust_down : CheckOutcome

pub data Rule : Type 0 where
  sl_required tp_or_exit_plan daily_drawdown total_drawdown margin_cap leverage_cap funding_gate :
      Rule
  max_open_positions liquidation_safety liquidation_unknown sl_after_liquidation : Rule
  entry_liq_distance sl_liq_buffer anti_martingala anti_leverage_escalation anti_averaging : Rule
  fee_gate slippage_estimate no_operar : Rule

unfoldable pub rule_code : Rule → ℕ
rule_code Rule.sl_required = 0
rule_code Rule.tp_or_exit_plan = 1
rule_code Rule.daily_drawdown = 2
rule_code Rule.total_drawdown = 3
rule_code Rule.margin_cap = 4
rule_code Rule.leverage_cap = 5
rule_code Rule.funding_gate = 6
rule_code Rule.max_open_positions = 7
rule_code Rule.liquidation_safety = 8
rule_code Rule.liquidation_unknown = 9
rule_code Rule.sl_after_liquidation = 10
rule_code Rule.entry_liq_distance = 11
rule_code Rule.sl_liq_buffer = 12
rule_code Rule.anti_martingala = 13
rule_code Rule.anti_leverage_escalation = 14
rule_code Rule.anti_averaging = 15
rule_code Rule.fee_gate = 16
rule_code Rule.slippage_estimate = 17
rule_code Rule.no_operar = 18

-- `==` on the names of rules.
abbrev pub rule_eq : Rule → Rule → Bool
rule_eq r q = rule_code r == rule_code q

pub data Reason : Type 0 where
  sl_missing sl_present not_executing no_exit exit_present invalid_balance limit_reached : Reason
  within_limit over_cap within_cap gate_disabled no_trade funding_unknown : Reason
  funding_unknown_accepted funding_adverse funding_below_limit count_unreliable : Reason
  distance_unknown distance_unknown_accepted invalid_entry sl_past sl_past_accepted : Reason
  distance_short buffer_negative buffer_short liquidation_far : Reason
  no_history last_trade_won size_raised size_not_raised no_position position_winning : Reason
  position_losing no_fee_estimate net_rr_low fees_projected no_slippage_estimate : Reason
  slippage_projected no_edge : Reason

pub record CheckResult : Type 0 where
  pub outcome : CheckOutcome
  pub rule : Rule
  pub reason : Reason

abbrev pub passes : Rule → Reason → CheckResult
passes rule reason = record { outcome = CheckOutcome.pass; rule = rule; reason = reason }

abbrev pub blocks : Rule → Reason → CheckResult
blocks rule reason = record { outcome = CheckOutcome.block; rule = rule; reason = reason }

abbrev pub adjusts : Rule → Reason → CheckResult
adjusts rule reason = record { outcome = CheckOutcome.adjust_down; rule = rule; reason = reason }

-- `c.outcome == CheckOutcome.BLOCK`
abbrev pub is_block : CheckResult → Bool
is_block c = elim c.outcome [ CheckOutcome.block ↦ true | _ ↦ false ]

-- `c.outcome == CheckOutcome.ADJUST_DOWN`
abbrev pub is_adjust_down : CheckResult → Bool
is_adjust_down c = elim c.outcome [ CheckOutcome.adjust_down ↦ true | _ ↦ false ]

-- What the Risk Engine may raise.
pub data RiskError : Type 0 where
  value_error zero_division_error validation_error : RiskError
