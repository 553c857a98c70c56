-- ===== src/Tests/Risk.antt =====
-- The Risk Engine on a LONG of BTCUSDT: approved, reduced, blocked, and the two gaps.
use k.Base.{
  ◌≡◌, refl, pos, negsuc, true, false, none, some, ok, err, [], ◌∷◌, arith, Option, ◌⊎◌, inl, ◌↔◌,
  ◌≤ℤ◌, List, length, All, Result, ◌-ℤ◌, ◌+ℤ◌,
}
use k.Config.{AppConfig, paper, live, LivePhase, leverage_limits, cap_for_env}
use k.Decision.{
  DecisionType, EntryType, ModelDecision, model_accepts, symbol_allowed, has_text,
  no_operar_cannot_execute,
}
use k.Risk.Results.{Rule, Reason, CheckResult, rule_code, adjusts, RiskError, zero_division_error}
use k.Risk.Checks.{
  has_exit_plan, loss_percent, check_sl_required, check_tp_or_exit_plan, check_daily_drawdown,
  check_total_drawdown, check_margin_cap, check_leverage_cap, check_funding_gate,
  check_max_open_positions, check_fee_gate, check_slippage_estimate, check_liquidation_safety,
  check_anti_martingala, check_anti_leverage_escalation, check_anti_averaging,
  estimate_liquidation_price,
}
use k.Risk.Schemas.{
  RiskDecision, RiskValidationResult, Reasons, record_checks, new_parameters, new_result,
}
use k.Risk.Engine.{RiskInputs, validate, block_checks}
use k.Risk.Tradable.{Tradable}
use k.Risk.Safety.{verdict_iff}
use k.Risk.Limits.{ParametersFit, parameters_fit, live_leverage}
use k.Risk.Audit.{is_recorded, every_check_recorded}
use k.Risk.Totality.{Sensible, validate_total}
use k.Risk.Gaps.{liquidation_adjustment_dropped, full_distance_raises}
use k.Tests.Fixed.{fixed, fixed-exact, fixed-order, minus, plus}

abbrev pub trade : ModelDecision fixed
trade = record {
  environment = paper;
  decision = DecisionType.long;
  confidence = pos 80;
  symbol = "BTCUSDT";
  entry_type = EntryType.market;
  entry_price = pos 10000;
  stop_loss = pos 9500;
  take_profit = pos 11200;
  leverage = pos 3;
  margin_usdt = pos 800;
  net_risk_reward = pos 200;
  liquidation_distance_percent_estimated = pos 3000;
  position_management_plan = record {
    use_trailing_stop = false;
    move_to_break_even = false;
    partial_close_plan = "  ";
    max_time_in_trade_minutes = 0;
  };
  execute = true;
}

abbrev config : AppConfig fixed
config = record {
  initial_balance_usdt = pos 10000;
  trading = record { max_open_positions = pos 1; max_open_positions_allowed = pos 3 };
  risk = record {
    max_margin_per_trade_usdt = pos 1000;
    max_daily_loss_percent = pos 1000;
    max_total_loss_percent = pos 3000;
    min_net_risk_reward = pos 150;
  };
  leverage = record {
    max_leverage_paper = pos 10;
    max_leverage_testnet = pos 5;
    max_leverage_live_initial = pos 3;
    max_leverage_live_absolute = pos 5;
    live_phase = LivePhase.initial;
  };
  environment = paper;
  liquidation_safety = record {
    enabled = true;
    min_distance_entry_to_liquidation_percent = pos 500;
    min_buffer_stop_to_liquidation_percent = pos 200;
    block_if_liquidation_unknown = true;
    block_if_stop_after_liquidation = true;
  };
  funding_gate = record {
    enabled = true;
    max_adverse_funding_rate = pos 10;
    block_if_funding_unknown = true;
  };
}

abbrev inputs : RiskInputs fixed
inputs = record {
  aggregation_id = "a";
  daily_loss_usdt = pos 300;
  total_loss_usdt = pos 500;
  last_trade_pnl_usdt = some (negsuc 99);
  last_trade_margin_usdt = some (pos 900);
  open_position_unrealized_pnl_usdt = none;
  funding_rate = some (negsuc 4);
  open_positions_count = some (pos 0);
  fee_estimate = some (record {
    entry_fee_usdt = pos 1;
    exit_fee_at_tp_usdt = pos 1;
    exit_fee_at_sl_usdt = pos 1;
    gross_risk_reward = pos 240;
    net_risk_reward = pos 190;
    entry_rate = pos 0;
    exit_rate = pos 0;
  });
  slippage_estimate = none;
  last_account_trade_pnl_usdt = some (negsuc 99);
  last_account_trade_leverage = some (pos 3);
}

-- What a run of the engine computes with.
engine : Unit {0}
unfolding validate model_accepts symbol_allowed leverage_limits cap_for_env has_exit_plan has_text
    loss_percent check_sl_required check_tp_or_exit_plan check_daily_drawdown check_total_drawdown
    check_margin_cap check_leverage_cap check_funding_gate check_max_open_positions check_fee_gate
    check_slippage_estimate check_liquidation_safety check_anti_martingala
    check_anti_leverage_escalation check_anti_averaging record_checks new_parameters new_result
    rule_code no_operar_cannot_execute ◌-ℤ◌ ◌+ℤ◌ minus plus
engine = tt

abbrev reasons : Reason → Reason → Reason → Reason → Reasons
reasons total liquidation margin leverage =
    (Rule.sl_required, Reason.sl_present)
    ∷ (Rule.tp_or_exit_plan, Reason.exit_present)
    ∷ (Rule.daily_drawdown, Reason.within_limit)
    ∷ (Rule.total_drawdown, total)
    ∷ (Rule.liquidation_safety, liquidation)
    ∷ (Rule.funding_gate, Reason.funding_below_limit)
    ∷ (Rule.fee_gate, Reason.fees_projected)
    ∷ (Rule.max_open_positions, Reason.within_limit)
    ∷ (Rule.anti_martingala, Reason.size_not_raised)
    ∷ (Rule.anti_leverage_escalation, Reason.size_not_raised)
    ∷ (Rule.anti_averaging, Reason.no_position)
    ∷ (Rule.slippage_estimate, Reason.no_slippage_estimate)
    ∷ (Rule.margin_cap, margin)
    ∷ (Rule.leverage_cap, leverage)
    ∷ []

abbrev approved : RiskValidationResult
approved = record {
  aggregation_id = "a";
  symbol = "BTCUSDT";
  decision = RiskDecision.approve;
  original_margin_usdt = pos 800;
  original_leverage = pos 3;
  adjusted_parameters = some (record { margin_usdt = pos 800; leverage = pos 3 });
  daily_loss_at_check_usdt = some (pos 300);
  total_loss_at_check_usdt = some (pos 500);
  reasons = reasons Reason.within_limit Reason.liquidation_far Reason.within_cap Reason.within_cap;
}

approves : validate fixed trade inputs config ≡ ok approved
unfolding engine
approves = refl

-- The same trade under a maximum margin of 5 and a cap of 2x.
abbrev tight : AppConfig fixed
tight = record config {
  risk = record (config.risk) { max_margin_per_trade_usdt = pos 500 };
  leverage = record (config.leverage) { max_leverage_live_initial = pos 2 };
  environment = live;
}

abbrev reduced : RiskValidationResult
reduced = record approved {
  decision = RiskDecision.adjust_down;
  adjusted_parameters = some (record { margin_usdt = pos 500; leverage = pos 2 });
  reasons = reasons Reason.within_limit Reason.liquidation_far Reason.over_cap Reason.over_cap;
}

reduces : validate fixed trade inputs tight ≡ ok reduced
unfolding engine
reduces = refl

-- After a loss of 40% the trade is blocked.
abbrev losing : RiskInputs fixed
losing = record inputs { total_loss_usdt = pos 4000 }

abbrev verdict_of : Result RiskError RiskValidationResult → Option RiskDecision
verdict_of (ok r) = some r.decision
verdict_of (err e) = none

blocks_after_loss : verdict_of (validate fixed trade losing config) ≡ some RiskDecision.block
unfolding engine
blocks_after_loss = refl

-- The liquidation price is 4% away, and 5% are required.
abbrev close_trade : ModelDecision fixed
close_trade = record trade {
  stop_loss = pos 9800;
  liquidation_distance_percent_estimated = pos 400;
}

abbrev close_result : RiskValidationResult
close_result = record approved {
  reasons =
      (Rule.sl_required, Reason.sl_present)
      ∷ (Rule.tp_or_exit_plan, Reason.exit_present)
      ∷ (Rule.daily_drawdown, Reason.within_limit)
      ∷ (Rule.total_drawdown, Reason.within_limit)
      ∷ (Rule.entry_liq_distance, Reason.distance_short)
      ∷ (Rule.funding_gate, Reason.funding_below_limit)
      ∷ (Rule.fee_gate, Reason.fees_projected)
      ∷ (Rule.max_open_positions, Reason.within_limit)
      ∷ (Rule.anti_martingala, Reason.size_not_raised)
      ∷ (Rule.anti_leverage_escalation, Reason.size_not_raised)
      ∷ (Rule.anti_averaging, Reason.no_position)
      ∷ (Rule.slippage_estimate, Reason.no_slippage_estimate)
      ∷ (Rule.margin_cap, Reason.within_cap)
      ∷ (Rule.leverage_cap, Reason.within_cap)
      ∷ [];
}

close_approves : validate fixed close_trade inputs config ≡ ok close_result
unfolding engine
close_approves = refl

close_Tradable : Tradable fixed close_trade inputs config
close_Tradable =
    (verdict_iff fixed close_trade inputs config (unfold engine in refl) refl close_approves).0.0
      (inl refl)

verdict_iff_example :
    (((approved.decision ≡ RiskDecision.approve) ⊎ (approved.decision ≡ RiskDecision.adjust_down))
      ↔ Tradable fixed trade inputs config)
    × ((approved.decision ≡ RiskDecision.block) ↔ ¬ Tradable fixed trade inputs config)
unfolding engine
verdict_iff_example = verdict_iff fixed trade inputs config {r = approved} refl refl approves

parameters_fit_example :
    ParametersFit fixed trade inputs tight reduced.decision reduced.adjusted_parameters
parameters_fit_example = parameters_fit fixed trade inputs tight {r = reduced} reduces

live_leverage_example : (pos 2 ≤ℤ pos 5) × (LivePhase.initial ≡ LivePhase.initial → pos 2 ≤ℤ pos 3)
unfolding engine
live_leverage_example = live_leverage fixed trade inputs tight {r = reduced} refl refl reduces refl

every_check_recorded_example :
    (checks : List CheckResult) × (block_checks fixed trade inputs config ≡ ok checks)
    × (length checks ≡ 12)
    × All (λ c. is_recorded approved.reasons c.rule ≡ true) checks
every_check_recorded_example = every_check_recorded fixed trade inputs config refl approves

trade_Sensible : Sensible fixed trade inputs config
unfolding engine estimate_liquidation_price
trade_Sensible = record {
  some_margin = omega arith;
  some_leverage = omega arith;
  daily_nonneg = omega arith;
  total_nonneg = omega arith;
  last_margin = omega arith;
  last_leverage = omega arith;
  priced = refl;
}

validate_total_example : (r : RiskValidationResult) × (validate fixed trade inputs config ≡ ok r)
unfolding engine
validate_total_example = validate_total fixed trade inputs config fixed-order trade_Sensible refl

liquidation_adjustment_dropped_example :
    (close_result.decision ≡ RiskDecision.approve)
    × (close_result.adjusted_parameters ≡ some (record { margin_usdt = pos 800; leverage = pos 3 }))
unfolding engine
liquidation_adjustment_dropped_example =
    liquidation_adjustment_dropped fixed close_trade inputs config
      {c = adjusts Rule.entry_liq_distance Reason.distance_short} {r = close_result} refl refl refl
      refl close_Tradable (omega arith) (omega arith) close_approves

-- At 1x the liquidation of a LONG is 100% away.
abbrev full_trade : ModelDecision fixed
full_trade = record trade { leverage = pos 1; liquidation_distance_percent_estimated = pos 10000 }

full_trade-accepted : model_accepts fixed full_trade ≡ true
unfolding engine
full_trade-accepted = refl

full_distance_raises_example : validate fixed full_trade inputs config ≡ err zero_division_error
full_distance_raises_example =
    full_distance_raises fixed full_trade inputs config fixed-exact refl refl refl refl refl refl
      refl refl
