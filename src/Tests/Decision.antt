-- ===== src/Tests/Decision.antt =====
-- The aggregator on a decision to go long that the signals back, and on one that they oppose.
use k.Base.{pos, negsuc, true, false, ◌≡◌, refl, ◌↔◌, none, some, [], ◌∷◌, ◌-ℤ◌, ◌+ℤ◌}
use k.Decision.{is_no_operar, no_operar, symbol_allowed}
use k.Decision.Aggregator.{
  FloatMath, trending, direction_mismatch, hundredths, QuantSignalsPackage,
  DecisionAggregationResult, compute_quant_score, compute_volatility_factor, regime_factor,
  net_quant_direction, against, conflicts, detect_contradictions, determine_final_action,
  sources_of, weighted, action_of, aggregation_is_valid, aggregate,
}
use k.Decision.Agreed.{Backed, trade_iff}
use k.Tests.Fixed.{fixed, minus, plus}
use k.Tests.Risk.{trade}

-- Stand-ins for what hundredths cannot hold.
abbrev float_math : FloatMath fixed
float_math = record { power = λ a b. a; abs = λ a. a; round6 = λ a. a }

abbrev signals : QuantSignalsPackage fixed float_math
signals = record {
  momentum_signal = some (pos 60);
  mean_reversion_signal = none;
  breakout_signal = some (pos 40);
  funding_signal = none;
  open_interest_signal = none;
  order_flow_imbalance_signal = none;
  liquidity_sweep_signal = none;
  signal_strength_score = some (pos 70);
  signal_conflict_score = some (pos 20);
}

abbrev opposed : QuantSignalsPackage fixed float_math
opposed = record signals { momentum_signal = some (negsuc 89) }

-- The net signal is -0.25.
opposed_lem :
    action_of fixed float_math trade opposed (pos 76) ≡ (no_operar, direction_mismatch ∷ [])
unfolding action_of detect_contradictions determine_final_action against conflicts
    compute_quant_score net_quant_direction minus plus ◌-ℤ◌ ◌+ℤ◌
opposed_lem = refl

abbrev agreed : DecisionAggregationResult fixed float_math
agreed = record {
  symbol = "BTCUSDT";
  contributing_sources = record {
    quant_score = pos 70;
    gpt_context_score = pos 80;
    regime_factor = pos 85;
    volatility_factor = pos 70;
  };
  aggregated_score = pos 76;
  final_action = trade.decision;
  contradictions_detected = [];
}

trade_iff_example :
    let sources = sources_of fixed float_math trade signals trending (pos 50) in
    ((is_no_operar agreed.final_action ≡ false) ↔ (
      (is_no_operar trade.decision ≡ false)
      × Backed fixed float_math trade signals
      × (fixed.lt (weighted fixed float_math sources) (hundredths fixed float_math 50) ≡ false)))
    × (is_no_operar agreed.final_action ≡ false
        → (agreed.final_action ≡ trade.decision) × (agreed.contradictions_detected ≡ []))
    × (aggregation_is_valid fixed float_math agreed ≡ true)
unfolding aggregate sources_of weighted action_of detect_contradictions determine_final_action
    against conflicts compute_quant_score compute_volatility_factor regime_factor
    net_quant_direction aggregation_is_valid symbol_allowed minus plus ◌-ℤ◌ ◌+ℤ◌
trade_iff_example =
    trade_iff fixed float_math trade signals trending (pos 50) {result = agreed} refl
