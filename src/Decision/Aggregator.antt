-- ===== src/Decision/Aggregator.antt =====
-- backend/decision_engine/aggregator.py, with the constraints of aggregator_schemas.py. A
-- contradiction keeps its kind, not its text; ids and time stamps are left out.
use k.Base.{
  ℕ, pos, Bool, false, ◌&&◌, Option, none, some, List, [], ◌∷◌, ◌++◌, length, String, Result, ok,
  err, if◌then◌else◌,
}
use k.Base.Numbers.{Numbers}
use k.Decision.{DecisionType, long, short, no_operar, is_no_operar, symbol_allowed, ModelDecision}

-- The float functions that only the aggregator uses: `a ** b`, `abs(a)` and `round(a, 6)`.
pub record FloatMath (N : Numbers) : Type 0 where
  pub power : N.Float → N.Float → N.Float
  pub abs : N.Float → N.Float
  pub round6 : N.Float → N.Float

pub data PrimaryRegime : Type 0 where
  trending ranging high_volatility low_volatility breakout unclear : PrimaryRegime

pub data Contradiction : Type 0 where
  direction_mismatch quant_internal_conflict low_quant_strength low_gpt_confidence : Contradiction

abbrev pub found_if : Bool → Contradiction → List Contradiction
found_if b c = if b then c ∷ [] else []

-- `[v for v in values if v is not None]`
abbrev available : {A : Type 0} → List (Option A) → List A
available [] = []
available (none ∷ rest) = available rest
available (some v ∷ rest) = v ∷ available rest

module _ (N : Numbers) (M : FloatMath N) where
  open N use {Float, lt, le, one, three_halves, neg, add, sub, mul, div, of_int, ratio}

  -- A float literal of two decimals.
  abbrev pub hundredths : ℕ → Float
  hundredths n = ratio (pos n) (pos 100)

  -- `QuantSignalsPackage`, as far as the aggregator reads it.
  pub record QuantSignalsPackage : Type 0 where
    pub momentum_signal : Option Float
    pub mean_reversion_signal : Option Float
    pub breakout_signal : Option Float
    pub funding_signal : Option Float
    pub open_interest_signal : Option Float
    pub order_flow_imbalance_signal : Option Float
    pub liquidity_sweep_signal : Option Float
    pub signal_strength_score : Option Float
    pub signal_conflict_score : Option Float

  pub record ContributingSources : Type 0 where
    pub quant_score : Float
    pub gpt_context_score : Float
    pub regime_factor : Float
    pub volatility_factor : Float

  pub record DecisionAggregationResult : Type 0 where
    pub symbol : String
    pub contributing_sources : ContributingSources
    pub aggregated_score : Float
    pub final_action : DecisionType
    pub contradictions_detected : List Contradiction

  pub data AggregationError : Type 0 where
    validation_error : AggregationError

  -- `_REGIME_FACTOR`
  unfoldable pub regime_factor : PrimaryRegime → Float
  regime_factor trending = hundredths 85
  regime_factor breakout = hundredths 85
  regime_factor ranging = hundredths 55
  regime_factor low_volatility = hundredths 50
  regime_factor high_volatility = hundredths 40
  regime_factor unclear = hundredths 20

  -- `sum(values)`, which starts from the int 0.
  abbrev sum_from : Float → List Float → Float
  sum_from total [] = total
  sum_from total (v ∷ rest) = sum_from (add total v) rest

  -- `sum(values) / len(values)`, for values that are not none at all.
  abbrev mean : List Float → Float
  mean values = div (sum_from (of_int (pos 0)) values) (of_int (pos (length values)))

  abbrev magnitudes : List Float → List Float
  magnitudes [] = []
  magnitudes (v ∷ rest) = M.abs v ∷ magnitudes rest

  -- `min(a, 1.0)` and `max(a, 0.0)`
  abbrev at_most_one : Float → Float
  at_most_one a = if lt one a then one else a

  abbrev at_least_zero : Float → Float
  at_least_zero a = if lt a N.zero then N.zero else a

  unfoldable pub compute_quant_score : QuantSignalsPackage → Float
  compute_quant_score qs = elim qs.signal_strength_score [
    | some score ↦ score
    | none ↦
        elim (available (
          qs.momentum_signal ∷ qs.mean_reversion_signal ∷ qs.breakout_signal ∷ qs.funding_signal
          ∷ qs.open_interest_signal ∷ qs.order_flow_imbalance_signal ∷ qs.liquidity_sweep_signal
          ∷ [])) [ [] ↦ N.zero | v ∷ rest ↦ at_most_one (mean (magnitudes (v ∷ rest))) ]
  ]

  unfoldable pub compute_volatility_factor : Float → Float
  compute_volatility_factor score =
      at_least_zero (sub one (mul (M.power score three_halves) (hundredths 60)))

  unfoldable pub net_quant_direction : QuantSignalsPackage → Option Float
  net_quant_direction qs =
      elim (available (qs.momentum_signal ∷ qs.mean_reversion_signal ∷ qs.breakout_signal ∷ [])) [
        | [] ↦ none
        | v ∷ rest ↦ some (mean (v ∷ rest))
      ]

  -- The net signal points against the direction of the decision.
  unfoldable pub against : DecisionType → Option Float → Bool
  against action none = false
  against long (some net) = lt net (neg (hundredths 20))
  against short (some net) = lt (hundredths 20) net
  against no_operar (some net) = false

  unfoldable pub conflicts : Option Float → Bool
  conflicts none = false
  conflicts (some score) = lt (hundredths 60) score

  unfoldable pub detect_contradictions : ModelDecision N → QuantSignalsPackage → List Contradiction
  unfolding against conflicts compute_quant_score net_quant_direction
  detect_contradictions gpt_decision qs =
      found_if (against gpt_decision.decision (net_quant_direction qs)) direction_mismatch
      ++ found_if (conflicts qs.signal_conflict_score) quant_internal_conflict
      ++ found_if (lt (compute_quant_score qs) (hundredths 40)) low_quant_strength
      ++ found_if (lt gpt_decision.confidence (hundredths 70)) low_gpt_confidence

  unfoldable pub determine_final_action : DecisionType → Float → List Contradiction → DecisionType
  determine_final_action gpt_action aggregated_score (c ∷ cs) = no_operar
  determine_final_action gpt_action aggregated_score [] =
      if lt aggregated_score (hundredths 50) then no_operar else gpt_action

  -- `Field(ge=0.0, le=1.0)`
  abbrev pub in_unit : Float → Bool
  in_unit x = le N.zero x && le x one

  unfoldable pub aggregation_is_valid : DecisionAggregationResult → Bool
  unfolding symbol_allowed
  aggregation_is_valid r =
      in_unit r.contributing_sources.quant_score
      && in_unit r.contributing_sources.gpt_context_score
      && in_unit r.contributing_sources.regime_factor
      && in_unit r.contributing_sources.volatility_factor
      && symbol_allowed r.symbol
      && in_unit r.aggregated_score

  unfoldable pub sources_of :
      ModelDecision N → QuantSignalsPackage → PrimaryRegime → Float → ContributingSources
  unfolding compute_quant_score regime_factor compute_volatility_factor
  sources_of gpt_decision qs regime volatility_score = record {
    quant_score = compute_quant_score qs;
    gpt_context_score = gpt_decision.confidence;
    regime_factor = regime_factor regime;
    volatility_factor = compute_volatility_factor volatility_score;
  }

  unfoldable pub weighted : ContributingSources → Float
  weighted s =
      add
        (add (add (mul (hundredths 40) s.quant_score) (mul (hundredths 30) s.gpt_context_score))
          (mul (hundredths 20) s.regime_factor))
        (mul (hundredths 10) s.volatility_factor)

  -- What is decided: the action and the contradictions.
  unfoldable pub action_of :
      ModelDecision N → QuantSignalsPackage → Float → DecisionType × List Contradiction
  unfolding detect_contradictions determine_final_action
  action_of gpt_decision qs aggregated_score =
      let contradictions = detect_contradictions gpt_decision qs in
      if is_no_operar gpt_decision.decision then (no_operar, []) else (
        determine_final_action gpt_decision.decision aggregated_score contradictions,
        contradictions,
      )

  unfoldable pub aggregate :
      ModelDecision N
      → QuantSignalsPackage
      → PrimaryRegime
      → Float
      → Result AggregationError DecisionAggregationResult
  unfolding sources_of weighted action_of aggregation_is_valid
  aggregate gpt_decision qs regime volatility_score =
      let sources = sources_of gpt_decision qs regime volatility_score in
      let aggregated_score = weighted sources in
      let (action, contradictions) = action_of gpt_decision qs aggregated_score in
      let result : DecisionAggregationResult = record {
        symbol = gpt_decision.symbol;
        contributing_sources = sources;
        aggregated_score = M.round6 aggregated_score;
        final_action = action;
        contradictions_detected = contradictions;
      } in
      if aggregation_is_valid result then ok result else err validation_error
