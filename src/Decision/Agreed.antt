-- ===== src/Decision/Agreed.antt =====
-- When a decision of the model passes: backend/decision_engine/aggregator.py.
use k.Base.{
  Bool, true, false, Option, none, some, List, [], ◌∷◌, ◌++◌, ◌≡◌, refl, ◌↔◌, arith, Result, ok,
  if_ind,
}
use mathlib.Core.Path.{subst}
use k.Base.Numbers.{Numbers}
use k.Decision.{DecisionType, long, short, no_operar, is_no_operar, ModelDecision}
use k.Decision.Aggregator.{
  FloatMath, PrimaryRegime, Contradiction, direction_mismatch, quant_internal_conflict,
  low_quant_strength, low_gpt_confidence, found_if, hundredths, QuantSignalsPackage,
  DecisionAggregationResult, AggregationError, compute_quant_score, net_quant_direction, against,
  conflicts, detect_contradictions, determine_final_action, sources_of, weighted, action_of,
  aggregation_is_valid, aggregate,
}

none_found :
    (a b c d : Bool)
    → (found_if a direction_mismatch
          ++ found_if b quant_internal_conflict
          ++ found_if c low_quant_strength
          ++ found_if d low_gpt_confidence
        ≡ [])
      ↔ ((a ≡ false) × (b ≡ false) × (c ≡ false) × (d ≡ false))
none_found a b c d = ground arith

module _ (N : Numbers) (M : FloatMath N) where
  open N use {Float, lt, neg}

  -- The signals and the model support the direction: the net signal, if there is one, is no more
  -- than 0.20 against it; the conflict of the signals, if it is known, is at most 0.60; their
  -- strength is at least 0.40; and the confidence of the model is at least 0.70.
  pub record Backed (gpt_decision : ModelDecision N) (qs : QuantSignalsPackage N M) : Type 0 where
    pub long_side :
        (net : Float)
        → net_quant_direction N M qs ≡ some net
        → gpt_decision.decision ≡ long
        → lt net (neg (hundredths N M 20)) ≡ false
    pub short_side :
        (net : Float)
        → net_quant_direction N M qs ≡ some net
        → gpt_decision.decision ≡ short
        → lt (hundredths N M 20) net ≡ false
    pub united :
        (score : Float)
        → qs.signal_conflict_score ≡ some score
        → lt (hundredths N M 60) score ≡ false
    pub strong : lt (compute_quant_score N M qs) (hundredths N M 40) ≡ false
    pub confident : lt gpt_decision.confidence (hundredths N M 70) ≡ false

  against_iff :
      (action : DecisionType) (net : Option Float)
      → (against N M action net ≡ false) ↔ (
          ((n : Float) → net ≡ some n → action ≡ long → lt n (neg (hundredths N M 20)) ≡ false)
          × ((n : Float) → net ≡ some n → action ≡ short → lt (hundredths N M 20) n ≡ false))
  unfolding against
  against_iff action none = (λ h. (λ n e a. cc, λ n e a. cc), λ h. refl)
  against_iff long (some net) = (λ h. (λ n e a. cc, λ n e a. cc), λ h. h.0 net refl refl)
  against_iff short (some net) = (λ h. (λ n e a. cc, λ n e a. cc), λ h. h.1 net refl refl)
  against_iff no_operar (some net) = (λ h. (λ n e a. cc, λ n e a. cc), λ h. refl)

  conflicts_iff :
      (known : Option Float)
      → (conflicts N M known ≡ false)
        ↔ ((score : Float) → known ≡ some score → lt (hundredths N M 60) score ≡ false)
  unfolding conflicts
  conflicts_iff none = (λ h score e. cc, λ h. refl)
  conflicts_iff (some known) = (λ h score e. cc, λ h. h known refl)

  contradictions_iff :
      (gpt_decision : ModelDecision N) (qs : QuantSignalsPackage N M)
      → (detect_contradictions N M gpt_decision qs ≡ []) ↔ Backed gpt_decision qs
  unfolding detect_contradictions
  contradictions_iff gpt_decision qs =
      let all = none_found _ _ _ _ in
      let net = against_iff gpt_decision.decision (net_quant_direction N M qs) in
      let known = conflicts_iff qs.signal_conflict_score in
      (
        λ e.
            let h = all.0 e in
            record {
              long_side = (net.0 h.0).0;
              short_side = (net.0 h.0).1;
              united = known.0 h.1;
              strong = h.2;
              confident = h.3;
            },
        λ b. all.1 (net.1 (b.long_side, b.short_side), known.1 b.united, b.strong, b.confident),
      )

  determine_iff :
      (action : DecisionType) (score : Float) (found : List Contradiction)
      → is_no_operar action ≡ false
      → (is_no_operar (determine_final_action N M action score found) ≡ false)
        ↔ ((found ≡ []) × (lt score (hundredths N M 50) ≡ false))
  unfolding determine_final_action
  determine_iff action score (c ∷ cs) h = (λ e. cc, λ e. let no = e.0 in cc)
  determine_iff action score [] h = ground arith

  determined :
      (action : DecisionType) (score : Float) (found : List Contradiction)
      → is_no_operar (determine_final_action N M action score found) ≡ false
      → determine_final_action N M action score found ≡ action
  unfolding determine_final_action
  determined action score (c ∷ cs) h = cc
  determined action score [] h = ground arith

  -- What was decided allows a trade exactly under these conditions, and then says what the model
  -- chose.
  abbrev Decided :
      ModelDecision N → QuantSignalsPackage N M → Float → DecisionType → List Contradiction → Type 0
  Decided gpt_decision qs score action found =
      ((is_no_operar action ≡ false) ↔ (
        (is_no_operar gpt_decision.decision ≡ false)
        × Backed gpt_decision qs
        × (lt score (hundredths N M 50) ≡ false)))
      × (is_no_operar action ≡ false → (action ≡ gpt_decision.decision) × (found ≡ []))

  action_of_iff :
      (gpt_decision : ModelDecision N) (qs : QuantSignalsPackage N M) (score : Float)
      → let decided = action_of N M gpt_decision qs score in
        Decided gpt_decision qs score decided.0 decided.1
  unfolding action_of
  action_of_iff gpt_decision qs score =
      if_ind {B = DecisionType × List Contradiction}
        (λ decided. Decided gpt_decision qs score decided.0 decided.1)
        (is_no_operar gpt_decision.decision)
        (λ refused. ((λ e. cc, λ e. let no = e.0 in cc), λ e. cc))
        (λ directed.
          let found = detect_contradictions N M gpt_decision qs in
          let final = determine_iff gpt_decision.decision score found directed in
          let all = contradictions_iff gpt_decision qs in
          (
            (λ e. let h = final.0 e in (directed, all.0 h.0, h.1), λ e. final.1 (all.1 e.1, e.2)),
            λ e. let h = final.0 e in (determined gpt_decision.decision score found e, h.0),
          ))

  -- A result of the aggregator allows a trade exactly when the model asks for one, the signals and
  -- the confidence of the model back it, and the weighted score is not below 0.50; then its action
  -- is the direction that the model chose, and no contradiction is recorded. The scores of a result
  -- are all within 0 and 1.
  pub trade_iff :
      (gpt_decision : ModelDecision N) (qs : QuantSignalsPackage N M) (regime : PrimaryRegime)
      (volatility_score : Float) {result : DecisionAggregationResult N M}
      → aggregate N M gpt_decision qs regime volatility_score ≡ ok result
      → let sources = sources_of N M gpt_decision qs regime volatility_score in
        ((is_no_operar result.final_action ≡ false) ↔ (
          (is_no_operar gpt_decision.decision ≡ false)
          × Backed gpt_decision qs
          × (lt (weighted N M sources) (hundredths N M 50) ≡ false)))
        × (is_no_operar result.final_action ≡ false
            → (result.final_action ≡ gpt_decision.decision) × (result.contradictions_detected ≡ []))
        × (aggregation_is_valid N M result ≡ true)
  unfolding aggregate
  trade_iff gpt_decision qs regime volatility_score {result} =
      let sources = sources_of N M gpt_decision qs regime volatility_score in
      let score = weighted N M sources in
      let decided = action_of_iff gpt_decision qs score in
      let built : DecisionAggregationResult N M = record {
        symbol = gpt_decision.symbol;
        contributing_sources = sources;
        aggregated_score = M.round6 score;
        final_action = (action_of N M gpt_decision qs score).0;
        contradictions_detected = (action_of N M gpt_decision qs score).1;
      } in
      let Says : DecisionAggregationResult N M → Type 0 = λ r.
        ((is_no_operar r.final_action ≡ false) ↔ (
          (is_no_operar gpt_decision.decision ≡ false)
          × Backed gpt_decision qs
          × (lt score (hundredths N M 50) ≡ false)))
        × (is_no_operar r.final_action ≡ false
            → (r.final_action ≡ gpt_decision.decision) × (r.contradictions_detected ≡ []))
        × (aggregation_is_valid N M r ≡ true) in
      if_ind {B = Result (AggregationError N M) (DecisionAggregationResult N M)}
        (λ r. r ≡ ok result → Says result) (aggregation_is_valid N M built)
        (λ valid e. let same : built ≡ result = cc in subst Says same (decided.0, decided.1, valid))
        (λ _ e. cc)
