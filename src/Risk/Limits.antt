-- ===== src/Risk/Limits.antt =====
-- The parameters with which the Risk Engine (backend/risk_engine/engine.py) lets a trade through:
-- never above the proposal, the caps of the configuration or the hard limits of the project.
use k.Base.{
  ◌*◌, ℤ, pos, ◌≤ℤ◌, ◌<ℤ◌, ◌≡◌, ◌⊎◌, true, false, Option, some, none, List, ok, any, arith,
  Result-cases, inl, inr, Bool-cases,
}
use k.Base.Numbers.{Numbers}
use k.Config.{AppConfig, cap_for_env, leverage_limits, live, LivePhase}
use k.Decision.{ModelDecision}
use k.Risk.Results.{CheckResult, is_block, is_adjust_down}
use k.Risk.Schemas.{RiskDecision, AdjustedParameters, RiskValidationResult}
use k.Risk.Built.{new_result-ok, built_with, over_cap, within_cap}
use k.Risk.Engine.{adjust_checks, RiskInputs, block_checks, adjust_or_approve, decide, validate}

module _ (N : Numbers) (d : ModelDecision N) (i : RiskInputs N) (config : AppConfig N) where
  open N use {le, zero, per_unit, to_decimal}

  abbrev pub margin : ℤ
  margin = to_decimal d.margin_usdt

  abbrev pub max_margin : ℤ
  max_margin = to_decimal config.risk.max_margin_per_trade_usdt

  abbrev pub cap : ℤ
  cap = cap_for_env config.leverage config.environment

  -- The hard limits of the project: a margin of at most 10 USDT and a leverage of 1 to 10.
  abbrev pub InHardLimits : AdjustedParameters → Type 0
  InHardLimits p =
      (pos 0 <ℤ p.margin_usdt)
      × (p.margin_usdt ≤ℤ pos (10 * per_unit))
      × (pos 1 ≤ℤ p.leverage)
      × (p.leverage ≤ℤ pos 10)

  -- What the parameters of a result are, by its decision.
  abbrev pub ParametersFit : RiskDecision → Option AdjustedParameters → Type 0
  ParametersFit RiskDecision.approve (some p) =
      (p.margin_usdt ≡ margin)
      × (p.leverage ≡ d.leverage)
      × (margin ≤ℤ max_margin)
      × (d.leverage ≤ℤ cap)
      × InHardLimits p
  ParametersFit RiskDecision.adjust_down (some p) =
      (p.margin_usdt ≤ℤ margin)
      × (p.leverage ≤ℤ d.leverage)
      × (p.margin_usdt ≤ℤ max_margin)
      × (p.leverage ≤ℤ cap)
      × (((max_margin <ℤ margin) × (p.margin_usdt ≡ max_margin))
          ⊎ ((cap <ℤ d.leverage) × (p.leverage ≡ cap)))
      × InHardLimits p
  ParametersFit RiskDecision.block none = d.execute ≡ true
  ParametersFit RiskDecision.no_operar none = d.execute ≡ false
  ParametersFit _ _ = ⊥

  adjust_or_approve-Fit :
      (checks : List CheckResult) (r : RiskValidationResult)
      → adjust_or_approve N d i config checks ≡ ok r
      → ParametersFit r.decision r.adjusted_parameters
  unfolding adjust_or_approve
  adjust_or_approve-Fit checks r e =
      elim (Bool-cases (any is_adjust_down (adjust_checks N d config))) [
        | inl over ↦
            let (p, r_is, m, l, m_pos, m_max, l_pos, l_max) =
              built_with per_unit _ _ _ r (rw over at e) in
            rw r_is (ground (arith, over_cap N d config over))
        | inr within ↦
            let (p, r_is, m, l, m_pos, m_max, l_pos, l_max) =
              built_with per_unit _ _ _ r (rw within at e) in
            rw r_is (ground (arith, within_cap N d config within))
      ]

  decide-Fit :
      (checks : List CheckResult) (r : RiskValidationResult)
      → d.execute ≡ true
      → decide N d i config checks ≡ ok r
      → ParametersFit r.decision r.adjusted_parameters
  unfolding decide
  decide-Fit checks r x e = elim (Bool-cases (any is_block checks)) [
    | inl blocked ↦ rw (new_result-ok per_unit _ r (rw blocked at e)) x
    | inr free ↦ adjust_or_approve-Fit checks r (rw free at e)
  ]

  -- A result carries parameters exactly if it is APPROVE or ADJUST_DOWN. They are the proposed
  -- ones under the caps, or reduced ones of which at least one was over its cap and is now at it; in
  -- both cases the margin is at most the proposed and the configured one, the leverage at most
  -- the proposed and the cap of the environment, and both keep the hard limits of 10 USDT and
  -- 10x. BLOCK and NO_OPERAR carry none, and tell whether the decision was executable.
  pub parameters_fit :
      {r : RiskValidationResult}
      → validate N d i config ≡ ok r
      → ParametersFit r.decision r.adjusted_parameters
  unfolding validate
  parameters_fit {r} e = elim (Bool-cases d.execute) [
    | inr idle ↦ rw (new_result-ok per_unit _ r (rw idle at e)) idle
    | inl x ↦ elim (Bool-cases (le d.margin_usdt zero)) [
      | inl bad ↦ absurd (ground arith)
      | inr positive ↦ elim (Result-cases (block_checks N d i config)) [
        | inl (checks, made) ↦ decide-Fit checks r x (ground arith)
        | inr (why, failed) ↦ absurd (ground arith)
      ]
    ]
  ]

  fit-leverage :
      (v : RiskDecision) (o : Option AdjustedParameters) (p : AdjustedParameters)
      → ParametersFit v o
      → o ≡ some p
      → p.leverage ≤ℤ cap
  fit-leverage RiskDecision.approve (some q) p fit e = ground arith
  fit-leverage RiskDecision.adjust_down (some q) p fit e = ground arith
  fit-leverage RiskDecision.block none p fit e = cc
  fit-leverage RiskDecision.no_operar none p fit e = cc
  fit-leverage _ _ p fit e = absurd fit

  -- With a configuration that its validator accepts, no trade in LIVE goes through above 5x, nor
  -- above 3x while the live phase is INITIAL, whatever leverage the model proposed.
  pub live_leverage :
      {r : RiskValidationResult} {p : AdjustedParameters}
      → leverage_limits config.leverage ≡ true
      → config.environment ≡ live
      → validate N d i config ≡ ok r
      → r.adjusted_parameters ≡ some p
      → (p.leverage ≤ℤ pos 5)
        × (config.leverage.live_phase ≡ LivePhase.initial → p.leverage ≤ℤ pos 3)
  unfolding leverage_limits cap_for_env
  live_leverage {r} {p} limits in_live e given =
      let below = fit-leverage r.decision r.adjusted_parameters p (parameters_fit e) given in
      ground arith
