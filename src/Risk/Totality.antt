-- ===== src/Risk/Totality.antt =====
-- When `validate` (backend/risk_engine/engine.py) returns at all: on a decision that the schema
-- accepts, with sensible configuration and history, no check and no validator raises.
use k.Base.{
  length, ap, ◌≡◌, ◌≤ℤ◌, ◌<ℤ◌, pos, ◌*◌, true, false, Option, none, List, ok, any, Bool-cases, inl,
  inr, arith, is_ok, is_ok-inv, refl, [], ◌∷◌,
}
use k.Base.Numbers.{Numbers}
use k.Config.{AppConfig, cap_for_env}
use k.Decision.{ModelDecision, model_accepts}
use k.Risk.Results.{CheckResult, is_block, is_adjust_down}
use k.Risk.Checks.{check_liquidation_safety}
use k.Risk.Causes.{liquidation_price}
use k.Risk.Schemas.{
  RiskDecision, Reasons, record_checks, is_empty, adjusted_parameters_coherent, AdjustedParameters,
  RiskValidationResult,
}
use k.Risk.Engine.{
  compute_adjusted_margin, compute_adjusted_leverage, result_of, RiskInputs, block_checks,
  adjust_checks, adjust_or_approve, decide, validate,
}
use k.Risk.Tradable.{block_checks-Made}
use k.Risk.Built.{over_cap}
use k.Risk.Fields.{
  Positive?, martingala_total, leverage_escalation_total, put-nonempty, record_checks-nonempty,
  FieldsFit, new_result_total, new_parameters_total,
}

-- What the passage from a float to a Decimal keeps.
pub record KeepsOrder (N : Numbers) : Type 0 where
  pub of_nonneg : (x : N.Float) → N.le N.zero x ≡ true → pos 0 ≤ℤ N.to_decimal x
  pub of_positive : (x : N.Float) → N.le x N.zero ≡ false → pos 0 <ℤ N.to_decimal x
  pub of_ten : (x : N.Float) → N.le x N.ten ≡ true → N.to_decimal x ≤ℤ pos (10 * N.per_unit)

module _ (N : Numbers) (d : ModelDecision N) (i : RiskInputs N) (config : AppConfig N) where
  open N use {le, eq, zero, per_unit, to_decimal}

  liquidation_total :
      eq (liquidation_price N d) zero ≡ false
      → is_ok (check_liquidation_safety N d config.liquidation_safety) ≡ true
  unfolding check_liquidation_safety
  liquidation_total h = ground arith

  -- What is asked of the configuration, of the losses and of the history.
  pub record Sensible : Type 0 where
    pub some_margin : pos 0 <ℤ to_decimal config.risk.max_margin_per_trade_usdt
    pub some_leverage : pos 1 ≤ℤ cap_for_env config.leverage config.environment
    pub daily_nonneg : pos 0 ≤ℤ i.daily_loss_usdt
    pub total_nonneg : pos 0 ≤ℤ i.total_loss_usdt
    pub last_margin : Positive? i.last_trade_margin_usdt
    pub last_leverage : Positive? i.last_account_trade_leverage
    pub priced : eq (liquidation_price N d) zero ≡ false

  -- The fields of a result of this call, whatever the verdict.
  fits :
      KeepsOrder N
      → Sensible
      → model_accepts N d ≡ true
      → (v : RiskDecision) (o : Option AdjustedParameters) (reasons : Reasons)
      → is_empty reasons ≡ false
      → FieldsFit per_unit (result_of N d i v o reasons)
  unfolding model_accepts
  fits keeps s accepted v o reasons ne = record {
    allowed = ground arith;
    margin_low = ground (arith, keeps.of_nonneg d.margin_usdt);
    margin_high = ground (arith, keeps.of_ten d.margin_usdt);
    leverage_low = ground arith;
    leverage_high = ground arith;
    daily = ground (arith, s.daily_nonneg);
    total = ground (arith, s.total_nonneg);
    explained = ne;
  }

  -- The margin and the leverage of an accepted executable decision.
  sizes :
      KeepsOrder N
      → model_accepts N d ≡ true
      → le d.margin_usdt zero ≡ false
      → (pos 0 <ℤ to_decimal d.margin_usdt)
        × (to_decimal d.margin_usdt ≤ℤ pos (10 * per_unit))
        × (pos 1 ≤ℤ d.leverage)
        × (d.leverage ≤ℤ pos 10)
  unfolding model_accepts
  sizes keeps accepted positive = (
    keeps.of_positive d.margin_usdt positive,
    ground (arith, keeps.of_ten d.margin_usdt),
    ground arith,
    ground arith,
  )

  positive_margin : model_accepts N d ≡ true → d.execute ≡ true → le d.margin_usdt zero ≡ true → ⊥
  unfolding model_accepts
  positive_margin accepted x bad = ground arith

  explained_all :
      (c : CheckResult) (checks : List CheckResult)
      → is_empty (record_checks (adjust_checks N d config) (record_checks (c ∷ checks) [])) ≡ false
  unfolding record_checks
  explained_all c checks =
      record_checks-nonempty (adjust_checks N d config) _
        (record_checks-nonempty checks _ (put-nonempty c.rule c.reason []))

  adjust_or_approve_total :
      KeepsOrder N
      → Sensible
      → model_accepts N d ≡ true
      → le d.margin_usdt zero ≡ false
      → (c : CheckResult) (checks : List CheckResult)
      → is_ok (adjust_or_approve N d i config (c ∷ checks)) ≡ true
  unfolding adjust_or_approve adjusted_parameters_coherent
  adjust_or_approve_total keeps s accepted positive c checks =
      let (m_pos, m_max, l_min, l_max) = sizes keeps accepted positive in
      let fit = fits keeps s accepted in
      elim (Bool-cases (any is_adjust_down (adjust_checks N d config))) [
        | inl over ↦
            let p =
              new_parameters_total per_unit
                (compute_adjusted_margin (to_decimal d.margin_usdt)
                  (to_decimal config.risk.max_margin_per_trade_usdt))
                (compute_adjusted_leverage d.leverage config.leverage config.environment)
                (ground (arith, s.some_margin, m_pos)) (ground (arith, m_max))
                (ground (arith, s.some_leverage, l_min)) (ground (arith, l_max)) in
            rw over (
              rw p (
                new_result_total per_unit _
                  (fit RiskDecision.adjust_down _ _ (explained_all c checks))
                  (ground (arith, over_cap N d config over, m_pos))))
        | inr within ↦ rw within (
            rw (new_parameters_total per_unit _ _ m_pos m_max l_min l_max) (
              new_result_total per_unit _ (fit RiskDecision.approve _ _ (explained_all c checks))
                (ground (arith, m_pos))))
      ]

  decide_total :
      KeepsOrder N
      → Sensible
      → model_accepts N d ≡ true
      → le d.margin_usdt zero ≡ false
      → (c : CheckResult) (checks : List CheckResult)
      → is_ok (decide N d i config (c ∷ checks)) ≡ true
  unfolding decide adjusted_parameters_coherent record_checks
  decide_total keeps s accepted positive c checks = elim (Bool-cases (any is_block (c ∷ checks))) [
    | inl blocked ↦ rw blocked (
        new_result_total per_unit _
          (fits keeps s accepted RiskDecision.block none _
            (record_checks-nonempty checks _ (put-nonempty c.rule c.reason [])))
          (ground (arith, sizes keeps accepted positive)))
    | inr free ↦ rw free (adjust_or_approve_total keeps s accepted positive c checks)
  ]

  block_checks_total :
      KeepsOrder N
      → Sensible
      → model_accepts N d ≡ true
      → le d.margin_usdt zero ≡ false
      → is_ok (block_checks N d i config) ≡ true
  unfolding block_checks
  block_checks_total keeps s accepted positive =
      let (m_pos, _, l_min, _) = sizes keeps accepted positive in
      let (_, l) = is_ok-inv _ (liquidation_total s.priced) in
      let (_, m) = is_ok-inv _ (
        martingala_total (to_decimal d.margin_usdt) i.last_trade_pnl_usdt i.last_trade_margin_usdt
          m_pos s.last_margin) in
      let (_, e) = is_ok-inv _ (
        leverage_escalation_total d.leverage i.last_account_trade_pnl_usdt
          i.last_account_trade_leverage (omega (arith, l_min)) s.last_leverage) in
      rw l (rw m (rw e refl))

  decide_nonempty :
      KeepsOrder N
      → Sensible
      → model_accepts N d ≡ true
      → le d.margin_usdt zero ≡ false
      → (checks : List CheckResult) → length checks ≡ 12
      → is_ok (decide N d i config checks) ≡ true
  decide_nonempty keeps s accepted positive [] h = absurd (omega arith)
  decide_nonempty keeps s accepted positive (c ∷ checks) h =
      decide_total keeps s accepted positive c checks

  run_checks :
      d.execute ≡ true
      → le d.margin_usdt zero ≡ false
      → (checks : List CheckResult) → block_checks N d i config ≡ ok checks
      → validate N d i config ≡ decide N d i config checks
  unfolding validate
  run_checks x positive checks made = ground arith

  total : KeepsOrder N → Sensible → model_accepts N d ≡ true → is_ok (validate N d i config) ≡ true
  unfolding validate adjusted_parameters_coherent
  total keeps s accepted = elim (Bool-cases d.execute) [
    | inr idle ↦ rw idle (
        new_result_total per_unit _ (fits keeps s accepted RiskDecision.no_operar none _ refl) refl)
    | inl x ↦ elim (Bool-cases (le d.margin_usdt zero)) [
      | inl bad ↦ absurd (positive_margin accepted x bad)
      | inr positive ↦
          let (checks, made) = is_ok-inv _ (block_checks_total keeps s accepted positive) in
          let list_is = (block_checks-Made N d i config checks made).list_is in
          rw (run_checks x positive checks made)
            (decide_nonempty keeps s accepted positive checks (ap length list_is))
    ]
  ]

  -- `validate` always returns a result for a decision that the schema accepts, if the configured
  -- margin is positive, the cap of the environment at least 1x, the losses are not negative, the
  -- last trades have positive sizes, the estimated liquidation price is not zero, and the passage
  -- from floats to Decimals keeps the order at 0 and 10.
  pub validate_total :
      KeepsOrder N
      → Sensible
      → model_accepts N d ≡ true
      → (r : RiskValidationResult) × (validate N d i config ≡ ok r)
  validate_total keeps s accepted = is_ok-inv _ (total keeps s accepted)
