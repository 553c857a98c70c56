-- ===== src/Risk/Safety.antt =====
-- The verdict of the Risk Engine (backend/risk_engine/engine.py) on an executable decision: which
-- trades pass, and which are blocked.
use k.Base.{
  ℤ, Bool, refl, Option, All, any-All, ◌≡◌, ◌↔◌, ◌⊎◌, true, false, some, none, List, ok, any,
  Result-cases, inl, inr, arith,
}
use k.Base.Numbers.{Numbers}
use k.Config.{AppConfig}
use k.Decision.{no_operar_cannot_execute, is_no_operar, ModelDecision}
use k.Risk.Results.{CheckResult, is_block}
use k.Risk.Checks.{SlippageEstimate, check_slippage_estimate}
use k.Risk.Schemas.{RiskDecision, approve, adjust_down, block, RiskValidationResult, new_result}
use k.Risk.Engine.{RiskInputs, block_checks, decide, validate}
use k.Risk.Causes.{
  martingala_lem, leverage_escalation_lem, averaging_lem, sl_required_lem, tp_or_exit_plan_lem,
  daily_drawdown_lem, total_drawdown_lem, funding_gate_lem, max_open_positions_lem, fee_gate_lem,
  liquidation_lem,
}
use k.Risk.Tradable.{Tradable, Made, checks_with, block_checks-Made}

slippage_passes : (o : Option SlippageEstimate) → is_block (check_slippage_estimate o) ≡ false
unfolding check_slippage_estimate
slippage_passes none = refl
slippage_passes (some e) = refl

-- From the test and what it decides to the two verdicts.
verdicts :
    (blocked : Bool) (v : RiskDecision) (T : Type 0)
    → (blocked ≡ true → v ≡ block) × (blocked ≡ false → (v ≡ approve) ⊎ (v ≡ adjust_down))
    → (blocked ≡ false) ↔ T
    → (((v ≡ approve) ⊎ (v ≡ adjust_down)) ↔ T) × ((v ≡ block) ↔ ¬ T)
verdicts true v T dec clear =
    let b = dec.0 refl in
    let no_T : ¬ T = λ t. cc (clear.1 t) in
    ((λ h. absurd (ground (arith, h, b)), λ t. absurd (no_T t)), (λ _. no_T, λ _. b))
verdicts false v T dec clear =
    let t = clear.0 refl in
    ((λ _. t, λ _. dec.1 refl), (λ b. absurd (ground (arith, b, dec.1 refl)), λ n. absurd (n t)))

module _ (N : Numbers) (d : ModelDecision N) (i : RiskInputs N) (config : AppConfig N) where
  open N use {to_decimal}

  abbrev Passed : List CheckResult → Type 0
  Passed = All (λ c. is_block c ≡ false)

  Passed→Tradable :
      (m : (checks : List CheckResult) × Made N d i config checks)
      → d.execute ≡ true
      → is_no_operar d.decision ≡ false
      → Passed (checks_with N d i config m.1.liquidation m.1.martingala m.1.escalation)
      → Tradable N d i config
  Passed→Tradable (_, m) x o
        (sl, (tp, (daily, (total, (liq, (funding, (fee, (room, (mart, (esc, (avg, _))))))))))) =
      record {
        has_stop = (sl_required_lem N d x).0 sl;
        has_exit = (tp_or_exit_plan_lem N d x).0 tp;
        has_balance = ((daily_drawdown_lem N i.daily_loss_usdt balance _).0 daily).0;
        daily_below = ((daily_drawdown_lem N i.daily_loss_usdt balance _).0 daily).1;
        total_below = ((total_drawdown_lem N i.total_loss_usdt balance _).0 total).1;
        liquidation_accepted =
            (liquidation_lem N d config.liquidation_safety m.liquidation x o m.liquidation_ok).0
              liq;
        funding_accepted = (funding_gate_lem N d i.funding_rate config.funding_gate o).0 funding;
        fees_covered = (fee_gate_lem N i.fee_estimate config.risk.min_net_risk_reward).0 fee;
        has_room = (max_open_positions_lem N d i.open_positions_count _ o).0 room;
        margin_not_raised = (martingala_lem _ _ _ m.martingala m.martingala_ok).0 mart;
        leverage_not_raised = (leverage_escalation_lem _ _ _ m.escalation m.escalation_ok).0 esc;
        not_averaging = (averaging_lem i.open_position_unrealized_pnl_usdt).0 avg;
      }
    where
      open config use {risk}

      balance : ℤ
      balance = to_decimal config.initial_balance_usdt

  Tradable→Passed :
      (m : (checks : List CheckResult) × Made N d i config checks)
      → d.execute ≡ true
      → is_no_operar d.decision ≡ false
      → Tradable N d i config
      → Passed (checks_with N d i config m.1.liquidation m.1.martingala m.1.escalation)
  Tradable→Passed (_, m) x o t = (
    (sl_required_lem N d x).1 t.has_stop,
    (
      (tp_or_exit_plan_lem N d x).1 t.has_exit,
      (
        (daily_drawdown_lem N i.daily_loss_usdt _ _).1 (t.has_balance, t.daily_below),
        (
          (total_drawdown_lem N i.total_loss_usdt _ _).1 (t.has_balance, t.total_below),
          (
            (liquidation_lem N d config.liquidation_safety m.liquidation x o m.liquidation_ok).1
                t.liquidation_accepted,
            (
              (funding_gate_lem N d i.funding_rate config.funding_gate o).1 t.funding_accepted,
              (
                (fee_gate_lem N i.fee_estimate config.risk.min_net_risk_reward).1 t.fees_covered,
                (
                  (max_open_positions_lem N d i.open_positions_count _ o).1 t.has_room,
                  (
                    (martingala_lem _ _ _ m.martingala m.martingala_ok).1 t.margin_not_raised,
                    (
                      (leverage_escalation_lem _ _ _ m.escalation m.escalation_ok).1
                          t.leverage_not_raised,
                      (
                        (averaging_lem i.open_position_unrealized_pnl_usdt).1 t.not_averaging,
                        (slippage_passes i.slippage_estimate, tt),
                      ),
                    ),
                  ),
                ),
              ),
            ),
          ),
        ),
      ),
    ),
  )

  -- The list of checks has no block exactly if the trade is tradable.
  clear_iff :
      (checks : List CheckResult)
      → d.execute ≡ true
      → is_no_operar d.decision ≡ false
      → Made N d i config checks
      → (any is_block checks ≡ false) ↔ Tradable N d i config
  clear_iff checks x o m = (
    λ e.
        Passed→Tradable (checks, m) x o
          ((any-All is_block (checks_with N d i config m.liquidation m.martingala m.escalation)).0
            (rw m.list_is at e)),
    λ t. rw m.list_is (
        (any-All is_block (checks_with N d i config m.liquidation m.martingala m.escalation)).1
          (Tradable→Passed (checks, m) x o t)),
  )

  decide-decision :
      (checks : List CheckResult) (r : RiskValidationResult)
      → decide N d i config checks ≡ ok r
      → (any is_block checks ≡ true → r.decision ≡ block)
        × (any is_block checks ≡ false → (r.decision ≡ approve) ⊎ (r.decision ≡ adjust_down))
  unfolding decide new_result
  decide-decision checks r e = ground arith

  pub validate-inv :
      (r : RiskValidationResult)
      → d.execute ≡ true
      → validate N d i config ≡ ok r
      → (checks : List CheckResult) × (block_checks N d i config ≡ ok checks)
        × (decide N d i config checks ≡ ok r)
  unfolding validate
  validate-inv r x e = elim (Result-cases (block_checks N d i config)) [
    | inl (checks, made) ↦ (checks, made, ground arith)
    | inr (why, failed) ↦ ground arith
  ]

  -- Where `validate` returns a result on an executable decision that is not NO_OPERAR, the verdict
  -- is APPROVE or ADJUST_DOWN exactly if the trade is tradable, and BLOCK exactly if it is not: no
  -- check lets an unsafe trade through, and none blocks a safe one.
  pub verdict_iff :
      {r : RiskValidationResult}
      → no_operar_cannot_execute N d ≡ true
      → d.execute ≡ true
      → validate N d i config ≡ ok r
      → (((r.decision ≡ approve) ⊎ (r.decision ≡ adjust_down)) ↔ Tradable N d i config)
        × ((r.decision ≡ block) ↔ ¬ Tradable N d i config)
  unfolding no_operar_cannot_execute
  verdict_iff {r} coherent x e =
      let (checks, made, decided) = validate-inv r x e in
      let dec = decide-decision checks r decided in
      let clear = clear_iff checks x (ground arith) (block_checks-Made N d i config checks made) in
      verdicts (any is_block checks) r.decision _ dec clear
