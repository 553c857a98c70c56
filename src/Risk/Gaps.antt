-- ===== src/Risk/Gaps.antt =====
-- Two behaviours of `validate` (backend/risk_engine/engine.py) around `check_liquidation_safety`
-- (backend/risk_engine/checks.py) that its documentation does not announce.
use k.Base.{◌⊎◌, Option, none, ◌≡◌, ◌≤ℤ◌, true, false, some, ok, err, arith}
use k.Base.Numbers.{Numbers}
use k.Config.{AppConfig, cap_for_env}
use k.Decision.{DecisionType, ModelDecision, no_operar_cannot_execute}
use k.Risk.Results.{CheckOutcome, CheckResult, zero_division_error}
use k.Risk.Checks.{check_liquidation_safety}
use k.Risk.Schemas.{RiskDecision, approve, adjust_down, AdjustedParameters, RiskValidationResult}
use k.Risk.Engine.{RiskInputs, block_checks, validate}
use k.Risk.Tradable.{Tradable}
use k.Risk.Safety.{verdict_iff}
use k.Risk.Limits.{parameters_fit, ParametersFit}

-- The exact facts of float arithmetic that a distance of 100% rests on.
pub record ExactAtHundred (N : Numbers) : Type 0 where
  pub hundred_percent : N.div N.hundred N.hundred ≡ N.one
  pub one_less_one : N.sub N.one N.one ≡ N.zero
  pub times_zero : (x : N.Float) → N.le x N.zero ≡ false → N.mul x N.zero ≡ N.zero
  pub zero_eq : N.eq N.zero N.zero ≡ true
  pub hundred_ne : N.eq N.hundred N.zero ≡ false

module _ (N : Numbers) (d : ModelDecision N) (i : RiskInputs N) (config : AppConfig N) where
  open N use {le, lt, zero, hundred, to_decimal}

  approved :
      (v : RiskDecision) (o : Option AdjustedParameters)
      → to_decimal d.margin_usdt ≤ℤ to_decimal config.risk.max_margin_per_trade_usdt
      → d.leverage ≤ℤ cap_for_env config.leverage config.environment
      → (v ≡ approve) ⊎ (v ≡ adjust_down)
      → ParametersFit N d i config v o
      → (v ≡ approve)
        × (o ≡ some (record { margin_usdt = to_decimal d.margin_usdt; leverage = d.leverage }))
  approved RiskDecision.approve (some p) m l h fit = ground arith
  approved RiskDecision.adjust_down (some p) m l h fit = ground arith
  approved RiskDecision.block o m l h fit = ground arith
  approved RiskDecision.no_operar o m l h fit = ground arith
  approved _ none m l h fit = absurd fit

  -- When the liquidation check asks for ADJUST_DOWN, nothing comes of it: a tradable trade within
  -- the caps that `validate` returns a result for is approved, with the proposed parameters. The
  -- decision is executable and not NO_OPERAR.
  pub liquidation_adjustment_dropped :
      {c : CheckResult} {r : RiskValidationResult}
      → no_operar_cannot_execute N d ≡ true
      → d.execute ≡ true
      → check_liquidation_safety N d config.liquidation_safety ≡ ok c
      → c.outcome ≡ CheckOutcome.adjust_down
      → Tradable N d i config
      → to_decimal d.margin_usdt ≤ℤ to_decimal config.risk.max_margin_per_trade_usdt
      → d.leverage ≤ℤ cap_for_env config.leverage config.environment
      → validate N d i config ≡ ok r
      → (r.decision ≡ approve)
        × (r.adjusted_parameters
            ≡ some (record { margin_usdt = to_decimal d.margin_usdt; leverage = d.leverage }))
  liquidation_adjustment_dropped {c} {r} coherent x asks outcome t m l e =
      let passing = (verdict_iff N d i config coherent x e).0.1 t in
      approved r.decision r.adjusted_parameters m l passing (parameters_fit N d i config e)

  -- On an executable LONG whose declared liquidation distance is 100%, as at 1x, with a positive
  -- margin, entry and stop, `validate` raises ZeroDivisionError whatever the account, if the
  -- liquidation check is enabled with a minimum of at most 100% and the arithmetic is exact at
  -- 100: the estimated liquidation price is zero, and the buffer check divides by it.
  pub full_distance_raises :
      ExactAtHundred N
      → d.execute ≡ true
      → d.decision ≡ DecisionType.long
      → d.liquidation_distance_percent_estimated ≡ hundred
      → le d.margin_usdt zero ≡ false
      → le d.stop_loss zero ≡ false
      → le d.entry_price zero ≡ false
      → config.liquidation_safety.enabled ≡ true
      → lt hundred config.liquidation_safety.min_distance_entry_to_liquidation_percent ≡ false
      → validate N d i config ≡ err zero_division_error
  unfolding validate block_checks check_liquidation_safety
  full_distance_raises exact x long dist m sl entry on min =
      ground (arith, exact.times_zero d.entry_price entry)
