-- ===== src/Risk/Schemas.antt =====
-- backend/risk_engine/schemas.py: the result of the Risk Engine and the validation that pydantic
-- makes when one is built. The validators of the identifiers and of the time stamp, which read
-- uuid strings and the clock, are left out.
use k.Base.{
  ℕ, ◌*◌, ℤ, pos, leb_ℤ, ltb_ℤ, Bool, true, false, not, ◌&&◌, ◌||◌, Option, none, some, List, [],
  ◌∷◌, String, Result, ok, err, if◌then◌else◌,
}
use k.Decision.{symbol_allowed}
use k.Risk.Results.{Rule, Reason, rule_eq, CheckResult, RiskError, validation_error}

pub data RiskDecision : Type 0 where
  approve adjust_down block no_operar : RiskDecision

pub record AdjustedParameters : Type 0 where
  pub margin_usdt : ℤ
  pub leverage : ℤ

-- `dict[str, str]` from rules to reasons, in insertion order.
abbrev pub Reasons : Type 0
Reasons = List (Rule × Reason)

pub record RiskValidationResult : Type 0 where
  pub aggregation_id : String
  pub symbol : String
  pub decision : RiskDecision
  pub original_margin_usdt : ℤ
  pub original_leverage : ℤ
  pub adjusted_parameters : Option AdjustedParameters
  pub daily_loss_at_check_usdt : Option ℤ
  pub total_loss_at_check_usdt : Option ℤ
  pub reasons : Reasons

-- `d[rule] = reason`
unfoldable pub put : Rule → Reason → Reasons → Reasons
put rule reason [] = (rule, reason) ∷ []
put rule reason ((r, old) ∷ d) =
    let rest = put rule reason d in if rule_eq r rule then (r, reason) ∷ d else (r, old) ∷ rest

-- `{c.rule: c.reason for c in checks}`, added to a dict.
unfoldable pub record_checks : List CheckResult → Reasons → Reasons
unfolding put
record_checks [] d = d
record_checks (c ∷ checks) d = record_checks checks (put c.rule c.reason d)

-- `d.get(rule)`
unfoldable pub reason_of : Rule → Reasons → Option Reason
reason_of rule [] = none
reason_of rule ((r, reason) ∷ d) = if rule_eq r rule then some reason else reason_of rule d

abbrev pub nonneg? : Option ℤ → Bool
nonneg? none = true
nonneg? (some v) = leb_ℤ (pos 0) v

abbrev pub has_no_params : RiskDecision → Bool
has_no_params RiskDecision.block = true
has_no_params RiskDecision.no_operar = true
has_no_params _ = false

abbrev pub is_no_operar : RiskDecision → Bool
is_no_operar RiskDecision.no_operar = true
is_no_operar _ = false

abbrev pub is_adjust_down : RiskDecision → Bool
is_adjust_down RiskDecision.adjust_down = true
is_adjust_down _ = false

abbrev pub is_empty : Reasons → Bool
is_empty [] = true
is_empty (_ ∷ _) = false

-- `adjusted_parameters_coherent`
unfoldable pub adjusted_parameters_coherent : RiskValidationResult → Bool
adjusted_parameters_coherent r = elim r.adjusted_parameters [
  | none ↦
      has_no_params r.decision && (is_no_operar r.decision || ltb_ℤ (pos 0) r.original_margin_usdt)
  | some p ↦
      not (has_no_params r.decision)
      && (is_no_operar r.decision || ltb_ℤ (pos 0) r.original_margin_usdt)
      && (not (is_adjust_down r.decision)
          || ltb_ℤ p.margin_usdt r.original_margin_usdt
          || ltb_ℤ p.leverage r.original_leverage)
]

-- `ge=1, le=10`
abbrev pub leverage_in_range : ℤ → Bool
leverage_in_range leverage = leb_ℤ (pos 1) leverage && leb_ℤ leverage (pos 10)

-- With `per_unit` units of a Decimal to one USDT.
module _ (per_unit : ℕ) where
  abbrev pub max_margin_usdt : ℤ
  max_margin_usdt = pos (10 * per_unit)

  -- `AdjustedParameters(margin_usdt=…, leverage=…)`
  unfoldable pub new_parameters : ℤ → ℤ → Result RiskError AdjustedParameters
  new_parameters margin leverage =
      if ltb_ℤ (pos 0) margin && leb_ℤ margin max_margin_usdt && leverage_in_range leverage
      then ok (record { margin_usdt = margin; leverage = leverage })
      else err validation_error

  unfoldable pub result_fields_valid : RiskValidationResult → Bool
  result_fields_valid r =
      symbol_allowed r.symbol
      && leb_ℤ (pos 0) r.original_margin_usdt
      && leb_ℤ r.original_margin_usdt max_margin_usdt
      && leverage_in_range r.original_leverage
      && nonneg? r.daily_loss_at_check_usdt
      && nonneg? r.total_loss_at_check_usdt
      && not (is_empty r.reasons)

  -- `RiskValidationResult(…)`: the fields, then the validator of the model.
  unfoldable pub new_result : RiskValidationResult → Result RiskError RiskValidationResult
  unfolding result_fields_valid adjusted_parameters_coherent
  new_result r =
      if result_fields_valid r && adjusted_parameters_coherent r then ok r else err validation_error
