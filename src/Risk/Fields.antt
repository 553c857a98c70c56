-- ===== src/Risk/Fields.antt =====
-- When the constructors of backend/risk_engine/schemas.py and the checks of
-- backend/risk_engine/checks.py that may raise do not: one lemma for each of them.
use k.Base.{
  ◌≡◌, ◌≤ℤ◌, ◌<ℤ◌, ℤ, pos, ◌*◌, true, false, Option, none, some, List, ok, arith, is_ok, refl, [],
  ◌∷◌, ℕ,
}
use k.Decision.{symbol_allowed}
use k.Risk.Results.{Rule, Reason, CheckResult}
use k.Risk.Checks.{check_anti_martingala, check_anti_leverage_escalation}
use k.Risk.Schemas.{
  result_fields_valid, Reasons, put, record_checks, is_empty, nonneg?, adjusted_parameters_coherent,
  RiskValidationResult, new_result, new_parameters,
}

abbrev pub Positive? : Option ℤ → Type 0
Positive? none = Unit
Positive? (some v) = pos 0 <ℤ v

pub martingala_total :
    (margin : ℤ) (pnl last : Option ℤ)
    → pos 0 <ℤ margin
    → Positive? last
    → is_ok (check_anti_martingala margin pnl last) ≡ true
unfolding check_anti_martingala
martingala_total margin none none h p = ground arith
martingala_total margin none (some m) h p = ground arith
martingala_total margin (some q) none h p = ground arith
martingala_total margin (some q) (some m) h p = ground arith

pub leverage_escalation_total :
    (leverage : ℤ) (pnl last : Option ℤ)
    → pos 0 <ℤ leverage
    → Positive? last
    → is_ok (check_anti_leverage_escalation leverage pnl last) ≡ true
unfolding check_anti_leverage_escalation
leverage_escalation_total leverage none none h p = ground arith
leverage_escalation_total leverage none (some m) h p = ground arith
leverage_escalation_total leverage (some q) none h p = ground arith
leverage_escalation_total leverage (some q) (some m) h p = ground arith

pub put-nonempty :
    (rule : Rule) (reason : Reason) (d : Reasons) → is_empty (put rule reason d) ≡ false
unfolding put
put-nonempty rule reason [] = refl
put-nonempty rule reason (e ∷ d) = ground arith

pub record_checks-nonempty :
    (checks : List CheckResult) (d : Reasons)
    → is_empty d ≡ false
    → is_empty (record_checks checks d) ≡ false
unfolding record_checks
record_checks-nonempty [] d h = h
record_checks-nonempty (c ∷ checks) d h =
    record_checks-nonempty checks (put c.rule c.reason d) (put-nonempty c.rule c.reason d)

-- The facts about the fields that every exit shares.
pub record FieldsFit (n : ℕ) (x : RiskValidationResult) : Type 0 where
  pub allowed : symbol_allowed x.symbol ≡ true
  pub margin_low : pos 0 ≤ℤ x.original_margin_usdt
  pub margin_high : x.original_margin_usdt ≤ℤ pos (10 * n)
  pub leverage_low : pos 1 ≤ℤ x.original_leverage
  pub leverage_high : x.original_leverage ≤ℤ pos 10
  pub daily : nonneg? x.daily_loss_at_check_usdt ≡ true
  pub total : nonneg? x.total_loss_at_check_usdt ≡ true
  pub explained : is_empty x.reasons ≡ false

fields_fit : (n : ℕ) (x : RiskValidationResult) → FieldsFit n x → result_fields_valid n x ≡ true
unfolding result_fields_valid
fields_fit n x f = rw (f.allowed, f.daily, f.total, f.explained) (ground arith)

pub new_result_total :
    (n : ℕ) (x : RiskValidationResult)
    → FieldsFit n x
    → adjusted_parameters_coherent x ≡ true
    → is_ok (new_result n x) ≡ true
unfolding new_result
new_result_total n x f c = rw (fields_fit n x f) (rw c refl)

pub new_parameters_total :
    (n : ℕ) (margin leverage : ℤ)
    → pos 0 <ℤ margin
    → margin ≤ℤ pos (10 * n)
    → pos 1 ≤ℤ leverage
    → leverage ≤ℤ pos 10
    → new_parameters n margin leverage ≡ ok (record { margin_usdt = margin; leverage = leverage })
unfolding new_parameters
new_parameters_total n margin leverage a b c d = ground arith
