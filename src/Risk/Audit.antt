-- ===== src/Risk/Audit.antt =====
-- The audit trail of the Risk Engine (backend/risk_engine/engine.py): the reasons of its results,
-- and the informative check that must not change a verdict.
use k.Base.{
  ap, length, ◌≡◌, true, false, Bool, none, some, List, [], ◌∷◌, ok, any, All, Bool-cases, inl, inr,
  arith, refl, if◌then◌else◌,
}
use k.Base.Numbers.{Numbers}
use k.Config.{AppConfig}
use k.Decision.{ModelDecision}
use k.Risk.Results.{Rule, Reason, rule_eq, CheckResult, is_block, is_adjust_down}
use k.Risk.Schemas.{Reasons, put, record_checks, reason_of, RiskValidationResult}
use k.Risk.Engine.{RiskInputs, block_checks, adjust_checks, adjust_or_approve, decide, validate}
use k.Risk.Safety.{validate-inv}
use k.Risk.Tradable.{block_checks-Made}
use k.Risk.Built.{new_result-ok, built_with}

-- The dict has a reason for the rule.
abbrev pub is_recorded : Reasons → Rule → Bool
is_recorded d rule = elim (reason_of rule d) [ none ↦ false | some _ ↦ true ]

reason_of-put :
    (r q : Rule) (reason : Reason) (d : Reasons)
    → reason_of q (put r reason d) ≡ (if rule_eq r q then some reason else reason_of q d)
unfolding reason_of put
reason_of-put r q reason [] = refl
reason_of-put r q reason ((j, old) ∷ d) = ground (arith, reason_of-put r q reason d)

is_recorded-keep :
    (checks : List CheckResult) (d : Reasons) (q : Rule)
    → is_recorded d q ≡ true
    → is_recorded (record_checks checks d) q ≡ true
unfolding record_checks
is_recorded-keep [] d q h = h
is_recorded-keep (c ∷ checks) d q h =
    is_recorded-keep checks (put c.rule c.reason d) q
      (ground (arith, reason_of-put c.rule q c.reason d))

record_checks-All :
    (checks : List CheckResult) (d : Reasons)
    → All (λ c. is_recorded (record_checks checks d) c.rule ≡ true) checks
unfolding record_checks
record_checks-All [] d = tt
record_checks-All (c ∷ checks) d = (
  is_recorded-keep checks (put c.rule c.reason d) c.rule
      (ground (arith, reason_of-put c.rule c.rule c.reason d)),
  record_checks-All checks (put c.rule c.reason d),
)

All-map {ℓ κ ν} :
    {A : Type ℓ} {P : A → Type κ} {Q : A → Type ν} (xs : List A)
    → ((a : A) → P a → Q a)
    → All P xs
    → All Q xs
All-map [] f h = tt
All-map (x ∷ xs) f h = (f x h.0, All-map xs f h.1)

module _ (N : Numbers) (d : ModelDecision N) (i : RiskInputs N) (config : AppConfig N) where
  open N use {per_unit, le, zero}

  abbrev Recorded : List CheckResult → Reasons → Type 0
  Recorded checks reasons = All (λ c. is_recorded reasons c.rule ≡ true) checks

  adjusted-Recorded :
      (checks : List CheckResult) (r : RiskValidationResult)
      → adjust_or_approve N d i config checks ≡ ok r
      → Recorded checks r.reasons × Recorded (adjust_checks N d config) r.reasons
  unfolding adjust_or_approve
  adjusted-Recorded checks r e = elim (Bool-cases (any is_adjust_down (adjust_checks N d config))) [
    | inl over ↦ let b = built_with per_unit _ _ _ r (rw over at e) in rw b.1 all
    | inr within ↦ let b = built_with per_unit _ _ _ r (rw within at e) in rw b.1 all
  ]
    where
      all :
          Recorded checks (record_checks (adjust_checks N d config) (record_checks checks []))
          × Recorded
              (adjust_checks N d config)
              (record_checks (adjust_checks N d config) (record_checks checks []))
      all = (
        All-map checks (λ c. is_recorded-keep (adjust_checks N d config) _ c.rule)
            (record_checks-All checks []),
        record_checks-All (adjust_checks N d config) (record_checks checks []),
      )

  decide-Recorded :
      (checks : List CheckResult) (r : RiskValidationResult)
      → decide N d i config checks ≡ ok r
      → Recorded checks r.reasons
  unfolding decide
  decide-Recorded checks r e = elim (Bool-cases (any is_block checks)) [
    | inl blocked ↦ rw (new_result-ok per_unit _ r (rw blocked at e)) (record_checks-All checks [])
    | inr free ↦ (adjusted-Recorded checks r (rw free at e)).0
  ]

  -- Every result on an executable decision names all twelve checks in its reasons, those that
  -- passed included, also where the trade is blocked.
  pub every_check_recorded :
      {r : RiskValidationResult}
      → d.execute ≡ true
      → validate N d i config ≡ ok r
      → (checks : List CheckResult) × (block_checks N d i config ≡ ok checks)
        × (length checks ≡ 12)
        × All (λ c. is_recorded r.reasons c.rule ≡ true) checks
  every_check_recorded {r} x e =
      let (checks, made, decided) = validate-inv N d i config r x e in
      (
        checks,
        made,
        ap length (block_checks-Made N d i config checks made).list_is,
        decide-Recorded checks r decided,
      )
