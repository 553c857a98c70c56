-- ===== src/Risk/Built.antt =====
-- What is known of a result of backend/risk_engine/schemas.py that was built without an error.
use k.Base.{
  ℕ, ◌*◌, ℤ, pos, ◌≤ℤ◌, ◌<ℤ◌, ◌≡◌, ◌⊎◌, true, false, ok, ◌>>=◌, any, arith, Result-cases, inl, inr,
}
use k.Base.Numbers.{Numbers}
use k.Config.{AppConfig, cap_for_env}
use k.Decision.{ModelDecision}
use k.Risk.Results.{is_adjust_down}
use k.Risk.Checks.{check_margin_cap, check_leverage_cap}
use k.Risk.Schemas.{AdjustedParameters, RiskValidationResult, new_result, new_parameters}
use k.Risk.Engine.{adjust_checks}

pub new_result-ok :
    (n : ℕ) (x : RiskValidationResult) (r : RiskValidationResult) → new_result n x ≡ ok r → r ≡ x
unfolding new_result
new_result-ok n x r e = ground arith

pub new_parameters-ok :
    (n : ℕ) (margin leverage : ℤ) (p : AdjustedParameters)
    → new_parameters n margin leverage ≡ ok p
    → (p.margin_usdt ≡ margin) × (p.leverage ≡ leverage)
unfolding new_parameters
new_parameters-ok n margin leverage p e = ground arith

pub new_parameters-bounds :
    (n : ℕ) (margin leverage : ℤ) (p : AdjustedParameters)
    → new_parameters n margin leverage ≡ ok p
    → (pos 0 <ℤ margin) × (margin ≤ℤ pos (10 * n)) × (pos 1 ≤ℤ leverage) × (leverage ≤ℤ pos 10)
unfolding new_parameters
new_parameters-bounds n margin leverage p e = ground arith

-- Building parameters and then a result from them.
pub built_with :
    (n : ℕ) (margin leverage : ℤ) (f : AdjustedParameters → RiskValidationResult)
    (r : RiskValidationResult)
    → (new_parameters n margin leverage >>= λ p. new_result n (f p)) ≡ ok r
    → (p : AdjustedParameters) × (r ≡ f p)
      × (p.margin_usdt ≡ margin)
      × (p.leverage ≡ leverage)
      × (pos 0 <ℤ margin)
      × (margin ≤ℤ pos (10 * n))
      × (pos 1 ≤ℤ leverage)
      × (leverage ≤ℤ pos 10)
built_with n margin leverage f r e = elim (Result-cases (new_parameters n margin leverage)) [
  | inr (x, failed) ↦ ground arith
  | inl (p, made) ↦
      let (m, l) = new_parameters-ok n margin leverage p made in
      let (b, b', b'', b''') = new_parameters-bounds n margin leverage p made in
      (p, new_result-ok n (f p) r (ground arith), m, l, b, b', b'', b''')
]

module _ (N : Numbers) (d : ModelDecision N) (config : AppConfig N) where
  open N use {to_decimal}

  -- The phase of adjustment is entered exactly if the margin or the leverage is over its cap.
  pub over_cap :
      any is_adjust_down (adjust_checks N d config) ≡ true
      → (to_decimal config.risk.max_margin_per_trade_usdt <ℤ to_decimal d.margin_usdt)
        ⊎ (cap_for_env config.leverage config.environment <ℤ d.leverage)
  unfolding adjust_checks check_margin_cap check_leverage_cap
  over_cap e = ground arith

  pub within_cap :
      any is_adjust_down (adjust_checks N d config) ≡ false
      → (to_decimal d.margin_usdt ≤ℤ to_decimal config.risk.max_margin_per_trade_usdt)
        × (d.leverage ≤ℤ cap_for_env config.leverage config.environment)
  unfolding adjust_checks check_margin_cap check_leverage_cap
  within_cap e = ground arith
