-- ===== src/Retry/Delay.antt =====
-- Bounds of the delay between attempts, backend/core/retry.py.
use k.Base.{ℕ, ◌≡◌, true, false, Option, none, some, arith, Bool-cases, inl, inr}
use k.Base.Numbers.{Numbers}
use k.Retry.Loop.{RetryConfig, base_delay, compute_delay, draws, min_float, max_float}

module _ (N : Numbers) where
  open N use {Float, lt, le, zero, one, two, add, mul, pow}

  -- What IEEE comparisons keep, NaN included.
  pub record Strict : Type 0 where
    pub irreflexive : (x : Float) → lt x x ≡ false
    pub asymmetric : (x y : Float) → lt x y ≡ true → lt y x ≡ false

  min_float_lem : Strict → (x cap : Float) → lt cap (min_float N x cap) ≡ false
  min_float_lem strict x cap = ground (arith, strict.irreflexive cap)

  max_float_lem : Strict → (x : Float) → lt (max_float N zero x) zero ≡ false
  max_float_lem strict x = ground (arith, strict.irreflexive zero, strict.asymmetric zero x)

  -- Where `<` on floats is irreflexive and asymmetric, a delay is not above `max_delay_seconds`
  -- if no jitter is drawn, which includes every delay that the server asked for, and not below
  -- zero if one is drawn.
  pub delay_bounded :
      Strict
      → (attempt : ℕ) (config : RetryConfig N) (retry_after : Option Float) (jitter : Float)
      → (draws N config retry_after ≡ false
          → lt config.max_delay_seconds (compute_delay N attempt config retry_after jitter) ≡ false)
        × (draws N config retry_after ≡ true
            → lt (compute_delay N attempt config retry_after jitter) zero ≡ false)
  unfolding compute_delay draws base_delay
  delay_bounded strict attempt config (some retry_after) jitter =
      (λ _. min_float_lem strict retry_after config.max_delay_seconds, λ e. cc)
  delay_bounded strict attempt config none jitter =
      elim (Bool-cases (le config.jitter_ratio zero)) [
        | inl off ↦ (
          λ _. rw off (
              min_float_lem strict (mul config.base_delay_seconds (pow two attempt))
                config.max_delay_seconds),
          λ drawn. absurd (ground arith),
        )
        | inr on ↦ (
          λ drawn. absurd (ground arith),
          λ _. rw on (max_float_lem strict (mul (base_delay N attempt config) (add one jitter))),
        )
      ]
