-- ===== src/Retry/Guarded.antt =====
-- The retry loop of backend/core/retry.py behind a circuit breaker.
use k.Base.{ℕ, zero, suc, ◌<◌, ◌≡◌, ◌≢◌, true, Option, none, some, [], err, arith}
use mathlib.Core.Path.{subst}
use k.Base.Numbers.{Numbers}
use k.Retry.Breaker.{
  opened, circuit_breaker_open_error, never_opened, BreakerError, CircuitBreaker, before_call,
  on_success,
}
use k.Retry.Circuit.{Consistent, asked, failed, succeeded, step-Consistent, step_config}
use k.Retry.Loop.{
  RetryConfig, Calls, no_attempt, refused, ask, note_failure, note_success, attempts, retry_sync,
}
use k.Retry.Endings.{Because, retry_explained}
use k.Retry.Attempts.{outcomes, refusing, succeeding, raising, retrying, round}

module _ (N : Numbers) where
  open N use {Float, lt, sub}

  -- A breaker as it comes out of use, with a positive threshold.
  abbrev pub Trusted : Option (CircuitBreaker N) → Type 0
  Trusted none = Unit
  Trusted (some b) = (0 < b.config.failure_threshold) × Consistent N b

  ask-Trusted :
      (now : Float) (b : Option (CircuitBreaker N))
      → Trusted b
      → Trusted (ask N now b).0 × ((ask N now b).1 ≢ err never_opened)
  unfolding ask before_call
  ask-Trusted now none t = (tt, λ e. cc)
  ask-Trusted now (some b) (h, c) = (
    (rw (step_config N (asked now) b) h, step-Consistent N (asked now) b h c),
    ground (arith, c.dated),
  )

  note_failure-Trusted :
      (now : Float) (b : Option (CircuitBreaker N)) → Trusted b → Trusted (note_failure N now b)
  unfolding note_failure
  note_failure-Trusted now none t = tt
  note_failure-Trusted now (some b) (h, c) =
      (rw (step_config N (failed now) b) h, step-Consistent N (failed now) b h c)

  note_success-Trusted : (b : Option (CircuitBreaker N)) → Trusted b → Trusted (note_success N b)
  unfolding note_success on_success
  note_success-Trusted none t = tt
  note_success-Trusted (some b) (h, c) = (h, step-Consistent N succeeded b h c)

  module _ {World E T : Type 0} (calls : Calls N World E T) (config : RetryConfig N) where
    attempts-Trusted :
        (left attempt : ℕ) (b : Option (CircuitBreaker N)) (w : World) (last_exc : Option E)
        → Trusted b
        → Trusted (attempts N calls config left attempt b w last_exc).breaker
          × ((attempts N calls config left attempt b w last_exc).result
              ≢ err (refused never_opened))
    unfolding attempts
    attempts-Trusted zero attempt b w none t = (t, λ e. cc)
    attempts-Trusted zero attempt b w (some e) t = (t, λ e. cc)
    attempts-Trusted (suc left) attempt b w last_exc t =
        let (t', fine) = ask-Trusted (calls.monotonic w) b t in
        let b' = (ask N (calls.monotonic w) b).0 in
        elim (round N calls config left attempt b w last_exc) [
          | refusing e denied same ↦ rw same (t', λ never. ground arith)
          | succeeding v same ↦ rw same (note_success-Trusted b' t', λ never. cc)
          | raising e now over same ↦ rw same (note_failure-Trusted now b' t', λ never. cc)
          | retrying e now w2 delay again same ↦ rw same (
              attempts-Trusted left (suc attempt) (note_failure N now b') w2 (some e)
                (note_failure-Trusted now b' t'))
        ]

    no_attempt_lem :
        (b : Option (CircuitBreaker N)) (w : World)
        → (retry_sync N calls config b w).result ≡ err no_attempt
        → config.max_attempts ≡ 0
    no_attempt_lem b w e =
        subst (Because N calls config 0 (outcomes (retry_sync N calls config b w).log)) e
          (retry_explained N calls config b w)

    attempts_refused :
        (left attempt : ℕ) (b : Option (CircuitBreaker N)) (w : World) (last_exc : Option E)
        {b' : Option (CircuitBreaker N)} {why : BreakerError}
        → 0 < left
        → ask N (calls.monotonic w) b ≡ (b', err why)
        → attempts N calls config left attempt b w last_exc
          ≡ record { breaker = b'; world = w; log = []; result = err (refused why) }
    unfolding attempts
    attempts_refused zero attempt b w last_exc h e = absurd (omega (arith, h))
    attempts_refused (suc left) attempt b w last_exc h e = ground arith

    -- A retry with an attempt to make, through a breaker that has been used as intended or none,
    -- leaves it so, and fails neither the assert of `before_call` nor its own.
    pub asserts_hold :
        (b : Option (CircuitBreaker N)) (w : World)
        → Trusted b
        → 0 < config.max_attempts
        → Trusted (retry_sync N calls config b w).breaker
          × ((retry_sync N calls config b w).result ≢ err (refused never_opened))
          × ((retry_sync N calls config b w).result ≢ err no_attempt)
    unfolding retry_sync
    asserts_hold b w t h =
        let (t', fine) = attempts-Trusted config.max_attempts 0 b w none t in
        (t', fine, λ e. omega (arith, h, no_attempt_lem b w e))

    -- While a breaker is open and its timeout has not passed, a retry raises
    -- `CircuitBreakerOpenError` and does nothing: no call, no sleep, no change of the breaker.
    pub open_breaker_refuses :
        (b : CircuitBreaker N) (w : World) {since : Float}
        → b.state ≡ opened
        → b.opened_at ≡ some since
        → lt (sub (calls.monotonic w) since) b.config.reset_timeout_seconds ≡ true
        → 0 < config.max_attempts
        → retry_sync N calls config (some b) w ≡ record {
          breaker = some b;
          world = w;
          log = [];
          result = err (refused (circuit_breaker_open_error b.consecutive_failures));
        }
    unfolding retry_sync ask before_call
    open_breaker_refuses b w {since} shut at_time early h =
        attempts_refused config.max_attempts 0 (some b) w none h (ground arith)
