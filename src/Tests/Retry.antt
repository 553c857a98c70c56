-- ===== src/Tests/Retry.antt =====
-- A retry whose operation fails twice and then returns 7, behind a breaker that opens at two
-- failures; the world is the number of calls so far.
use k.Base.{
  ℕ, suc, ◌*◌, ◌<◌, ◌≤◌, ◌==◌, ◌≡◌, ◌≢◌, refl, ◌↔◌, true, none, some, List, [], ◌∷◌, ◌++◌, All, ok,
  err, pos, ◌-ℤ◌, inl, arith, if◌then◌else◌,
}
use k.Retry.Breaker.{
  closed, opened, never_opened, circuit_breaker_open_error, CircuitBreakerConfig, CircuitBreaker,
  new_breaker, before_call, on_failure, on_success,
}
use k.Retry.Circuit.{
  Event, asked, failed, succeeded, after, failures_since_success, Consistent, closed_iff,
}
use k.Retry.Loop.{RetryConfig, Calls, compute_delay, wait, refused, no_attempt, retry_sync}
use k.Retry.Attempts.{outcomes, call_count, sleep_count, calls_bounded}
use k.Retry.Endings.{failures, retry_explained}
use k.Retry.Guarded.{Trusted, asserts_hold}
use k.Retry.Delay.{Strict}
use k.Tests.Fixed.{fixed, minus}

abbrev limits : CircuitBreakerConfig fixed
limits = record { failure_threshold = 2; reset_timeout_seconds = pos 3000 }

abbrev config : RetryConfig fixed
config = record {
  max_attempts = 4;
  base_delay_seconds = pos 100;
  max_delay_seconds = pos 3000;
  jitter_ratio = pos 0;
}

abbrev calls : Calls fixed ℕ ℕ ℕ
calls = record {
  operation = λ w. (suc w, if w == 2 then ok 7 else err w);
  is_retryable = λ e. true;
  get_retry_after = none;
  on_retry = none;
  monotonic = λ w. pos (w * 100);
  uniform = λ a b w. (w, a);
  sleep = λ d w. w;
}

breaker : Unit {0}
unfolding retry_sync compute_delay wait before_call on_failure on_success new_breaker minus ◌-ℤ◌
breaker = tt

retries : (retry_sync fixed calls config none 0).result ≡ ok 7
unfolding breaker
retries = refl

trips :
    (retry_sync fixed calls config (some (new_breaker fixed limits)) 0).result
    ≡ err (refused (circuit_breaker_open_error 2))
unfolding breaker
trips = refl

abbrev used : List (Event fixed)
used = failed (pos 200) ∷ asked (pos 200) ∷ failed (pos 100) ∷ succeeded ∷ []

closed_iff_example :
    ((after fixed limits used).state ≡ closed ↔ failures_since_success fixed used < 2)
    × ((after fixed limits used).consecutive_failures ≡ failures_since_success fixed used)
    × ((before_call fixed (pos 300) (after fixed limits used)).1 ≢ err never_opened)
closed_iff_example = closed_iff fixed limits used (pos 300) (omega arith)

calls_bounded_example :
    (call_count (retry_sync fixed calls config none 0).log ≤ 4)
    × (sleep_count (retry_sync fixed calls config none 0).log
        ≤ call_count (retry_sync fixed calls config none 0).log)
    × (call_count (retry_sync fixed calls config none 0).log
        ≤ suc (sleep_count (retry_sync fixed calls config none 0).log))
calls_bounded_example = calls_bounded fixed calls config none 0

retry_explained_example :
    (fails : List ℕ) × All (λ e. true ≡ true) fails
    × (outcomes (retry_sync fixed calls config none 0).log
        ≡ failures fixed calls config fails ++ (ok 7 ∷ []))
unfolding breaker
retry_explained_example = retry_explained fixed calls config none 0

new_breaker-Consistent : Consistent fixed (new_breaker fixed limits)
unfolding new_breaker
new_breaker-Consistent = record {
  closed_below = λ _. omega arith;
  reached = inl refl;
  dated = λ _. refl;
}

new_breaker-Trusted : Trusted fixed (some (new_breaker fixed limits))
unfolding new_breaker
new_breaker-Trusted = (omega arith, new_breaker-Consistent)

asserts_hold_example :
    Trusted fixed (retry_sync fixed calls config (some (new_breaker fixed limits)) 0).breaker
    × ((retry_sync fixed calls config (some (new_breaker fixed limits)) 0).result
        ≢ err (refused never_opened))
    × ((retry_sync fixed calls config (some (new_breaker fixed limits)) 0).result ≢ err no_attempt)
asserts_hold_example =
    asserts_hold fixed calls config (some (new_breaker fixed limits)) 0 new_breaker-Trusted
      (omega arith)

abbrev shut : CircuitBreaker fixed
shut = record {
  config = limits;
  state = opened;
  consecutive_failures = 2;
  opened_at = some (pos 200);
}

fixed_strict : Strict fixed
fixed_strict = record { irreflexive = λ x. ground arith; asymmetric = λ x y h. ground arith }
