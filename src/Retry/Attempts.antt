-- ===== src/Retry/Attempts.antt =====
-- How the retry loop of backend/core/retry.py ends, and how often it calls the operation.
use k.Base.{
  ℕ, zero, suc, ◌≤◌, ◌≡◌, inl, inr, true, false, Option, none, some, List, [], ◌∷◌, Result, ok, err,
  Result-cases, Bool-cases, arith,
}
use k.Base.Numbers.{Numbers}
use k.Retry.Breaker.{BreakerError, CircuitBreaker}
use k.Retry.Loop.{
  RetryConfig, Calls, raised, refused, Effect, called, slept, Ended, ask, note_failure,
  note_success, wait, gives_up, attempts, retry_sync, prepend,
}

module _ {N : Numbers} {E T : Type 0} where
  -- The outcomes of the calls, in their order, and how often the loop slept.
  abbrev pub outcomes : List (Effect N E T) → List (Result E T)
  outcomes [] = []
  outcomes (called r ∷ log) = r ∷ outcomes log
  outcomes (slept d ∷ log) = outcomes log

  abbrev pub call_count : List (Effect N E T) → ℕ
  call_count [] = 0
  call_count (called r ∷ log) = suc (call_count log)
  call_count (slept d ∷ log) = call_count log

  abbrev pub sleep_count : List (Effect N E T) → ℕ
  sleep_count [] = 0
  sleep_count (called r ∷ log) = sleep_count log
  sleep_count (slept d ∷ log) = suc (sleep_count log)

module _ (N : Numbers) {World E T : Type 0} (calls : Calls N World E T)
    (config : RetryConfig N) where
  open N use {Float}

  -- The four ways in which the first of the attempts that are left goes.
  pub data Round (left attempt : ℕ) (b : Option (CircuitBreaker N)) (w : World)
      (o : Ended N World E T) : Type 0 where
    refusing :
        (e : BreakerError)
        → (ask N (calls.monotonic w) b).1 ≡ err e
        → o ≡ record {
          breaker = (ask N (calls.monotonic w) b).0;
          world = w;
          log = [];
          result = err (refused e);
        }
        → Round left attempt b w o
    succeeding :
        (v : T)
        → o ≡ record {
          breaker = note_success N (ask N (calls.monotonic w) b).0;
          world = (calls.operation w).0;
          log = called (ok v) ∷ [];
          result = ok v;
        }
        → Round left attempt b w o
    raising :
        (e : E) (at_failure : Float)
        → gives_up N calls config attempt e ≡ true
        → o ≡ record {
          breaker = note_failure N at_failure (ask N (calls.monotonic w) b).0;
          world = (calls.operation w).0;
          log = called (err e) ∷ [];
          result = err (raised e);
        }
        → Round left attempt b w o
    retrying :
        (e : E) (at_failure : Float) (w2 : World) (delay : Float)
        → gives_up N calls config attempt e ≡ false
        → o
          ≡ prepend N (called (err e)) (slept delay) (
              attempts N calls config left
                (suc attempt)
                (note_failure N at_failure (ask N (calls.monotonic w) b).0)
                w2
                (some e))
        → Round left attempt b w o

  pub round :
      (left attempt : ℕ) (b : Option (CircuitBreaker N)) (w : World) (last_exc : Option E)
      → Round left attempt b w (attempts N calls config (suc left) attempt b w last_exc)
  unfolding attempts
  round left attempt b w last_exc = elim (Result-cases (ask N (calls.monotonic w) b).1) [
    | inr (e, denied) ↦ refusing e denied (ground arith)
    | inl (_, admitted) ↦ elim (Result-cases (calls.operation w).1) [
      | inl (v, done) ↦ succeeding v (ground arith)
      | inr (e, failed) ↦ elim (Bool-cases (gives_up N calls config attempt e)) [
        | inl over ↦ raising e (calls.monotonic (calls.operation w).0) over (ground arith)
        | inr again ↦
            retrying e (calls.monotonic (calls.operation w).0)
              (wait N calls config attempt e (calls.operation w).0).0
              (wait N calls config attempt e (calls.operation w).0).1 again (ground arith)
      ]
    ]
  ]

  attempts_counts :
      (left attempt : ℕ) (b : Option (CircuitBreaker N)) (w : World) (last_exc : Option E)
      → (call_count (attempts N calls config left attempt b w last_exc).log ≤ left)
        × (sleep_count (attempts N calls config left attempt b w last_exc).log
            ≤ call_count (attempts N calls config left attempt b w last_exc).log)
        × (call_count (attempts N calls config left attempt b w last_exc).log
            ≤ suc (sleep_count (attempts N calls config left attempt b w last_exc).log))
  unfolding attempts
  attempts_counts zero attempt b w last_exc = omega arith
  attempts_counts (suc left) attempt b w last_exc = elim (round left attempt b w last_exc) [
    | refusing e denied same ↦ rw same (ground arith)
    | succeeding v same ↦ rw same (ground arith)
    | raising e noted over same ↦ rw same (ground arith)
    | retrying e t w2 delay again same ↦ rw same (
        omega (
          arith,
          attempts_counts left (suc attempt) (note_failure N t (ask N (calls.monotonic w) b).0) w2
              (some e),
        ))
  ]

  -- A retry calls the operation at most `max_attempts` times; it sleeps at most as often as it
  -- calls, and calls at most once more than it sleeps.
  pub calls_bounded :
      (b : Option (CircuitBreaker N)) (w : World)
      → (call_count (retry_sync N calls config b w).log ≤ config.max_attempts)
        × (sleep_count (retry_sync N calls config b w).log
            ≤ call_count (retry_sync N calls config b w).log)
        × (call_count (retry_sync N calls config b w).log
            ≤ suc (sleep_count (retry_sync N calls config b w).log))
  unfolding retry_sync
  calls_bounded b w = attempts_counts config.max_attempts 0 b w none
