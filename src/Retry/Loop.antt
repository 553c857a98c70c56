-- ===== src/Retry/Loop.antt =====
-- backend/core/retry.py: the delay between attempts and the retry loop. `World` is what the caller
-- and the runtime see: an operation, the clock, `random.uniform`, the callbacks and sleep act on it.
use k.Base.{
  ℕ, zero, suc, ◌-◌, ◌==◌, Bool, true, false, not, ◌||◌, Option, none, some, List, [], ◌∷◌, Result,
  ok, err, if◌then◌else◌,
}
use k.Base.Numbers.{Numbers}
use k.Retry.Breaker.{BreakerError, CircuitBreaker, before_call, on_success, on_failure}

-- What an exception that leaves the loop is.
pub data Failure (E : Type 0) : Type 0 where
  raised : E → Failure E
  refused : BreakerError → Failure E
  no_attempt : Failure E

module _ (N : Numbers) where
  open N use {Float, lt, le, zero as zero_float, one, two, neg, add, mul, pow}

  pub record RetryConfig : Type 0 where
    pub max_attempts : ℕ
    pub base_delay_seconds : Float
    pub max_delay_seconds : Float
    pub jitter_ratio : Float

  -- Python's `min(a, b)` and `max(a, b)`.
  abbrev pub min_float : Float → Float → Float
  min_float a b = if lt b a then b else a

  abbrev pub max_float : Float → Float → Float
  max_float a b = if lt a b then b else a

  -- The exponential delay before the jitter.
  unfoldable pub base_delay : ℕ → RetryConfig → Float
  base_delay attempt config =
      min_float (mul config.base_delay_seconds (pow two attempt)) config.max_delay_seconds

  -- `compute_delay`, with the draw of `random.uniform(-jitter_ratio, jitter_ratio)`; it is used
  -- only where the source draws.
  unfoldable pub compute_delay : ℕ → RetryConfig → Option Float → Float → Float
  unfolding base_delay
  compute_delay attempt config (some retry_after) jitter =
      min_float retry_after config.max_delay_seconds
  compute_delay attempt config none jitter =
      let base = base_delay attempt config in
      if le config.jitter_ratio zero_float
      then base
      else max_float zero_float (mul base (add one jitter))

  -- Whether `compute_delay` draws a number.
  unfoldable pub draws : RetryConfig → Option Float → Bool
  draws config (some retry_after) = false
  draws config none = not (le config.jitter_ratio zero_float)

  -- The arguments of `retry_sync` that are functions, and what the runtime gives.
  pub record Calls (World E T : Type 0) : Type 0 where
    pub operation : World → World × Result E T
    pub is_retryable : E → Bool
    pub get_retry_after : Option (E → Option Float)
    pub on_retry : Option (ℕ → Float → E → World → World)
    pub monotonic : World → Float
    pub uniform : Float → Float → World → World × Float
    pub sleep : Float → World → World

  pub data Effect (E T : Type 0) : Type 0 where
    called : Result E T → Effect E T
    slept : Float → Effect E T

  pub record Ended (World E T : Type 0) : Type 0 where
    pub breaker : Option (CircuitBreaker N)
    pub world : World
    pub log : List (Effect E T)
    pub result : Result (Failure E) T

  -- `if circuit_breaker is not None: …`
  unfoldable pub ask :
      Float → Option (CircuitBreaker N) → Option (CircuitBreaker N) × Result BreakerError (Unit {0})
  ask now none = (none, ok tt)
  ask now (some b) = (some (before_call N now b).0, (before_call N now b).1)

  unfoldable pub note_failure : Float → Option (CircuitBreaker N) → Option (CircuitBreaker N)
  note_failure now none = none
  note_failure now (some b) = some (on_failure N now b)

  unfoldable pub note_success : Option (CircuitBreaker N) → Option (CircuitBreaker N)
  note_success none = none
  note_success (some b) = some (on_success N b)

  abbrev pub prepend :
      {World E T : Type 0} → Effect E T → Effect E T → Ended World E T → Ended World E T
  prepend first second o = record o { log = first ∷ second ∷ o.log }

  module _ {World E T : Type 0} (calls : Calls World E T) (config : RetryConfig) where
    -- From the failure to the end of the sleep: the delay, the notice to the caller, the sleep.
    unfoldable pub wait : ℕ → E → World → World × Float
    unfolding draws compute_delay
    wait attempt e w =
        let retry_after : Option Float = elim calls.get_retry_after [
          | none ↦ none
          | some f ↦ f e
        ] in
        let drawn = calls.uniform (neg config.jitter_ratio) config.jitter_ratio w in
        let w1 = if draws config retry_after then drawn.0 else w in
        let delay = compute_delay attempt config retry_after drawn.1 in
        let w2 : World = elim calls.on_retry [
          | none ↦ w1
          | some notify ↦ notify (suc attempt) delay e w1
        ] in
        (calls.sleep delay w2, delay)

    -- Whether a failure ends the loop.
    abbrev pub gives_up : ℕ → E → Bool
    gives_up attempt e = not (calls.is_retryable e) || (attempt == config.max_attempts - 1)

    -- The attempts that are left of `for attempt in range(max_attempts)`, from `attempt` on.
    unfoldable pub attempts : ℕ → ℕ → Option (CircuitBreaker N) → World → Option E → Ended World E T
    unfolding ask note_failure note_success wait
    attempts zero attempt b w last_exc = record {
      breaker = b;
      world = w;
      log = [];
      result = elim last_exc [ none ↦ err no_attempt | some e ↦ err (raised e) ];
    }
    attempts (suc left) attempt b w last_exc =
        let (asked, admitted) = ask (calls.monotonic w) b in
        let (w1, r) = calls.operation w in
        elim admitted [
          | err e ↦ record { breaker = asked; world = w; log = []; result = err (refused e) }
          | ok _ ↦ elim r [
            | ok v ↦ record {
              breaker = note_success asked;
              world = w1;
              log = called (ok v) ∷ [];
              result = ok v;
            }
            | err e ↦
                let noted = note_failure (calls.monotonic w1) asked in
                elim (gives_up attempt e) [
                  | true ↦ record {
                    breaker = noted;
                    world = w1;
                    log = called (err e) ∷ [];
                    result = err (raised e);
                  }
                  | false ↦
                      let (w2, delay) = wait attempt e w1 in
                      prepend (called (err e)) (slept delay)
                        (attempts left (suc attempt) noted w2 (some e))
                ]
          ]
        ]

    -- `retry_sync`; `retry_async` has the same body, with `await` at the operation and the sleep.
    unfoldable pub retry_sync : Option (CircuitBreaker N) → World → Ended World E T
    unfolding attempts
    retry_sync b w = attempts config.max_attempts 0 b w none
