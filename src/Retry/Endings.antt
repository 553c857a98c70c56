-- ===== src/Retry/Endings.antt =====
-- What the retry loop of backend/core/retry.py returns or raises, from the outcomes of its calls.
use k.Base.{
  ℕ, zero, suc, ◌+◌, ◌-◌, ◌<◌, ==_iff, ◌≡◌, ◌≢◌, refl, sym, ap, ◌⊎◌, true, false, Option, none,
  some, List, [], ◌∷◌, ◌++◌, map, length, All, Result, ok, err, arith,
}
use k.Base.Numbers.{Numbers}
use k.Retry.Breaker.{CircuitBreaker}
use k.Retry.Loop.{
  RetryConfig, Calls, Failure, raised, refused, no_attempt, Ended, ask, note_failure, gives_up,
  attempts, retry_sync,
}
use k.Retry.Attempts.{outcomes, refusing, succeeding, raising, retrying, round}

module _ (N : Numbers) {World E T : Type 0} (calls : Calls N World E T)
    (config : RetryConfig N) where
  abbrev Retryable : List E → Type 0
  Retryable = All (λ e. calls.is_retryable e ≡ true)

  abbrev pub failures : List E → List (Result E T)
  failures = map {A = E} {B = Result E T} err

  -- Why a loop that began with the given attempt ended as it did, by the outcomes of the calls.
  abbrev pub Because : ℕ → List (Result E T) → Result (Failure E) T → Type 0
  Because attempt rs (ok v) =
      (fails : List E) × All (λ e. calls.is_retryable e ≡ true) fails
      × (rs ≡ failures fails ++ (ok v ∷ []))
  Because attempt rs (err (raised e)) =
      (fails : List E) × All (λ e. calls.is_retryable e ≡ true) fails
      × (rs ≡ failures fails ++ (err e ∷ []))
      × ((calls.is_retryable e ≡ false) ⊎ (length fails + attempt + 1 ≡ config.max_attempts))
  Because attempt rs (err (refused why)) =
      (fails : List E) × All (λ e. calls.is_retryable e ≡ true) fails × (rs ≡ failures fails)
  Because attempt rs (err no_attempt) = config.max_attempts ≡ 0

  -- One more failure before it.
  Because-cons :
      (attempt : ℕ) (e : E) (rs : List (Result E T)) (r : Result (Failure E) T)
      → calls.is_retryable e ≡ true
      → Because (suc attempt) rs r
      → Because attempt (err e ∷ rs) r
  Because-cons attempt e rs (ok v) h (fails, all, same) =
      (e ∷ fails, (h, all), ap (λ l. err e ∷ l) same)
  Because-cons attempt e rs (err (raised x)) h (fails, all, same, why) =
      (e ∷ fails, (h, all), ap (λ l. err e ∷ l) same, ground arith)
  Because-cons attempt e rs (err (refused x)) h (fails, all, same) =
      (e ∷ fails, (h, all), ap (λ l. err e ∷ l) same)
  Because-cons attempt e rs (err no_attempt) h none_left = none_left

  over_lem :
      (attempt : ℕ) (e : E)
      → attempt < config.max_attempts
      → gives_up N calls config attempt e ≡ true
      → (calls.is_retryable e ≡ false) ⊎ (0 + attempt + 1 ≡ config.max_attempts)
  over_lem attempt e h over = ground (arith, ==_iff attempt (config.max_attempts - 1))

  again_lem :
      (attempt : ℕ) (e : E)
      → gives_up N calls config attempt e ≡ false
      → (calls.is_retryable e ≡ true) × (attempt ≢ config.max_attempts - 1)
  again_lem attempt e again = ground (arith, ==_iff attempt (config.max_attempts - 1))

  abbrev Explained : ℕ → Ended N World E T → Type 0
  Explained attempt o = Because attempt (outcomes o.log) o.result

  round-Because :
      (left attempt : ℕ) (b : Option (CircuitBreaker N)) (w : World) (last_exc : Option E)
      → suc left + attempt ≡ config.max_attempts
      → ((b' : Option (CircuitBreaker N)) (w' : World) (e : E)
          → attempt ≢ config.max_attempts - 1
          → Explained (suc attempt) (attempts N calls config left (suc attempt) b' w' (some e)))
      → Explained attempt (attempts N calls config (suc left) attempt b w last_exc)
  round-Because left attempt b w last_exc h rest =
      elim (round N calls config left attempt b w last_exc) [
        | refusing e denied same ↦ rw same ([], tt, refl)
        | succeeding v same ↦ rw same ([], tt, refl)
        | raising e noted over same ↦
            rw same ([], tt, refl, over_lem attempt e (omega (arith, h)) over)
        | retrying e t w2 delay again same ↦ rw same (
            let noted = note_failure N t (ask N (calls.monotonic w) b).0 in
            let o = attempts N calls config left (suc attempt) noted w2 (some e) in
            let (retryable, more) = again_lem attempt e again in
            Because-cons attempt e (outcomes o.log) o.result retryable (rest noted w2 e more))
      ]

  attempts-Because :
      (left attempt : ℕ) (b : Option (CircuitBreaker N)) (w : World) (last_exc : Option E)
      → suc left + attempt ≡ config.max_attempts
      → Explained attempt (attempts N calls config (suc left) attempt b w last_exc)
  attempts-Because zero attempt b w last_exc h =
      round-Because zero attempt b w last_exc h (λ b' w' e more. absurd (more (omega (arith, h))))
  attempts-Because (suc left) attempt b w last_exc h =
      round-Because (suc left) attempt b w last_exc h
        (λ b' w' e more. attempts-Because left (suc attempt) b' w' (some e) (omega (arith, h)))

  loop-Explained :
      (n : ℕ) (b : Option (CircuitBreaker N)) (w : World)
      → n ≡ config.max_attempts
      → Explained 0 (attempts N calls config n 0 b w none)
  unfolding attempts
  loop-Explained zero b w h = sym h
  loop-Explained (suc n) b w h = attempts-Because n 0 b w none (omega (arith, h))

  -- How a retry ends is explained by the outcomes of its calls, in their order: failures that may
  -- be retried, and after them the value that it returns; or the failure that it raises, which may
  -- not be retried or was the last of `max_attempts` attempts; or nothing, where the breaker
  -- refused the next call. It fails its assert only without an attempt to make.
  pub retry_explained :
      (b : Option (CircuitBreaker N)) (w : World)
      → Because 0
          (outcomes (retry_sync N calls config b w).log)
          (retry_sync N calls config b w).result
  unfolding retry_sync
  retry_explained b w = loop-Explained config.max_attempts b w refl
