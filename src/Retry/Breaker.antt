-- ===== src/Retry/Breaker.antt =====
-- The circuit breaker of backend/core/retry.py: a state machine whose clock is an argument.
use k.Base.{
  ℕ, suc, leb, Option, none, some, Result, ok, err, Bool, true, false, ◌||◌, if◌then◌else◌,
}
use k.Base.Numbers.{Numbers}

-- `_CircuitState`
pub data CircuitState : Type 0 where
  closed opened half_open : CircuitState

-- `is` on members of the enum.
abbrev pub is_open : CircuitState → Bool
is_open opened = true
is_open _ = false

abbrev pub is_half_open : CircuitState → Bool
is_half_open half_open = true
is_half_open _ = false

-- What `before_call` may raise.
pub data BreakerError : Type 0 where
  circuit_breaker_open_error : ℕ → BreakerError
  never_opened : BreakerError

module _ (N : Numbers) where
  open N use {Float, lt, sub}

  pub record CircuitBreakerConfig : Type 0 where
    pub failure_threshold : ℕ
    pub reset_timeout_seconds : Float

  pub record CircuitBreaker : Type 0 where
    pub config : CircuitBreakerConfig
    pub state : CircuitState
    pub consecutive_failures : ℕ
    pub opened_at : Option Float

  unfoldable pub new_breaker : CircuitBreakerConfig → CircuitBreaker
  new_breaker config = record {
    config = config;
    state = closed;
    consecutive_failures = 0;
    opened_at = none;
  }

  -- `before_call`, at the time `now`: the breaker afterwards, and what the call raised.
  unfoldable pub before_call :
      Float → CircuitBreaker → CircuitBreaker × Result BreakerError (Unit {0})
  before_call now b =
      if is_open b.state
      then elim b.opened_at [
        | none ↦ (b, err never_opened)
        | some since ↦
            if lt (sub now since) b.config.reset_timeout_seconds
            then (b, err (circuit_breaker_open_error b.consecutive_failures))
            else (record b { state = half_open }, ok tt)
      ]
      else (b, ok tt)

  unfoldable pub on_success : CircuitBreaker → CircuitBreaker
  on_success b = record b { state = closed; consecutive_failures = 0; opened_at = none }

  unfoldable pub on_failure : Float → CircuitBreaker → CircuitBreaker
  on_failure now b =
      let failures = suc b.consecutive_failures in
      if is_half_open b.state || leb b.config.failure_threshold failures
      then record b { state = opened; consecutive_failures = failures; opened_at = some now }
      else record b { consecutive_failures = failures }
