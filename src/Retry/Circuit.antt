-- ===== src/Retry/Circuit.antt =====
-- What the circuit breaker of backend/core/retry.py keeps over any sequence of calls.
use k.Base.{ℕ, suc, ◌<◌, ◌≤◌, ◌≡◌, refl, ◌↔◌, ◌⊎◌, ◌≢◌, ◌∙◌, inl, none, List, [], ◌∷◌, err, arith}
use k.Base.Numbers.{Numbers}
use k.Retry.Breaker.{
  closed, never_opened, CircuitBreakerConfig, CircuitBreaker, new_breaker, before_call, on_success,
  on_failure,
}

module _ (N : Numbers) where
  open N use {Float, lt, sub}

  -- What happens to a breaker, with the time of the clock.
  pub data Event : Type 0 where
    asked : Float → Event
    failed : Float → Event
    succeeded : Event

  abbrev pub step : Event → CircuitBreaker N → CircuitBreaker N
  step (asked now) b = (before_call N now b).0
  step (failed now) b = on_failure N now b
  step succeeded b = on_success N b

  -- The breaker after the events, the last one first.
  abbrev pub after : CircuitBreakerConfig N → List Event → CircuitBreaker N
  after config [] = new_breaker N config
  after config (e ∷ es) = step e (after config es)

  -- How often it has failed since the last success.
  abbrev pub failures_since_success : List Event → ℕ
  failures_since_success [] = 0
  failures_since_success (asked now ∷ es) = failures_since_success es
  failures_since_success (failed now ∷ es) = suc (failures_since_success es)
  failures_since_success (succeeded ∷ es) = 0

  pub record Consistent (b : CircuitBreaker N) : Type 0 where
    pub closed_below : b.state ≡ closed → b.consecutive_failures < b.config.failure_threshold
    pub reached : (b.state ≡ closed) ⊎ (b.config.failure_threshold ≤ b.consecutive_failures)
    pub dated : b.opened_at ≡ none → b.state ≡ closed

  pub step-Consistent :
      (e : Event) (b : CircuitBreaker N)
      → 0 < b.config.failure_threshold
      → Consistent b
      → Consistent (step e b)
  unfolding before_call on_failure on_success
  step-Consistent (asked now) b pos_threshold c = ground arith
  step-Consistent (failed now) b pos_threshold c = ground arith
  step-Consistent succeeded b pos_threshold c = ground arith

  pub step_config : (e : Event) (b : CircuitBreaker N) → (step e b).config ≡ b.config
  unfolding before_call on_failure on_success
  step_config (asked now) b = ground arith
  step_config (failed now) b = ground arith
  step_config succeeded b = ground arith

  step_failures :
      (e : Event) (es : List Event) (b : CircuitBreaker N)
      → b.consecutive_failures ≡ failures_since_success es
      → (step e b).consecutive_failures ≡ failures_since_success (e ∷ es)
  unfolding before_call on_failure on_success
  step_failures (asked now) es b h = ground arith
  step_failures (failed now) es b h = ground arith
  step_failures succeeded es b h = refl

  after-Consistent :
      (config : CircuitBreakerConfig N) (es : List Event)
      → 0 < config.failure_threshold
      → Consistent (after config es)
        × ((after config es).config ≡ config)
        × ((after config es).consecutive_failures ≡ failures_since_success es)
  unfolding new_breaker before_call on_failure on_success
  after-Consistent config [] h =
      (record { closed_below = λ _. h; reached = inl refl; dated = λ _. refl }, refl, refl)
  after-Consistent config (e ∷ es) h =
      let (c, same, count) = after-Consistent config es h in
      (
        step-Consistent e (after config es) (rw same h) c,
        step_config e (after config es) ∙ same,
        step_failures e es (after config es) count,
      )

  -- However a breaker with a positive threshold has been used, it is closed exactly while the
  -- failures since its last success are fewer than the threshold; it counts exactly those, and
  -- `before_call` never fails its assert.
  pub closed_iff :
      (config : CircuitBreakerConfig N) (es : List Event) (now : Float)
      → 0 < config.failure_threshold
      → ((after config es).state ≡ closed ↔ failures_since_success es < config.failure_threshold)
        × ((after config es).consecutive_failures ≡ failures_since_success es)
        × ((before_call N now (after config es)).1 ≢ err never_opened)
  unfolding before_call
  closed_iff config es now h =
      let (c, same, count) = after-Consistent config es h in
      ground (arith, c.closed_below, c.reached, c.dated, same, count)
