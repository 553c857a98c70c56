-- ===== src/Auth/Service.antt =====
-- The service of backend/auth/throttle.py: how long a lockout lasts, the check before a login, and
-- what a failed and a successful login record.
use k.Base.{
  ℕ, suc, ◌+◌, ◌-◌, ◌*◌, ◌/◌, ltb, ℤ, pos, negsuc, pos_part, neg_part, ◌+ℤ◌, ◌-ℤ◌, ltb_ℤ, min_ℤ,
  max_ℤ, Bool, true, false, not, Option, none, some, List, [], ◌∷◌, String, Result, ok, err, ◌>>=◌,
  if◌then◌else◌,
}
use k.Base.Numbers.{Numbers}
use k.Auth.Throttle.{
  LoginScope, username_scope, ip_scope, Identity, LoginLockout, Tables, record_attempt,
  count_failures_since, clear_attempts, purge_attempts_before, get_lockout, upsert_lockout,
  purge_lockouts_before, clear_lockout, next_count,
}

-- What Python does to the text that was typed: `s.casefold()`, `s.strip()`, `s[:255]` and `not s`.
pub record Texts : Type 0 where
  pub casefold : String → String
  pub strip : String → String
  pub first_255 : String → String
  pub is_empty : String → Bool

-- `timedelta(seconds=s)`
abbrev pub timedelta : ℤ → ℤ
timedelta s = pos (pos_part s * 1000000) -ℤ pos (neg_part s * 1000000)

-- `math.ceil` of a span in seconds; the source divides as floats.
abbrev pub ceil_seconds : ℤ → ℤ
ceil_seconds (pos n) = pos ((n + 999999) / 1000000)
ceil_seconds (negsuc n) = pos 0 -ℤ pos (suc n / 1000000)

-- `_remaining_seconds`
unfoldable pub remaining_seconds : ℤ → ℤ → ℤ
remaining_seconds locked_until now = max_ℤ (pos 1) (ceil_seconds (locked_until -ℤ now))

-- `ThrottleDecision`
pub record ThrottleDecision : Type 0 where
  pub locked : Bool
  pub retry_after_seconds : ℤ
  pub scope : Option LoginScope

-- The `ValueError` of `compute_lockout_seconds`.
pub data ThrottleError : Type 0 where
  lockout_count_below_one : ℕ → ThrottleError

-- `_identities`, with `normalize_username` and `normalize_ip`.
module _ (texts : Texts) where
  open texts use {casefold, strip, first_255, is_empty}

  unfoldable pub normalize_username : String → String
  normalize_username username = first_255 (strip (casefold username))

  unfoldable pub normalize_ip : Option String → String
  normalize_ip none = "unknown"
  normalize_ip (some ip) =
      let short = first_255 (strip ip) in
      if is_empty ip then "unknown" else if is_empty short then "unknown" else short

  unfoldable pub identities : String → Option String → List Identity
  identities username ip =
      record { scope = username_scope; identifier = normalize_username username }
      ∷ record { scope = ip_scope; identifier = normalize_ip ip }
      ∷ []

-- The bookkeeping of the tuple that `max` keeps: the first of two equal ones.
unfoldable pub longest : LoginScope × ℤ → List (LoginScope × ℤ) → LoginScope × ℤ
longest best [] = best
longest best (x ∷ xs) = longest (if ltb_ℤ best.1 x.1 then x else best) xs

-- The lockouts of the identities that are not over; `get_lockouts` reads them at once.
unfoldable pub active : List Identity → Tables → ℤ → List (LoginScope × ℤ)
active [] t now = []
active (who ∷ rest) t now =
    let others = active rest t now in
    elim (get_lockout who t) [
      | none ↦ others
      | some l ↦ if ltb_ℤ now l.locked_until then (who.scope, l.locked_until) ∷ others else others
    ]

module _ (N : Numbers) where
  open N use {Float, le, one, mul, div, pow, log, of_int, truncate, ratio}

  pub record LoginThrottleConfig : Type 0 where
    pub enabled : Bool
    pub max_failures_per_username : ℕ
    pub max_failures_per_ip : ℕ
    pub window_seconds : ℕ
    pub lockout_seconds : ℕ
    pub lockout_backoff_factor : Float
    pub max_lockout_seconds : ℕ

  unfoldable pub compute_lockout_seconds : ℕ → LoginThrottleConfig → Result ThrottleError ℤ
  compute_lockout_seconds lockout_count config =
      let lockout_seconds = pos config.lockout_seconds in
      let max_lockout_seconds = pos config.max_lockout_seconds in
      let factor = config.lockout_backoff_factor in
      let exponent = lockout_count - 1 in
      let exponent_at_ceiling =
        div (log (ratio max_lockout_seconds lockout_seconds)) (log factor) in
      let seconds = mul (of_int lockout_seconds) (pow factor exponent) in
      if ltb lockout_count 1
      then err (lockout_count_below_one lockout_count)
      else if le factor one
      then ok (min_ℤ lockout_seconds max_lockout_seconds)
      else if le exponent_at_ceiling (of_int (pos exponent))
      then ok max_lockout_seconds
      else ok (min_ℤ (truncate seconds) max_lockout_seconds)

  module _ (config : LoginThrottleConfig) where
    unfoldable pub max_failures : LoginScope → ℕ
    max_failures username_scope = config.max_failures_per_username
    max_failures ip_scope = config.max_failures_per_ip

    -- `check_lockout`
    unfoldable pub check_lockout : List Identity → ℤ → Tables → ThrottleDecision
    unfolding remaining_seconds
    check_lockout whos now t =
        if not config.enabled
        then record { locked = false; retry_after_seconds = pos 0; scope = none }
        else elim (active whos t now) [
          | [] ↦ record { locked = false; retry_after_seconds = pos 0; scope = none }
          | x ∷ xs ↦
              let (scope, locked_until) = longest x xs in
              record {
                locked = true;
                retry_after_seconds = remaining_seconds locked_until now;
                scope = some scope;
              }
        ]

    abbrev pub window_start : ℤ → ℤ
    window_start now = now -ℤ timedelta (pos config.window_seconds)

    -- `_backoff_memory_start`
    abbrev pub backoff_memory_start : ℤ → ℤ
    backoff_memory_start now =
        now -ℤ timedelta (max_ℤ (pos config.window_seconds) (pos config.max_lockout_seconds))

    -- One pass of the loop of `record_failure`.
    unfoldable pub record_identity :
        ℤ → (LoginScope → Option LoginLockout) → Identity → Tables → Result ThrottleError Tables
    unfolding max_failures
    record_identity now rivals who t =
        let t1 = record_attempt who now t in
        let previous = get_lockout who t1 in
        if ltb (count_failures_since who (window_start now) t1) (max_failures who.scope)
        then ok t1
        else (compute_lockout_seconds (next_count previous) config >>= λ duration. ok (
            clear_attempts who
              (upsert_lockout who (now +ℤ timedelta duration) now (rivals who.scope) t1)))

    unfoldable pub record_all :
        ℤ
        → (LoginScope → Option LoginLockout)
        → List Identity
        → Tables
        → Result ThrottleError Tables
    unfolding record_identity
    record_all now rivals [] t = ok t
    record_all now rivals (who ∷ whos) t =
        record_identity now rivals who t >>= λ t'. record_all now rivals whos t'

    -- `record_failure`
    unfoldable pub record_failure :
        List Identity
        → ℤ
        → (LoginScope → Option LoginLockout)
        → Tables
        → Result ThrottleError Tables
    unfolding record_all
    record_failure whos now rivals t =
        if not config.enabled
        then ok t
        else record_all now rivals whos (
            purge_lockouts_before (backoff_memory_start now)
              (purge_attempts_before (window_start now) t))

    unfoldable pub clear_all : List Identity → Tables → Tables
    clear_all [] t = t
    clear_all (who ∷ whos) t = clear_all whos (clear_lockout who (clear_attempts who t))

    -- `clear`
    unfoldable pub clear : List Identity → Tables → Tables
    unfolding clear_all
    clear whos t = if not config.enabled then t else clear_all whos t
