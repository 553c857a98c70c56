-- ===== src/Tests/Auth.antt =====
-- A login that fails for the third time, with one lockout of its address behind it.
use k.Base.{ℕ, ◌≡◌, refl, pos, ◌-ℤ◌, true, false, Option, none, some, List, [], ◌∷◌, All, any, ok}
use k.Auth.Throttle.{
  LoginScope, username_scope, ip_scope, Identity, LoginAttempt, LoginLockout, Tables, same,
  get_lockout, lockout_in,
}
use k.Auth.Service.{
  window_start, backoff_memory_start, Texts, identities, LoginThrottleConfig, active, longest,
  remaining_seconds, check_lockout, record_failure,
}
use k.Auth.Failures.{failures, Recorded, purged}
use k.Auth.Purges.{Recent, Outlives}
use k.Auth.Logins.{record_failure_lem}
use k.Tests.Fixed.{fixed}

abbrev throttle : LoginThrottleConfig fixed
throttle = record {
  enabled = true;
  max_failures_per_username = 3;
  max_failures_per_ip = 10;
  window_seconds = 900;
  lockout_seconds = 60;
  lockout_backoff_factor = pos 200;
  max_lockout_seconds = 3600;
}

abbrev texts : Texts
texts = record { casefold = λ s. s; strip = λ s. s; first_255 = λ s. s; is_empty = λ s. false }

abbrev admin : Identity
admin = record { scope = username_scope; identifier = "admin" }

abbrev address : Identity
address = record { scope = ip_scope; identifier = "10.0.0.1" }

abbrev attempt : ℕ → LoginAttempt
attempt t = record { who = admin; timestamp = pos t }

abbrev held : LoginLockout
held = record {
  who = address;
  locked_until = pos 950000000;
  lockout_count = 1;
  created_at = pos 0;
  updated_at = pos 0;
}

abbrev tables : Tables
tables = record { attempts = attempt 905000000 ∷ attempt 901000000 ∷ []; lockouts = held ∷ [] }

abbrev no_rivals : LoginScope → Option LoginLockout
no_rivals scope = none

abbrev whos : List Identity
whos = identities texts "admin" (some "10.0.0.1")

record_failure_lem_example :
    (t' : Tables) × (record_failure fixed throttle whos (pos 910000000) no_rivals tables ≡ ok t')
    × All
        (λ who.
          Recorded fixed throttle
            (pos 910000000)
            who
            none
            (get_lockout who (purged fixed throttle (pos 910000000) tables))
            (failures fixed throttle (pos 910000000) who tables)
            t')
        whos
    × ((other : Identity)
        → any (same other) whos ≡ false
        → (get_lockout other t' ≡ get_lockout other (purged fixed throttle (pos 910000000) tables))
          × (failures fixed throttle (pos 910000000) other t'
              ≡ failures fixed throttle (pos 910000000) other tables))
    × Recent (window_start fixed throttle (pos 910000000)) t'
    × ((who : Identity)
        → Outlives
            (backoff_memory_start fixed throttle (pos 910000000))
            (get_lockout who tables)
            (get_lockout who (purged fixed throttle (pos 910000000) tables)))
unfolding identities
record_failure_lem_example =
    record_failure_lem fixed throttle (pos 910000000) no_rivals texts "admin" (some "10.0.0.1")
      tables refl (tt, (tt, tt))

locks_the_address :
    (check_lockout fixed throttle (address ∷ []) (pos 910000000) tables).retry_after_seconds
    ≡ pos 40
unfolding check_lockout active get_lockout lockout_in longest remaining_seconds ◌-ℤ◌
locks_the_address = refl
