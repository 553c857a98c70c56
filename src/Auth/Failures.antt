-- ===== src/Auth/Failures.antt =====
-- What a failed login leaves in the tables, `LoginThrottle.record_failure` of
-- backend/auth/throttle.py.
use k.Base.{
  ℕ, suc, ◌<◌, ◌≤◌, ltb, ◌≡◌, refl, ◌∙◌, ℤ, pos, ◌≤ℤ◌, ◌+ℤ◌, ◌-ℤ◌, true, false, Option, none, some,
  ok, ap, Bool-cases, inl, inr, arith, is_ok, is_ok-inv,
}
use k.Base.Numbers.{Numbers}
use k.Auth.Throttle.{
  LoginScope, Identity, same, LoginLockout, Tables, record_attempt, count_failures_since,
  clear_attempts, purge_attempts_before, get_lockout, upsert_lockout, purge_lockouts_before,
  next_count,
}
use k.Auth.Purges.{
  Recent, Outlives, count_in-purge, lockout_in-Outlives, purge_attempts-Recent,
  clear_attempts-Recent, record_attempt-Recent, upsert-Recent,
}
use k.Auth.Lockouts.{
  Own, count-clear_attempts, count-clear_attempts_other, count-record_attempt,
  count-record_attempt_other, count-upsert, get_lockout-record_attempt, get_lockout-clear_attempts,
  get_lockout-upsert, get_lockout-upsert_other,
}
use k.Auth.Service.{
  LoginThrottleConfig, timedelta, compute_lockout_seconds, max_failures, window_start,
  backoff_memory_start, record_identity,
}

next_count_positive : (o : Option LoginLockout) → ltb 0 (next_count o) ≡ true
next_count_positive none = refl
next_count_positive (some l) = ground arith

module _ (N : Numbers) (config : LoginThrottleConfig N) where
  -- A lockout has a length exactly from the first on, and it is never above the maximum.
  pub lockout_seconds_bounded :
      (n : ℕ)
      → (is_ok (compute_lockout_seconds N n config) ≡ ltb 0 n)
        × ((d : ℤ)
            → compute_lockout_seconds N n config ≡ ok d
            → d ≤ℤ pos config.max_lockout_seconds)
  unfolding compute_lockout_seconds
  lockout_seconds_bounded n = (ground arith, λ d e. ground arith)

  window_start-lt : (now : ℤ) → window_start N config now ≤ℤ now
  unfolding ◌-ℤ◌
  window_start-lt now = ground arith

  module _ (now : ℤ) where
    abbrev pub failures : Identity → Tables → ℕ
    failures who t = count_failures_since who (window_start N config now) t

    -- What one failure does to an identity that had a certain lockout, if any, and a certain
    -- number of failures in the window; the rival is a lockout that is inserted meanwhile.
    pub record Recorded (who : Identity) (rival lockout : Option LoginLockout) (failed : ℕ)
        (t : Tables) : Type 0 where
      pub locks :
          max_failures N config who.scope ≤ suc failed
          → (d : ℤ) × (l : LoginLockout) × (compute_lockout_seconds N (next_count lockout) config
              ≡ ok d)
            × (get_lockout who t ≡ some l)
            × (l.locked_until ≡ now +ℤ timedelta d)
            × (rival ≡ none → l.lockout_count ≡ next_count lockout)
            × (failures who t ≡ 0)
      pub counts :
          suc failed < max_failures N config who.scope
          → (get_lockout who t ≡ lockout) × (failures who t ≡ suc failed)

    pub record Untouched (other : Identity) (before after : Tables) : Type 0 where
      pub same_lockout : get_lockout other after ≡ get_lockout other before
      pub same_failures : failures other after ≡ failures other before

    -- A record stays true where the identity is left alone.
    pub Recorded-Untouched :
        (who : Identity) (rival lockout : Option LoginLockout) (failed : ℕ) (t1 t2 : Tables)
        → Recorded who rival lockout failed t1
        → Untouched who t1 t2
        → Recorded who rival lockout failed t2
    Recorded-Untouched who rival lockout failed t1 t2 r u = record {
      locks = λ reached.
          let (d, l, long, held, ends, count, none_left) = r.locks reached in
          (d, l, long, u.same_lockout ∙ held, ends, count, u.same_failures ∙ none_left);
      counts = λ below. (u.same_lockout ∙ (r.counts below).0, u.same_failures ∙ (r.counts below).1);
    }

    -- The tables once what is too old is deleted.
    abbrev pub purged : Tables → Tables
    purged t =
        purge_lockouts_before (backoff_memory_start N config now)
          (purge_attempts_before (window_start N config now) t)

    pub failures-purged : (who : Identity) (t : Tables) → failures who (purged t) ≡ failures who t
    unfolding count_failures_since purge_lockouts_before purge_attempts_before
    failures-purged who t = count_in-purge who (window_start N config now) t.attempts

    pub purged-Recent : (t : Tables) → Recent (window_start N config now) (purged t)
    unfolding purge_lockouts_before
    purged-Recent t = purge_attempts-Recent (window_start N config now) t

    pub get_lockout-purged :
        (who : Identity) (t : Tables)
        → Outlives
            (backoff_memory_start N config now)
            (get_lockout who t)
            (get_lockout who (purged t))
    unfolding get_lockout purge_lockouts_before purge_attempts_before
    get_lockout-purged who t =
        lockout_in-Outlives who (backoff_memory_start N config now) t.lockouts

    module _ (rivals : LoginScope → Option LoginLockout) where
      -- The call for one identity.
      pub record Call (who : Identity) (t t' : Tables) : Type 0 where
        pub returns : record_identity N config now rivals who t ≡ ok t'
        pub recorded : Recorded who (rivals who.scope) (get_lockout who t) (failures who t) t'
        pub recent : Recent (window_start N config now) t → Recent (window_start N config now) t'
        pub untouched : (other : Identity) → same other who ≡ false → Untouched other t t'

      counted :
          (who : Identity) (t : Tables)
          → ltb (failures who (record_attempt who now t)) (max_failures N config who.scope) ≡ true
          → Call who t (record_attempt who now t)
      unfolding record_identity
      counted who t below =
          let one_more =
            count-record_attempt who (window_start N config now) now t (window_start-lt now) in
          record {
            returns = rw below refl;
            recorded = record {
              locks = λ reached. absurd (ground (arith, one_more, below));
              counts = λ _. (get_lockout-record_attempt who who now t, one_more);
            };
            recent =
                record_attempt-Recent who (window_start N config now) now t (window_start-lt now);
            untouched = λ other differ. record {
              same_lockout = get_lockout-record_attempt who other now t;
              same_failures =
                  count-record_attempt_other who other differ (window_start N config now) now t;
            };
          }

      abbrev locked_tables : Identity → ℤ → Tables → Tables
      locked_tables who d t = clear_attempts who (
          upsert_lockout who (now +ℤ timedelta d) now (rivals who.scope) (record_attempt who now t))

      locked_out :
          (who : Identity) (t : Tables) (d : ℤ)
          → Own who (rivals who.scope)
          → ltb (failures who (record_attempt who now t)) (max_failures N config who.scope) ≡ false
          → compute_lockout_seconds N (next_count (get_lockout who t)) config ≡ ok d
          → Call who t (locked_tables who d t)
      unfolding record_identity
      locked_out who t d own reached long =
          let t1 = record_attempt who now t in
          let since = window_start N config now in
          let until = now +ℤ timedelta d in
          let t2 = upsert_lockout who until now (rivals who.scope) t1 in
          let (l, found, ends, count) =
            get_lockout-upsert who until now (rivals who.scope) t1 own in
          record {
            returns = rw (reached, get_lockout-record_attempt who who now t, long) refl;
            recorded = record {
              locks = λ _. (
                d,
                l,
                long,
                get_lockout-clear_attempts who who t2 ∙ found,
                ends,
                λ alone. count alone ∙ ap next_count (get_lockout-record_attempt who who now t),
                count-clear_attempts who since t2,
              );
              counts = λ below. absurd (
                  ground (
                    arith,
                    reached,
                    below,
                    count-record_attempt who since now t (window_start-lt now),
                  ));
            };
            recent = λ h. clear_attempts-Recent who since t2 (
                upsert-Recent who since until now (rivals who.scope) t1
                  (record_attempt-Recent who since now t (window_start-lt now) h));
            untouched = λ other differ. record {
              same_lockout =
                  get_lockout-clear_attempts who other t2
                  ∙ get_lockout-upsert_other who other differ until now (rivals who.scope) t1 own
                  ∙ get_lockout-record_attempt who other now t;
              same_failures =
                  count-clear_attempts_other who other differ since t2
                  ∙ count-upsert who other since until now (rivals who.scope) t1
                  ∙ count-record_attempt_other who other differ since now t;
            };
          }

      pub call :
          (who : Identity) (t : Tables) → Own who (rivals who.scope) → (t' : Tables) × Call who t t'
      call who t own =
          elim (Bool-cases
            (ltb (failures who (record_attempt who now t)) (max_failures N config who.scope))) [
              | inl below ↦ (record_attempt who now t, counted who t below)
              | inr reached ↦
                  let n = next_count (get_lockout who t) in
                  let (d, long) =
                    is_ok-inv (compute_lockout_seconds N n config)
                      ((lockout_seconds_bounded n).0 ∙ next_count_positive (get_lockout who t)) in
                  (locked_tables who d t, locked_out who t d own reached long)
            ]
