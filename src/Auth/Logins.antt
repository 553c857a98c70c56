-- ===== src/Auth/Logins.antt =====
-- A failed login as a whole, `LoginThrottle.record_failure` of backend/auth/throttle.py.
use k.Base.{
  ◌≡◌, refl, ap, ◌∙◌, ℤ, true, false, Option, List, [], ◌∷◌, String, ok, arith, if_false, not, All,
  any,
}
use k.Base.Numbers.{Numbers}
use k.Auth.Throttle.{
  LoginScope, username_scope, ip_scope, Identity, same, LoginLockout, Tables, get_lockout,
}
use k.Auth.Lockouts.{Own}
use k.Auth.Purges.{Recent, Outlives}
use k.Auth.Failures.{
  failures, Recorded, Untouched, call, Recorded-Untouched, purged, get_lockout-purged,
  failures-purged, purged-Recent,
}
use k.Auth.Service.{
  Texts, normalize_username, normalize_ip, identities, LoginThrottleConfig, window_start,
  backoff_memory_start, record_all, record_failure,
}

module _ (N : Numbers) (config : LoginThrottleConfig N) (now : ℤ)
    (rivals : LoginScope → Option LoginLockout) where
  both-Recorded :
      (a b : Identity) (p : Tables)
      → same a b ≡ false
      → same b a ≡ false
      → Own a (rivals a.scope)
      → Own b (rivals b.scope)
      → (t' : Tables) × (record_all N config now rivals (a ∷ b ∷ []) p ≡ ok t')
        × Recorded N config now a (rivals a.scope) (get_lockout a p) (failures N config now a p) t'
        × Recorded N config now b (rivals b.scope) (get_lockout b p) (failures N config now b p) t'
        × (Recent (window_start N config now) p → Recent (window_start N config now) t')
        × ((other : Identity)
            → same other a ≡ false
            → same other b ≡ false
            → Untouched N config now other p t')
  unfolding record_all
  both-Recorded a b p ab ba own_a own_b =
      let (t1, at_a) = call N config now rivals a p own_a in
      let (t2, at_b) = call N config now rivals b t1 own_b in
      let b_before = at_a.untouched b ba in
      (
        t2,
        rw (at_a.returns, at_b.returns) refl,
        Recorded-Untouched N config now a (rivals a.scope) (get_lockout a p)
            (failures N config now a p) t1 t2 at_a.recorded (at_b.untouched a ab),
        rw (b_before.same_lockout, b_before.same_failures) at at_b.recorded,
        λ h. at_b.recent (at_a.recent h),
        λ other oa ob. record {
          same_lockout =
              (at_b.untouched other ob).same_lockout ∙ (at_a.untouched other oa).same_lockout;
          same_failures =
              (at_b.untouched other ob).same_failures ∙ (at_a.untouched other oa).same_failures;
        },
      )

  record_failure_on :
      (whos : List Identity) (t : Tables)
      → config.enabled ≡ true
      → record_failure N config whos now rivals t
        ≡ record_all N config now rivals whos (purged N config now t)
  unfolding record_failure
  record_failure_on whos t on =
      if_false (ok t) (record_all N config now rivals whos (purged N config now t))
        (not config.enabled) (ap not on)

  -- Where throttling is enabled, a failed login is always recorded, by the user name and by the
  -- address: each of the two has one more failure in the window than before, or, where that reaches
  -- its maximum, a lockout for the length that its number of lockouts gives, which is one more than
  -- before if no other transaction inserts one meanwhile, and no failure left. Before
  -- that, the lockouts are deleted that ended before the memory of the backoff begins, and no
  -- other that is found; every other identity keeps the lockout that it then has, and its failures.
  -- No attempt from before the window is left. Rows that another transaction inserts meanwhile are rows of
  -- these identities.
  pub record_failure_lem :
      (texts : Texts) (username : String) (ip : Option String) (t : Tables)
      → config.enabled ≡ true
      → All (λ who. Own who (rivals who.scope)) (identities texts username ip)
      → (t' : Tables) × (record_failure N config (identities texts username ip) now rivals t
          ≡ ok t')
        × All
            (λ who.
              Recorded N config now who
                (rivals who.scope)
                (get_lockout who (purged N config now t))
                (failures N config now who t)
                t')
            (identities texts username ip)
        × ((other : Identity)
            → any (same other) (identities texts username ip) ≡ false
            → (get_lockout other t' ≡ get_lockout other (purged N config now t))
              × (failures N config now other t' ≡ failures N config now other t))
        × Recent (window_start N config now) t'
        × ((who : Identity)
            → Outlives
                (backoff_memory_start N config now)
                (get_lockout who t)
                (get_lockout who (purged N config now t)))
  unfolding identities
  record_failure_lem texts username ip t on own =
      let a : Identity = record {
        scope = username_scope;
        identifier = normalize_username texts username;
      } in
      let b : Identity = record { scope = ip_scope; identifier = normalize_ip texts ip } in
      let (t', done, at_a, at_b, recent, others) =
        both-Recorded a b (purged N config now t) refl refl own.0 own.1.0 in
      (
        t',
        record_failure_on (a ∷ b ∷ []) t on ∙ done,
        (
          rw (failures-purged N config now a t) at at_a,
          (rw (failures-purged N config now b t) at at_b, tt),
        ),
        λ other differs.
            let same = others other (ground (arith, differs)) (ground (arith, differs)) in
            (same.same_lockout, same.same_failures ∙ failures-purged N config now other t),
        recent (purged-Recent N config now t),
        λ who. get_lockout-purged N config now who t,
      )
