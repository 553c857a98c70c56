-- ===== src/Auth/Decisions.antt =====
-- The check before a login and the reset after one, `LoginThrottle.check_lockout` and `clear` of
-- backend/auth/throttle.py.
use k.Base.{
  ◌≡◌, refl, ap, sym, ◌∙◌, ◌↔◌, ℤ, pos, ◌≤ℤ◌, ◌<ℤ◌, ◌+ℤ◌, String, if_false, not, true, false,
  Option, none, some, List, [], ◌∷◌, All, Member, List-cases, All-map, All-Member, any, inl, inr,
  arith,
}
use mathlib.Core.Path.{subst}
use k.Base.Numbers.{Numbers}
use k.Auth.Throttle.{
  LoginScope, username_scope, ip_scope, Identity, same, LoginLockout, Tables, count_failures_since,
  clear_attempts, get_lockout, clear_lockout,
}
use k.Auth.Lockouts.{
  count-clear_attempts, count-clear_attempts_other, get_lockout-clear, get_lockout-clear_other,
  get_lockout-clear_attempts, count-clear_lockout,
}
use k.Auth.Active.{
  Last, Held, Over, Before, longest-Last, remaining_seconds_covers, active_complete, active_empty,
  active_held, active_some,
}
use k.Auth.Service.{
  Texts, identities, normalize_username, normalize_ip, LoginThrottleConfig, timedelta,
  remaining_seconds, longest, active, check_lockout, clear,
}

module _ (N : Numbers) (config : LoginThrottleConfig N) where
  check_lockout-none :
      (whos : List Identity) (now : ℤ) (t : Tables)
      → config.enabled ≡ true
      → active whos t now ≡ []
      → (check_lockout N config whos now t).locked ≡ false
  unfolding check_lockout
  check_lockout-none whos now t on none_active = ground arith

  check_lockout-some :
      (whos : List Identity) (now : ℤ) (t : Tables) {x : LoginScope × ℤ}
      {xs : List (LoginScope × ℤ)}
      → config.enabled ≡ true
      → active whos t now ≡ x ∷ xs
      → ((check_lockout N config whos now t).locked ≡ true)
        × ((check_lockout N config whos now t).retry_after_seconds
            ≡ remaining_seconds (longest x xs).1 now)
  unfolding check_lockout
  check_lockout-some whos now t on some_active = ground arith

  -- The answer of the check before a login, where throttling is enabled, is `locked` exactly when
  -- one of the identities has a lockout that is not over. The wait that it then asks for is a
  -- second at least, and after it none of these lockouts is left.
  pub check_lockout_lem :
      (whos : List Identity) (now : ℤ) (t : Tables)
      → config.enabled ≡ true
      → ((check_lockout N config whos now t).locked ≡ true
          ↔ ((who : Identity) × Member who whos × Held who now t))
        × ((check_lockout N config whos now t).locked ≡ true
            → (pos 1 ≤ℤ (check_lockout N config whos now t).retry_after_seconds)
              × All
                  (λ who.
                    (l : LoginLockout)
                    → get_lockout who t ≡ some l
                    → now <ℤ l.locked_until
                    → l.locked_until
                      ≤ℤ now +ℤ timedelta (check_lockout N config whos now t).retry_after_seconds)
                  whos)
  check_lockout_lem whos now t on = elim (List-cases (active whos t now)) [
    | inl none_active ↦
        let answer = check_lockout-none whos now t on none_active in
        (
          (
            λ locked. absurd (ground (arith, answer, locked)),
            λ h.
                let (who, listed, lock) = h in
                let (l, present, going) = lock in
                let over =
                  All-Member (Over now t) who whos (active_empty whos t now none_active) listed in
                absurd (omega (arith, over l present, going)),
          ),
          λ locked. absurd (ground (arith, answer, locked)),
        )
    | inr (x, xs, some_active) ↦
        let (answer, wait) = check_lockout-some whos now t {x = x} {xs = xs} on some_active in
        let last = longest x xs in
        let ordered = longest-Last x xs in
        let held = subst (All (λ y. now <ℤ y.1)) some_active (active_held whos t now) in
        let (long_enough, a_second) =
          remaining_seconds_covers last.1 now (omega (arith, ordered.0, held.0)) in
        (
          (λ _. active_some whos t now {x = x} {xs = xs} some_active, λ _. answer),
          λ _. (
            rw wait a_second,
            All-map {P = Before last.1 now t}
                {Q = Before
                  (now +ℤ timedelta (check_lockout N config whos now t).retry_after_seconds) now t}
                whos
                (λ who before l present going.
                  rw wait (omega (arith, before l present going, long_enough)))
                (active_complete whos t now last (subst (Last last) (sym some_active) ordered)),
          ),
        )
  ]

  -- What an identity has once it was cleared, and what it has where another was.
  abbrev pub Forgotten : ℤ → Identity → Tables → Type 0
  Forgotten since who t = (get_lockout who t ≡ none) × (count_failures_since who since t ≡ 0)

  abbrev pub Kept : ℤ → Identity → Tables → Tables → Type 0
  Kept since other before after =
      (get_lockout other after ≡ get_lockout other before)
      × (count_failures_since other since after ≡ count_failures_since other since before)

  abbrev cleared : Identity → Tables → Tables
  cleared who t = clear_lockout who (clear_attempts who t)

  cleared-Forgotten :
      (who : Identity) (since : ℤ) (t : Tables) → Forgotten since who (cleared who t)
  cleared-Forgotten who since t = (
    get_lockout-clear who (clear_attempts who t),
    count-clear_lockout who who since (clear_attempts who t) ∙ count-clear_attempts who since t,
  )

  cleared-Kept :
      (who other : Identity) (since : ℤ) (t : Tables)
      → same other who ≡ false
      → Kept since other t (cleared who t)
  cleared-Kept who other since t differ =
      let t1 = clear_attempts who t in
      (
        get_lockout-clear_other who other differ t1 ∙ get_lockout-clear_attempts who other t,
        count-clear_lockout who other since t1
            ∙ count-clear_attempts_other who other differ since t,
      )

  clear_on :
      (a b : Identity) (t : Tables)
      → config.enabled ≡ true
      → clear N config (a ∷ b ∷ []) t ≡ cleared b (cleared a t)
  unfolding clear
  clear_on a b t on = if_false t (cleared b (cleared a t)) (not config.enabled) (ap not on)

  both_cleared :
      (a b : Identity) (since : ℤ) (t : Tables)
      → same a b ≡ false
      → Forgotten since a (cleared b (cleared a t))
        × Forgotten since b (cleared b (cleared a t))
        × ((other : Identity)
            → same other a ≡ false
            → same other b ≡ false
            → Kept since other t (cleared b (cleared a t)))
  both_cleared a b since t differ =
      let t1 = cleared a t in
      let at_a = cleared-Forgotten a since t in
      let still = cleared-Kept b a since t1 differ in
      (
        (still.0 ∙ at_a.0, still.1 ∙ at_a.1),
        cleared-Forgotten b since t1,
        λ other oa ob.
            let first = cleared-Kept a other since t oa in
            let second = cleared-Kept b other since t1 ob in
            (second.0 ∙ first.0, second.1 ∙ first.1),
      )

  -- After a login, where throttling is enabled, neither the user name nor the address has a
  -- lockout or a failure in any window, so that nothing of their past counts; every other identity
  -- keeps what it had.
  pub clear_forgets :
      (texts : Texts) (username : String) (ip : Option String) (since : ℤ) (t : Tables)
      → config.enabled ≡ true
      → All
          (λ who. Forgotten since who (clear N config (identities texts username ip) t))
          (identities texts username ip)
        × ((other : Identity)
            → any (same other) (identities texts username ip) ≡ false
            → Kept since other t (clear N config (identities texts username ip) t))
  unfolding identities
  clear_forgets texts username ip since t on =
      let a : Identity = record {
        scope = username_scope;
        identifier = normalize_username texts username;
      } in
      let b : Identity = record { scope = ip_scope; identifier = normalize_ip texts ip } in
      let (at_a, at_b, others) = both_cleared a b since t refl in
      let same_tables = sym (clear_on a b t on) in
      (
        subst (λ t'. All (λ who. Forgotten since who t') (a ∷ b ∷ [])) same_tables
            (at_a, (at_b, tt)),
        λ other differs.
            subst (λ t'. Kept since other t t') same_tables
              (others other (ground (arith, differs)) (ground (arith, differs))),
      )
