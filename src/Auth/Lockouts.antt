-- ===== src/Auth/Lockouts.antt =====
-- The tables of backend/storage/repositories/auth.py, row by row of one identity and of the others.
use k.Base.{
  suc, ◌≡◌, refl, ◌↔◌, ℤ, ◌≤ℤ◌, true, false, Option, none, some, List, [], ◌∷◌, str_eq_iff, arith,
  Option-cases, inl, inr,
}
use k.Auth.Throttle.{
  Identity, same, LoginAttempt, LoginLockout, Tables, delete, record_attempt, count_in,
  count_failures_since, clear_attempts, lockout_in, get_lockout, renewed, renew, upsert_lockout,
  clear_lockout, next_count,
}

pub same_iff : (a b : Identity) → (same a b ≡ true) ↔ (a ≡ b)
same_iff a b = ground (arith, str_eq_iff a.identifier b.identifier)

-- Rows of two different identities are different rows.
same_other :
    (a who other : Identity) → same other who ≡ false → same a who ≡ true → same a other ≡ false
same_other a who other h e = ground (arith, same_iff a who, same_iff a other, same_iff other who)

-- A row of the identity, if there is one.
abbrev pub Own : Identity → Option LoginLockout → Type 0
Own who none = Unit
Own who (some row) = row.who ≡ who

module _ (who : Identity) where
  count_in-delete :
      (since : ℤ) (rows : List LoginAttempt)
      → count_in who since (delete (λ a. same a.who who) rows) ≡ 0
  unfolding count_in
  count_in-delete since [] = refl
  count_in-delete since (a ∷ rows) = ground (arith, count_in-delete since rows)

  lockout_in-delete :
      (rows : List LoginLockout) → lockout_in who (delete (λ l. same l.who who) rows) ≡ none
  unfolding lockout_in
  lockout_in-delete [] = refl
  lockout_in-delete (l ∷ rows) = ground (arith, lockout_in-delete rows)

  lockout_in-renew :
      (locked_until now : ℤ) (rows : List LoginLockout) {l : LoginLockout}
      → lockout_in who rows ≡ some l
      → lockout_in who (renew who locked_until now rows) ≡ some (renewed locked_until now l)
  unfolding lockout_in renew renewed
  lockout_in-renew locked_until now [] e = ground arith
  lockout_in-renew locked_until now (r ∷ rows) {l = l} e =
      ground (arith, lockout_in-renew locked_until now rows {l = l})

  module _ (other : Identity) (differ : same other who ≡ false) where
    count_in-delete_other :
        (since : ℤ) (rows : List LoginAttempt)
        → count_in other since (delete (λ a. same a.who who) rows) ≡ count_in other since rows
    unfolding count_in
    count_in-delete_other since [] = refl
    count_in-delete_other since (a ∷ rows) =
        ground (arith, same_other a.who who other differ, count_in-delete_other since rows)

    lockout_in-delete_other :
        (rows : List LoginLockout)
        → lockout_in other (delete (λ l. same l.who who) rows) ≡ lockout_in other rows
    unfolding lockout_in
    lockout_in-delete_other [] = refl
    lockout_in-delete_other (l ∷ rows) =
        ground (arith, same_other l.who who other differ, lockout_in-delete_other rows)

    lockout_in-renew_other :
        (locked_until now : ℤ) (rows : List LoginLockout)
        → lockout_in other (renew who locked_until now rows) ≡ lockout_in other rows
    unfolding lockout_in renew renewed
    lockout_in-renew_other locked_until now [] = refl
    lockout_in-renew_other locked_until now (l ∷ rows) =
        ground
          (arith, same_other l.who who other differ, lockout_in-renew_other locked_until now rows)

    -- Nothing that is done for one identity shows at another.
    pub count-clear_attempts_other :
        (since : ℤ) (t : Tables)
        → count_failures_since other since (clear_attempts who t)
          ≡ count_failures_since other since t
    unfolding count_failures_since clear_attempts
    count-clear_attempts_other since t = count_in-delete_other since t.attempts

    pub count-record_attempt_other :
        (since now : ℤ) (t : Tables)
        → count_failures_since other since (record_attempt who now t)
          ≡ count_failures_since other since t
    unfolding count_failures_since record_attempt count_in
    count-record_attempt_other since now t =
        ground (arith, differ, same_iff who other, same_iff other who)

    pub get_lockout-clear_other :
        (t : Tables) → get_lockout other (clear_lockout who t) ≡ get_lockout other t
    unfolding get_lockout clear_lockout
    get_lockout-clear_other t = lockout_in-delete_other t.lockouts

    pub get_lockout-upsert_other :
        (locked_until now : ℤ) (rival : Option LoginLockout) (t : Tables)
        → Own who rival
        → get_lockout other (upsert_lockout who locked_until now rival t) ≡ get_lockout other t
    unfolding get_lockout upsert_lockout lockout_in renewed
    get_lockout-upsert_other locked_until now rival t own = ground (
      arith,
      lockout_in-renew_other locked_until now t.lockouts,
      differ,
      same_iff who other,
      same_iff other who,
    )

  pub count-clear_attempts :
      (since : ℤ) (t : Tables) → count_failures_since who since (clear_attempts who t) ≡ 0
  unfolding count_failures_since clear_attempts
  count-clear_attempts since t = count_in-delete since t.attempts

  -- An attempt at `now` counts, from any earlier time.
  pub count-record_attempt :
      (since now : ℤ) (t : Tables)
      → since ≤ℤ now
      → count_failures_since who since (record_attempt who now t)
        ≡ suc (count_failures_since who since t)
  unfolding count_failures_since record_attempt count_in
  count-record_attempt since now t h = ground (arith, same_iff who who)

  pub get_lockout-clear : (t : Tables) → get_lockout who (clear_lockout who t) ≡ none
  unfolding get_lockout clear_lockout
  get_lockout-clear t = lockout_in-delete t.lockouts

  get_lockout-insert :
      (locked_until now : ℤ) (rival : Option LoginLockout) (t : Tables)
      → Own who rival
      → get_lockout who t ≡ none
      → (l : LoginLockout) × (get_lockout who (upsert_lockout who locked_until now rival t)
          ≡ some l)
        × (l.locked_until ≡ locked_until)
        × (rival ≡ none → l.lockout_count ≡ 1)
  unfolding get_lockout upsert_lockout lockout_in renewed
  get_lockout-insert locked_until now none t own absent = (
    record {
      who = who;
      locked_until = locked_until;
      lockout_count = 1;
      created_at = now;
      updated_at = now;
    },
    ground (arith, same_iff who who),
    refl,
    λ _. refl,
  )
  get_lockout-insert locked_until now (some row) t own absent =
      (renewed locked_until now row, ground (arith, same_iff row.who who), refl, λ e. ground arith)

  get_lockout-renew :
      (locked_until now : ℤ) (rival : Option LoginLockout) (t : Tables) {before : LoginLockout}
      → get_lockout who t ≡ some before
      → get_lockout who (upsert_lockout who locked_until now rival t)
        ≡ some (renewed locked_until now before)
  unfolding get_lockout upsert_lockout
  get_lockout-renew locked_until now rival t {before = before} present =
      ground (arith, lockout_in-renew locked_until now t.lockouts {l = before})

  -- After an upsert the identity has a lockout until the time given, counted once more.
  pub get_lockout-upsert :
      (locked_until now : ℤ) (rival : Option LoginLockout) (t : Tables)
      → Own who rival
      → (l : LoginLockout) × (get_lockout who (upsert_lockout who locked_until now rival t)
          ≡ some l)
        × (l.locked_until ≡ locked_until)
        × (rival ≡ none → l.lockout_count ≡ next_count (get_lockout who t))
  unfolding renewed
  get_lockout-upsert locked_until now rival t own = elim (Option-cases (get_lockout who t)) [
    | inl absent ↦ rw absent (get_lockout-insert locked_until now rival t own absent)
    | inr (before, present) ↦ (
      renewed locked_until now before,
      get_lockout-renew locked_until now rival t present,
      refl,
      λ _. rw present refl,
    )
  ]

-- What leaves one of the tables alone.
pub get_lockout-record_attempt :
    (who other : Identity) (now : ℤ) (t : Tables)
    → get_lockout other (record_attempt who now t) ≡ get_lockout other t
unfolding get_lockout record_attempt
get_lockout-record_attempt who other now t = refl

pub get_lockout-clear_attempts :
    (who other : Identity) (t : Tables)
    → get_lockout other (clear_attempts who t) ≡ get_lockout other t
unfolding get_lockout clear_attempts
get_lockout-clear_attempts who other t = refl

pub count-clear_lockout :
    (who other : Identity) (since : ℤ) (t : Tables)
    → count_failures_since other since (clear_lockout who t) ≡ count_failures_since other since t
unfolding count_failures_since clear_lockout
count-clear_lockout who other since t = refl

pub count-upsert :
    (who other : Identity) (since locked_until now : ℤ) (rival : Option LoginLockout) (t : Tables)
    → count_failures_since other since (upsert_lockout who locked_until now rival t)
      ≡ count_failures_since other since t
unfolding count_failures_since upsert_lockout
count-upsert who other since locked_until now rival t = ground arith
