-- ===== src/Auth/Purges.antt =====
-- What is deleted as too old, and what stays: backend/storage/repositories/auth.py.
use k.Base.{
  ◌≡◌, refl, ap, ℤ, ◌≤ℤ◌, ltb_ℤ, Bool, true, false, Option, some, List, [], ◌∷◌, All, Bool-cases,
  if_ind, option_ind, inl, inr, arith,
}
use mathlib.Core.Path.{subst}
use k.Auth.Throttle.{
  Identity, same, LoginAttempt, LoginLockout, Tables, delete, count_in, lockout_in, get_lockout,
  record_attempt, clear_attempts, purge_attempts_before, upsert_lockout,
}

-- Every attempt in the tables is as new as this.
abbrev pub Recent : ℤ → Tables → Type 0
Recent since t = All (λ (a : LoginAttempt). since ≤ℤ a.timestamp) t.attempts

-- What is purged is what the window leaves out.
pub count_in-purge :
    (who : Identity) (since : ℤ) (rows : List LoginAttempt)
    → count_in who since (delete (λ a. ltb_ℤ a.timestamp since) rows) ≡ count_in who since rows
unfolding count_in
count_in-purge who since [] = refl
count_in-purge who since (a ∷ rows) = ground (arith, count_in-purge who since rows)

All-delete :
    (since : ℤ) (selects : LoginAttempt → Bool) (rows : List LoginAttempt)
    → All (λ (a : LoginAttempt). since ≤ℤ a.timestamp) rows
    → All (λ (a : LoginAttempt). since ≤ℤ a.timestamp) (delete selects rows)
All-delete since selects [] h = tt
All-delete since selects (a ∷ rows) h =
    let rest = All-delete since selects rows h.1 in
    if_ind (All (λ (a : LoginAttempt). since ≤ℤ a.timestamp)) (selects a) (λ _. rest)
      (λ _. (h.0, rest))

-- A lockout that is found outlives a purge exactly if it ends no earlier than this.
abbrev pub Outlives : ℤ → Option LoginLockout → Option LoginLockout → Type 0
Outlives cutoff before after =
    ((l : LoginLockout) → before ≡ some l → cutoff ≤ℤ l.locked_until → after ≡ some l)
    × ((l : LoginLockout) → after ≡ some l → cutoff ≤ℤ l.locked_until)

pub lockout_in-Outlives :
    (who : Identity) (cutoff : ℤ) (rows : List LoginLockout)
    → Outlives cutoff
        (lockout_in who rows)
        (lockout_in who (delete (λ l. ltb_ℤ l.locked_until cutoff) rows))
unfolding lockout_in
lockout_in-Outlives who cutoff [] = (λ l e h. e, λ l e. cc)
lockout_in-Outlives who cutoff (r ∷ rows) =
    let rest = lockout_in-Outlives who cutoff rows in
    let later = delete (λ (l : LoginLockout). ltb_ℤ l.locked_until cutoff) rows in
    if_ind (λ kept. Outlives cutoff (lockout_in who (r ∷ rows)) (lockout_in who kept))
      (ltb_ℤ r.locked_until cutoff)
      (λ over.
        if_ind (λ found. Outlives cutoff found (lockout_in who later)) (same r.who who)
          (λ _. (λ l e h. absurd (ended r l cutoff e h over), rest.1)) (λ _. rest))
      (λ lasts. elim (Bool-cases (same r.who who)) [
        | inl is ↦ rw is (λ l e h. e, λ l e. lasting r l cutoff e lasts)
        | inr other ↦ rw other rest
      ])
  where
    ended :
        (r l : LoginLockout) (cutoff : ℤ)
        → some r ≡ some l
        → cutoff ≤ℤ l.locked_until
        → ltb_ℤ r.locked_until cutoff ≡ true
        → ⊥
    ended r l cutoff e h over =
        let eq : r ≡ l = cc in
        let until = ap (λ (x : LoginLockout). x.locked_until) eq in
        absurd (ground (arith, h, subst (λ x. ltb_ℤ x cutoff ≡ true) until over))

    lasting :
        (r l : LoginLockout) (cutoff : ℤ)
        → some r ≡ some l
        → ltb_ℤ r.locked_until cutoff ≡ false
        → cutoff ≤ℤ l.locked_until
    lasting r l cutoff e lasts =
        let eq : r ≡ l = cc in
        let until = ap (λ (x : LoginLockout). x.locked_until) eq in
        let now = subst (λ x. ltb_ℤ x cutoff ≡ false) until lasts in ground (arith, now)

pub purge_attempts-Recent : (since : ℤ) (t : Tables) → Recent since (purge_attempts_before since t)
unfolding purge_attempts_before
purge_attempts-Recent since t = kept t.attempts
  where
    kept :
        (rows : List LoginAttempt)
        → All
            (λ (a : LoginAttempt). since ≤ℤ a.timestamp)
            (delete (λ a. ltb_ℤ a.timestamp since) rows)
    kept [] = tt
    kept (a ∷ rows) =
        if_ind (All (λ (a : LoginAttempt). since ≤ℤ a.timestamp)) (ltb_ℤ a.timestamp since)
          (λ _. kept rows) (λ h. (ground arith, kept rows))

pub clear_attempts-Recent :
    (who : Identity) (since : ℤ) (t : Tables) → Recent since t → Recent since (clear_attempts who t)
unfolding clear_attempts
clear_attempts-Recent who since t h = All-delete since (λ a. same a.who who) t.attempts h

pub record_attempt-Recent :
    (who : Identity) (since now : ℤ) (t : Tables)
    → since ≤ℤ now
    → Recent since t
    → Recent since (record_attempt who now t)
unfolding record_attempt
record_attempt-Recent who since now t le h = (le, h)

pub upsert-Recent :
    (who : Identity) (since locked_until now : ℤ) (rival : Option LoginLockout) (t : Tables)
    → Recent since t
    → Recent since (upsert_lockout who locked_until now rival t)
unfolding upsert_lockout
upsert-Recent who since locked_until now rival t h =
    option_ind (Recent since) (get_lockout who t)
      (λ _. option_ind (Recent since) rival (λ _. h) (λ row _. h)) (λ existing _. h)
