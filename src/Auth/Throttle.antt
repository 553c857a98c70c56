-- ===== src/Auth/Throttle.antt =====
-- backend/auth/throttle.py on the tables of backend/storage/repositories/auth.py. Times are instants
-- in microseconds, durations of the configuration are in seconds.
use k.Base.{
  ℕ, suc, ℤ, ltb_ℤ, Bool, true, false, not, ◌&&◌, Option, none, some, List, [], ◌∷◌, String, str_eq,
  if◌then◌else◌,
}

pub data LoginScope : Type 0 where
  username_scope ip_scope : LoginScope

abbrev pub scope_eq : LoginScope → LoginScope → Bool
scope_eq username_scope username_scope = true
scope_eq ip_scope ip_scope = true
scope_eq _ _ = false

-- The columns `scope` and `identifier`, by which the rows of both tables are found.
pub record Identity : Type 0 where
  pub scope : LoginScope
  pub identifier : String

abbrev pub same : Identity → Identity → Bool
same a b = scope_eq a.scope b.scope && str_eq a.identifier b.identifier

pub record LoginAttempt : Type 0 where
  pub who : Identity
  pub timestamp : ℤ

pub record LoginLockout : Type 0 where
  pub who : Identity
  pub locked_until : ℤ
  pub lockout_count : ℕ
  pub created_at : ℤ
  pub updated_at : ℤ

pub record Tables : Type 0 where
  pub attempts : List LoginAttempt
  pub lockouts : List LoginLockout

-- The rows that a `delete` keeps: those that its condition does not select.
abbrev pub delete {ℓ} : {A : Type ℓ} → (A → Bool) → List A → List A
delete selects [] = []
delete selects (x ∷ xs) = let rest = delete selects xs in if selects x then rest else x ∷ rest

-- `LoginThrottleRepository`
unfoldable pub record_attempt : Identity → ℤ → Tables → Tables
record_attempt who now t = record t {
  attempts = record { who = who; timestamp = now } ∷ t.attempts;
}

unfoldable pub count_in : Identity → ℤ → List LoginAttempt → ℕ
count_in who since [] = 0
count_in who since (a ∷ attempts) =
    let rest = count_in who since attempts in
    if same a.who who && not (ltb_ℤ a.timestamp since) then suc rest else rest

unfoldable pub count_failures_since : Identity → ℤ → Tables → ℕ
count_failures_since who since t = count_in who since t.attempts

unfoldable pub clear_attempts : Identity → Tables → Tables
clear_attempts who t = record t { attempts = delete (λ a. same a.who who) t.attempts }

unfoldable pub purge_attempts_before : ℤ → Tables → Tables
purge_attempts_before cutoff t = record t {
  attempts = delete (λ a. ltb_ℤ a.timestamp cutoff) t.attempts;
}

unfoldable pub lockout_in : Identity → List LoginLockout → Option LoginLockout
lockout_in who [] = none
lockout_in who (l ∷ lockouts) =
    let rest = lockout_in who lockouts in if same l.who who then some l else rest

unfoldable pub get_lockout : Identity → Tables → Option LoginLockout
get_lockout who t = lockout_in who t.lockouts

unfoldable pub renewed : ℤ → ℤ → LoginLockout → LoginLockout
renewed locked_until now l = record l {
  lockout_count = suc l.lockout_count;
  locked_until = locked_until;
  updated_at = now;
}

-- `_renew`: the row of that identity is updated where it stands.
unfoldable pub renew : Identity → ℤ → ℤ → List LoginLockout → List LoginLockout
unfolding renewed
renew who locked_until now [] = []
renew who locked_until now (l ∷ lockouts) =
    let rest = renew who locked_until now lockouts in
    if same l.who who then renewed locked_until now l ∷ lockouts else l ∷ rest

-- `upsert_lockout`. `rival` is the row that another transaction has committed for the identity
-- between the reading and the insertion, which then meets the unique constraint; the advisory
-- lock of `lock_identity` rules this out where it is taken.
unfoldable pub upsert_lockout : Identity → ℤ → ℤ → Option LoginLockout → Tables → Tables
unfolding renew get_lockout
upsert_lockout who locked_until now rival t = elim (get_lockout who t) [
  | some existing ↦ record t { lockouts = renew who locked_until now t.lockouts }
  | none ↦ elim rival [
    | some row ↦ record t { lockouts = renewed locked_until now row ∷ t.lockouts }
    | none ↦ record t {
      lockouts =
          record {
            who = who;
            locked_until = locked_until;
            lockout_count = 1;
            created_at = now;
            updated_at = now;
          }
          ∷ t.lockouts;
    }
  ]
]

unfoldable pub purge_lockouts_before : ℤ → Tables → Tables
purge_lockouts_before cutoff t = record t {
  lockouts = delete (λ l. ltb_ℤ l.locked_until cutoff) t.lockouts;
}

unfoldable pub clear_lockout : Identity → Tables → Tables
clear_lockout who t = record t { lockouts = delete (λ l. same l.who who) t.lockouts }

-- `previous.lockout_count + 1`, and 1 where there is no previous lockout.
abbrev pub next_count : Option LoginLockout → ℕ
next_count none = 1
next_count (some previous) = suc previous.lockout_count
