-- ===== src/Auth/Active.antt =====
-- The lockouts that are not over and the last of them, for `check_lockout` of
-- backend/auth/throttle.py.
use k.Base.{
  ◌*◌, ◌≤◌, pos_part, neg_part, negsuc, ◌≡◌, refl, sym, ◌∙◌, ℤ, pos, ◌≤ℤ◌, ◌<ℤ◌, ltb_ℤ, ◌+ℤ◌, ◌-ℤ◌,
  +ℤ_parts, -ℤ_parts, some, List, [], ◌∷◌, All, Member, Option-cases, Bool-cases, inl, inr, ◌⊎◌,
  arith,
}
use mathlib.Core.Path.{subst}
use k.Auth.Throttle.{LoginScope, Identity, LoginLockout, Tables, get_lockout}
use k.Auth.Service.{timedelta, ceil_seconds, remaining_seconds, longest, active}

longest-cons :
    (best x : LoginScope × ℤ) (xs : List (LoginScope × ℤ))
    → ((best.1 ≤ℤ x.1) × (longest best (x ∷ xs) ≡ longest x xs))
      ⊎ ((x.1 ≤ℤ best.1) × (longest best (x ∷ xs) ≡ longest best xs))
unfolding longest
longest-cons best x xs = ground arith

-- A lockout ends after the others.
abbrev pub Last : LoginScope × ℤ → List (LoginScope × ℤ) → Type 0
Last last = All (λ x. x.1 ≤ℤ last.1)

pub longest-Last :
    (best : LoginScope × ℤ) (xs : List (LoginScope × ℤ)) → Last (longest best xs) (best ∷ xs)
unfolding longest
longest-Last best [] = (omega arith, tt)
longest-Last best (x ∷ xs) = elim (longest-cons best x xs) [
  | inl (longer, e) ↦
      let (at_x, rest) = longest-Last x xs in
      subst (λ last. Last last (best ∷ x ∷ xs)) (sym e) (omega (arith, at_x, longer), (at_x, rest))
  | inr (shorter, e) ↦
      let (at_best, rest) = longest-Last best xs in
      subst (λ last. Last last (best ∷ x ∷ xs)) (sym e)
        (at_best, (omega (arith, at_best, shorter), rest))
]

ceil_seconds_covers :
    (span : ℤ)
    → pos 0 <ℤ span
    → (pos_part span ≤ pos_part (ceil_seconds span) * 1000000)
      × (neg_part (ceil_seconds span) ≡ 0)
      × (1 ≤ pos_part (ceil_seconds span))
ceil_seconds_covers (pos n) h = ground arith
ceil_seconds_covers (negsuc n) h = absurd (omega (arith, h))

remaining_parts :
    (locked_until now : ℤ)
    → now <ℤ locked_until
    → (pos_part (locked_until -ℤ now) ≤ pos_part (remaining_seconds locked_until now) * 1000000)
      × (neg_part (remaining_seconds locked_until now) ≡ 0)
      × (1 ≤ pos_part (remaining_seconds locked_until now))
unfolding remaining_seconds
remaining_parts locked_until now h =
    let (covers, up, some_time) =
      ceil_seconds_covers (locked_until -ℤ now) (omega (arith, h, -ℤ_parts locked_until now)) in
    ground (arith, covers, up, some_time)

-- Waiting for the remaining seconds is waiting long enough.
pub remaining_seconds_covers :
    (locked_until now : ℤ)
    → now <ℤ locked_until
    → (locked_until ≤ℤ now +ℤ timedelta (remaining_seconds locked_until now))
      × (pos 1 ≤ℤ remaining_seconds locked_until now)
remaining_seconds_covers locked_until now h =
    let r = remaining_seconds locked_until now in
    let (covers, up, some_time) = remaining_parts locked_until now h in
    omega (
      arith,
      covers,
      up,
      some_time,
      -ℤ_parts locked_until now,
      -ℤ_parts (pos (pos_part r * 1000000)) (pos (neg_part r * 1000000)),
      +ℤ_parts now (timedelta r),
    )

-- A lockout of the identity that is not over.
abbrev pub Held : Identity → ℤ → Tables → Type 0
Held who now t = (l : LoginLockout) × (get_lockout who t ≡ some l) × (now <ℤ l.locked_until)

active-nil : (t : Tables) (now : ℤ) → active [] t now ≡ []
unfolding active
active-nil t now = refl

active-cons :
    (who : Identity) (whos : List Identity) (t : Tables) (now : ℤ)
    → ((l : LoginLockout) × (get_lockout who t ≡ some l)
        × (now <ℤ l.locked_until)
        × (active (who ∷ whos) t now ≡ (who.scope, l.locked_until) ∷ active whos t now))
      ⊎ (((l : LoginLockout) → get_lockout who t ≡ some l → l.locked_until ≤ℤ now)
          × (active (who ∷ whos) t now ≡ active whos t now))
unfolding active
active-cons who whos t now = elim (Option-cases (get_lockout who t)) [
  | inl absent ↦ inr (λ l e. absurd (ground arith), ground arith)
  | inr (l, present) ↦ elim (Bool-cases (ltb_ℤ now l.locked_until)) [
    | inl held ↦ inl (l, present, ground arith, ground arith)
    | inr over ↦ inr (λ l' e. ground arith, ground arith)
  ]
]

-- Every lockout of the identity is over, or ends by a certain time.
abbrev pub Over : ℤ → Tables → Identity → Type 0
Over now t who = (l : LoginLockout) → get_lockout who t ≡ some l → l.locked_until ≤ℤ now

abbrev pub Before : ℤ → ℤ → Tables → Identity → Type 0
Before limit now t who =
    (l : LoginLockout)
    → get_lockout who t ≡ some l
    → now <ℤ l.locked_until
    → l.locked_until ≤ℤ limit

-- Every lockout that is held is in the list, and before its last.
pub active_complete :
    (whos : List Identity) (t : Tables) (now : ℤ) (last : LoginScope × ℤ)
    → Last last (active whos t now)
    → All
        (λ who.
          (l : LoginLockout)
          → get_lockout who t ≡ some l
          → now <ℤ l.locked_until
          → l.locked_until ≤ℤ last.1)
        whos
active_complete [] t now last h = tt
active_complete (who ∷ whos) t now last h = elim (active-cons who whos t now) [
  | inl (l, present, held, e) ↦
      let h' = subst (Last last) e h in
      (λ l' present' held'. ground (arith, present, h'.0), active_complete whos t now last h'.1)
  | inr (over, e) ↦ (
    λ l' present' held'. absurd (omega (arith, over l' present', held')),
    active_complete whos t now last (subst (Last last) e h),
  )
]

pub active_empty :
    (whos : List Identity) (t : Tables) (now : ℤ)
    → active whos t now ≡ []
    → All (λ who. (l : LoginLockout) → get_lockout who t ≡ some l → l.locked_until ≤ℤ now) whos
active_empty [] t now h = tt
active_empty (who ∷ whos) t now h = elim (active-cons who whos t now) [
  | inl (l, present, held, e) ↦ absurd (ground (arith, e, h))
  | inr (over, e) ↦ (over, active_empty whos t now (sym e ∙ h))
]

pub active_held :
    (whos : List Identity) (t : Tables) (now : ℤ) → All (λ x. now <ℤ x.1) (active whos t now)
active_held [] t now = subst (All (λ x. now <ℤ x.1)) (sym (active-nil t now)) tt
active_held (who ∷ whos) t now = elim (active-cons who whos t now) [
  | inl (l, present, held, e) ↦ subst (All (λ x. now <ℤ x.1)) (sym e) (held, active_held whos t now)
  | inr (over, e) ↦ subst (All (λ x. now <ℤ x.1)) (sym e) (active_held whos t now)
]

pub active_some :
    (whos : List Identity) (t : Tables) (now : ℤ) {x : LoginScope × ℤ} {xs : List (LoginScope × ℤ)}
    → active whos t now ≡ x ∷ xs
    → (who : Identity) × Member who whos × Held who now t
active_some [] t now h = absurd (ground (arith, h, active-nil t now))
active_some (who ∷ whos) t now {x = x} {xs = xs} h = elim (active-cons who whos t now) [
  | inl (l, present, held, e) ↦ (who, inl refl, (l, present, held))
  | inr (over, e) ↦
      let (other, listed, held) = active_some whos t now {x = x} {xs = xs} (sym e ∙ h) in
      (other, inr listed, held)
]
