-- ===== src/Reconcile/Newest.antt =====
-- The rows that a query with an order and a limit gives: list_by_status of
-- backend/storage/repositories/trades.py.
use k.Base.{
  ℕ, zero, suc, ◌+◌, ◌≤◌, ◌<◌, leb, ltb, ◌≡◌, refl, sym, ◌↔◌, iff_trans, iff_or, Bool, true, false,
  List, [], ◌∷◌, String, Member, All, All-map, All-Member, arith, if◌then◌else◌, if_ind, inl, inr,
  ◌⊎◌,
}
use mathlib.Core.Path.{subst}
use k.Reconcile.Rows.{
  DbOrder, filter, take, insert_newest, newest_first, has_status, list_by_status,
}

-- How many rows pass a test.
abbrev pub count : (DbOrder → Bool) → List DbOrder → ℕ
count p [] = 0
count p (o ∷ rows) = (if p o then 1 else 0) + count p rows

-- The rows that are newer than this one, and those that are not older.
abbrev pub newer : DbOrder → DbOrder → Bool
newer o x = ltb o.created_at x.created_at

abbrev pub as_new : DbOrder → DbOrder → Bool
as_new o x = leb o.created_at x.created_at

-- Each row is followed by none that is newer.
abbrev Descending : List DbOrder → Type 0
Descending [] = Unit
Descending (x ∷ xs) = All (λ (y : DbOrder). y.created_at ≤ x.created_at) xs × Descending xs

insert-Member :
    (d o : DbOrder) (rows : List DbOrder)
    → Member d (insert_newest o rows) ↔ ((d ≡ o) ⊎ Member d rows)
insert-Member d o [] = ground arith
insert-Member d o (x ∷ xs) = ground (arith, (insert-Member d o xs).0, (insert-Member d o xs).1)

count-insert :
    (p : DbOrder → Bool) (o : DbOrder) (rows : List DbOrder)
    → count p (insert_newest o rows) ≡ count p (o ∷ rows)
count-insert p o [] = refl
count-insert p o (x ∷ xs) =
    if_ind (λ l. count p l ≡ count p (o ∷ x ∷ xs)) (leb x.created_at o.created_at) (λ _. refl)
      (λ _. omega (arith, count-insert p o xs))

insert-All :
    (n : ℕ) (o : DbOrder) (rows : List DbOrder)
    → o.created_at ≤ n
    → All (λ (y : DbOrder). y.created_at ≤ n) rows
    → All (λ (y : DbOrder). y.created_at ≤ n) (insert_newest o rows)
insert-All n o [] h a = (h, tt)
insert-All n o (x ∷ xs) h a =
    if_ind (All (λ (y : DbOrder). y.created_at ≤ n)) (leb x.created_at o.created_at) (λ _. (h, a))
      (λ _. (a.0, insert-All n o xs h a.1))

insert-Descending :
    (o : DbOrder) (rows : List DbOrder) → Descending rows → Descending (insert_newest o rows)
insert-Descending o [] s = (tt, tt)
insert-Descending o (x ∷ xs) s =
    if_ind Descending (leb x.created_at o.created_at)
      (λ h.
        let below : x.created_at ≤ o.created_at = ground arith in
        ((below, All-map xs (λ y l. omega arith) s.0), s))
      (λ h.
        let above : o.created_at ≤ x.created_at = ground arith in
        (insert-All x.created_at o xs above s.0, insert-Descending o xs s.1))

newest_first-Descending : (rows : List DbOrder) → Descending (newest_first rows)
unfolding newest_first
newest_first-Descending [] = tt
newest_first-Descending (o ∷ rows) =
    insert-Descending o (newest_first rows) (newest_first-Descending rows)

newest_first-Member :
    (d : DbOrder) (rows : List DbOrder) → Member d (newest_first rows) ↔ Member d rows
unfolding newest_first
newest_first-Member d [] = (λ h. h, λ h. h)
newest_first-Member d (o ∷ rows) =
    iff_trans (insert-Member d o (newest_first rows))
      (iff_or (λ h. h, λ h. h) (newest_first-Member d rows))

count-newest_first :
    (p : DbOrder → Bool) (rows : List DbOrder) → count p (newest_first rows) ≡ count p rows
unfolding newest_first
count-newest_first p [] = refl
count-newest_first p (o ∷ rows) =
    omega (arith, count-insert p o (newest_first rows), count-newest_first p rows)

filter-Member :
    (p : DbOrder → Bool) (d : DbOrder) (rows : List DbOrder)
    → Member d (filter p rows) ↔ (Member d rows × (p d ≡ true))
filter-Member p d [] = (λ h. absurd h, λ h. absurd h.0)
filter-Member p d (o ∷ rows) =
    let later = filter-Member p d rows in
    if_ind (λ l. Member d l ↔ (Member d (o ∷ rows) × (p d ≡ true))) (p o)
      (λ passes. (
        λ m. elim m [
          | inl e ↦ (inl e, subst (λ x. p x ≡ true) (sym e) passes)
          | inr l ↦ let (a, t) = later.0 l in (inr a, t)
        ],
        λ (m, t). elim m [ inl e ↦ inl e | inr a ↦ inr (later.1 (a, t)) ],
      ))
      (λ fails. (
        λ l. let (a, t) = later.0 l in (inr a, t),
        λ (m, t). elim m [
          | inl e ↦ absurd (distinct (subst (λ x. p x ≡ true) e t) fails)
          | inr a ↦ later.1 (a, t)
        ],
      ))
  where
    distinct : {b : Bool} → b ≡ true → b ≡ false → ⊥
    distinct e f = cc

take-Member : (d : DbOrder) (n : ℕ) (rows : List DbOrder) → Member d (take n rows) → Member d rows
take-Member d zero rows m = absurd m
take-Member d (suc n) [] m = absurd m
take-Member d (suc n) (x ∷ xs) m = elim m [
  | inl e ↦ inl e
  | inr later ↦ inr (take-Member d n xs later)
]

none_newer :
    (o : DbOrder) (rows : List DbOrder)
    → All (λ (y : DbOrder). y.created_at ≤ o.created_at) rows
    → count (newer o) rows ≡ 0
none_newer o [] a = refl
none_newer o (x ∷ xs) a = ground (arith, none_newer o xs a.1)

-- A row among the first has fewer that are newer.
few_newer :
    (d : DbOrder) (n : ℕ) (rows : List DbOrder)
    → Descending rows
    → Member d (take n rows)
    → count (newer d) rows < n
few_newer d zero rows s m = absurd m
few_newer d (suc n) [] s m = absurd m
few_newer d (suc n) (x ∷ xs) s m = elim m [
  | inl e ↦
      subst (λ (o : DbOrder). count (newer o) (x ∷ xs) < suc n) (sym e)
        (ground (arith, none_newer x xs s.0))
  | inr later ↦ ground (arith, few_newer d n xs s.1 later)
]

-- The first row is at least as new as any.
first_newest :
    (d x : DbOrder) (xs : List DbOrder)
    → Descending (x ∷ xs)
    → Member d (x ∷ xs)
    → d.created_at ≤ x.created_at
first_newest d x xs s m = elim m [
  | inl e ↦ subst (λ (o : DbOrder). o.created_at ≤ x.created_at) (sym e) (omega arith)
  | inr later ↦ All-Member (λ (y : DbOrder). y.created_at ≤ x.created_at) d xs s.0 later
]

-- A row is among the first if they are enough for all that are not older.
enough :
    (d : DbOrder) (n : ℕ) (rows : List DbOrder)
    → Descending rows
    → Member d rows
    → count (as_new d) rows ≤ n
    → Member d (take n rows)
enough d n [] s m h = absurd m
enough d zero (x ∷ xs) s m h = ground (arith, first_newest d x xs s m)
enough d (suc n) (x ∷ xs) s m h =
    let fewer : count (as_new d) xs ≤ n = ground (arith, first_newest d x xs s m) in
    elim m [ inl e ↦ inl e | inr later ↦ inr (enough d n xs s.1 later fewer) ]

-- What a query with a limit gives: rows that pass, each with fewer than the limit that are newer, and
-- every row that passes with no more than the limit, itself included, that are as new.
module _ (bot_run_id status : String) (limit : ℕ) (rows : List DbOrder) where
  abbrev pub wanted : List DbOrder
  wanted = filter (has_status bot_run_id status) rows

  pub listed_newest :
      (d : DbOrder)
      → Member d (list_by_status bot_run_id status limit rows)
      → Member d rows × (has_status bot_run_id status d ≡ true) × (count (newer d) wanted < limit)
  unfolding list_by_status
  listed_newest d m =
      let among = (newest_first-Member d wanted).0 (take-Member d limit (newest_first wanted) m) in
      let (there, passes) = (filter-Member (has_status bot_run_id status) d rows).0 among in
      (
        there,
        passes,
        subst (λ n. n < limit) (count-newest_first (newer d) wanted)
            (few_newer d limit (newest_first wanted) (newest_first-Descending wanted) m),
      )

  pub newest_listed :
      (d : DbOrder)
      → Member d rows
      → has_status bot_run_id status d ≡ true
      → count (as_new d) wanted ≤ limit
      → Member d (list_by_status bot_run_id status limit rows)
  unfolding list_by_status
  newest_listed d m passes few =
      enough d limit (newest_first wanted) (newest_first-Descending wanted)
        ((newest_first-Member d wanted).1
          ((filter-Member (has_status bot_run_id status) d rows).1 (m, passes)))
        (subst (λ n. n ≤ limit) (sym (count-newest_first (as_new d) wanted)) few)
