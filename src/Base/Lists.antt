-- ===== src/Base/Lists.antt =====
-- Lists measured by native numbers, and predicates over lists by recursion.
use Prim.Native.Nat.{ℕ, zero, suc, ◌+◌, ◌-◌, ◌≤◌}
use mathlib.Core.Path.{◌≡◌, refl, sym, ap, subst}
use mathlib.Core.Logic.{◌↔◌, ◌⊎◌, inl, inr}
use mathlib.Core.Bool.{Bool, false, ◌||◌}
use mathlib.Core.Option.{Option, none, some}
use mathlib.Core.List.{List, [], ◌∷◌, ◌++◌}
use native.Mathlib.Omega.{arith}

module _ {ℓ} {A : Type ℓ} where
  abbrev pub length : List A → ℕ
  length [] = 0
  length (x ∷ xs) = suc (length xs)

  -- `any(p(x) for x in xs)`
  abbrev pub any : (A → Bool) → List A → Bool
  any p [] = false
  any p (x ∷ xs) = p x || any p xs

abbrev pub All {ℓ κ} : {A : Type ℓ} → (A → Type κ) → List A → Type κ
All P [] = Unit
All P (x ∷ xs) = P x × All P xs

pub length-append {ℓ} : {A : Type ℓ} (xs ys : List A) → length (xs ++ ys) ≡ length xs + length ys
length-append [] ys = omega arith
length-append (x ∷ xs) ys = omega (arith, length-append xs ys)

-- No element passes a test exactly if each fails it.
pub any-All {ℓ} :
    {A : Type ℓ} (p : A → Bool) (xs : List A) → (any p xs ≡ false) ↔ All (λ x. p x ≡ false) xs
any-All p [] = (λ _. tt, λ _. refl)
any-All p (x ∷ xs) = ground (arith, (any-All p xs).0, (any-All p xs).1)

abbrev pub get_elem? {ℓ} : {A : Type ℓ} → List A → ℕ → Option A
get_elem? [] i = none
get_elem? (x ∷ xs) zero = some x
get_elem? (x ∷ xs) (suc i) = get_elem? xs i

-- What is left of a list when elements are taken off its front.
abbrev pub Suffix : {A : Type 0} → List A → List A → Type 0
Suffix xs [] = xs ≡ []
Suffix xs (y ∷ ys) = (xs ≡ y ∷ ys) ⊎ Suffix xs ys

pub Suffix-self : {A : Type 0} (xs : List A) → Suffix xs xs
Suffix-self [] = refl
Suffix-self (x ∷ xs) = inl refl

pub Suffix-empty : {A : Type 0} (ys : List A) → Suffix [] ys
Suffix-empty [] = refl
Suffix-empty (y ∷ ys) = inr (Suffix-empty ys)

pub Suffix-tail : {A : Type 0} (x : A) (xs ys : List A) → Suffix (x ∷ xs) ys → Suffix xs ys
Suffix-tail x xs [] h = cc
Suffix-tail x xs (y ∷ ys) (inl e) = inr (subst (λ zs. Suffix xs zs) (ap tail e) (Suffix-self xs))
  where
    tail : {A : Type 0} → List A → List A
    tail [] = []
    tail (z ∷ zs) = zs
Suffix-tail x xs (y ∷ ys) (inr h) = inr (Suffix-tail x xs ys h)

pub Suffix-length : {A : Type 0} (xs ys : List A) → Suffix xs ys → length xs ≤ length ys
Suffix-length xs [] h = ground arith
Suffix-length xs (y ∷ ys) (inl e) = ground arith
Suffix-length xs (y ∷ ys) (inr h) = omega (arith, Suffix-length xs ys h)

-- The first of the remaining elements is in the list, at the place that the lengths tell.
pub get_elem?-Suffix :
    {A : Type 0} (x : A) (xs ys : List A)
    → Suffix (x ∷ xs) ys
    → get_elem? ys (length ys - length (x ∷ xs)) ≡ some x
get_elem?-Suffix x xs [] h = cc
get_elem?-Suffix x xs (y ∷ ys) (inl e) =
    subst (λ zs. get_elem? zs (length zs - length (x ∷ xs)) ≡ some x) e
      (let none_before : length (x ∷ xs) - length (x ∷ xs) ≡ 0 = omega arith in
        subst (λ n. get_elem? (x ∷ xs) n ≡ some x) (sym none_before) refl)
get_elem?-Suffix x xs (y ∷ ys) (inr h) =
    let one_more : length (y ∷ ys) - length (x ∷ xs) ≡ suc (length ys - length (x ∷ xs)) =
      omega (arith, Suffix-length (x ∷ xs) ys h) in
    subst (λ n. get_elem? (y ∷ ys) n ≡ some x) (sym one_more) (get_elem?-Suffix x xs ys h)

-- `x in xs`, as a proposition on positions.
abbrev pub Member : {A : Type 0} → A → List A → Type 0
Member x [] = ⊥
Member x (y ∷ ys) = (x ≡ y) ⊎ Member x ys

pub Member-append :
    {A : Type 0} (x : A) (xs ys : List A) → Member x (xs ++ ys) ↔ (Member x xs ⊎ Member x ys)
Member-append x [] ys = (inr, λ h. elim h [ inl e ↦ absurd e | inr m ↦ m ])
Member-append x (y ∷ xs) ys = ground (arith, (Member-append x xs ys).0, (Member-append x xs ys).1)

pub iff_trans {ℓ κ ν} : {A : Type ℓ} {B : Type κ} {C : Type ν} → A ↔ B → B ↔ C → A ↔ C
iff_trans f g = (λ a. g.0 (f.0 a), λ c. f.1 (g.1 c))

pub iff_or {ℓ κ ν μ} :
    {A : Type ℓ} {B : Type κ} {C : Type ν} {D : Type μ} → A ↔ B → C ↔ D → (A ⊎ C) ↔ (B ⊎ D)
iff_or f g = (
  λ h. elim h [ inl a ↦ inl (f.0 a) | inr c ↦ inr (g.0 c) ],
  λ h. elim h [ inl b ↦ inl (f.1 b) | inr d ↦ inr (g.1 d) ],
)

pub List-cases {ℓ} :
    {A : Type ℓ} (xs : List A) → (xs ≡ []) ⊎ ((y : A) × (ys : List A) × (xs ≡ y ∷ ys))
List-cases [] = inl refl
List-cases (y ∷ ys) = inr (y, ys, refl)

pub All-map {ℓ κ ν} :
    {A : Type ℓ} {P : A → Type κ} {Q : A → Type ν} (xs : List A)
    → ((x : A) → P x → Q x)
    → All P xs
    → All Q xs
All-map [] f h = tt
All-map (x ∷ xs) f h = (f x h.0, All-map xs f h.1)

pub All-Member {ℓ} :
    {A : Type 0} (P : A → Type ℓ) (x : A) (xs : List A) → All P xs → Member x xs → P x
All-Member P x [] h m = absurd m
All-Member P x (y ∷ ys) h m = elim m [
  | inl e ↦ subst P (sym e) h.0
  | inr later ↦ All-Member P x ys h.1 later
]
