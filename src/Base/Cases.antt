-- ===== src/Base/Cases.antt =====
-- Induction on a computed value inside a goal: one rule for each form of case analysis that the
-- models use. The value stands in the goal by the definition's unfolding.
use mathlib.Core.Path.{◌≡◌, refl, sym, subst}
use mathlib.Core.Bool.{Bool, true, false}
use mathlib.Core.Option.{Option, none, some}
use mathlib.Core.List.{List, [], ◌∷◌}
use k.Base.Tests.{if◌then◌else◌}
use k.Base.Outcomes.{Result, ok, err}

module _ {ℓ κ} {B : Type ℓ} (P : B → Type κ) where
  pub if_ind : (b : Bool) {x y : B} → (b ≡ true → P x) → (b ≡ false → P y) → P (if b then x else y)
  if_ind true f g = f refl
  if_ind false f g = g refl

  pub option_ind {ν} :
      {A : Type ν} (o : Option A) {x : B} {f : A → B}
      → (o ≡ none → P x)
      → ((a : A) → o ≡ some a → P (f a))
      → P (elim o [ none ↦ x | some a ↦ f a ])
  option_ind none h k = h refl
  option_ind (some a) h k = k a refl

  pub result_ind {ν μ} :
      {E : Type ν} {A : Type μ} (r : Result E A) {f : E → B} {g : A → B}
      → ((e : E) → r ≡ err e → P (f e))
      → ((a : A) → r ≡ ok a → P (g a))
      → P (elim r [ err e ↦ f e | ok a ↦ g a ])
  result_ind (err e) h k = h e refl
  result_ind (ok a) h k = k a refl

  pub list_ind {ν} :
      {A : Type ν} (l : List A) {x : B} {f : A → List A → B}
      → (l ≡ [] → P x)
      → ((a : A) (rest : List A) → l ≡ a ∷ rest → P (f a rest))
      → P (elim l [ [] ↦ x | a ∷ rest ↦ f a rest ])
  list_ind [] h k = h refl
  list_ind (a ∷ rest) h k = k a rest refl

  -- The case that an equation gives.
  pub at_ok {ν μ} :
      {E : Type ν} {A : Type μ} (r : Result E A) (f : E → B) (g : A → B) {a : A}
      → r ≡ ok a
      → P (g a)
      → P (elim r [ err e ↦ f e | ok a ↦ g a ])
  at_ok r f g {a} e h = subst (λ r. P (elim r [ err e ↦ f e | ok a ↦ g a ])) (sym e) h

  pub at_some {ν} :
      {A : Type ν} (o : Option A) (x : B) (f : A → B) {a : A}
      → o ≡ some a
      → P (f a)
      → P (elim o [ none ↦ x | some a ↦ f a ])
  at_some o x f {a} e h = subst (λ o. P (elim o [ none ↦ x | some a ↦ f a ])) (sym e) h

  pub at_err {ν μ} :
      {E : Type ν} {A : Type μ} (r : Result E A) (f : E → B) (g : A → B) {e : E}
      → r ≡ err e
      → P (f e)
      → P (elim r [ err e ↦ f e | ok a ↦ g a ])
  at_err r f g {e} h k = subst (λ r. P (elim r [ err e ↦ f e | ok a ↦ g a ])) (sym h) k

  pub at_none {ν} :
      {A : Type ν} (o : Option A) (x : B) (f : A → B)
      → o ≡ none
      → P x
      → P (elim o [ none ↦ x | some a ↦ f a ])
  at_none o x f e h = subst (λ o. P (elim o [ none ↦ x | some a ↦ f a ])) (sym e) h
