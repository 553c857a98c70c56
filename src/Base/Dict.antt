-- ===== src/Base/Dict.antt =====
-- A Python dict with strings as keys: its items in the order of their first insertion.
use mathlib.Core.Path.{◌≡◌, refl}
use mathlib.Core.Bool.{false}
use mathlib.Core.Option.{Option, none, some}
use mathlib.Core.List.{List, [], ◌∷◌}
use Prim.Native.String.{String}
use text.Mathlib.Text.{◌==◌ as str_eq}
use text.Mathlib.TextEquality.{eq_iff as str_eq_iff}
use native.Mathlib.Omega.{arith}
use k.Base.Tests.{if◌then◌else◌}
use k.Base.Cases.{if_ind}
use mathlib.Core.Path.{subst, sym}

abbrev pub Dict {ℓ} : Type ℓ → Type ℓ
Dict A = List (String × A)

module _ {ℓ} {A : Type ℓ} where
  -- `d.get(key)`
  abbrev pub get : String → Dict A → Option A
  get key [] = none
  get key ((k, a) ∷ rest) = if str_eq k key then some a else get key rest

  -- `d.get(key, default)`
  abbrev pub get_or : String → A → Dict A → A
  get_or key default d = elim (get key d) [ none ↦ default | some a ↦ a ]

  -- `d[key] = value`
  abbrev pub put : String → A → Dict A → Dict A
  put key value [] = (key, value) ∷ []
  put key value ((k, a) ∷ rest) =
      let later = put key value rest in if str_eq k key then (k, value) ∷ rest else (k, a) ∷ later

  -- `d.pop(key, None)`
  abbrev pub remove : String → Dict A → Dict A
  remove key [] = []
  remove key ((k, a) ∷ rest) =
      let later = remove key rest in if str_eq k key then later else (k, a) ∷ later

  pub get-put_self :
      (key : String) (value : A) (d : Dict A) → get key (put key value d) ≡ some value
  get-put_self key value [] = ground (arith, (str_eq_iff key key).1 refl)
  get-put_self key value ((k, a) ∷ rest) = ground (arith, get-put_self key value rest)

  pub get-put_other :
      (key other : String) (value : A) (d : Dict A)
      → str_eq key other ≡ false
      → get other (put key value d) ≡ get other d
  get-put_other key other value [] h = ground arith
  get-put_other key other value ((k, a) ∷ rest) h =
      ground
        (arith, get-put_other key other value rest h, (str_eq_iff k key).0, (str_eq_iff k other).0)

  pub get-remove_self : (key : String) (d : Dict A) → get key (remove key d) ≡ none
  get-remove_self key [] = refl
  get-remove_self key ((k, a) ∷ rest) = ground (arith, get-remove_self key rest)

  pub get-remove_other :
      (key other : String) (d : Dict A)
      → str_eq key other ≡ false
      → get other (remove key d) ≡ get other d
  get-remove_other key other [] h = refl
  get-remove_other key other ((k, a) ∷ rest) h =
      ground (arith, get-remove_other key other rest h, (str_eq_iff k key).0)

-- What holds at each item.
abbrev pub Entries {ℓ} : {A : Type 0} → (String → A → Type ℓ) → Dict A → Type ℓ
Entries P [] = Unit
Entries P ((k, a) ∷ rest) = P k a × Entries P rest

module _ {ℓ} {A : Type 0} (P : String → A → Type ℓ) where
  pub Entries-get : (key : String) (d : Dict A) {a : A} → Entries P d → get key d ≡ some a → P key a
  Entries-get key [] h e = cc
  Entries-get key ((k, b) ∷ rest) {a} h e =
      if_ind (λ o. o ≡ some a → P key a) (str_eq k key)
        (λ same found.
          let eq : b ≡ a = cc in
          subst (λ n. P n a) ((str_eq_iff k key).0 same) (subst (P k) eq h.0))
        (λ other later. Entries-get key rest h.1 later) e

  pub Entries-put :
      (key : String) (value : A) (d : Dict A)
      → Entries P d
      → P key value
      → Entries P (put key value d)
  Entries-put key value [] h p = (p, tt)
  Entries-put key value ((k, b) ∷ rest) h p =
      if_ind (Entries P) (str_eq k key)
        (λ same. (subst (λ n. P n value) (sym ((str_eq_iff k key).0 same)) p, h.1))
        (λ other. (h.0, Entries-put key value rest h.1 p))

  pub Entries-remove : (key : String) (d : Dict A) → Entries P d → Entries P (remove key d)
  Entries-remove key [] h = tt
  Entries-remove key ((k, b) ∷ rest) h =
      if_ind (Entries P) (str_eq k key) (λ same. Entries-remove key rest h.1)
        (λ other. (h.0, Entries-remove key rest h.1))
