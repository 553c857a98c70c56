-- ===== src/Reconcile/Symbols.antt =====
-- The symbols that backend/reconciliation/engine.py goes through.
use Prim.Native.Nat.{Ordering}
use Prim.Native.String.{compare}
use k.Base.{◌≡◌, refl, ◌↔◌, ◌⊎◌, inl, inr, List, [], ◌∷◌, String, str_eq_iff, Member, arith}
use k.Reconcile.Rows.{insert_sorted, sorted_union}

-- Equal answers of the comparison mean equal texts.
compared : (s x : String) → compare s x ≡ Ordering.eq → s ≡ x
compared s x e = (str_eq_iff s x).0 (rw e refl)

Member-insert_sorted :
    (y s : String) (xs : List String) → Member y (insert_sorted s xs) ↔ ((y ≡ s) ⊎ Member y xs)
unfolding insert_sorted
Member-insert_sorted y s [] = (λ h. h, λ h. h)
Member-insert_sorted y s (x ∷ xs) =
    ground (arith, compared s x, (Member-insert_sorted y s xs).0, (Member-insert_sorted y s xs).1)

pub Member-sorted_union :
    (y : String) (a b : List String) → Member y (sorted_union a b) ↔ (Member y a ⊎ Member y b)
unfolding sorted_union
Member-sorted_union y [] [] = (inl, λ h. elim h [ inl e ↦ e | inr e ↦ e ])
Member-sorted_union y [] (s ∷ b) =
    let here = Member-insert_sorted y s (sorted_union [] b) in
    let rest = Member-sorted_union y [] b in ground (arith, here.0, here.1, rest.0, rest.1)
Member-sorted_union y (s ∷ a) b =
    let here = Member-insert_sorted y s (sorted_union a b) in
    let rest = Member-sorted_union y a b in ground (arith, here.0, here.1, rest.0, rest.1)
