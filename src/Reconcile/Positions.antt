-- ===== src/Reconcile/Positions.antt =====
-- The report of positions of backend/reconciliation/engine.py is sound and complete.
use k.Base.{
  ℤ, ◌≡◌, sym, ap, ◌↔◌, inl, inr, Option, List, [], ◌∷◌, map, String, Result, ok, err, Member,
  Member-append, iff_trans, result_ind,
}
use mathlib.Core.Path.{subst}
use k.Base.Numbers.{Numbers}
use k.Exchange.Orders.{PositionState}
use k.Position.Watch.{Watch}
use k.Reconcile.Gate.{DiscrepancyType, Discrepancy}
use k.Reconcile.Rows.{DbPosition, Answers, position_of}
use k.Reconcile.Engine.{check_symbol, position_loop}
use k.Reconcile.Found.{Cause, check_symbol_iff}

abbrev pub labelled : String → DiscrepancyType → Discrepancy
labelled symbol t = record { symbol = symbol; discrepancy_type = t }

Member-labelled :
    (d : Discrepancy) (symbol : String) (ts : List DiscrepancyType)
    → Member d (map (labelled symbol) ts) ↔ ((d.symbol ≡ symbol) × Member d.discrepancy_type ts)
Member-labelled d symbol [] = (λ h. absurd h, λ h. absurd h.1)
Member-labelled d symbol (t ∷ ts) =
    let later = Member-labelled d symbol ts in
    (
      λ h. elim h [
        | inl e ↦ (
          ap (λ (x : Discrepancy). x.symbol) e,
          inl (ap (λ (x : Discrepancy). x.discrepancy_type) e),
        )
        | inr m ↦ ((later.0 m).0, inr (later.0 m).1)
      ],
      λ (same, h). elim h [ inl e ↦ inl (cc) | inr m ↦ inr (later.1 (same, m)) ],
    )

ok_inj : {E A : Type 0} {r : Result E A} {a b : A} → r ≡ ok a → r ≡ ok b → a ≡ b
ok_inj h k = cc

not_both : {E A : Type 0} {r : Result E A} {e : E} {a : A} → r ≡ err e → r ≡ ok a → ⊥
not_both h k = cc

module _ (N : Numbers) (tolerance : ℤ) (position_manager : Option (String → Watch N)) {E : Type 0}
    (answers : Answers E) (rows : List DbPosition) where
  -- The symbol could be read, and the discrepancy is there.
  abbrev pub Seen : String → DiscrepancyType → Type 0
  Seen symbol t =
      (held : Option PositionState) × (answers.get_position symbol ≡ ok held)
      × Cause N tolerance position_manager symbol held (position_of symbol rows) t

  turn_iff :
      (d : Discrepancy) (symbol : String) (held : Option PositionState)
      → answers.get_position symbol ≡ ok held
      → Member d (
          map
            (labelled symbol)
            (check_symbol N tolerance position_manager symbol held (position_of symbol rows)))
        ↔ ((d.symbol ≡ symbol) × Seen d.symbol d.discrepancy_type)
  turn_iff d symbol held read =
      let listed =
        Member-labelled d symbol
          (check_symbol N tolerance position_manager symbol held (position_of symbol rows)) in
      let caused =
        check_symbol_iff N tolerance position_manager symbol d.discrepancy_type held
          (position_of symbol rows) in
      (
        λ h.
            let (same, m) = listed.0 h in
            (same, subst (λ x. Seen x d.discrepancy_type) (sym same) (held, read, caused.0 m)),
        λ (same, seen).
            let (held', read', cause) = subst (λ x. Seen x d.discrepancy_type) same seen in
            let same_held : held' ≡ held = ok_inj read' read in
            listed.1 (
              same,
              caused.1 (
                  subst
                    (λ x.
                      Cause N tolerance position_manager symbol x (position_of symbol rows)
                        d.discrepancy_type)
                    same_held cause),
            ),
      )

  pub position_loop_iff :
      (d : Discrepancy) (symbols : List String)
      → Member d (position_loop N tolerance position_manager answers rows symbols).0
        ↔ (Member d.symbol symbols × Seen d.symbol d.discrepancy_type)
  unfolding position_loop
  position_loop_iff d [] = (λ h. absurd h, λ h. absurd h.0)
  position_loop_iff d (symbol ∷ symbols) =
      let later = position_loop_iff d symbols in
      result_ind {B = List Discrepancy × List String}
        (λ out.
          Member d out.0 ↔ (Member d.symbol (symbol ∷ symbols) × Seen d.symbol d.discrepancy_type))
        (answers.get_position symbol)
        (λ e failed. (
          λ h. (inr (later.0 h).0, (later.0 h).1),
          λ (m, seen). elim m [
            | inl same ↦
                let (held, read, cause) = subst (λ x. Seen x d.discrepancy_type) same seen in
                absurd (not_both failed read)
            | inr m ↦ later.1 (m, seen)
          ],
        ))
        (λ held read.
          let turn = turn_iff d symbol held read in
          iff_trans (Member-append d _ _) (
            λ h. elim h [
              | inl m ↦ (inl (turn.0 m).0, (turn.0 m).1)
              | inr m ↦ (inr (later.0 m).0, (later.0 m).1)
            ],
            λ (m, seen). elim m [
              | inl same ↦ inl (turn.1 (same, seen))
              | inr m ↦ inr (later.1 (m, seen))
            ],
          ))
