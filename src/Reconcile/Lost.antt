-- ===== src/Reconcile/Lost.antt =====
-- Orders that backend/reconciliation/engine.py reports as no longer on the exchange.
use k.Base.{
  Option, none, some, ◌≡◌, ◌≢◌, refl, sym, ap, ◌∙◌, ◌↔◌, inl, inr, Bool, true, false, not, ◌&&◌,
  List, [], ◌∷◌, map, any, String, str_eq, str_eq_iff, Result, ok, err, Member, Member-append,
  iff_trans, result_ind, Result-cases, arith,
}
use mathlib.Core.Path.{subst}
use k.Reconcile.Gate.{missing_in_adapter}
use k.Exchange.Orders.{OrderResult}
use k.Reconcile.Rows.{DbOrder, Answers, list_by_status, order_of, sorted_union}
use k.Reconcile.Engine.{
  OrderDiscrepancy, Gathered, when, compare_order, compare_orders, ids_of, gather_orders,
  missing_orders, order_fetch_limit, reconcile_orders,
}
use k.Reconcile.Symbols.{Member-sorted_union}

any-Member : (s : String) (xs : List String) → (any (str_eq s) xs ≡ true) ↔ Member s xs
any-Member s [] = ground arith
any-Member s (x ∷ xs) =
    ground (arith, (str_eq_iff s x).0, (str_eq_iff s x).1, (any-Member s xs).0, (any-Member s xs).1)

-- A comparison of an order with its row never says that the exchange has lost it.
not_lost :
    (d : OrderDiscrepancy) (o : OrderResult) (row : Option DbOrder)
    → Member d (compare_order o row)
    → d.discrepancy_type ≢ missing_in_adapter
unfolding compare_order
not_lost d o none m e = ground arith
not_lost d o (some row) m e = ground arith

compare_order_lem :
    (d : OrderDiscrepancy) (rows : List DbOrder) (orders : List OrderResult)
    → Member d (compare_orders rows orders)
    → d.discrepancy_type ≢ missing_in_adapter
compare_order_lem d rows [] m = absurd m
compare_order_lem d rows (o ∷ orders) m = elim ((Member-append d _ _).0 m) [
  | inl here ↦ not_lost d o (order_of o.client_order_id rows) here
  | inr later ↦ compare_order_lem d rows orders later
]

not_both : {E A : Type 0} {r : Result E A} {e : E} {a : A} → r ≡ err e → r ≡ ok a → ⊥
not_both h k = cc

ok_inj : {E A : Type 0} {r : Result E A} {a b : A} → r ≡ ok a → r ≡ ok b → a ≡ b
ok_inj h k = cc

module _ {E : Type 0} (answers : Answers E) (rows : List DbOrder) where
  abbrev pub Listed : String → List String → Type 0
  Listed id symbols =
      (symbol : String) × Member symbol symbols
      × (orders : List OrderResult) × (answers.get_open_orders symbol ≡ ok orders)
      × Member id (ids_of orders)

  seen_iff :
      (id : String) (symbols : List String)
      → Member id (gather_orders answers rows symbols).seen ↔ Listed id symbols
  unfolding gather_orders
  seen_iff id [] = (λ h. absurd h, λ (s, m, os, r, at). absurd m)
  seen_iff id (symbol ∷ symbols) =
      let later = seen_iff id symbols in
      result_ind {B = Gathered} (λ g. Member id g.seen ↔ Listed id (symbol ∷ symbols))
        (answers.get_open_orders symbol)
        (λ e failed. (
          λ h. let (s, m, os, r, at) = later.0 h in (s, inr m, os, r, at),
          λ (s, m, orders, read, at). elim m [
            | inl e ↦
                absurd (not_both failed (subst (λ x. answers.get_open_orders x ≡ ok orders) e read))
            | inr m ↦ later.1 (s, m, orders, read, at)
          ],
        ))
        (λ orders read. iff_trans (Member-append id (ids_of orders) _) (
          λ h. elim h [
            | inl at ↦ (symbol, inl refl, orders, read, at)
            | inr m ↦ let (s, m, os, r, at) = later.0 m in (s, inr m, os, r, at)
          ],
          λ (s, m, orders', read', at). elim m [
            | inl e ↦ inl (
                subst (λ os. Member id (ids_of os))
                  (ok_inj (subst (λ x. answers.get_open_orders x ≡ ok orders') e read') read) at)
            | inr m ↦ inr (later.1 (s, m, orders', read', at))
          ],
        ))

  failed_iff :
      (s : String) (symbols : List String)
      → Member s (gather_orders answers rows symbols).failed
        ↔ (Member s symbols × (e : E) × (answers.get_open_orders s ≡ err e))
  unfolding gather_orders
  failed_iff s [] = (λ h. absurd h, λ h. absurd h.0)
  failed_iff s (symbol ∷ symbols) =
      let later = failed_iff s symbols in
      result_ind {B = Gathered}
        (λ g.
          Member s g.failed
          ↔ (Member s (symbol ∷ symbols) × (e : E) × (answers.get_open_orders s ≡ err e)))
        (answers.get_open_orders symbol)
        (λ e raised. (
          λ h. elim h [
            | inl same ↦
                (inl same, e, subst (λ x. answers.get_open_orders x ≡ err e) (sym same) raised)
            | inr m ↦ let (m, e, why) = later.0 m in (inr m, e, why)
          ],
          λ (m, e, why). elim m [ inl same ↦ inl same | inr m ↦ inr (later.1 (m, e, why)) ],
        ))
        (λ orders read. (
          λ m. let (m, e, why) = later.0 m in (inr m, e, why),
          λ (m, e, raised). elim m [
            | inl same ↦
                absurd (not_both (subst (λ x. answers.get_open_orders x ≡ err e) same raised) read)
            | inr m ↦ later.1 (m, e, raised)
          ],
        ))

  gathered_lem :
      (d : OrderDiscrepancy) (symbols : List String)
      → Member d (gather_orders answers rows symbols).found
      → d.discrepancy_type ≢ missing_in_adapter
  unfolding gather_orders
  gathered_lem d [] = λ m. absurd m
  gathered_lem d (symbol ∷ symbols) =
      result_ind {B = Gathered} (λ g. Member d g.found → d.discrepancy_type ≢ missing_in_adapter)
        (answers.get_open_orders symbol) (λ e _ m. gathered_lem d symbols m)
        (λ orders _ m. elim ((Member-append d _ _).0 m) [
          | inl here ↦ compare_order_lem d rows orders here
          | inr later ↦ gathered_lem d symbols later
        ])

-- An order that is not among the ids seen, of a symbol that could be read.
abbrev pub lost : DbOrder → OrderDiscrepancy
lost o = record {
  client_order_id = o.client_order_id;
  symbol = o.symbol;
  discrepancy_type = missing_in_adapter;
}

when_iff : {A : Type 0} (d x : A) (b : Bool) → Member d (when b x) ↔ ((d ≡ x) × (b ≡ true))
when_iff d x true = ground arith
when_iff d x false = ground arith

missing_iff :
    (d : OrderDiscrepancy) (seen unread : List String) (rows : List DbOrder)
    → Member d (missing_orders seen unread rows) ↔ (
        (o : DbOrder) × Member o rows
        × (d ≡ lost o)
        × (Member o.client_order_id seen → ⊥)
        × (Member o.symbol unread → ⊥))
unfolding missing_orders
missing_iff d seen unread [] = (λ h. absurd h, λ (o, m, e, f, g). absurd m)
missing_iff d seen unread (o ∷ rows) =
    let later = missing_iff d seen unread rows in
    let known = any-Member o.client_order_id seen in
    let broken = any-Member o.symbol unread in
    let test = not (any (str_eq o.client_order_id) seen) && not (any (str_eq o.symbol) unread) in
    let clear : (test ≡ true)
        ↔ ((Member o.client_order_id seen → ⊥) × (Member o.symbol unread → ⊥)) =
      ground (arith, known.0, known.1, broken.0, broken.1) in
    iff_trans (Member-append d _ _) (
      λ h. elim h [
        | inl here ↦
            let (e, t) = (when_iff d (lost o) test).0 here in
            let (f, g) = clear.0 t in (o, inl refl, e, f, g)
        | inr m ↦ let (o', m, e, f, g) = later.0 m in (o', inr m, e, f, g)
      ],
      λ (o', m, e, f, g). elim m [
        | inl same ↦ inl (
            (when_iff d (lost o) test).1 (
              e ∙ ap lost same,
              clear.1 (
                subst (λ (x : DbOrder). Member x.client_order_id seen → ⊥) same f,
                subst (λ (x : DbOrder). Member x.symbol unread → ⊥) same g,
              ),
            ))
        | inr m ↦ inr (later.1 (o', m, e, f, g))
      ],
    )

Member-symbol :
    (o : DbOrder) (rows : List DbOrder)
    → Member o rows
    → Member o.symbol (map (λ (x : DbOrder). x.symbol) rows)
Member-symbol o [] m = absurd m
Member-symbol o (x ∷ rows) (inl e) = inl (ap (λ (y : DbOrder). y.symbol) e)
Member-symbol o (x ∷ rows) (inr m) = inr (Member-symbol o rows m)

module _ {E : Type 0} (answers : Answers E) (symbols : List String) (bot_run_id : String)
    (rows : List DbOrder) where
  abbrev pub pending_rows : List DbOrder
  pending_rows = list_by_status bot_run_id "PENDING" order_fetch_limit rows

  -- The symbols that are asked for their orders.
  abbrev pub asked_orders : List String
  asked_orders = sorted_union symbols (map (λ (o : DbOrder). o.symbol) pending_rows)

  -- A listed row whose symbol was read, and whose id is in no answer.
  abbrev pub Vanished : OrderDiscrepancy → Type 0
  Vanished d =
      (o : DbOrder) × Member o pending_rows
      × (d ≡ lost o)
      × (Listed answers rows o.client_order_id asked_orders → ⊥)
      × (orders : List OrderResult) × (answers.get_open_orders o.symbol ≡ ok orders)

  pub Vanished-iff :
      (d : OrderDiscrepancy)
      → d.discrepancy_type ≡ missing_in_adapter
      → Member d (reconcile_orders answers symbols bot_run_id rows).0 ↔ Vanished d
  unfolding reconcile_orders
  Vanished-iff d lost_type =
      let g = gather_orders answers rows asked_orders in
      let missing = missing_iff d g.seen g.failed pending_rows in
      (
        λ h. elim ((Member-append d g.found _).0 h) [
          | inl found ↦ absurd (gathered_lem answers rows d asked_orders found lost_type)
          | inr m ↦
              let (o, m, e, unseen, unbroken) = missing.0 m in
              let asked =
                (Member-sorted_union o.symbol symbols _).1 (inr (Member-symbol o pending_rows m)) in
              elim (Result-cases (answers.get_open_orders o.symbol)) [
                | inl (orders, read) ↦ (
                  o,
                  m,
                  e,
                  λ l. unseen ((seen_iff answers rows o.client_order_id asked_orders).1 l),
                  orders,
                  read,
                )
                | inr (why, raised) ↦ absurd (
                    unbroken
                      ((failed_iff answers rows o.symbol asked_orders).1 (asked, why, raised)))
              ]
        ],
        λ (o, m, e, unlisted, orders, read). (Member-append d g.found _).1 (
            inr (
              missing.1 (
                o,
                m,
                e,
                λ l. unlisted ((seen_iff answers rows o.client_order_id asked_orders).0 l),
                λ f.
                    let (asked, why, raised) =
                      (failed_iff answers rows o.symbol asked_orders).0 f in
                    not_both raised read,
              ))),
      )
