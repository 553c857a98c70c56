-- ===== src/Reconcile/Missing.antt =====
-- Which orders backend/reconciliation/engine.py calls lost, of all the rows of the database.
use k.Base.{◌<◌, ◌≤◌, ◌≡◌, refl, true, List, String, ok, Member}
use k.Reconcile.Gate.{missing_in_adapter}
use k.Exchange.Orders.{OrderResult}
use k.Reconcile.Rows.{DbOrder, Answers, has_status}
use k.Reconcile.Engine.{OrderDiscrepancy, order_fetch_limit, reconcile_orders}
use k.Reconcile.Newest.{count, newer, as_new, wanted, listed_newest, newest_listed}
use k.Reconcile.Lost.{Listed, lost, asked_orders, Vanished-iff}

module _ {E : Type 0} (answers : Answers E) (symbols : List String) (bot_run_id : String)
    (rows : List DbOrder) where
  -- A row of the run that is PENDING, whose symbol was read, and whose id is in no answer.
  abbrev pub Gone : DbOrder → Type 0
  Gone o =
      Member o rows
      × (has_status bot_run_id "PENDING" o ≡ true)
      × (Listed answers rows o.client_order_id (asked_orders answers symbols bot_run_id rows) → ⊥)
      × (orders : List OrderResult) × (answers.get_open_orders o.symbol ≡ ok orders)

  -- An order that the report calls lost is that of a row that is PENDING in the run, with fewer than a
  -- thousand of those rows newer than it, whose symbol could be read, and whose id no answer lists for
  -- any of the symbols that were asked: a symbol that could not be read loses none. Each such row is
  -- reported if at most a thousand of those rows, it included, are as new as it is.
  pub lost_orders_reported :
      ((d : OrderDiscrepancy)
        → d.discrepancy_type ≡ missing_in_adapter
        → Member d (reconcile_orders answers symbols bot_run_id rows).0
        → (o : DbOrder) × (d ≡ lost o)
          × Gone o
          × (count (newer o) (wanted bot_run_id "PENDING" 1000 rows) < 1000))
      × ((o : DbOrder)
          → Gone o
          → count (as_new o) (wanted bot_run_id "PENDING" 1000 rows) ≤ 1000
          → Member (lost o) (reconcile_orders answers symbols bot_run_id rows).0)
  lost_orders_reported = (
    λ d lost_type reported.
        let (o, listed, e, unlisted, orders, read) =
          (Vanished-iff answers symbols bot_run_id rows d lost_type).0 reported in
        let (there, passes, few) =
          listed_newest bot_run_id "PENDING" order_fetch_limit rows o listed in
        (o, e, (there, passes, unlisted, orders, read), few),
    λ o (there, passes, unlisted, orders, read) few.
        (Vanished-iff answers symbols bot_run_id rows (lost o) refl).1 (
          o,
          newest_listed bot_run_id "PENDING" order_fetch_limit rows o there passes few,
          refl,
          unlisted,
          orders,
          read,
        ),
  )
