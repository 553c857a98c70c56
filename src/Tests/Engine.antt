-- ===== src/Tests/Engine.antt =====
-- A reconciliation of two symbols: the bot has opened a long position in one, and the exchange holds a
-- position in the other of which the database knows nothing; one pending order is gone.
use k.Base.{
  pos, ◌≡◌, refl, ◌↔◌, inl, inr, true, false, Option, none, some, List, [], ◌∷◌, String, ok, Member,
  ◌-ℤ◌, arith,
}
use k.Decision.{DecisionType}
use k.Exchange.Orders.{PositionState}
use k.Position.Stops.{buy}
use k.Position.Watch.{Watch}
use k.Trading.State.{active, safe_mode, init}
use k.Trading.Emergency.{run_status, get_latest}
use k.Trading.State.{resolve_persisted_state}
use k.Trading.Stops.{persisted}
use k.Reconcile.Gate.{
  ReconciliationConfig, ReconciliationReport, missing_in_db, missing_in_adapter, side_mismatch,
  run_and_enforce,
}
use k.Exchange.Orders.{status_value}
use k.Reconcile.Rows.{
  DbPosition, DbOrder, Answers, list_open, list_by_status, position_of, order_of, sorted_union,
  insert_sorted, persist_position, decision_value, side_value,
}
use k.Reconcile.Engine.{
  reconcile_orders, gather_orders, missing_orders, compare_order, compare_position,
  check_protection, check_symbol, position_loop, differs,
}
use k.Reconcile.Report.{reconcile, reconcile_positions, is_consistent}
use k.Reconcile.Positions.{Seen, labelled}
use k.Reconcile.Agreement.{
  Asked, positions_iff, opened_position_mismatches, untracked_position_stops,
}
use k.Reconcile.Lost.{lost}
use k.Reconcile.Newest.{count, newer, as_new, wanted}
use k.Reconcile.Missing.{Gone, lost_orders_reported}
use k.Reconcile.Rows.{newest_first}
use k.Reconcile.Engine.{OrderDiscrepancy}
use k.Base.{◌<◌, ◌≤◌}
use k.Tests.Fixed.{fixed}
use k.Tests.Reconcile.{gate, text, session}

abbrev held : String → PositionState
held symbol = record {
  symbol = symbol;
  side = buy;
  quantity = pos 200;
  entry_price = pos 10000;
  unrealized_pnl = pos 0;
  margin_usdt = pos 2000;
  leverage = 10;
  stop_loss = none;
  take_profit = none;
}

abbrev answers : Answers String
answers = record {
  get_account_state = ok tt;
  get_position = λ symbol. ok (some (held symbol));
  get_open_orders = λ symbol. ok [];
}

abbrev unmanaged : Option (String → Watch fixed)
unmanaged = none

abbrev row : DbPosition
row = record {
  bot_run_id = "r1";
  symbol = "BTCUSDT";
  direction = "LONG";
  quantity = pos 200;
  entry_price = pos 10000;
  status = "OPEN";
}

abbrev order : DbOrder
order = record {
  bot_run_id = "r1";
  client_order_id = "o1";
  symbol = "BTCUSDT";
  status = "PENDING";
  created_at = 7;
}

abbrev symbols : List String
symbols = "BTCUSDT" ∷ "ETHUSDT" ∷ []

abbrev report : ReconciliationReport
report = reconcile fixed (pos 1) unmanaged answers symbols "r1" (row ∷ []) (order ∷ [])

engine_run : Unit {0}
unfolding reconcile reconcile_positions reconcile_orders gather_orders missing_orders compare_order
    compare_position check_protection check_symbol position_loop differs list_open list_by_status
    position_of order_of sorted_union insert_sorted persist_position decision_value side_value
    status_value ◌-ℤ◌
engine_run = tt

reported :
    (report.position_discrepancies
      ≡ labelled "BTCUSDT" side_mismatch ∷ labelled "ETHUSDT" missing_in_db ∷ [])
    × (report.order_discrepancies ≡ labelled "BTCUSDT" missing_in_adapter ∷ [])
unfolding engine_run
reported = (refl, refl)

positions_iff_example : Member (labelled "ETHUSDT" missing_in_db) report.position_discrepancies ↔ (
    Asked fixed (pos 1) unmanaged answers symbols "r1" (row ∷ []) (order ∷ []) "ETHUSDT"
    × Seen fixed (pos 1) unmanaged answers (list_open "r1" (row ∷ [])) "ETHUSDT" missing_in_db)
positions_iff_example =
    positions_iff fixed (pos 1) unmanaged answers symbols "r1" (row ∷ []) (order ∷ [])
      (labelled "ETHUSDT" missing_in_db)

opened_position_mismatches_example :
    Member (labelled "BTCUSDT" side_mismatch) report.position_discrepancies
    × (is_consistent report ≡ false)
unfolding engine_run
opened_position_mismatches_example =
    opened_position_mismatches fixed (pos 1) unmanaged answers symbols "r1" (row ∷ []) (order ∷ [])
      DecisionType.long "BTCUSDT" (pos 200) (pos 10000) (held "BTCUSDT") refl (inl (inl refl)) refl

abbrev strict : ReconciliationConfig
strict = record gate { block_on_untracked_positions = true }

untracked_position_stops_example :
    let gated = run_and_enforce true 9 text strict "r1" report session (init active) in
    (gated.1 ≡ init safe_mode) × (persisted "r1" gated.0.committed ≡ some safe_mode)
unfolding engine_run run_status get_latest resolve_persisted_state init
untracked_position_stops_example =
    untracked_position_stops fixed (pos 1) unmanaged answers symbols "r1" (row ∷ []) (order ∷ [])
      "ETHUSDT" (held "ETHUSDT") 9 text strict session (init active) (inr (inl refl)) refl refl refl
      refl refl refl refl (omega arith)

-- Two orders of the run, the newer one last in the table, and one of another run.
abbrev orders : List DbOrder
orders =
    record order { client_order_id = "o0"; created_at = 3 }
    ∷ record order { bot_run_id = "r0" }
    ∷ order
    ∷ []

newest : list_by_status "r1" "PENDING" 1 orders ≡ order ∷ []
unfolding list_by_status newest_first
newest = refl

lost_orders_reported_example :
    ((d : OrderDiscrepancy)
      → d.discrepancy_type ≡ missing_in_adapter
      → Member d (reconcile_orders answers symbols "r1" orders).0
      → (o : DbOrder) × (d ≡ lost o)
        × Gone answers symbols "r1" orders o
        × (count (newer o) (wanted "r1" "PENDING" 1000 orders) < 1000))
    × ((o : DbOrder)
        → Gone answers symbols "r1" orders o
        → count (as_new o) (wanted "r1" "PENDING" 1000 orders) ≤ 1000
        → Member (lost o) (reconcile_orders answers symbols "r1" orders).0)
lost_orders_reported_example = lost_orders_reported answers symbols "r1" orders
