-- ===== src/Reconcile/Report.antt =====
-- The whole of `reconcile` of backend/reconciliation/engine.py and the properties of its report.
use k.Base.{ℤ, Bool, true, false, not, ◌&&◌, Option, List, [], ◌∷◌, map, String, is_ok}
use k.Base.Numbers.{Numbers}
use k.Position.Watch.{Watch}
use k.Reconcile.Gate.{Discrepancy, ReconciliationReport}
use k.Reconcile.Rows.{DbPosition, DbOrder, Answers, list_open, sorted_union}
use k.Reconcile.Engine.{OrderDiscrepancy, reconcile_orders, position_loop}

-- An order discrepancy as the gate reads it.
abbrev pub as_read : OrderDiscrepancy → Discrepancy
as_read d = record { symbol = d.symbol; discrepancy_type = d.discrepancy_type }

abbrev pub is_nil {ℓ} : {A : Type ℓ} → List A → Bool
is_nil [] = true
is_nil (x ∷ xs) = false

unfoldable pub is_complete : ReconciliationReport → Bool
is_complete report = is_nil report.failed_symbols && not report.balance_fetch_failed

unfoldable pub is_consistent : ReconciliationReport → Bool
unfolding is_complete
is_consistent report =
    is_complete report && is_nil report.position_discrepancies && is_nil report.order_discrepancies

module _ (N : Numbers) (tolerance : ℤ) (position_manager : Option (String → Watch N)) {E : Type 0}
    (answers : Answers E) (symbols : List String) where
  -- The symbols that are asked for their positions.
  abbrev pub asked : String → List DbPosition → List String
  asked bot_run_id positions =
      sorted_union symbols (map (λ (p : DbPosition). p.symbol) (list_open bot_run_id positions))

  unfoldable pub reconcile_positions : String → List DbPosition → List Discrepancy × List String
  unfolding position_loop list_open sorted_union
  reconcile_positions bot_run_id positions =
      position_loop N tolerance position_manager answers (list_open bot_run_id positions)
        (asked bot_run_id positions)

  unfoldable pub reconcile : String → List DbPosition → List DbOrder → ReconciliationReport
  unfolding reconcile_positions reconcile_orders sorted_union
  reconcile bot_run_id positions orders =
      let (position_discrepancies, position_failed) = reconcile_positions bot_run_id positions in
      let (order_discrepancies, order_failed) =
        reconcile_orders answers symbols bot_run_id orders in
      record {
        position_discrepancies = position_discrepancies;
        order_discrepancies = map as_read order_discrepancies;
        failed_symbols = sorted_union position_failed order_failed;
        balance_fetch_failed = not (is_ok answers.get_account_state);
      }
