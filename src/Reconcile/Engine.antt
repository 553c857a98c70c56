-- ===== src/Reconcile/Engine.antt =====
-- backend/reconciliation/engine.py. Of a discrepancy the model keeps the symbol, the id of the order
-- and the type, without the texts and numbers for the reader. Log lines are left out.
use k.Base.{
  ℕ, ℤ, pos, pos_part, neg_part, ◌+◌, ◌-ℤ◌, ltb_ℤ, Bool, not, ◌&&◌, Option, none, some, List, [],
  ◌∷◌, ◌++◌, map, any, String, str_eq, ok, err, if◌then◌else◌,
}
use k.Base.Numbers.{Numbers}
use k.Exchange.Orders.{PositionState}
use k.Position.Watch.{Watch}
use k.Position.Follow.{or_else}
use k.Reconcile.Gate.{
  DiscrepancyType, missing_in_db, missing_in_adapter, quantity_mismatch, price_mismatch,
  status_mismatch, side_mismatch, partial_fill, missing_protection, manual_sl_tp_change,
  Discrepancy,
}
use k.Exchange.Orders.{partially_filled, status_value, OrderResult}
use k.Reconcile.Rows.{
  DbPosition, DbOrder, side_value, Answers, list_by_status, position_of, order_of, sorted_union,
}

pub record OrderDiscrepancy : Type 0 where
  pub client_order_id : String
  pub symbol : String
  pub discrepancy_type : DiscrepancyType

-- `abs(a - b) > tolerance`
unfoldable pub differs : ℤ → ℤ → ℤ → Bool
differs tolerance a b = let d = a -ℤ b in ltb_ℤ tolerance (pos (pos_part d + neg_part d))

abbrev pub when {ℓ} : {A : Type ℓ} → Bool → A → List A
when b x = if b then x ∷ [] else []

unfoldable pub compare_position : ℤ → PositionState → DbPosition → List DiscrepancyType
unfolding differs side_value
compare_position tolerance adapter_pos db_pos =
    when (not (str_eq (side_value adapter_pos.side) db_pos.direction)) side_mismatch
    ++ (when (differs tolerance adapter_pos.quantity db_pos.quantity) quantity_mismatch
        ++ when (differs tolerance adapter_pos.entry_price db_pos.entry_price) price_mismatch)

unfoldable pub check_manual_sl_tp_change : ℤ → Option ℤ → Option ℤ → List DiscrepancyType
unfolding differs
check_manual_sl_tp_change tolerance none config_value = []
check_manual_sl_tp_change tolerance (some adapter_value) none = manual_sl_tp_change ∷ []
check_manual_sl_tp_change tolerance (some adapter_value) (some config_value) =
    when (differs tolerance adapter_value config_value) manual_sl_tp_change

-- `_compare_order`, with the row of the order if the database has one.
unfoldable pub compare_order : OrderResult → Option DbOrder → List OrderDiscrepancy
unfolding status_value
compare_order adapter_order db_order =
    let found : DiscrepancyType → List OrderDiscrepancy = λ t.
      record {
        client_order_id = adapter_order.client_order_id;
        symbol = adapter_order.symbol;
        discrepancy_type = t;
      }
      ∷ [] in
    elim db_order [
      | none ↦ found missing_in_db
      | some row ↦ elim adapter_order.status [
        | partially_filled ↦ found partial_fill
        | status ↦ if str_eq (status_value status) row.status then [] else found status_mismatch
      ]
    ]

abbrev pub compare_orders : List DbOrder → List OrderResult → List OrderDiscrepancy
compare_orders rows [] = []
compare_orders rows (o ∷ orders) =
    compare_order o (order_of o.client_order_id rows) ++ compare_orders rows orders

abbrev pub ids_of : List OrderResult → List String
ids_of = map (λ o. o.client_order_id)

-- The loop over the symbols: what was found, the symbols that failed and the ids that were seen.
pub record Gathered : Type 0 where
  pub found : List OrderDiscrepancy
  pub failed : List String
  pub seen : List String

unfoldable pub gather_orders : {E : Type 0} → Answers E → List DbOrder → List String → Gathered
unfolding compare_order order_of
gather_orders answers rows [] = record { found = []; failed = []; seen = [] }
gather_orders answers rows (symbol ∷ symbols) =
    let rest = gather_orders answers rows symbols in
    elim (answers.get_open_orders symbol) [
      | err e ↦ record rest { failed = symbol ∷ rest.failed }
      | ok orders ↦ record {
        found = compare_orders rows orders ++ rest.found;
        failed = rest.failed;
        seen = ids_of orders ++ rest.seen;
      }
    ]

-- The orders that are PENDING here and that the exchange, where it was asked, does not list.
unfoldable pub missing_orders : List String → List String → List DbOrder → List OrderDiscrepancy
missing_orders seen failed [] = []
missing_orders seen failed (o ∷ rows) =
    when (not (any (str_eq o.client_order_id) seen) && not (any (str_eq o.symbol) failed)) record {
      client_order_id = o.client_order_id;
      symbol = o.symbol;
      discrepancy_type = missing_in_adapter;
    }
    ++ missing_orders seen failed rows

-- `_ORDER_FETCH_LIMIT`
abbrev pub order_fetch_limit : ℕ
order_fetch_limit = 1000

module _ {E : Type 0} (answers : Answers E) (symbols : List String) where
  unfoldable pub reconcile_orders : String → List DbOrder → List OrderDiscrepancy × List String
  unfolding gather_orders missing_orders list_by_status sorted_union
  reconcile_orders bot_run_id rows =
      let db_pending = list_by_status bot_run_id "PENDING" order_fetch_limit rows in
      let asked = sorted_union symbols (map (λ (o : DbOrder). o.symbol) db_pending) in
      let gathered = gather_orders answers rows asked in
      (gathered.found ++ missing_orders gathered.seen gathered.failed db_pending, gathered.failed)

-- A position manager, as far as the engine asks it: the watch of a symbol.
module _ (N : Numbers) (tolerance : ℤ) (position_manager : Option (String → Watch N)) where
  unfoldable pub check_protection : String → PositionState → List DiscrepancyType
  unfolding check_manual_sl_tp_change
  check_protection symbol adapter_pos = elim position_manager [
    | none ↦ []
    | some watches ↦
        let watch = watches symbol in
        elim watch.config [
          | none ↦ missing_protection ∷ []
          | some config ↦
              check_manual_sl_tp_change tolerance adapter_pos.stop_loss
                (or_else watch.effective_sl config.stop_loss)
              ++ check_manual_sl_tp_change tolerance adapter_pos.take_profit
                  (or_else watch.effective_tp config.take_profit)
        ]
  ]

  -- The body of the loop of `_reconcile_positions`, for a symbol that could be read.
  unfoldable pub check_symbol :
      String → Option PositionState → Option DbPosition → List DiscrepancyType
  unfolding compare_position check_protection
  check_symbol symbol adapter_pos db_pos = elim adapter_pos [
    | none ↦ elim db_pos [ none ↦ [] | some row ↦ missing_in_adapter ∷ [] ]
    | some held ↦ elim db_pos [
      | none ↦ missing_in_db ∷ []
      | some row ↦ compare_position tolerance held row ++ check_protection symbol held
    ]
  ]

  module _ {E : Type 0} (answers : Answers E) where
    unfoldable pub position_loop : List DbPosition → List String → List Discrepancy × List String
    unfolding check_symbol position_of
    position_loop db_positions [] = ([], [])
    position_loop db_positions (symbol ∷ symbols) =
        let (found, failed) = position_loop db_positions symbols in
        elim (answers.get_position symbol) [
          | err e ↦ (found, symbol ∷ failed)
          | ok adapter_pos ↦ (
            map (λ t. record { symbol = symbol; discrepancy_type = t })
                  (check_symbol symbol adapter_pos (position_of symbol db_positions))
                ++ found,
            failed,
          )
        ]
