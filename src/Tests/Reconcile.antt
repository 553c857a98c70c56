-- ===== src/Tests/Reconcile.antt =====
-- A report with an order that the database does not know, on a run that is ACTIVE.
use k.Base.{String, ◌≡◌, refl, true, false, none, some, List, [], ◌∷◌, arith}
use k.Trading.State.{
  active, safe_mode, init, transition_to, can_transition_to, force_set, resolve_persisted_state,
}
use k.Trading.Emergency.{
  Store, Session, BotStateRow, trigger, get_latest, run_status, unmet, resync,
}
use k.Trading.Stops.{persisted}
use k.Reconcile.Gate.{
  missing_in_db, ReconciliationReport, ReconciliationConfig, BlockingReason, blocking_reasons,
  of_type, GateEvent, gate_event, run_and_enforce,
}
use k.Reconcile.Blocking.{gate_enforces_safe_mode}

abbrev pub gate : ReconciliationConfig
gate = record {
  enabled = true;
  run_before_new_entries = true;
  block_on_orphan_orders = true;
  block_on_untracked_positions = false;
  block_on_unconfirmed_protection = true;
}

abbrev report : ReconciliationReport
report = record {
  position_discrepancies = record { symbol = "ETHUSDT"; discrepancy_type = missing_in_db } ∷ [];
  order_discrepancies = record { symbol = "BTCUSDT"; discrepancy_type = missing_in_db } ∷ [];
  failed_symbols = [];
  balance_fetch_failed = false;
}

abbrev pub text : List BlockingReason → String
text reasons = "blocked"

abbrev row : BotStateRow
row = record {
  bot_run_id = "r1";
  row_state = "ACTIVE";
  previous_state = "SAFE_MODE";
  reason = "review";
  created_at = 5;
}

abbrev tables : Store GateEvent
tables = record { runs = ("r1", "RUNNING") ∷ []; states = row ∷ []; events = [] }

abbrev pub session : Session GateEvent
session = record { committed = tables; current = tables; locked = none }

gate_run : Unit {0}
unfolding run_and_enforce blocking_reasons of_type trigger get_latest run_status unmet resync
    transition_to can_transition_to init force_set resolve_persisted_state
gate_run = tt

one_reason : blocking_reasons gate report ≡ BlockingReason.orphan_orders 1 ∷ []
unfolding gate_run
one_reason = refl

gate_enforces_safe_mode_example :
    ((run_and_enforce true 9 text gate "r1" report session (init active)).1 ≡ init safe_mode)
    × (persisted "r1"
          (run_and_enforce true 9 text gate "r1" report session (init active)).0.committed
        ≡ some safe_mode)
    × ((run_and_enforce true 9 text gate "r1" report session (init active)).0.committed.events
        ≡ gate_event text (blocking_reasons gate report) report "r1" 9 active ∷ [])
    × ((run_and_enforce true 9 text gate "r1" report session (init active)).0.locked ≡ none)
unfolding gate_run
gate_enforces_safe_mode_example =
    gate_enforces_safe_mode true 9 text gate "r1" report session (init active) refl refl refl refl
      refl (omega arith) refl
