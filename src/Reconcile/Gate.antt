-- ===== src/Reconcile/Gate.antt =====
-- backend/reconciliation/gate.py on the report of backend/reconciliation/engine.py, which is an
-- argument. The counts that the reasons show are kept, not their text.
use k.Base.{
  ℕ, Bool, true, false, not, ◌&&◌, Option, none, some, List, [], ◌∷◌, ◌++◌, length, String, Result,
  ok, err, if◌then◌else◌,
}
use k.Trading.State.{BotState, active, state_eq, BotStateMachine}
use k.Trading.Emergency.{Session, Failure, rejected, database_error, rollback, trigger}
use k.Trading.SafeMode.{SystemEvent, held, safe_mode_from_active}

pub data DiscrepancyType : Type 0 where
  missing_in_db missing_in_adapter quantity_mismatch price_mismatch status_mismatch side_mismatch
        partial_fill missing_protection manual_sl_tp_change :
      DiscrepancyType

abbrev pub is_missing_in_db : DiscrepancyType → Bool
is_missing_in_db missing_in_db = true
is_missing_in_db _ = false

abbrev pub is_missing_protection : DiscrepancyType → Bool
is_missing_protection missing_protection = true
is_missing_protection _ = false

-- `PositionDiscrepancy` and `OrderDiscrepancy`, as far as the gate reads them.
pub record Discrepancy : Type 0 where
  pub symbol : String
  pub discrepancy_type : DiscrepancyType

pub record ReconciliationReport : Type 0 where
  pub position_discrepancies : List Discrepancy
  pub order_discrepancies : List Discrepancy
  pub failed_symbols : List String
  pub balance_fetch_failed : Bool

pub record ReconciliationConfig : Type 0 where
  pub enabled : Bool
  pub run_before_new_entries : Bool
  pub block_on_orphan_orders : Bool
  pub block_on_untracked_positions : Bool
  pub block_on_unconfirmed_protection : Bool

pub data BlockingReason : Type 0 where
  balance_unreadable : BlockingReason
  orphan_orders : ℕ → BlockingReason
  untracked_positions : ℕ → BlockingReason
  unconfirmed_protection : ℕ → BlockingReason

-- `[d for d in … if p(d.discrepancy_type)]`
unfoldable pub of_type : (DiscrepancyType → Bool) → List Discrepancy → List Discrepancy
of_type p [] = []
of_type p (d ∷ ds) = let rest = of_type p ds in if p d.discrepancy_type then d ∷ rest else rest

-- A flag of the configuration that is set, and something that it blocks on: one reason.
abbrev pub reason_if : Bool → (ℕ → BlockingReason) → List Discrepancy → List BlockingReason
reason_if flag reason [] = []
reason_if flag reason (d ∷ ds) = if flag then reason (length (d ∷ ds)) ∷ [] else []

unfoldable pub blocking_reasons : ReconciliationConfig → ReconciliationReport → List BlockingReason
blocking_reasons config report =
    (if report.balance_fetch_failed then balance_unreadable ∷ [] else [])
    ++ (reason_if config.block_on_orphan_orders orphan_orders
          (of_type is_missing_in_db report.order_discrepancies)
        ++ (reason_if config.block_on_untracked_positions untracked_positions
              (of_type is_missing_in_db report.position_discrepancies)
            ++ reason_if config.block_on_unconfirmed_protection unconfirmed_protection
                (of_type is_missing_protection report.position_discrepancies)))

abbrev pub no_reasons : List BlockingReason → Bool
no_reasons [] = true
no_reasons (r ∷ rs) = false

abbrev pub GateEvent : Type 0
GateEvent = SystemEvent (List BlockingReason × ReconciliationReport)

-- `_audit_event`; `text` is the sentence made from the reasons.
unfoldable pub gate_event :
    (List BlockingReason → String)
    → List BlockingReason
    → ReconciliationReport
    → String
    → ℕ
    → BotState
    → GateEvent
gate_event text reasons report bot_run_id now previous = record {
  bot_run_id = bot_run_id;
  timestamp = now;
  event_type = "RECONCILIATION_BLOCKED";
  severity = "WARNING";
  message = text reasons;
  details = (reasons, report);
}

module _ (commits : Bool) (now : ℕ) (text : List BlockingReason → String)
    (config : ReconciliationConfig) (bot_run_id : String) where
  -- `_trigger_safe_mode`: every rejection is logged and dropped.
  unfoldable pub gate_safe_mode :
      List BlockingReason
      → ReconciliationReport
      → Session GateEvent
      → BotStateMachine
      → Session GateEvent × BotStateMachine × Result Failure (Unit {0})
  gate_safe_mode reasons report session machine =
      let (s, machine', r) =
        trigger commits now (gate_event text reasons report)
          (safe_mode_from_active bot_run_id (text reasons)) session (some machine) in
      (
        s,
        held machine machine',
        elim r [
          | ok _ ↦ ok tt
          | err (rejected why) ↦ ok tt
          | err database_error ↦ err database_error
        ],
      )

  -- `run_and_enforce`; `report` is what the engine returns, if it is asked.
  unfoldable pub run_and_enforce :
      ReconciliationReport
      → Session GateEvent
      → BotStateMachine
      → Session GateEvent × BotStateMachine × Option ReconciliationReport
  unfolding gate_safe_mode
  run_and_enforce report session machine =
      let reasons = blocking_reasons config report in
      let (s, machine', r) = gate_safe_mode reasons report session machine in
      if not (config.enabled && config.run_before_new_entries)
      then (session, machine, none)
      else if no_reasons reasons
      then (session, machine, some report)
      else if not (state_eq machine.state active)
      then (session, machine, some report)
      else elim r [
        | ok _ ↦ (s, machine', some report)
        | err _ ↦ (rollback s, machine', some report)
      ]
