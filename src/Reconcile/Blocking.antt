-- ===== src/Reconcile/Blocking.antt =====
-- When the gate of backend/reconciliation/gate.py blocks new entries, and what it then does.
use k.Base.{
  ℕ, ◌<◌, ◌≡◌, refl, ◌↔◌, ◌⊎◌, inl, inr, Bool, true, false, not, none, some, Option, List, [], ◌∷◌,
  String, All, any, Bool-cases, arith, ◌&&◌, if◌then◌else◌,
}
use k.Trading.State.{active, safe_mode, BotStateMachine, init}
use k.Trading.Emergency.{Session, run_status}
use k.Trading.Stops.{persisted}
use k.Trading.SafeMode.{safe_mode_from_active, enforce, enforce-settles, enforce-reaches}
use k.Reconcile.Gate.{
  DiscrepancyType, is_missing_in_db, is_missing_protection, Discrepancy, ReconciliationReport,
  ReconciliationConfig, BlockingReason, of_type, blocking_reasons, no_reasons, GateEvent,
  gate_event, run_and_enforce,
}

abbrev pub some_of_type : (DiscrepancyType → Bool) → List Discrepancy → Bool
some_of_type p = any (λ d. p d.discrepancy_type)

of_type_empty :
    (p : DiscrepancyType → Bool) (ds : List Discrepancy)
    → (of_type p ds ≡ [] → some_of_type p ds ≡ false)
      × (some_of_type p ds ≡ false → of_type p ds ≡ [])
unfolding of_type
of_type_empty p [] = (λ _. refl, λ _. refl)
of_type_empty p (d ∷ ds) = ground (arith, (of_type_empty p ds).0, (of_type_empty p ds).1)

-- The gate has a reason to block exactly if the balance could not be read, or a flag of the
-- configuration is set and the report has what it is about: an order or a position that the
-- database does not know, or a position without its protection. Symbols that could not be read
-- are no reason, and no flag lets an unreadable balance pass.
pub blocking_iff :
    (config : ReconciliationConfig) (report : ReconciliationReport)
    → (no_reasons (blocking_reasons config report) ≡ false) ↔ (
        (report.balance_fetch_failed ≡ true)
        ⊎ ((config.block_on_orphan_orders ≡ true)
            × (some_of_type is_missing_in_db report.order_discrepancies ≡ true))
        ⊎ ((config.block_on_untracked_positions ≡ true)
            × (some_of_type is_missing_in_db report.position_discrepancies ≡ true))
        ⊎ ((config.block_on_unconfirmed_protection ≡ true)
            × (some_of_type is_missing_protection report.position_discrepancies ≡ true)))
unfolding blocking_reasons
blocking_iff config report =
    let orders = of_type_empty is_missing_in_db report.order_discrepancies in
    let positions = of_type_empty is_missing_in_db report.position_discrepancies in
    let protection = of_type_empty is_missing_protection report.position_discrepancies in
    ground (arith, orders.0, orders.1, positions.0, positions.1, protection.0, protection.1)

module _ (commits : Bool) (now : ℕ) (text : List BlockingReason → String)
    (config : ReconciliationConfig) (bot_run_id : String) (report : ReconciliationReport)
    (session : Session GateEvent) (machine : BotStateMachine) where
  abbrev reasons : List BlockingReason
  reasons = blocking_reasons config report

  abbrev gated : Session GateEvent × BotStateMachine × Option ReconciliationReport
  gated = run_and_enforce commits now text config bot_run_id report session machine

  abbrev runs : Bool
  runs = config.enabled && config.run_before_new_entries

  abbrev reached : Session GateEvent × BotStateMachine
  reached =
      enforce commits now (runs && not (no_reasons reasons)) (gate_event text reasons report)
        (safe_mode_from_active bot_run_id (text reasons)) session machine

  -- The call is the shared one, on the reasons.
  gated_lem : gated ≡ (reached.0, reached.1, if runs then some report else none)
  unfolding run_and_enforce enforce
  gated_lem = elim (Bool-cases runs) [
    | inr off ↦ ground arith
    | inl on ↦ elim (Bool-cases (no_reasons reasons)) [
      | inl clean ↦ ground arith
      | inr blocked ↦ ground arith
    ]
  ]

  -- However the gate ends, a session that had nothing pending and no lock is left so, also where
  -- the stop is rejected or the database fails; the report is returned exactly if the gate is
  -- configured to run.
  pub gate_settles :
      session.current ≡ session.committed
      → session.locked ≡ none
      → (gated.0.current ≡ gated.0.committed)
        × (gated.0.locked ≡ none)
        × (gated.2 ≡ (if runs then some report else none))
  gate_settles clean free =
      let (level, unlocked) =
        enforce-settles commits now (gate_event text reasons report) bot_run_id (text reasons)
          (runs && not (no_reasons reasons)) session machine clean free in
      rw gated_lem (level, unlocked, refl)

  -- A gate that runs and has a reason to block, with the machine ACTIVE, the run RUNNING in the
  -- persisted state ACTIVE and a database that commits, takes the bot to SAFE_MODE: the machine is
  -- there, that state is read back for the run, the event is stored with the reasons and the
  -- report, and no lock is held. The state rows are older than the call.
  pub gate_enforces_safe_mode :
      runs ≡ true
      → no_reasons reasons ≡ false
      → machine.state ≡ active
      → run_status bot_run_id session.current.runs ≡ some "RUNNING"
      → persisted bot_run_id session.current ≡ some active
      → All (λ row. row.created_at < now) session.current.states
      → commits ≡ true
      → (gated.1 ≡ init safe_mode)
        × (persisted bot_run_id gated.0.committed ≡ some safe_mode)
        × (gated.0.committed.events
            ≡ gate_event text reasons report bot_run_id now active ∷ session.current.events)
        × (gated.0.locked ≡ none)
  gate_enforces_safe_mode on blocked at_active running known older c = rw gated_lem (
      enforce-reaches commits now (gate_event text reasons report) bot_run_id (text reasons)
        (runs && not (no_reasons reasons)) session machine (ground (arith, on, blocked)) at_active
        running known older c)
