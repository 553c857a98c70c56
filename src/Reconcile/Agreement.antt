-- ===== src/Reconcile/Agreement.antt =====
-- What a report of backend/reconciliation/engine.py means, and where it leads through the gate.
use k.Base.{
  ℕ, ℤ, ◌<◌, ◌≡◌, ◌≢◌, refl, sym, ◌↔◌, ◌⊎◌, inl, inr, Bool, true, false, ◌&&◌, Option, none, some,
  List, [], ◌∷◌, map, All, String, str_eq_iff, ok, Member, arith,
}
use mathlib.Core.Bool.{false≢true}
use mathlib.Core.Path.{subst}
use k.Base.Numbers.{Numbers}
use k.Exchange.Orders.{PositionState}
use k.Position.Stops.{OrderSide, buy, sell}
use k.Position.Watch.{Watch}
use k.Decision.{DecisionType}
use k.Trading.State.{active, safe_mode, BotStateMachine, init}
use k.Trading.Emergency.{Session, run_status}
use k.Trading.Stops.{persisted}
use k.Reconcile.Gate.{
  DiscrepancyType, missing_in_db, side_mismatch, Discrepancy, ReconciliationReport,
  ReconciliationConfig, BlockingReason, is_missing_in_db, GateEvent, run_and_enforce,
}
use k.Reconcile.Blocking.{some_of_type, blocking_iff, gate_enforces_safe_mode}
use k.Reconcile.Rows.{
  DbPosition, DbOrder, Answers, list_open, position_of, side_value, decision_value,
  persist_position,
}
use k.Reconcile.Report.{asked, reconcile_positions, reconcile, is_complete, is_consistent, is_nil}
use k.Reconcile.Symbols.{Member-sorted_union}
use k.Reconcile.Found.{Cause}
use k.Reconcile.Positions.{Seen, labelled, position_loop_iff}

some-Member :
    (p : DiscrepancyType → Bool) (d : Discrepancy) (ds : List Discrepancy)
    → Member d ds
    → p d.discrepancy_type ≡ true
    → some_of_type p ds ≡ true
some-Member p d [] m h = absurd m
some-Member p d (x ∷ ds) (inl e) h =
    let here : p x.discrepancy_type ≡ true =
      subst (λ (y : Discrepancy). p y.discrepancy_type ≡ true) e h in
    ground arith
some-Member p d (x ∷ ds) (inr m) h = ground (arith, some-Member p d ds m h)

not_nil : {A : Type 0} (x : A) (xs : List A) → Member x xs → is_nil xs ≡ false
not_nil x [] m = absurd m
not_nil x (y ∷ xs) m = refl

sides_never_match :
    (decision : DecisionType) (side : OrderSide) → side_value side ≢ decision_value decision
unfolding side_value decision_value
sides_never_match DecisionType.long buy e = false≢true ((str_eq_iff _ _).1 e)
sides_never_match DecisionType.long sell e = false≢true ((str_eq_iff _ _).1 e)
sides_never_match DecisionType.short buy e = false≢true ((str_eq_iff _ _).1 e)
sides_never_match DecisionType.short sell e = false≢true ((str_eq_iff _ _).1 e)
sides_never_match DecisionType.no_operar buy e = false≢true ((str_eq_iff _ _).1 e)
sides_never_match DecisionType.no_operar sell e = false≢true ((str_eq_iff _ _).1 e)

module _ (N : Numbers) (tolerance : ℤ) (position_manager : Option (String → Watch N)) {E : Type 0}
    (answers : Answers E) (symbols : List String) (bot_run_id : String)
    (positions : List DbPosition) (orders : List DbOrder) where
  abbrev report : ReconciliationReport
  report = reconcile N tolerance position_manager answers symbols bot_run_id positions orders

  abbrev rows : List DbPosition
  rows = list_open bot_run_id positions

  -- The symbols that a reconciliation asks for: those that are configured and those of the open rows.
  abbrev pub Asked : String → Type 0
  Asked symbol = Member symbol symbols ⊎ Member symbol (map (λ (p : DbPosition). p.symbol) rows)

  -- The report has a discrepancy of a position exactly if its symbol is configured or has an open row
  -- of the run, the exchange could be read for it, and what it answered and the last such row are
  -- at odds in the way that the type says: one of the two is missing, the sides or the amounts
  -- differ, no configuration watches the position, or the stop or target on the exchange is not the
  -- one in force.
  pub positions_iff :
      (d : Discrepancy)
      → Member d report.position_discrepancies ↔ (
          Asked d.symbol
          × Seen N tolerance position_manager answers rows d.symbol d.discrepancy_type)
  unfolding reconcile reconcile_positions
  positions_iff d =
      let loop =
        position_loop_iff N tolerance position_manager answers rows d
          (asked N tolerance position_manager answers symbols bot_run_id positions) in
      let union = Member-sorted_union d.symbol symbols (map (λ (p : DbPosition). p.symbol) rows) in
      (λ h. (union.0 (loop.0 h).0, (loop.0 h).1), λ (a, seen). loop.1 (union.1 a, seen))

  consistent_empty :
      (d : Discrepancy) → Member d report.position_discrepancies → is_consistent report ≡ false
  unfolding is_consistent is_complete
  consistent_empty d m = ground (arith, not_nil d report.position_discrepancies m)

  -- A position that the bot has opened itself is always reported with a side mismatch, while the
  -- exchange can be read and holds a position of its symbol, on either side: the row says LONG or
  -- SHORT and the exchange BUY or SELL. So no report is consistent while such a position is open.
  pub opened_position_mismatches :
      (decision : DecisionType) (symbol : String) (quantity_filled fill_price : ℤ)
      (held : PositionState)
      → position_of symbol rows
        ≡ some (persist_position bot_run_id decision symbol quantity_filled fill_price)
      → Asked symbol
      → answers.get_position symbol ≡ ok (some held)
      → Member (labelled symbol side_mismatch) report.position_discrepancies
        × (is_consistent report ≡ false)
  unfolding persist_position
  opened_position_mismatches decision symbol quantity_filled fill_price held row a read =
      let d = labelled symbol side_mismatch in
      let m : Member d report.position_discrepancies = (positions_iff d).1 (
        a,
        (
          some held,
          read,
          subst (λ r. Cause N tolerance position_manager symbol (some held) r side_mismatch)
              (sym row) (sides_never_match decision held.side),
        ),
      ) in
      (m, consistent_empty d m)

  -- With the gate configured to run and to block on untracked positions, a position on the exchange
  -- of which the database has no open row takes an ACTIVE bot to SAFE_MODE, where the exchange can
  -- be read for its symbol, the symbol is one of those configured, the run is RUNNING in the
  -- persisted state ACTIVE, the state rows are older than the call and the database commits: the
  -- machine is there, and that state is read back for the run.
  pub untracked_position_stops :
      (symbol : String) (held : PositionState) (now : ℕ) (text : List BlockingReason → String)
      (config : ReconciliationConfig) (session : Session GateEvent) (machine : BotStateMachine)
      → Member symbol symbols
      → answers.get_position symbol ≡ ok (some held)
      → position_of symbol rows ≡ none
      → config.block_on_untracked_positions ≡ true
      → config.enabled && config.run_before_new_entries ≡ true
      → machine.state ≡ active
      → run_status bot_run_id session.current.runs ≡ some "RUNNING"
      → persisted bot_run_id session.current ≡ some active
      → All (λ row. row.created_at < now) session.current.states
      → let gated = run_and_enforce true now text config bot_run_id report session machine in
        (gated.1 ≡ init safe_mode) × (persisted bot_run_id gated.0.committed ≡ some safe_mode)
  untracked_position_stops symbol held now text config session machine configured read unknown flag
        on at_active running known older =
      let d = labelled symbol missing_in_db in
      let m : Member d report.position_discrepancies = (positions_iff d).1 (
        inl configured,
        (
          some held,
          read,
          subst (λ r. Cause N tolerance position_manager symbol (some held) r missing_in_db)
              (sym unknown) refl,
        ),
      ) in
      let found = some-Member is_missing_in_db d report.position_discrepancies m refl in
      let blocked = (blocking_iff config report).1 (inr (inr (inl (flag, found)))) in
      let (there, back, _, _) =
        gate_enforces_safe_mode true now text config bot_run_id report session machine on blocked
          at_active running known older refl in
      (there, back)
