-- ===== src/Trading/SafeMode.antt =====
-- How the monitors of the worker apply SAFE_MODE: `check_and_enforce` of
-- backend/connection_health/monitor.py and `run_and_enforce` of backend/reconciliation/gate.py end
-- in the same way, with a stop that is only asked for in ACTIVE and whose rejections are dropped.
use k.Base.{
  ℕ, ◌<◌, ◌≡◌, ◌≢◌, refl, inl, inr, Bool, true, not, Option, none, some, [], ◌∷◌, String, Result,
  ok, err, Result-cases, Bool-cases, All, arith, ap, if◌then◌else◌,
}
use k.Trading.State.{
  BotState, active, safe_mode, state_eq, BotStateMachine, init, can_transition_to,
}
use k.Trading.Transitions.{state_eq_iff}
use k.Trading.Emergency.{
  Session, Failure, rejected, database_error, Request, EmergencyStopResult, run_status, unmet,
  Outcome, rollback, trigger,
}
use k.Trading.Stops.{
  persisted, failed_stop_changes_nothing, stop_commits, stop_is_read_back, trigger_settles,
}
use k.Trading.Sync.{stop_succeeds}

-- The audit row that a monitor adds, without its id.
pub record SystemEvent (Details : Type 0) : Type 0 where
  pub bot_run_id : String
  pub timestamp : ℕ
  pub event_type : String
  pub severity : String
  pub message : String
  pub details : Details

-- The object that was passed to `trigger`, as the call leaves it.
abbrev pub held : BotStateMachine → Option BotStateMachine → BotStateMachine
held before none = before
held before (some machine) = machine

-- What is asked of the emergency stop.
abbrev pub safe_mode_from_active : String → String → Request
safe_mode_from_active bot_run_id reason = record {
  bot_run_id = bot_run_id;
  target = safe_mode;
  reason = reason;
  require_current_in = some (active ∷ []);
  release_lock_on_reject = true;
}

module _ {Event : Type 0} (commits : Bool) (now : ℕ) where
  -- The stop, with every rejection dropped.
  unfoldable pub trigger_stop :
      (String → ℕ → BotState → Event)
      → Request
      → Session Event
      → BotStateMachine
      → Session Event × BotStateMachine × Result Failure (Unit {0})
  trigger_stop factory request session machine =
      let (s, machine', r) = trigger commits now factory request session (some machine) in
      (
        s,
        held machine machine',
        elim r [
          | ok _ ↦ ok tt
          | err (rejected why) ↦ ok tt
          | err database_error ↦ err database_error
        ],
      )

  -- From the findings to the end of the call: nothing without findings or outside ACTIVE.
  unfoldable pub enforce :
      Bool
      → (String → ℕ → BotState → Event)
      → Request
      → Session Event
      → BotStateMachine
      → Session Event × BotStateMachine
  unfolding trigger_stop
  enforce blocked factory request session machine =
      let (s, machine', r) = trigger_stop factory request session machine in
      if not blocked
      then (session, machine)
      else if not (state_eq machine.state active)
      then (session, machine)
      else elim r [ ok _ ↦ (s, machine') | err _ ↦ (rollback s, machine') ]

module _ {Event : Type 0} (commits : Bool) (now : ℕ) (factory : String → ℕ → BotState → Event)
    (bot_run_id reason : String) (blocked : Bool) (session : Session Event)
    (machine : BotStateMachine) where
  abbrev request : Request
  request = safe_mode_from_active bot_run_id reason

  abbrev stop : Outcome Event
  stop = trigger commits now factory request session (some machine)

  abbrev enforced : Session Event × BotStateMachine
  enforced = enforce commits now blocked factory request session machine

  -- The ways through the call: nothing is done, or the stop was tried, and rolled back if the
  -- database failed.
  data Way : Type 0 where
    idle : enforced ≡ (session, machine) → Way
    tried :
        blocked ≡ true
        → machine.state ≡ active
        → stop.2 ≢ err database_error
        → enforced ≡ (stop.0, held machine stop.1)
        → Way
    rolled_back :
        stop.2 ≡ err database_error → enforced ≡ (rollback stop.0, held machine stop.1) → Way

  way : Way
  unfolding enforce
  way = elim (Bool-cases blocked) [
    | inr clean ↦ idle (ground arith)
    | inl anomalies ↦ elim (Bool-cases (state_eq machine.state active)) [
      | inr other ↦ idle (ground arith)
      | inl at_active ↦ elim (Result-cases stop.2) [
        | inl (res, done) ↦
            tried anomalies ((state_eq_iff machine.state active).0 at_active) (ground arith)
              (ground arith)
        | inr (rejected why, failed) ↦
            tried anomalies ((state_eq_iff machine.state active).0 at_active) (ground arith)
              (ground arith)
        | inr (database_error, failed) ↦ rolled_back failed (ground arith)
      ]
    ]
  ]

  -- A session that had nothing pending and no lock is left so.
  pub enforce-settles :
      session.current ≡ session.committed
      → session.locked ≡ none
      → (enforced.0.current ≡ enforced.0.committed) × (enforced.0.locked ≡ none)
  unfolding rollback
  enforce-settles clean free = elim way [
    | idle same ↦ rw same (clean, free)
    | tried anomalies at_active fine same ↦
        let (level, unlocked) =
          trigger_settles commits now factory request session (some machine) refl fine in
        rw same (level, unlocked)
    | rolled_back failed same ↦ rw same (refl, refl)
  ]

  stop_from_active :
      {res : EmergencyStopResult}
      → stop.2 ≡ ok res
      → persisted bot_run_id session.current ≡ some active
  unfolding unmet
  stop_from_active {res} done =
      let (_, known, c) = stop_commits commits now factory request session (some machine) done in
      ground (arith, known, c.required)

  -- The committed tables change only on a finding, from ACTIVE.
  pub enforce-changes :
      enforced.0.committed ≢ session.committed
      → (blocked ≡ true)
        × (machine.state ≡ active)
        × (persisted bot_run_id session.current ≡ some active)
  unfolding rollback
  enforce-changes changed = elim way [
    | idle same ↦ absurd (changed (rw same refl))
    | tried anomalies at_active fine same ↦ elim (Result-cases stop.2) [
      | inl (res, done) ↦ (anomalies, at_active, stop_from_active done)
      | inr (f, failed) ↦ absurd (
          changed (
            rw same
              (failed_stop_changes_nothing commits now factory request session (some machine)
                failed).0))
    ]
    | rolled_back failed same ↦ absurd (
        changed (
          rw same
            (failed_stop_changes_nothing commits now factory request session (some machine)
              failed).0))
  ]

  enforced_stop :
      {res : EmergencyStopResult}
      → blocked ≡ true
      → machine.state ≡ active
      → stop.2 ≡ ok res
      → enforced ≡ (stop.0, held machine stop.1)
  unfolding enforce
  enforced_stop anomalies at_active done =
      ground (arith, (state_eq_iff machine.state active).1 at_active)

  -- A finding in ACTIVE leads to SAFE_MODE if the database commits.
  pub enforce-reaches :
      blocked ≡ true
      → machine.state ≡ active
      → run_status bot_run_id session.current.runs ≡ some "RUNNING"
      → persisted bot_run_id session.current ≡ some active
      → All (λ row. row.created_at < now) session.current.states
      → commits ≡ true
      → (enforced.1 ≡ init safe_mode)
        × (persisted bot_run_id enforced.0.committed ≡ some safe_mode)
        × (enforced.0.committed.events ≡ factory bot_run_id now active ∷ session.current.events)
        × (enforced.0.locked ≡ none)
  unfolding unmet init can_transition_to
  enforce-reaches anomalies at_active running known older c =
      let done =
        stop_succeeds commits now factory request session (some machine) {current = active} running
          known refl refl c in
      let (_, _, left) = stop_commits commits now factory request session (some machine) done in
      rw (enforced_stop anomalies at_active done) (
        ap (held machine) left.followed,
        stop_is_read_back commits now factory request session (some machine) older done,
        ap (λ store. store.events) left.stored,
        left.unlocked,
      )
