-- ===== src/Trading/Emergency.antt =====
-- backend/trading_core/emergency_stop.py, with the rows and repositories of backend/storage that
-- it uses: lock the run, read the persisted state again, validate, persist and commit.
-- The database session is SQLAlchemy's: here it is a committed store, the store as this
-- transaction sees it, and the run whose row it has locked. Whether the flush and the commit go
-- through is decided outside and is an argument.
use mathlib.Core.Option
use k.Base.{
  ℕ, Bool, not, Option, none, some, List, [], ◌∷◌, String, str_eq, Result, ok, err, ltb,
  if◌then◌else◌,
}
use k.Trading.State.{
  BotState, value, state_eq, member, InvalidStateTransitionError, BotStateMachine, init,
  transition_to, force_set, resolve_persisted_state,
}

-- A row of `bot_states` (the ORM's `BotState`).
pub record BotStateRow : Type 0 where
  pub bot_run_id : String
  pub row_state : String
  pub previous_state : String
  pub reason : String
  pub created_at : ℕ

-- The tables that the service touches: the status of each run by its id, the state rows and the
-- audit events. `Event` is the caller's kind of audit row.
pub record Store (Event : Type 0) : Type 0 where
  pub runs : List (String × String)
  pub states : List BotStateRow
  pub events : List Event

pub record Session (Event : Type 0) : Type 0 where
  pub committed : Store Event
  pub current : Store Event
  pub locked : Option String

-- `EmergencyStopRejected` and its subclasses, and the transition error that is raised again.
pub data Rejection : Type 0 where
  bot_run_not_running : String → Option String → Rejection
  unknown_persisted_state : String → Option String → Rejection
  current_state_not_allowed : BotState → List BotState → Rejection
  invalid_transition : InvalidStateTransitionError → Rejection

pub data Failure : Type 0 where
  rejected : Rejection → Failure
  database_error : Failure

pub record EmergencyStopResult : Type 0 where
  pub bot_state : BotStateRow
  pub previous_state : BotState
  pub triggered_at : ℕ

-- The keyword arguments of `trigger`, but the machine and the event factory.
pub record Request : Type 0 where
  pub bot_run_id : String
  pub target : BotState
  pub reason : String
  pub require_current_in : Option (List BotState)
  pub release_lock_on_reject : Bool

-- The later of two rows, for `order_by(created_at.desc()).limit(1)`.
abbrev newer : BotStateRow → Option BotStateRow → BotStateRow
newer r none = r
newer r (some best) = if ltb best.created_at r.created_at then r else best

-- `BotStateRepository.get_latest`
unfoldable pub get_latest : String → List BotStateRow → Option BotStateRow
get_latest run_id [] = none
get_latest run_id (r ∷ rows) =
    let best = get_latest run_id rows in
    if str_eq r.bot_run_id run_id then some (newer r best) else best

-- The status of the run with that id.
unfoldable pub run_status : String → List (String × String) → Option String
run_status run_id [] = none
run_status run_id ((j, status) ∷ runs) =
    if str_eq j run_id then some status else run_status run_id runs

-- `require_current_in is not None and current not in require_current_in`: the states that were
-- required, if they rule out the current one.
unfoldable pub unmet : Option (List BotState) → BotState → Option (List BotState)
unmet none current = none
unmet (some states) current = if member current states then none else some states

-- `if state_machine is not None and current != state_machine.state: state_machine.force_set(…)`
unfoldable pub resync : Option BotStateMachine → BotState → Option BotStateMachine
unfolding force_set
resync none current = none
resync (some m) current = some (if not (state_eq current m.state) then force_set m current else m)

-- `if state_machine is not None: state_machine.force_set(target)`
unfoldable pub follow : Option BotStateMachine → BotState → Option BotStateMachine
unfolding force_set
follow none target = none
follow (some m) target = some (force_set m target)

abbrev pub Outcome : Type 0 → Type 0
Outcome Event = Session Event × Option BotStateMachine × Result Failure EmergencyStopResult

-- The row that `trigger` saves.
abbrev pub row_of : Request → ℕ → BotState → BotStateRow
row_of r now current = record {
  bot_run_id = r.bot_run_id;
  row_state = value r.target;
  previous_state = value current;
  reason = r.reason;
  created_at = now;
}

module _ {Event : Type 0} where
  unfoldable pub rollback : Session Event → Session Event
  rollback s = record s { current = s.committed; locked = none }

  unfoldable pub commit : Session Event → Session Event
  commit s = record s { committed = s.current; locked = none }

  -- `session.get(BotRun, id, with_for_update=True)`: a row that exists is locked.
  unfoldable pub lock_run : String → Session Event → Session Event
  lock_run run_id s = record s {
    locked = elim (run_status run_id s.current.runs) [ none ↦ s.locked | some _ ↦ some run_id ];
  }

  -- `if release_lock_on_reject: self._session.rollback()`
  unfoldable pub release : Bool → Session Event → Session Event
  unfolding rollback
  release on_reject s = if on_reject then rollback s else s

  abbrev pub reject : Request → Session Event → Option BotStateMachine → Rejection → Outcome Event
  reject r s machine why = (release r.release_lock_on_reject s, machine, err (rejected why))

  -- `session.add` of the state row and of the audit event.
  abbrev pub add_rows : BotStateRow → Event → Session Event → Session Event
  add_rows row event s = record s {
    current = record (s.current) {
      states = row ∷ s.current.states;
      events = event ∷ s.current.events;
    };
  }

  module _ (commits : Bool) (now : ℕ) (factory : String → ℕ → BotState → Event) where
    -- From the save of the new row to the end of `trigger`.
    unfoldable pub persist :
        Request → Session Event → Option BotStateMachine → BotState → Outcome Event
    unfolding commit follow
    persist r s machine current =
        let row = row_of r now current in
        let s' = add_rows row (factory r.bot_run_id now current) s in
        if commits
        then (
          commit s',
          follow machine r.target,
          ok (record { bot_state = row; previous_state = current; triggered_at = now }),
        )
        else (s', machine, err database_error)

    -- The validations, once the persisted state is known and the machine follows it.
    unfoldable pub validate :
        Request → Session Event → Option BotStateMachine → BotState → Outcome Event
    unfolding persist release
    validate r s machine current = elim (unmet r.require_current_in current) [
      | some states ↦ reject r s machine (current_state_not_allowed current states)
      | none ↦ elim (transition_to (init current) r.target).1 [
        | err e ↦ reject r s machine (invalid_transition e)
        | ok _ ↦ persist r s machine current
      ]
    ]

    -- From the reading of the latest persisted state, on a run that is RUNNING.
    unfoldable pub on_running : Request → Session Event → Option BotStateMachine → Outcome Event
    unfolding validate
    on_running r s machine =
        let raw_state =
          Option.map (λ row. row.row_state) (get_latest r.bot_run_id s.current.states) in
        elim (resolve_persisted_state raw_state) [
          | none ↦ reject r s machine (unknown_persisted_state r.bot_run_id raw_state)
          | some current ↦ validate r s (resync machine current) current
        ]

    -- `EmergencyStopService.trigger`
    unfoldable pub trigger : Request → Session Event → Option BotStateMachine → Outcome Event
    unfolding on_running lock_run
    trigger r session machine =
        let s = lock_run r.bot_run_id session in
        elim (run_status r.bot_run_id session.current.runs) [
          | none ↦ reject r s machine (bot_run_not_running r.bot_run_id none)
          | some status ↦
              if not (str_eq status "RUNNING")
              then reject r s machine (bot_run_not_running r.bot_run_id (some status))
              else on_running r s machine
        ]
