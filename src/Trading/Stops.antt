-- ===== src/Trading/Stops.antt =====
-- What `EmergencyStopService.trigger` (backend/trading_core/emergency_stop.py) guarantees of the
-- database and of the machine in memory, however it ends.
use mathlib.Core.Option
use k.Base.{
  is_ok, ℕ, ◌<◌, ◌≡◌, ◌≢◌, refl, Bool, true, Option, none, some, List, [], ◌∷◌, String, inl, inr,
  Option-cases, str_eq_iff, ok, err, All, arith,
}
use k.Trading.State.{
  transition_to, BotState, value, BotStateMachine, init, can_transition_to, resolve_persisted_state,
}
use k.Trading.Transitions.{state_eq_iff, resolve_persisted_state_iff}
use k.Trading.Emergency.{
  lock_run, follow, validate, on_running, BotStateRow, Store, Session, Failure, database_error,
  EmergencyStopResult, Request, get_latest, run_status, unmet, resync, row_of, trigger, Outcome,
}

-- The state that a run has by its rows.
abbrev pub persisted : {Event : Type 0} → String → Store Event → Option BotState
persisted run_id s =
    resolve_persisted_state (Option.map (λ row. row.row_state) (get_latest run_id s.states))

get_latest-lt :
    (run_id : String) (n : ℕ) (rows : List BotStateRow) {best : BotStateRow}
    → All (λ r. r.created_at < n) rows
    → get_latest run_id rows ≡ some best
    → best.created_at < n
unfolding get_latest
get_latest-lt run_id n [] h e = cc
get_latest-lt run_id n (r ∷ rows) h e = elim (Option-cases (get_latest run_id rows)) [
  | inl none_below ↦ ground (arith, get_latest-lt run_id n rows h.1)
  | inr (b, found) ↦
      ground (arith, get_latest-lt run_id n rows h.1 found, get_latest-lt run_id n rows h.1)
]

get_latest-cons :
    (row : BotStateRow) (rows : List BotStateRow)
    → All (λ r. r.created_at < row.created_at) rows
    → get_latest row.bot_run_id (row ∷ rows) ≡ some row
unfolding get_latest
get_latest-cons row rows h = elim (Option-cases (get_latest row.bot_run_id rows)) [
  | inl e ↦ ground (arith, str_eq_iff row.bot_run_id row.bot_run_id)
  | inr (best, e) ↦ ground (
    arith,
    str_eq_iff row.bot_run_id row.bot_run_id,
    get_latest-lt row.bot_run_id row.created_at rows h e,
  )
]

resolve_value : (t : BotState) → resolve_persisted_state (some (value t)) ≡ some t
resolve_value t = (resolve_persisted_state_iff (value t) t).0.1 refl

follow_lem :
    (machine : Option BotStateMachine) (t : BotState)
    → follow machine t ≡ Option.map {A = BotStateMachine} (λ _. init t) machine
unfolding follow init
follow_lem none t = refl
follow_lem (some m) t = ground (arith, state_eq_iff t m.state)

pub map-resync :
    (machine : Option BotStateMachine) (c t : BotState)
    → Option.map {A = BotStateMachine} (λ _. init t) (resync machine c)
      ≡ Option.map {A = BotStateMachine} (λ _. init t) machine
unfolding resync
map-resync none c t = refl
map-resync (some m) c t = refl

pub transition_to-ok :
    (m : BotStateMachine) (t : BotState)
    → is_ok (transition_to m t).1 ≡ true
    → can_transition_to m t ≡ true
unfolding transition_to
transition_to-ok m t e = ground arith

module _ {Event : Type 0} (commits : Bool) (now : ℕ) (factory : String → ℕ → BotState → Event) where
  abbrev stop : Request → Session Event → Option BotStateMachine → Outcome Event
  stop = trigger commits now factory

  -- A stop that is rejected or that the database refuses leaves the committed tables as they
  -- were. After a rejection with `release_lock_on_reject` no lock is held either, and nothing is
  -- pending.
  pub failed_stop_changes_nothing :
      (r : Request) (s : Session Event) (machine : Option BotStateMachine) {f : Failure}
      → (trigger commits now factory r s machine).2 ≡ err f
      → ((trigger commits now factory r s machine).0.committed ≡ s.committed)
        × (r.release_lock_on_reject ≡ true
            → f ≢ database_error
            → ((trigger commits now factory r s machine).0.locked ≡ none)
              × ((trigger commits now factory r s machine).0.current ≡ s.committed))
  unfolding trigger
  failed_stop_changes_nothing r s machine e = ground arith

  -- A stop that releases its lock on a rejection leaves nothing pending and no lock, unless the
  -- database fails.
  pub trigger_settles :
      (r : Request) (s : Session Event) (machine : Option BotStateMachine)
      → r.release_lock_on_reject ≡ true
      → (trigger commits now factory r s machine).2 ≢ err database_error
      → ((trigger commits now factory r s machine).0.current
          ≡ (trigger commits now factory r s machine).0.committed)
        × ((trigger commits now factory r s machine).0.locked ≡ none)
  unfolding trigger
  trigger_settles r s machine release fine = ground arith

  -- What a stop that succeeded from the state `current` leaves.
  pub record Committed (r : Request) (s : Session Event) (machine : Option BotStateMachine)
      (current : BotState) (o : Outcome Event) : Type 0 where
    pub stored : o.0.committed ≡ record (s.current) {
      states = row_of r now current ∷ s.current.states;
      events = factory r.bot_run_id now current ∷ s.current.events;
    }
    pub unlocked : o.0.locked ≡ none
    pub permitted : can_transition_to (init current) r.target ≡ true
    pub required : unmet r.require_current_in current ≡ none
    pub followed : o.1 ≡ Option.map {A = BotStateMachine} (λ _. init r.target) machine

  validate-Committed :
      (r : Request) (s : Session Event) (machine : Option BotStateMachine) (current : BotState)
      (res : EmergencyStopResult)
      → (validate commits now factory r s machine current).2 ≡ ok res
      → (res.previous_state ≡ current)
        × Committed r s machine current (validate commits now factory r s machine current)
  unfolding validate
  validate-Committed r s machine current res e =
      ground (arith, follow_lem machine r.target, transition_to-ok (init current) r.target)

  pub on_running-known :
      (r : Request) (s : Session Event) (machine : Option BotStateMachine) {current : BotState}
      → persisted r.bot_run_id s.current ≡ some current
      → on_running commits now factory r s machine
        ≡ validate commits now factory r s (resync machine current) current
  unfolding on_running
  on_running-known r s machine found = rw (found, on_running)

  on_running-Committed :
      (r : Request) (s : Session Event) (machine : Option BotStateMachine)
      (res : EmergencyStopResult)
      → (on_running commits now factory r s machine).2 ≡ ok res
      → (persisted r.bot_run_id s.current ≡ some res.previous_state)
        × Committed r s machine res.previous_state (on_running commits now factory r s machine)
  on_running-Committed r s machine res e = elim (Option-cases (persisted r.bot_run_id s.current)) [
    | inl unknown ↦ unfold on_running in ground arith
    | inr (current, found) ↦ ground (
      arith,
      found,
      on_running-known r s machine found,
      validate-Committed r s (resync machine current) current res,
      map-resync machine current r.target,
    )
  ]

  -- A stop that succeeds is committed: the run was RUNNING and its persisted state known, the
  -- table permits the transition from that state and the required states admit it; the tables
  -- have one new state row and one new audit event and are otherwise as they were read, no lock
  -- is held, and a machine in memory is at the target.
  pub stop_commits :
      (r : Request) (s : Session Event) (machine : Option BotStateMachine)
      {res : EmergencyStopResult}
      → (trigger commits now factory r s machine).2 ≡ ok res
      → (run_status r.bot_run_id s.current.runs ≡ some "RUNNING")
        × (persisted r.bot_run_id s.current ≡ some res.previous_state)
        × Committed r s machine res.previous_state (trigger commits now factory r s machine)
  unfolding trigger
  stop_commits r s machine {res} e = elim (Option-cases (run_status r.bot_run_id s.current.runs)) [
    | inl absent ↦ ground arith
    | inr (status, present) ↦ ground (
      arith,
      str_eq_iff status "RUNNING",
      on_running-Committed r (lock_run r.bot_run_id s) machine res,
    )
  ]

  -- Where the rows of the run are older than the stop, the next reading of the persisted state
  -- finds the target of a stop that succeeded.
  pub stop_is_read_back :
      (r : Request) (s : Session Event) (machine : Option BotStateMachine)
      {res : EmergencyStopResult}
      → All (λ row. row.created_at < now) s.current.states
      → (trigger commits now factory r s machine).2 ≡ ok res
      → persisted r.bot_run_id (trigger commits now factory r s machine).0.committed ≡ some r.target
  stop_is_read_back r s machine {res} older e =
      let (_, _, c) = stop_commits r s machine e in
      rw (
        c.stored,
        get_latest-cons (row_of r now res.previous_state) s.current.states older,
        resolve_value r.target,
      )
