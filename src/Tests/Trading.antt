-- ===== src/Tests/Trading.antt =====
-- The state machine and the emergency stop on one run of the bot.
use mathlib.Core.List.{Memᴰ}
use k.Base.{false, ℕ, ◌≡◌, ◌≢◌, refl, ◌⊎◌, true, none, some, ok, err, [], ◌∷◌, String, arith, is_ok}
use k.Trading.State.{
  BotState, active, safe_mode, halted, kill_switch_triggered, init, can_transition_to,
  transition_to, force_set, can_trade, can_manage_positions, is_running, resolve_persisted_state,
  member,
}
use k.Trading.Transitions.{kill_switch_needs_review}
use k.Trading.Emergency.{
  BotStateRow, Store, Session, rejected, bot_run_not_running, database_error, Request,
  EmergencyStopResult, get_latest, run_status, unmet, resync, row_of, trigger,
}
use k.Trading.Stops.{
  persisted, Committed, failed_stop_changes_nothing, stop_commits, stop_is_read_back,
}
use k.Trading.Sync.{memory_follows_database, stop_succeeds, kill_switch_stops}

machine : Unit {0}
unfolding init transition_to can_trade can_manage_positions is_running force_set
machine = tt

kill_switch_needs_review_example : Memᴰ halted (active ∷ halted ∷ active ∷ [])
unfolding machine
kill_switch_needs_review_example = kill_switch_needs_review (active ∷ halted ∷ active ∷ []) refl

-- Events are numbers here, the time of the stop.
abbrev event : String → ℕ → BotState → ℕ
event run_id now previous = now

abbrev row : BotStateRow
row = record {
  bot_run_id = "r1";
  row_state = "SAFE_MODE";
  previous_state = "ACTIVE";
  reason = "reconciliation";
  created_at = 5;
}

abbrev tables : Store ℕ
tables = record {
  runs = ("r0", "CRASHED") ∷ ("r1", "RUNNING") ∷ [];
  states = row ∷ [];
  events = [];
}

abbrev session : Session ℕ
session = record { committed = tables; current = tables; locked = none }

abbrev request : Request
request = record {
  bot_run_id = "r1";
  target = kill_switch_triggered;
  reason = "manual";
  require_current_in = none;
  release_lock_on_reject = true;
}

-- The same stop on a run that has crashed.
abbrev crashed : Request
crashed = record request { bot_run_id = "r0" }

abbrev stopped : EmergencyStopResult
stopped = record {
  bot_state = row_of request 9 safe_mode;
  previous_state = safe_mode;
  triggered_at = 9;
}

stop : Unit {0}
unfolding trigger machine get_latest run_status unmet resync resolve_persisted_state
stop = tt

stops : (trigger true 9 event request session (some (init active))).2 ≡ ok stopped
unfolding stop
stops = refl

rejects :
    (trigger true 9 event crashed session none).2
    ≡ err (rejected (bot_run_not_running "r0" (some "CRASHED")))
unfolding stop
rejects = refl

failed_stop_changes_nothing_example :
    ((trigger true 9 event crashed session none).0.committed ≡ tables)
    × (true ≡ true
        → rejected (bot_run_not_running "r0" (some "CRASHED")) ≢ database_error
        → ((trigger true 9 event crashed session none).0.locked ≡ none)
          × ((trigger true 9 event crashed session none).0.current ≡ tables))
failed_stop_changes_nothing_example =
    failed_stop_changes_nothing true 9 event crashed session none
      {f = rejected (bot_run_not_running "r0" (some "CRASHED"))} rejects

stop_commits_example :
    (run_status "r1" tables.runs ≡ some "RUNNING")
    × (persisted "r1" tables ≡ some safe_mode)
    × Committed true 9 event request session
        (some (init active))
        safe_mode
        (trigger true 9 event request session (some (init active)))
stop_commits_example =
    stop_commits true 9 event request session (some (init active)) {res = stopped} stops

stop_is_read_back_example :
    persisted "r1" (trigger true 9 event request session (some (init active))).0.committed
    ≡ some kill_switch_triggered
stop_is_read_back_example =
    stop_is_read_back true 9 event request session (some (init active)) {res = stopped}
      (omega arith) stops

memory_follows_database_example :
    ((trigger true 9 event request session (some (init active))).1 ≡ some (init active))
    ⊎ ((b : BotState) × ((trigger true 9 event request session (some (init active))).1
          ≡ some (init b))
        × (persisted "r1" (trigger true 9 event request session (some (init active))).0.committed
            ≡ some b))
memory_follows_database_example =
    memory_follows_database true 9 event request session (init active) (omega arith) refl

stop_succeeds_example : (trigger true 9 event request session (some (init active))).2 ≡ ok stopped
unfolding stop can_transition_to
stop_succeeds_example =
    stop_succeeds true 9 event request session (some (init active)) {current = safe_mode} refl refl
      refl refl refl

kill_switch_stops_example :
    let (after, m, result) = trigger true 9 event request session none in
    (is_ok result ≡ member safe_mode (active ∷ safe_mode ∷ halted ∷ []))
    × (is_ok result ≡ true
        → (persisted "r1" after.committed ≡ some kill_switch_triggered)
          × (after.committed ≡ record tables {
            states = row_of request 9 safe_mode ∷ tables.states;
            events = event "r1" 9 safe_mode ∷ tables.events;
          })
          × (m ≡ none)
          × (after.locked ≡ none))
    × (is_ok result ≡ false → after.committed ≡ tables)
unfolding stop
kill_switch_stops_example =
    kill_switch_stops true 9 event request session none {current = safe_mode} (omega arith) refl
      refl refl refl refl
