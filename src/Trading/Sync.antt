-- ===== src/Trading/Sync.antt =====
-- When `EmergencyStopService.trigger` (backend/trading_core/emergency_stop.py) goes through, and
-- what the machine in memory has to do with the database however it ends.
use mathlib.Core.Option
use mathlib.Core.Path.{subst}
use k.Base.{
  ap, ◌∙◌, false, is_ok-inv, Result, ℕ, ◌<◌, ◌≡◌, ◌⊎◌, inl, inr, Bool, true, Option, none, some, [],
  ◌∷◌, String, str_eq_iff, ok, err, is_ok, Result-cases, Option-cases, All, arith,
}
use k.Trading.State.{
  BotState, active, safe_mode, halted, kill_switch_triggered, BotStateMachine, init, member,
  can_transition_to, transition_to,
}
use k.Trading.Transitions.{state_eq_iff}
use k.Trading.Emergency.{
  Session, Failure, Request, run_status, unmet, resync, lock_run, row_of, validate, on_running,
  trigger, EmergencyStopResult,
}
use k.Trading.Stops.{
  persisted, failed_stop_changes_nothing, on_running-known, stop_commits, stop_is_read_back,
}

resync-some : (m : BotStateMachine) (c : BotState) → resync (some m) c ≡ some (init c)
unfolding resync init
resync-some m c = ground (arith, state_eq_iff c m.state)

module _ {Event : Type 0} (commits : Bool) (now : ℕ) (factory : String → ℕ → BotState → Event) where
  validate_failed :
      (r : Request) (s : Session Event) (machine : Option BotStateMachine) (current : BotState)
      (f : Failure)
      → (validate commits now factory r s machine current).2 ≡ err f
      → (validate commits now factory r s machine current).1 ≡ machine
  unfolding validate
  validate_failed r s machine current f e = ground arith

  on_running_failed :
      (r : Request) (s : Session Event) (m : BotStateMachine) (f : Failure)
      → (on_running commits now factory r s (some m)).2 ≡ err f
      → ((on_running commits now factory r s (some m)).1 ≡ some m)
        ⊎ ((b : BotState) × ((on_running commits now factory r s (some m)).1 ≡ some (init b))
            × (persisted r.bot_run_id s.current ≡ some b))
  on_running_failed r s m f e = elim (Option-cases (persisted r.bot_run_id s.current)) [
    | inl unknown ↦ inl (unfold on_running in rw (unknown, on_running))
    | inr (current, found) ↦ inr (
      current,
      ground (
        arith,
        on_running-known commits now factory r s (some m) found,
        validate_failed r s (resync (some m) current) current f,
        resync-some m current,
      ),
      found,
    )
  ]

  trigger_running :
      (r : Request) (s : Session Event) (machine : Option BotStateMachine)
      → run_status r.bot_run_id s.current.runs ≡ some "RUNNING"
      → trigger commits now factory r s machine
        ≡ on_running commits now factory r (lock_run r.bot_run_id s) machine
  unfolding trigger
  trigger_running r s machine running = ground (arith, str_eq_iff "RUNNING" "RUNNING")

  trigger_cases :
      (r : Request) (s : Session Event) (machine : Option BotStateMachine)
      → (trigger commits now factory r s machine
          ≡ on_running commits now factory r (lock_run r.bot_run_id s) machine)
        ⊎ ((trigger commits now factory r s machine).1 ≡ machine)
  unfolding trigger
  trigger_cases r s machine = ground arith

  trigger_failed :
      (r : Request) (s : Session Event) (m : BotStateMachine) (f : Failure)
      → (trigger commits now factory r s (some m)).2 ≡ err f
      → ((trigger commits now factory r s (some m)).1 ≡ some m)
        ⊎ ((b : BotState) × ((trigger commits now factory r s (some m)).1 ≡ some (init b))
            × (persisted r.bot_run_id s.current ≡ some b))
  unfolding lock_run
  trigger_failed r s m f e = elim (trigger_cases r s (some m)) [
    | inl on ↦ rw on (on_running_failed r (lock_run r.bot_run_id s) m f (rw on at e))
    | inr same ↦ inl same
  ]

  -- However a stop ends, a machine that was given in memory is where it was, or at the state that
  -- the committed tables hold for the run: it is never ahead of the database. The state rows are
  -- older than the stop, and the session had nothing pending.
  pub memory_follows_database :
      (r : Request) (s : Session Event) (m : BotStateMachine)
      → All (λ row. row.created_at < now) s.current.states
      → s.current ≡ s.committed
      → ((trigger commits now factory r s (some m)).1 ≡ some m)
        ⊎ ((b : BotState) × ((trigger commits now factory r s (some m)).1 ≡ some (init b))
            × (persisted r.bot_run_id (trigger commits now factory r s (some m)).0.committed
                ≡ some b))
  memory_follows_database r s m older clean =
      elim (Result-cases (trigger commits now factory r s (some m)).2) [
        | inl (res, done) ↦ inr (
          r.target,
          (stop_commits commits now factory r s (some m) done).2.followed,
          stop_is_read_back commits now factory r s (some m) older done,
        )
        | inr (f, failed) ↦ elim (trigger_failed r s m f failed) [
          | inl same ↦ inl same
          | inr (b, at_b, read) ↦ inr (
            b,
            at_b,
            rw ((failed_stop_changes_nothing commits now factory r s (some m) failed).0, ← clean)
                read,
          )
        ]
      ]

  validate_ok :
      (r : Request) (s : Session Event) (machine : Option BotStateMachine) (current : BotState)
      → unmet r.require_current_in current ≡ none
      → can_transition_to (init current) r.target ≡ true
      → commits ≡ true
      → (validate commits now factory r s machine current).2
        ≡ ok (record {
          bot_state = row_of r now current;
          previous_state = current;
          triggered_at = now;
        })
  unfolding validate transition_to
  validate_ok r s machine current met allowed c = ground arith

  validate_kill :
      (r : Request) (s : Session Event) (machine : Option BotStateMachine) (current : BotState)
      → r.require_current_in ≡ none
      → r.target ≡ kill_switch_triggered
      → commits ≡ true
      → is_ok (validate commits now factory r s machine current).2
        ≡ member current (active ∷ safe_mode ∷ halted ∷ [])
  unfolding validate transition_to unmet init
  validate_kill r s machine current free kill c = ground arith

  -- A stop goes through on a run that is RUNNING, from a known state that the required states
  -- admit and from which the table permits the target, if the database commits.
  pub stop_succeeds :
      (r : Request) (s : Session Event) (machine : Option BotStateMachine) {current : BotState}
      → run_status r.bot_run_id s.current.runs ≡ some "RUNNING"
      → persisted r.bot_run_id s.current ≡ some current
      → unmet r.require_current_in current ≡ none
      → can_transition_to (init current) r.target ≡ true
      → commits ≡ true
      → (trigger commits now factory r s machine).2
        ≡ ok (record {
          bot_state = row_of r now current;
          previous_state = current;
          triggered_at = now;
        })
  unfolding lock_run
  stop_succeeds r s machine {current} running found met allowed c =
      rw (trigger_running r s machine running) (
        rw (on_running-known commits now factory r (lock_run r.bot_run_id s) machine found)
          (validate_ok r (lock_run r.bot_run_id s) (resync machine current) current met allowed c))

  allowed_kill :
      (r : Request) (s : Session Event) (machine : Option BotStateMachine) {current : BotState}
      → run_status r.bot_run_id s.current.runs ≡ some "RUNNING"
      → persisted r.bot_run_id s.current ≡ some current
      → r.require_current_in ≡ none
      → r.target ≡ kill_switch_triggered
      → commits ≡ true
      → is_ok (trigger commits now factory r s machine).2
        ≡ member current (active ∷ safe_mode ∷ halted ∷ [])
  unfolding lock_run
  allowed_kill r s machine {current} running found free kill c =
      rw (trigger_running r s machine running) (
        rw (on_running-known commits now factory r (lock_run r.bot_run_id s) machine found)
          (validate_kill r (lock_run r.bot_run_id s) (resync machine current) current free kill c))

  -- If the database commits, the manual kill switch, which requires no state, goes through on a
  -- RUNNING run in a known state exactly if that is ACTIVE, SAFE_MODE or HALTED. When it goes
  -- through, the committed tables are those that it read with one more state row and one more audit
  -- event, their persisted state is KILL_SWITCH_TRIGGERED, a machine in memory is there too, and no
  -- lock is held; when it does not, the committed tables are as they were. The state rows are older
  -- than the stop.
  pub kill_switch_stops :
      (r : Request) (s : Session Event) (machine : Option BotStateMachine) {current : BotState}
      → All (λ row. row.created_at < now) s.current.states
      → run_status r.bot_run_id s.current.runs ≡ some "RUNNING"
      → persisted r.bot_run_id s.current ≡ some current
      → r.require_current_in ≡ none
      → r.target ≡ kill_switch_triggered
      → commits ≡ true
      → let (after, m, result) = trigger commits now factory r s machine in
        (is_ok result ≡ member current (active ∷ safe_mode ∷ halted ∷ []))
        × (is_ok result ≡ true
            → (persisted r.bot_run_id after.committed ≡ some kill_switch_triggered)
              × (after.committed ≡ record (s.current) {
                states = row_of r now current ∷ s.current.states;
                events = factory r.bot_run_id now current ∷ s.current.events;
              })
              × (m ≡ Option.map {A = BotStateMachine} (λ _. init kill_switch_triggered) machine)
              × (after.locked ≡ none))
        × (is_ok result ≡ false → after.committed ≡ s.committed)
  kill_switch_stops r s machine {current} older running found free kill c = (
    allowed_kill r s machine running found free kill c,
    λ done.
        let (res, e) = is_ok-inv (trigger commits now factory r s machine).2 done in
        let (_, was, left) = stop_commits commits now factory r s machine e in
        let same : res.previous_state ≡ current = cc in
        (
          stop_is_read_back commits now factory r s machine older e ∙ ap some kill,
          subst
              (λ b. (trigger commits now factory r s machine).0.committed ≡ record (s.current) {
                states = row_of r now b ∷ s.current.states;
                events = factory r.bot_run_id now b ∷ s.current.events;
              })
              same left.stored,
          subst
              (λ t.
                (trigger commits now factory r s machine).1
                ≡ Option.map {A = BotStateMachine} (λ _. init t) machine)
              kill left.followed,
          left.unlocked,
        ),
    λ refused. elim (Result-cases (trigger commits now factory r s machine).2) [
      | inl (res, e) ↦ absurd (not_ok e refused)
      | inr (f, e) ↦ (failed_stop_changes_nothing commits now factory r s machine e).0
    ],
  )
    where
      not_ok :
          {R : Result Failure EmergencyStopResult} {res : EmergencyStopResult}
          → R ≡ ok res
          → is_ok R ≡ false
          → ⊥
      not_ok e f = cc
