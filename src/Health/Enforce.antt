-- ===== src/Health/Enforce.antt =====
-- What `check_and_enforce` of backend/connection_health/monitor.py does to the database and to the
-- machine in memory.
use k.Base.{
  ℕ, ◌<◌, ◌≡◌, ◌≢◌, refl, inl, inr, Bool, not, true, false, none, some, List, ◌∷◌, Bool-cases, All,
  arith, ap,
}
use k.Trading.State.{active, safe_mode, BotStateMachine, init}
use k.Trading.Emergency.{Session, run_status}
use k.Trading.Stops.{persisted}
use k.Trading.SafeMode.{
  safe_mode_from_active, enforce, enforce-settles, enforce-changes, enforce-reaches,
}
use k.Health.Monitor.{
  reason_of, MarketSnapshot, ConnectionHealthMonitor, ConnectionAnomalyFinding, HealthEvent,
  check_all, audit_event, is_clean, check_and_enforce,
}

module _ (commits : Bool) (now : ℕ) (m : ConnectionHealthMonitor) (snapshots : List MarketSnapshot)
    (session : Session HealthEvent) (machine : BotStateMachine) where
  abbrev found : List ConnectionAnomalyFinding
  found = check_all m snapshots

  abbrev enforced : Session HealthEvent × BotStateMachine × List ConnectionAnomalyFinding
  enforced = check_and_enforce commits now m snapshots session machine

  abbrev reached : Session HealthEvent × BotStateMachine
  reached =
      enforce commits now (not (is_clean found)) (audit_event found)
        (safe_mode_from_active m.bot_run_id (reason_of found)) session machine

  -- The call is the shared one, on the findings.
  enforced_lem : enforced ≡ (reached.0, reached.1, found)
  unfolding check_and_enforce enforce
  enforced_lem = elim (Bool-cases (is_clean found)) [
    | inl clean ↦ ground arith
    | inr anomalies ↦ ground arith
  ]

  -- However a cycle ends, a session that had nothing pending and no lock is left so, also where
  -- the stop is rejected or the database fails; the cycle returns what `check_all` found.
  pub nothing_pending :
      session.current ≡ session.committed
      → session.locked ≡ none
      → (enforced.0.current ≡ enforced.0.committed)
        × (enforced.0.locked ≡ none)
        × (enforced.2 ≡ found)
  nothing_pending clean free =
      let (level, unlocked) =
        enforce-settles commits now (audit_event found) m.bot_run_id (reason_of found)
          (not (is_clean found)) session machine clean free in
      rw enforced_lem (level, unlocked, refl)

  -- A cycle changes the committed tables only on an anomaly, with the machine in ACTIVE and the
  -- run's persisted state ACTIVE.
  pub changes_only_from_active :
      enforced.0.committed ≢ session.committed
      → (is_clean found ≡ false)
        × (machine.state ≡ active)
        × (persisted m.bot_run_id session.current ≡ some active)
  changes_only_from_active changed =
      let (anomalies, at_active, known) =
        enforce-changes commits now (audit_event found) m.bot_run_id (reason_of found)
          (not (is_clean found)) session machine (rw enforced_lem at changed) in
      (ground (arith, anomalies), at_active, known)

  -- On an anomaly in ACTIVE, with the run RUNNING, its persisted state ACTIVE and a database that
  -- commits, a cycle takes the bot to SAFE_MODE: the machine is there, the state that is read
  -- back for the run is SAFE_MODE, the audit event is stored with the findings, and no lock is
  -- held. The state rows are older than the cycle.
  pub anomaly_enforces_safe_mode :
      is_clean found ≡ false
      → machine.state ≡ active
      → run_status m.bot_run_id session.current.runs ≡ some "RUNNING"
      → persisted m.bot_run_id session.current ≡ some active
      → All (λ row. row.created_at < now) session.current.states
      → commits ≡ true
      → (enforced.1 ≡ init safe_mode)
        × (persisted m.bot_run_id enforced.0.committed ≡ some safe_mode)
        × (enforced.0.committed.events
            ≡ audit_event found m.bot_run_id now active ∷ session.current.events)
        × (enforced.0.locked ≡ none)
  anomaly_enforces_safe_mode anomalies at_active running known older c = rw enforced_lem (
      enforce-reaches commits now (audit_event found) m.bot_run_id (reason_of found)
        (not (is_clean found)) session machine (ap not anomalies) at_active running known older c)
