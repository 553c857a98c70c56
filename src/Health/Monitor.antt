-- ===== src/Health/Monitor.antt =====
-- backend/connection_health/monitor.py and schemas.py: the anomalies of a cycle's snapshots, and
-- SAFE_MODE through the emergency stop when there are any.
use Prim.Native.String.{◌++◌ as str_append}
use k.Base.{
  ℕ, ℤ, pos, pos_part, neg_part, ltb_ℤ, ◌+◌, Bool, true, false, not, Option, none, some, List, [],
  ◌∷◌, ◌++◌, String, str_eq, Result, ok, err, if◌then◌else◌,
}
use k.Trading.State.{BotState, active, safe_mode, state_eq, BotStateMachine}
use k.Trading.SafeMode.{held, SystemEvent}
use k.Trading.Emergency.{Session, Failure, rejected, database_error, Request, rollback, trigger}

-- The fields of `MarketSnapshot` (backend/market_data/schemas.py) that the monitor reads.
pub record MarketSnapshot : Type 0 where
  pub symbol : String
  pub latency_ms : ℤ
  pub clock_skew_ms : ℤ

pub data ConnectionAnomalyReason : Type 0 where
  symbol_data_unavailable clock_skew_exceeded latency_exceeded : ConnectionAnomalyReason

-- The strings of the StrEnum.
abbrev pub reason_value : ConnectionAnomalyReason → String
reason_value symbol_data_unavailable = "SYMBOL_DATA_UNAVAILABLE"
reason_value clock_skew_exceeded = "CLOCK_SKEW_EXCEEDED"
reason_value latency_exceeded = "LATENCY_EXCEEDED"

-- Without the text of `detail`.
pub record ConnectionAnomalyFinding : Type 0 where
  pub symbol : String
  pub reason : ConnectionAnomalyReason

-- The monitor without its session and machine, which are passed along; `symbols` is
-- `sorted(self._symbols)`.
pub record ConnectionHealthMonitor : Type 0 where
  pub bot_run_id : String
  pub max_clock_skew_ms : ℤ
  pub max_latency_ms : ℤ
  pub symbols : List String

-- `{s.symbol: s for s in snapshots}.get(symbol)`: the last snapshot of that symbol.
unfoldable pub by_symbol : List MarketSnapshot → String → Option MarketSnapshot
by_symbol [] symbol = none
by_symbol (s ∷ snapshots) symbol = elim (by_symbol snapshots symbol) [
  | some later ↦ some later
  | none ↦ if str_eq s.symbol symbol then some s else none
]

-- `abs(x)`
abbrev pub abs : ℤ → ℤ
abs x = pos (pos_part x + neg_part x)

-- One pass of the loop of `check_all`.
unfoldable pub check_symbol :
    ConnectionHealthMonitor → Option MarketSnapshot → String → List ConnectionAnomalyFinding
check_symbol m none symbol = record { symbol = symbol; reason = symbol_data_unavailable } ∷ []
check_symbol m (some snapshot) symbol =
    (if ltb_ℤ m.max_clock_skew_ms (abs snapshot.clock_skew_ms)
      then record { symbol = symbol; reason = clock_skew_exceeded } ∷ []
      else [])
    ++ (if ltb_ℤ m.max_latency_ms snapshot.latency_ms
        then record { symbol = symbol; reason = latency_exceeded } ∷ []
        else [])

unfoldable pub check_symbols :
    ConnectionHealthMonitor → List MarketSnapshot → List String → List ConnectionAnomalyFinding
check_symbols m snapshots [] = []
check_symbols m snapshots (symbol ∷ symbols) =
    check_symbol m (by_symbol snapshots symbol) symbol ++ check_symbols m snapshots symbols

-- `check_all`
unfoldable pub check_all :
    ConnectionHealthMonitor → List MarketSnapshot → List ConnectionAnomalyFinding
check_all m snapshots = check_symbols m snapshots m.symbols

abbrev pub HealthEvent : Type 0
HealthEvent = SystemEvent (List ConnectionAnomalyFinding)

-- `not findings`
abbrev pub is_clean : List ConnectionAnomalyFinding → Bool
is_clean [] = true
is_clean (f ∷ fs) = false

-- `"; ".join(f"{f.symbol}:{f.reason.value}" for f in findings)`
abbrev joined : List ConnectionAnomalyFinding → String
joined [] = ""
joined (f ∷ fs) =
    let own = str_append f.symbol (str_append ":" (reason_value f.reason)) in
    let rest = joined fs in if is_clean fs then own else str_append own (str_append "; " rest)

unfoldable pub reason_of : List ConnectionAnomalyFinding → String
reason_of findings = str_append "Anomalias de conexion/reloj detectadas: " (joined findings)

-- `_audit_event`
unfoldable pub audit_event : List ConnectionAnomalyFinding → String → ℕ → BotState → HealthEvent
audit_event findings bot_run_id now previous = record {
  bot_run_id = bot_run_id;
  timestamp = now;
  event_type = "CONNECTION_HEALTH_ANOMALY";
  severity = "WARNING";
  message = reason_of findings;
  details = findings;
}

abbrev pub safe_mode_request : ConnectionHealthMonitor → List ConnectionAnomalyFinding → Request
safe_mode_request m findings = record {
  bot_run_id = m.bot_run_id;
  target = safe_mode;
  reason = reason_of findings;
  require_current_in = some (active ∷ []);
  release_lock_on_reject = true;
}

module _ (commits : Bool) (now : ℕ) (m : ConnectionHealthMonitor) where
  -- `_trigger_safe_mode`: every rejection is logged and dropped.
  unfoldable pub trigger_safe_mode :
      List ConnectionAnomalyFinding
      → Session HealthEvent
      → BotStateMachine
      → Session HealthEvent × BotStateMachine × Result Failure (Unit {0})
  trigger_safe_mode findings session machine =
      let (s, machine', r) =
        trigger commits now (audit_event findings) (safe_mode_request m findings) session
          (some machine) in
      (
        s,
        held machine machine',
        elim r [
          | ok _ ↦ ok tt
          | err (rejected why) ↦ ok tt
          | err database_error ↦ err database_error
        ],
      )

  -- `check_and_enforce`
  unfoldable pub check_and_enforce :
      List MarketSnapshot
      → Session HealthEvent
      → BotStateMachine
      → Session HealthEvent × BotStateMachine × List ConnectionAnomalyFinding
  unfolding trigger_safe_mode
  check_and_enforce snapshots session machine =
      let findings = check_all m snapshots in
      let (s, machine', r) = trigger_safe_mode findings session machine in
      if is_clean findings
      then (session, machine, findings)
      else if not (state_eq machine.state active)
      then (session, machine, findings)
      else elim r [ ok _ ↦ (s, machine', findings) | err _ ↦ (rollback s, machine', findings) ]
