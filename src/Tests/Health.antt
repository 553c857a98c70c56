-- ===== src/Tests/Health.antt =====
-- A cycle in which BTCUSDT is late and ETHUSDT is missing, on a run that is ACTIVE.
use k.Base.{
  String, length, ap, pos, negsuc, ◌≡◌, ◌≢◌, refl, ◌↔◌, true, none, some, List, [], ◌∷◌, Member,
  arith,
}
use k.Trading.State.{
  active, safe_mode, init, transition_to, can_transition_to, force_set, resolve_persisted_state,
}
use k.Trading.Emergency.{
  Store, Session, BotStateRow, trigger, get_latest, run_status, unmet, resync,
}
use k.Trading.Stops.{persisted}
use k.Health.Monitor.{
  MarketSnapshot, latency_exceeded, symbol_data_unavailable, ConnectionHealthMonitor,
  ConnectionAnomalyFinding, HealthEvent, check_all, check_symbols, check_symbol, by_symbol,
  audit_event, check_and_enforce,
}
use k.Health.Findings.{Reports, Anomalous, check_all_iff}
use k.Health.Enforce.{anomaly_enforces_safe_mode}

abbrev btc : String
btc = "BTCUSDT"

abbrev monitor : ConnectionHealthMonitor
monitor = record {
  bot_run_id = "r1";
  max_clock_skew_ms = pos 1000;
  max_latency_ms = pos 800;
  symbols = "BTCUSDT" ∷ "ETHUSDT" ∷ [];
}

abbrev late : List MarketSnapshot
late = record { symbol = "BTCUSDT"; latency_ms = pos 900; clock_skew_ms = negsuc 9 } ∷ []

abbrev findings : List ConnectionAnomalyFinding
findings =
    record { symbol = "BTCUSDT"; reason = latency_exceeded }
    ∷ record { symbol = "ETHUSDT"; reason = symbol_data_unavailable }
    ∷ []

abbrev row : BotStateRow
row = record {
  bot_run_id = "r1";
  row_state = "ACTIVE";
  previous_state = "SAFE_MODE";
  reason = "review";
  created_at = 5;
}

abbrev tables : Store HealthEvent
tables = record { runs = ("r1", "RUNNING") ∷ []; states = row ∷ []; events = [] }

abbrev session : Session HealthEvent
session = record { committed = tables; current = tables; locked = none }

watch : Unit {0}
unfolding check_and_enforce check_all check_symbols check_symbol by_symbol trigger get_latest
    run_status unmet resync transition_to can_transition_to init force_set resolve_persisted_state
watch = tt

finds : check_all monitor late ≡ findings
unfolding watch
finds = refl

triggers : (check_and_enforce true 9 monitor late session (init active)).1 ≡ init safe_mode
unfolding watch
triggers = refl

check_all_iff_example :
    Reports (check_all monitor late) "BTCUSDT" latency_exceeded
    ↔ (Member btc monitor.symbols × Anomalous monitor (by_symbol late "BTCUSDT") latency_exceeded)
check_all_iff_example = check_all_iff monitor late "BTCUSDT" latency_exceeded

one_event :
    length (check_and_enforce true 9 monitor late session (init active)).0.committed.events ≡ 1
unfolding watch
one_event = refl

stores : (check_and_enforce true 9 monitor late session (init active)).0.committed ≢ tables
stores e = omega (arith, one_event, ap (λ store. length store.events) e)

anomaly_enforces_safe_mode_example :
    ((check_and_enforce true 9 monitor late session (init active)).1 ≡ init safe_mode)
    × (persisted "r1" (check_and_enforce true 9 monitor late session (init active)).0.committed
        ≡ some safe_mode)
    × ((check_and_enforce true 9 monitor late session (init active)).0.committed.events
        ≡ audit_event (check_all monitor late) "r1" 9 active ∷ [])
    × ((check_and_enforce true 9 monitor late session (init active)).0.locked ≡ none)
unfolding watch
anomaly_enforces_safe_mode_example =
    anomaly_enforces_safe_mode true 9 monitor late session (init active) refl refl refl refl
      (omega arith) refl
