-- ===== src/Health/Findings.antt =====
-- Which anomalies `check_all` of backend/connection_health/monitor.py reports.
use k.Base.{
  ◌≡◌, refl, ◌↔◌, inl, inr, ◌<ℤ◌, Option, none, some, List, [], ◌∷◌, String, Member, Member-append,
  arith,
}
use k.Health.Monitor.{
  MarketSnapshot, ConnectionAnomalyReason, symbol_data_unavailable, clock_skew_exceeded,
  latency_exceeded, ConnectionAnomalyFinding, ConnectionHealthMonitor, by_symbol, abs, check_symbol,
  check_symbols, check_all,
}

abbrev pub Reports : List ConnectionAnomalyFinding → String → ConnectionAnomalyReason → Type 0
Reports findings symbol reason = Member (record { symbol = symbol; reason = reason }) findings

module _ (m : ConnectionHealthMonitor) where
  -- Whether a symbol has an anomaly, by its last snapshot.
  abbrev pub Anomalous : Option MarketSnapshot → ConnectionAnomalyReason → Type 0
  Anomalous none symbol_data_unavailable = Unit
  Anomalous none _ = ⊥
  Anomalous (some s) symbol_data_unavailable = ⊥
  Anomalous (some s) clock_skew_exceeded = m.max_clock_skew_ms <ℤ abs s.clock_skew_ms
  Anomalous (some s) latency_exceeded = m.max_latency_ms <ℤ s.latency_ms

  check_symbol_sound :
      (found : Option MarketSnapshot) (symbol : String) (f : ConnectionAnomalyFinding)
      → Member f (check_symbol m found symbol)
      → (f.symbol ≡ symbol) × Anomalous found f.reason
  unfolding check_symbol
  check_symbol_sound none symbol f h = ground arith
  check_symbol_sound (some s) symbol f h = ground arith

  check_symbol_complete :
      (found : Option MarketSnapshot) (symbol : String) (reason : ConnectionAnomalyReason)
      → Anomalous found reason
      → Reports (check_symbol m found symbol) symbol reason
  unfolding check_symbol
  check_symbol_complete none symbol symbol_data_unavailable h = inl refl
  check_symbol_complete none symbol clock_skew_exceeded h = absurd h
  check_symbol_complete none symbol latency_exceeded h = absurd h
  check_symbol_complete (some s) symbol symbol_data_unavailable h = absurd h
  check_symbol_complete (some s) symbol clock_skew_exceeded h = ground arith
  check_symbol_complete (some s) symbol latency_exceeded h = ground arith

  module _ (snapshots : List MarketSnapshot) where
    check_symbols_sound :
        (symbols : List String) (f : ConnectionAnomalyFinding)
        → Member f (check_symbols m snapshots symbols)
        → Member f.symbol symbols × Anomalous (by_symbol snapshots f.symbol) f.reason
    unfolding check_symbols
    check_symbols_sound [] f h = absurd h
    check_symbols_sound (x ∷ xs) f h =
        let found = by_symbol snapshots x in
        elim ((Member-append f (check_symbol m found x) (check_symbols m snapshots xs)).0 h) [
          | inl here ↦
              let (at_x, anomaly) = check_symbol_sound found x f here in (inl at_x, rw at_x anomaly)
          | inr later ↦
              let (listed, anomaly) = check_symbols_sound xs f later in (inr listed, anomaly)
        ]

    check_symbols_complete :
        (symbols : List String) (symbol : String) (reason : ConnectionAnomalyReason)
        → Member symbol symbols
        → Anomalous (by_symbol snapshots symbol) reason
        → Reports (check_symbols m snapshots symbols) symbol reason
    unfolding check_symbols
    check_symbols_complete [] symbol reason listed anomaly = absurd listed
    check_symbols_complete (x ∷ xs) symbol reason listed anomaly =
        let found = by_symbol snapshots x in
        let f : ConnectionAnomalyFinding = record { symbol = symbol; reason = reason } in
        (Member-append f (check_symbol m found x) (check_symbols m snapshots xs)).1 (elim listed [
          | inl at_x ↦ inl (
              rw (← at_x)
                (check_symbol_complete (by_symbol snapshots symbol) symbol reason anomaly))
          | inr later ↦ inr (check_symbols_complete xs symbol reason later anomaly)
        ])

    -- A cycle reports an anomaly of a symbol exactly when the monitor watches that symbol and its
    -- last snapshot of the cycle has the anomaly: no snapshot at all, a clock skew whose size is
    -- above the limit, or a latency above the limit.
    pub check_all_iff :
        (symbol : String) (reason : ConnectionAnomalyReason)
        → Reports (check_all m snapshots) symbol reason
          ↔ (Member symbol m.symbols × Anomalous (by_symbol snapshots symbol) reason)
    unfolding check_all
    check_all_iff symbol reason = (
      check_symbols_sound m.symbols (record { symbol = symbol; reason = reason }),
      λ h. check_symbols_complete m.symbols symbol reason h.0 h.1,
    )
