-- ===== src/Budget/Windows.antt =====
-- When the budget of backend/token_budget/manager.py refuses a new entry, and when it admits one
-- again.
use k.Base.{
  ℕ, ◌+◌, ◌≤◌, ◌≡◌, refl, ◌↔◌, ◌⊎◌, ℤ, pos, ◌≤ℤ◌, ◌<ℤ◌, ◌-ℤ◌, -ℤ_parts, true, false, Option, List,
  [], ◌∷◌, String, str_eq_iff, All, ok, is_ok, arith, Bool-cases, inl, inr, ◌≢◌,
}
use k.Base.Numbers.{Numbers}
use k.Budget.Manager.{
  new_entry, position_management, TokenUsage, TokenBudgetConfig, tokens_in_window, one_hour,
  one_day, current_usage, record_usage, status_for_usage, get_current_status, check_budget,
}

-- A window that reaches further back holds at least as many tokens.
tokens_monotone :
    (run_id : String) (early late : ℤ) (rows : List TokenUsage)
    → early ≤ℤ late
    → tokens_in_window run_id late rows ≤ tokens_in_window run_id early rows
unfolding tokens_in_window
tokens_monotone run_id early late [] h = omega arith
tokens_monotone run_id early late (u ∷ rows) h =
    ground (arith, tokens_monotone run_id early late rows h)

-- A window after the last call of the run is empty.
tokens_none :
    (run_id : String) (since : ℤ) (rows : List TokenUsage)
    → All (λ u. u.bot_run_id ≡ run_id → u.timestamp <ℤ since) rows
    → tokens_in_window run_id since rows ≡ 0
unfolding tokens_in_window
tokens_none run_id since [] h = refl
tokens_none run_id since (u ∷ rows) h =
    ground (arith, tokens_none run_id since rows h.1, str_eq_iff u.bot_run_id run_id, h.0)

tokens-record_usage :
    (run_id : String) (since : ℤ) (request_id : Option String) (model : String)
    (prompt completion : ℕ) (now : ℤ) (rows : List TokenUsage)
    → since ≤ℤ now
    → tokens_in_window run_id since
        (record_usage run_id request_id model prompt completion now rows)
      ≡ prompt + completion + tokens_in_window run_id since rows
unfolding tokens_in_window record_usage
tokens-record_usage run_id since request_id model prompt completion now rows h =
    ground (arith, str_eq_iff run_id run_id)

hour_in_day : (now : ℤ) → (now -ℤ one_day ≤ℤ now -ℤ one_hour) × (now -ℤ one_hour ≤ℤ now)
hour_in_day now = omega (arith, -ℤ_parts now one_day, -ℤ_parts now one_hour)

own_counted :
    (run_id : String) (request_id : Option String) (model : String) (prompt completion : ℕ)
    (now : ℤ) (rows : List TokenUsage)
    → current_usage run_id now (record_usage run_id request_id model prompt completion now rows) ≡ (
      prompt + completion + (current_usage run_id now rows).0,
      prompt + completion + (current_usage run_id now rows).1,
    )
unfolding current_usage
own_counted run_id request_id model prompt completion now rows =
    let windows = hour_in_day now in
    rw
      (
        tokens-record_usage run_id (now -ℤ one_hour) request_id model prompt completion now rows
            windows.1,
        tokens-record_usage run_id (now -ℤ one_day) request_id model prompt completion now rows
            (omega (arith, windows.0, windows.1)),
      )
      refl

other_window :
    (run_id other : String) (since : ℤ) (request_id : Option String) (model : String)
    (prompt completion : ℕ) (now : ℤ) (rows : List TokenUsage)
    → other ≢ run_id
    → tokens_in_window other since (record_usage run_id request_id model prompt completion now rows)
      ≡ tokens_in_window other since rows
unfolding tokens_in_window record_usage
other_window run_id other since request_id model prompt completion now rows differs =
    ground (arith, str_eq_iff run_id other, differs)

other_kept :
    (run_id other : String) (request_id : Option String) (model : String) (prompt completion : ℕ)
    (now : ℤ) (rows : List TokenUsage)
    → other ≢ run_id
    → current_usage other now (record_usage run_id request_id model prompt completion now rows)
      ≡ current_usage other now rows
unfolding current_usage
other_kept run_id other request_id model prompt completion now rows differs =
    rw
      (
        other_window run_id other (now -ℤ one_hour) request_id model prompt completion now rows
            differs,
        other_window run_id other (now -ℤ one_day) request_id model prompt completion now rows
            differs,
      )
      refl

module _ (N : Numbers) (cfg : TokenBudgetConfig N) (run_id : String) where
  -- A new entry is refused by an error exactly when the policy blocks and the hour or the day has
  -- used up its limit; otherwise the check returns the status that the dashboard shows. The
  -- management of a position is never refused, and an hour never counts more than its day.
  pub check_budget_lem :
      (now : ℤ) (rows : List TokenUsage)
      → let (used_hour, used_day) = current_usage run_id now rows in
        (is_ok (check_budget N cfg run_id new_entry now rows) ≡ false ↔ (
          (cfg.token_budget_failure_blocks_new_entries ≡ true)
          × ((cfg.max_tokens_per_hour ≤ℤ pos used_hour)
              ⊎ (cfg.max_tokens_per_24h ≤ℤ pos used_day))))
        × (is_ok (check_budget N cfg run_id new_entry now rows) ≡ true
            → check_budget N cfg run_id new_entry now rows
              ≡ ok (get_current_status N cfg run_id now rows))
        × (is_ok (check_budget N cfg run_id position_management now rows) ≡ true)
        × (used_hour ≤ used_day)
  unfolding check_budget get_current_status status_for_usage current_usage
  check_budget_lem now rows = (
    ground arith,
    λ h. ground arith,
    refl,
    tokens_monotone run_id (now -ℤ one_day) (now -ℤ one_hour) rows (hour_in_day now).0,
  )

  unspent :
      (now : ℤ) (rows : List TokenUsage)
      → pos 0 <ℤ cfg.max_tokens_per_hour
      → pos 0 <ℤ cfg.max_tokens_per_24h
      → tokens_in_window run_id (now -ℤ one_day) rows ≡ 0
      → (current_usage run_id now rows).0 ≤ (current_usage run_id now rows).1
      → (cfg.max_tokens_per_hour ≤ℤ pos (current_usage run_id now rows).0)
        ⊎ (cfg.max_tokens_per_24h ≤ℤ pos (current_usage run_id now rows).1)
      → ⊥
  unfolding current_usage
  unspent now rows hour_limit day_limit none_today below spent = ground arith

  -- Once every call of the run is more than a day old, a new entry is admitted again, whatever was
  -- spent and whatever other runs spend, if both limits are positive.
  pub budget_recovers :
      (now : ℤ) (rows : List TokenUsage)
      → pos 0 <ℤ cfg.max_tokens_per_hour
      → pos 0 <ℤ cfg.max_tokens_per_24h
      → All (λ u. u.bot_run_id ≡ run_id → u.timestamp <ℤ now -ℤ one_day) rows
      → is_ok (check_budget N cfg run_id new_entry now rows) ≡ true
  budget_recovers now rows hour_limit day_limit old =
      let ((refused, _), _, _, below) = check_budget_lem now rows in
      let none_today = tokens_none run_id (now -ℤ one_day) rows old in
      elim (Bool-cases (is_ok (check_budget N cfg run_id new_entry now rows))) [
        | inl admitted ↦ admitted
        | inr denied ↦
            absurd (unspent now rows hour_limit day_limit none_today below (refused denied).1)
      ]

  -- A call that is recorded counts in full, at once, against the hour and the day of its run, and
  -- against no other run; so what a check refused before it, a check at that time refuses after it.
  pub usage_counted :
      (request_id : Option String) (model : String) (prompt completion : ℕ) (now : ℤ)
      (rows : List TokenUsage)
      → let rows' = record_usage run_id request_id model prompt completion now rows in
        (current_usage run_id now rows' ≡ (
          prompt + completion + (current_usage run_id now rows).0,
          prompt + completion + (current_usage run_id now rows).1,
        ))
        × ((other : String)
            → other ≢ run_id
            → current_usage other now rows' ≡ current_usage other now rows)
        × (is_ok (check_budget N cfg run_id new_entry now rows) ≡ false
            → is_ok (check_budget N cfg run_id new_entry now rows') ≡ false)
  usage_counted request_id model prompt completion now rows =
      let rows' = record_usage run_id request_id model prompt completion now rows in
      let own = own_counted run_id request_id model prompt completion now rows in
      (
        own,
        λ other differs.
            other_kept run_id other request_id model prompt completion now rows differs,
        λ denied.
            let (policy, spent) = (check_budget_lem now rows).0.0 denied in
            (check_budget_lem now rows').0.1 (policy, rw own (ground (arith, spent))),
      )
