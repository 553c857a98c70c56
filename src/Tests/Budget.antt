-- ===== src/Tests/Budget.antt =====
-- A run that has spent 900 tokens of its hour, and two hours ago 100 more.
use k.Base.{pos, ◌≤◌, ◌≡◌, refl, ◌↔◌, ◌⊎◌, ◌≤ℤ◌, ◌-ℤ◌, true, false, none, List, [], ◌∷◌, ok, is_ok}
use k.Budget.Manager.{
  new_entry, position_management, TokenUsage, TokenBudgetConfig, tokens_in_window, current_usage,
  usage_row, get_current_status, check_budget, status_for_usage,
}
use k.Budget.Windows.{check_budget_lem}
use k.Tests.Fixed.{fixed}

abbrev budget : TokenBudgetConfig fixed
budget = record {
  max_tokens_per_request = pos 500;
  max_tokens_per_hour = pos 900;
  max_tokens_per_24h = pos 5000;
  alert_at_percent = pos 80;
  token_budget_failure_blocks_new_entries = true;
}

abbrev rows : List TokenUsage
rows =
    usage_row "r1" none "gpt" 500 400 (pos 100000000000)
    ∷ usage_row "r1" none "gpt" 60 40 (pos 93000000000)
    ∷ usage_row "r2" none "gpt" 60 40 (pos 100000000000)
    ∷ []

budget_run : Unit {0}
unfolding check_budget current_usage tokens_in_window status_for_usage ◌-ℤ◌
budget_run = tt

blocks : is_ok (check_budget fixed budget "r1" new_entry (pos 100000000000) rows) ≡ false
unfolding budget_run
blocks = refl

check_budget_lem_example :
    (is_ok (check_budget fixed budget "r1" new_entry (pos 100000000000) rows) ≡ false ↔ (
      (true ≡ true)
      × ((pos 900 ≤ℤ pos (current_usage "r1" (pos 100000000000) rows).0)
          ⊎ (pos 5000 ≤ℤ pos (current_usage "r1" (pos 100000000000) rows).1))))
    × (is_ok (check_budget fixed budget "r1" new_entry (pos 100000000000) rows) ≡ true
        → check_budget fixed budget "r1" new_entry (pos 100000000000) rows
          ≡ ok (get_current_status fixed budget "r1" (pos 100000000000) rows))
    × (is_ok (check_budget fixed budget "r1" position_management (pos 100000000000) rows) ≡ true)
    × ((current_usage "r1" (pos 100000000000) rows).0
        ≤ (current_usage "r1" (pos 100000000000) rows).1)
check_budget_lem_example = check_budget_lem fixed budget "r1" (pos 100000000000) rows
