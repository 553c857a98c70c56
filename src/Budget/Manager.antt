-- ===== src/Budget/Manager.antt =====
-- backend/token_budget/manager.py on the table of TokenUsage (backend/storage/models.py). Times are
-- instants in microseconds. The warnings in the log are not modelled.
use k.Base.{
  ℕ, ◌+◌, ℤ, pos, ◌-ℤ◌, ltb_ℤ, leb_ℤ, Bool, true, false, not, ◌&&◌, ◌||◌, Option, List, [], ◌∷◌,
  String, str_eq, Result, ok, err, if◌then◌else◌,
}
use k.Base.Numbers.{Numbers}

-- `RequestPurpose` (backend/decision_engine/gpt_client.py)
pub data RequestPurpose : Type 0 where
  new_entry position_management : RequestPurpose

pub data BudgetStatus : Type 0 where
  normal warning exceeded : BudgetStatus

abbrev pub is_exceeded : BudgetStatus → Bool
is_exceeded exceeded = true
is_exceeded _ = false

pub record BudgetCheckResult : Type 0 where
  pub ok_to_call : Bool
  pub status : BudgetStatus
  pub tokens_used_hour : ℕ
  pub tokens_used_day : ℕ
  pub limit_hour : ℤ
  pub limit_day : ℤ

-- `TokenBudgetExceededError`, with the usage of the hour and of the day in its text.
pub record TokenBudgetExceededError : Type 0 where
  pub used_hour : ℕ
  pub used_day : ℕ

-- A row of `token_usage`, without its id and its cost.
pub record TokenUsage : Type 0 where
  pub bot_run_id : String
  pub model_request_id : Option String
  pub model : String
  pub prompt_tokens : ℕ
  pub completion_tokens : ℕ
  pub total_tokens : ℕ
  pub timestamp : ℤ

-- `TokenUsageRepository.tokens_in_window`
unfoldable pub tokens_in_window : String → ℤ → List TokenUsage → ℕ
tokens_in_window run_id since [] = 0
tokens_in_window run_id since (u ∷ rows) =
    let rest = tokens_in_window run_id since rows in
    if str_eq u.bot_run_id run_id && not (ltb_ℤ u.timestamp since)
    then u.total_tokens + rest
    else rest

-- `timedelta(hours=1)` and `timedelta(hours=24)`
abbrev pub one_hour : ℤ
one_hour = pos 3600000000

abbrev pub one_day : ℤ
one_day = pos 86400000000

-- `_current_usage`
unfoldable pub current_usage : String → ℤ → List TokenUsage → ℕ × ℕ
current_usage run_id now rows =
    (tokens_in_window run_id (now -ℤ one_hour) rows, tokens_in_window run_id (now -ℤ one_day) rows)

-- The row that `record_usage` saves.
abbrev pub usage_row : String → Option String → String → ℕ → ℕ → ℤ → TokenUsage
usage_row run_id request_id model prompt_tokens completion_tokens now = record {
  bot_run_id = run_id;
  model_request_id = request_id;
  model = model;
  prompt_tokens = prompt_tokens;
  completion_tokens = completion_tokens;
  total_tokens = prompt_tokens + completion_tokens;
  timestamp = now;
}

-- `record_usage`
unfoldable pub record_usage :
    String → Option String → String → ℕ → ℕ → ℤ → List TokenUsage → List TokenUsage
record_usage run_id request_id model prompt_tokens completion_tokens now rows =
    usage_row run_id request_id model prompt_tokens completion_tokens now ∷ rows

module _ (N : Numbers) where
  open N use {Float, le, mul, of_int}

  -- `TokenBudgetConfig`, and the flag of `FailurePolicyConfig` that the manager reads.
  pub record TokenBudgetConfig : Type 0 where
    pub max_tokens_per_request : ℤ
    pub max_tokens_per_hour : ℤ
    pub max_tokens_per_24h : ℤ
    pub alert_at_percent : Float
    pub token_budget_failure_blocks_new_entries : Bool

  module _ (cfg : TokenBudgetConfig) (run_id : String) where
    -- `_status_for_usage`
    unfoldable pub status_for_usage : ℕ → ℕ → BudgetStatus
    status_for_usage used_hour used_day =
        let alert = cfg.alert_at_percent in
        let near_hour = le (mul alert (of_int cfg.max_tokens_per_hour)) (of_int (pos used_hour)) in
        let near_day = le (mul alert (of_int cfg.max_tokens_per_24h)) (of_int (pos used_day)) in
        if leb_ℤ cfg.max_tokens_per_hour (pos used_hour)
          || leb_ℤ cfg.max_tokens_per_24h (pos used_day)
        then exceeded
        else if near_hour || near_day
        then warning
        else normal

    -- `get_current_status`
    unfoldable pub get_current_status : ℤ → List TokenUsage → BudgetCheckResult
    get_current_status now rows =
        let (used_hour, used_day) = current_usage run_id now rows in
        let result_status = status_for_usage used_hour used_day in
        record {
          ok_to_call = not (is_exceeded result_status);
          status = result_status;
          tokens_used_hour = used_hour;
          tokens_used_day = used_day;
          limit_hour = cfg.max_tokens_per_hour;
          limit_day = cfg.max_tokens_per_24h;
        }

    -- `check_budget`, from the usage on.
    unfoldable pub check_new_entry : ℕ → ℕ → Result TokenBudgetExceededError BudgetCheckResult
    check_new_entry used_hour used_day =
        let result_status = status_for_usage used_hour used_day in
        if is_exceeded result_status
        then (if cfg.token_budget_failure_blocks_new_entries
            then err (record { used_hour = used_hour; used_day = used_day })
            else ok (record {
              ok_to_call = false;
              status = exceeded;
              tokens_used_hour = used_hour;
              tokens_used_day = used_day;
              limit_hour = cfg.max_tokens_per_hour;
              limit_day = cfg.max_tokens_per_24h;
            }))
        else ok (record {
          ok_to_call = true;
          status = result_status;
          tokens_used_hour = used_hour;
          tokens_used_day = used_day;
          limit_hour = cfg.max_tokens_per_hour;
          limit_day = cfg.max_tokens_per_24h;
        })

    unfoldable pub check_budget :
        RequestPurpose → ℤ → List TokenUsage → Result TokenBudgetExceededError BudgetCheckResult
    unfolding check_new_entry current_usage
    check_budget position_management now rows = ok (record {
      ok_to_call = true;
      status = normal;
      tokens_used_hour = 0;
      tokens_used_day = 0;
      limit_hour = cfg.max_tokens_per_hour;
      limit_day = cfg.max_tokens_per_24h;
    })
    check_budget new_entry now rows =
        let (used_hour, used_day) = current_usage run_id now rows in
        check_new_entry used_hour used_day
