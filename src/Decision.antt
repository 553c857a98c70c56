-- ===== src/Decision.antt =====
-- backend/decision_engine/schemas.py: the decision that the model returns, with the fields that
-- decide whether it may be traded, and the validators over them.
pub mod Aggregator
pub mod Agreed
use Prim.Native.Char.{code}
use k.Base.{
  ℕ, ℤ, pos, ltb_ℤ, Bool, true, false, not, ◌&&◌, ◌||◌, String, str_eq, List, [], ◌∷◌, any, leb,
  ◌==◌, if◌then◌else◌,
}
use k.Base.Numbers.{Numbers}
use k.Config.{Environment, paper, testnet, live}

pub data DecisionType : Type 0 where
  long short no_operar : DecisionType

pub data EntryType : Type 0 where
  market limit no_entry : EntryType

abbrev pub is_no_operar : DecisionType → Bool
is_no_operar DecisionType.no_operar = true
is_no_operar _ = false

abbrev pub is_long : DecisionType → Bool
is_long DecisionType.long = true
is_long _ = false

-- `ALLOWED_SYMBOLS` of backend/market_data/schemas.py
abbrev pub allowed_symbols : List String
allowed_symbols = "BTCUSDT" ∷ "ETHUSDT" ∷ "BNBUSDT" ∷ "SOLUSDT" ∷ "XRPUSDT" ∷ []

unfoldable pub symbol_allowed : String → Bool
symbol_allowed v = any (str_eq v) allowed_symbols

-- `_LEVERAGE_CAP`
abbrev pub leverage_cap : Environment → ℤ
leverage_cap paper = pos 10
leverage_cap testnet = pos 5
leverage_cap live = pos 5

-- The code points that Python's `str.strip` takes for white space.
is_space : ℕ → Bool
is_space c =
    leb 9 c && leb c 13
    || leb 28 c && leb c 32
    || leb 8192 c && leb c 8202
    || any (◌==◌ c) (133 ∷ 160 ∷ 5760 ∷ 8232 ∷ 8233 ∷ 8239 ∷ 8287 ∷ 12288 ∷ [])

-- `bool(text.strip())`: some character is not white space.
unfoldable pub has_text : String → Bool
unfolding is_space
has_text String.[] = false
has_text (String.◌∷◌ c s) = not (is_space (code c)) || has_text s

pub record PositionManagementPlan : Type 0 where
  pub use_trailing_stop : Bool
  pub move_to_break_even : Bool
  pub partial_close_plan : String
  pub max_time_in_trade_minutes : ℕ

module _ (N : Numbers) where
  open N use {Float, lt, le, zero, one, three_halves, ten}

  pub record ModelDecision : Type 0 where
    pub environment : Environment
    pub decision : DecisionType
    pub confidence : Float
    pub symbol : String
    pub entry_type : EntryType
    pub entry_price : Float
    pub stop_loss : Float
    pub take_profit : Float
    pub leverage : ℤ
    pub margin_usdt : Float
    pub net_risk_reward : Float
    pub liquidation_distance_percent_estimated : Float
    pub position_management_plan : PositionManagementPlan
    pub execute : Bool

  -- The bounds of the pydantic fields that are modelled.
  unfoldable pub fields_in_bounds : ModelDecision → Bool
  fields_in_bounds d =
      (le zero d.confidence && le d.confidence one)
      && le zero d.entry_price
      && le zero d.stop_loss
      && le zero d.take_profit
      && (not (ltb_ℤ d.leverage (pos 1)) && not (ltb_ℤ (pos 10) d.leverage))
      && (le zero d.margin_usdt && le d.margin_usdt ten)
      && le zero d.net_risk_reward
      && le zero d.liquidation_distance_percent_estimated

  abbrev pub is_order : ModelDecision → Bool
  is_order d = d.execute && not (is_no_operar d.decision)

  unfoldable pub no_operar_cannot_execute : ModelDecision → Bool
  no_operar_cannot_execute d = not (is_no_operar d.decision && d.execute)

  unfoldable pub execute_requires_sl_tp : ModelDecision → Bool
  execute_requires_sl_tp d =
      if is_order d then not (le d.stop_loss zero) && not (le d.take_profit zero) else true

  unfoldable pub execute_requires_positive_margin : ModelDecision → Bool
  execute_requires_positive_margin d = if is_order d then not (le d.margin_usdt zero) else true

  unfoldable pub execute_requires_minimum_rr : ModelDecision → Bool
  execute_requires_minimum_rr d =
      if is_order d then not (lt d.net_risk_reward three_halves) else true

  unfoldable pub leverage_within_env_cap : ModelDecision → Bool
  leverage_within_env_cap d = not (ltb_ℤ (leverage_cap d.environment) d.leverage)

  -- LONG: stop_loss < entry_price < take_profit; SHORT: the inverse.
  unfoldable pub sl_tp_coherence : ModelDecision → Bool
  sl_tp_coherence d = if not d.execute then true else elim d.decision [
    | DecisionType.long ↦ not (le d.entry_price d.stop_loss) && not (le d.take_profit d.entry_price)
    | DecisionType.short ↦
        not (le d.stop_loss d.entry_price) && not (le d.entry_price d.take_profit)
    | DecisionType.no_operar ↦ true
  ]

  -- A decision that pydantic accepts: the validators in their order.
  unfoldable pub model_accepts : ModelDecision → Bool
  unfolding fields_in_bounds no_operar_cannot_execute execute_requires_sl_tp
      execute_requires_positive_margin execute_requires_minimum_rr leverage_within_env_cap
      sl_tp_coherence
  model_accepts d =
      fields_in_bounds d
      && symbol_allowed d.symbol
      && no_operar_cannot_execute d
      && execute_requires_sl_tp d
      && execute_requires_positive_margin d
      && execute_requires_minimum_rr d
      && leverage_within_env_cap d
      && sl_tp_coherence d
