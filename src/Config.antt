-- ===== src/Config.antt =====
-- backend/core/config.py: the sections of the configuration that the modelled components read,
-- and their validators. A validator that raises ConfigError is a test that fails.
use k.Base.{ℤ, pos, ltb_ℤ, Bool, not, ◌&&◌}
use k.Base.Numbers.{Numbers}

pub data Environment : Type 0 where
  paper testnet live : Environment

pub data LivePhase : Type 0 where
  initial absolute : LivePhase

pub record LeverageConfig : Type 0 where
  pub max_leverage_paper : ℤ
  pub max_leverage_testnet : ℤ
  pub max_leverage_live_initial : ℤ
  pub max_leverage_live_absolute : ℤ
  pub live_phase : LivePhase

-- `LeverageConfig.leverage_limits`
unfoldable pub leverage_limits : LeverageConfig → Bool
leverage_limits c =
    not (ltb_ℤ (pos 10) c.max_leverage_paper)
    && not (ltb_ℤ (pos 5) c.max_leverage_testnet)
    && not (ltb_ℤ (pos 5) c.max_leverage_live_absolute)
    && not (ltb_ℤ (pos 3) c.max_leverage_live_initial)

-- `LeverageConfig.cap_for_env`
unfoldable pub cap_for_env : LeverageConfig → Environment → ℤ
cap_for_env c Environment.paper = c.max_leverage_paper
cap_for_env c Environment.testnet = c.max_leverage_testnet
cap_for_env c Environment.live = elim c.live_phase [
  | LivePhase.absolute ↦ c.max_leverage_live_absolute
  | LivePhase.initial ↦ c.max_leverage_live_initial
]

module _ (N : Numbers) where
  open N use {Float}

  pub record LiquidationSafetyConfig : Type 0 where
    pub enabled : Bool
    pub min_distance_entry_to_liquidation_percent : Float
    pub min_buffer_stop_to_liquidation_percent : Float
    pub block_if_liquidation_unknown : Bool
    pub block_if_stop_after_liquidation : Bool

  pub record FundingGateConfig : Type 0 where
    pub enabled : Bool
    pub max_adverse_funding_rate : Float
    pub block_if_funding_unknown : Bool

  pub record RiskConfig : Type 0 where
    pub max_margin_per_trade_usdt : Float
    pub max_daily_loss_percent : Float
    pub max_total_loss_percent : Float
    pub min_net_risk_reward : Float

  pub record TradingConfig : Type 0 where
    pub max_open_positions : ℤ
    pub max_open_positions_allowed : ℤ

  -- `AppConfig`, with the sections that the Risk Engine reads.
  pub record AppConfig : Type 0 where
    pub initial_balance_usdt : Float
    pub trading : TradingConfig
    pub risk : RiskConfig
    pub leverage : LeverageConfig
    pub environment : Environment
    pub liquidation_safety : LiquidationSafetyConfig
    pub funding_gate : FundingGateConfig
