-- ===== src/Position/Mapper.antt =====
-- backend/position_manager/config_mapper.py, with the section of backend/core/config.py that it reads.
-- Log lines are left out.
use k.Base.{
  ℤ, pos, min_ℤ, Bool, false, ◌&&◌, Option, none, some, [], String, str_eq, Result, ok, err, ◌>>=◌,
  if◌then◌else◌,
}
use k.Base.Numbers.{Numbers}
use k.Base.Decimals.{Decimals}
use k.Position.Stops.{TrailingMode, fixed_mode, percent_mode, atr_mode}
use k.Position.Schemas.{PositionConfig, ConfigError, config_in_bounds, validate_config}

-- What `build_position_config` may raise: its own `ValueError`s and those of the schema.
pub data BuildError : Type 0 where
  unknown_mode fixed_without_distance trailing_without_atr break_even_without_atr : BuildError
  out_of_bounds : BuildError
  rejected : ConfigError → BuildError

-- `TrailingMode(value)`
unfoldable pub trailing_mode : String → Option TrailingMode
trailing_mode v =
    if str_eq v "FIXED"
    then some fixed_mode
    else if str_eq v "PERCENT"
    then some percent_mode
    else if str_eq v "ATR"
    then some atr_mode
    else none

-- `PositionConfig(…)`: the bounds of the fields, then the validator.
unfoldable pub new_config : Decimals → PositionConfig → Result BuildError PositionConfig
unfolding config_in_bounds validate_config
new_config D c =
    if config_in_bounds D c
    then elim (validate_config c) [ err e ↦ err (rejected e) | ok accepted ↦ ok accepted ]
    else err out_of_bounds

-- The trailing parameters that a configuration is given.
pub record TrailingDefaults : Type 0 where
  pub percent : Option ℤ
  pub atr : Option ℤ
  pub atr_multiplier : Option ℤ

abbrev pub no_trailing : TrailingDefaults
no_trailing = record { percent = none; atr = none; atr_multiplier = none }

module _ (N : Numbers) (D : Decimals) where
  open N use {Float, to_decimal}

  pub record PositionManagementConfig : Type 0 where
    pub break_even_enabled : Bool
    pub trailing_stop_enabled : Bool
    pub trailing_default_mode : String
    pub trailing_default_percent : Float
    pub trailing_default_atr_multiplier : Float
    pub be_trigger_atr_multiplier : Float
    pub be_sl_offset_percent : Float

  unfoldable pub trailing_part :
      Bool → PositionManagementConfig → Option ℤ → Result BuildError TrailingDefaults
  unfolding trailing_mode
  trailing_part use_trailing_stop defaults atr_1h =
      if use_trailing_stop && defaults.trailing_stop_enabled
      then elim (trailing_mode defaults.trailing_default_mode) [
        | none ↦ err unknown_mode
        | some mode ↦ elim mode [
          | fixed_mode ↦ err fixed_without_distance
          | percent_mode ↦ ok record {
            percent = some (to_decimal defaults.trailing_default_percent);
            atr = none;
            atr_multiplier = none;
          }
          | atr_mode ↦ elim atr_1h [
            | none ↦ err trailing_without_atr
            | some atr ↦ ok record {
              percent = none;
              atr = some atr;
              atr_multiplier = some (to_decimal defaults.trailing_default_atr_multiplier);
            }
          ]
        ]
      ]
      else ok no_trailing

  -- The trigger distance of the break-even and its offset.
  unfoldable pub break_even_part :
      Bool → PositionManagementConfig → ℤ → Option ℤ → Result BuildError (Option ℤ × ℤ)
  break_even_part move_to_break_even defaults entry_price atr_1h =
      if move_to_break_even && defaults.break_even_enabled
      then elim atr_1h [
        | none ↦ err break_even_without_atr
        | some atr ↦
            let be_trigger_delta = D.times atr (to_decimal defaults.be_trigger_atr_multiplier) in
            let fee_buffer = D.times entry_price (to_decimal defaults.be_sl_offset_percent) in
            let max_offset = D.times be_trigger_delta D.half in
            ok (some be_trigger_delta, min_ℤ fee_buffer max_offset)
      ]
      else ok (none, pos 0)

  unfoldable pub build_position_config :
      String
      → ℤ
      → ℤ
      → Bool
      → Bool
      → PositionManagementConfig
      → ℤ
      → Option ℤ
      → Result BuildError PositionConfig
  unfolding trailing_part break_even_part new_config
  build_position_config symbol stop_loss take_profit use_trailing_stop move_to_break_even defaults
        entry_price atr_1h =
      trailing_part use_trailing_stop defaults atr_1h >>= λ trailing.
      break_even_part move_to_break_even defaults entry_price atr_1h
      >>= λ (be_trigger_delta, be_sl_offset). new_config D record {
        symbol = symbol;
        stop_loss = some stop_loss;
        take_profit = some take_profit;
        take_profit_levels = [];
        trailing_delta = none;
        trailing_percent = trailing.percent;
        trailing_atr = trailing.atr;
        trailing_atr_multiplier = trailing.atr_multiplier;
        trailing_atr_dynamic = false;
        trailing_atr_smoothing_alpha = none;
        be_trigger_delta = be_trigger_delta;
        be_sl_offset = be_sl_offset;
        invalidation_action = none;
        invalidation_price = none;
      }
