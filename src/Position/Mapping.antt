-- ===== src/Position/Mapping.antt =====
-- The exit configuration that backend/position_manager/config_mapper.py makes is one that the schema
-- accepts.
use k.Base.{
  ℤ, pos, ◌<ℤ◌, ◌≤ℤ◌, ◌≡◌, refl, Bool, false, Option, none, some, [], String, ok, ◌&&◌, min_ℤ, ◌⊎◌,
  inl, inr, Bool-cases, arith,
}
use k.Base.Numbers.{Numbers}
use k.Base.Decimals.{Decimals, OrderedProducts}
use k.Position.Stops.{percent_mode, atr_mode}
use k.Position.Schemas.{PositionConfig, config_in_bounds, validate_config}
use k.Position.Mapper.{
  TrailingDefaults, no_trailing, trailing_mode, new_config, PositionManagementConfig, trailing_part,
  break_even_part, build_position_config,
}

-- What a part of the configuration may be.
data Trailing (D : Decimals) : TrailingDefaults → Type 0 where
  none_set : Trailing D no_trailing
  percent_set :
      (p : ℤ)
      → pos 0 <ℤ p
      → p <ℤ D.one
      → Trailing D record { percent = some p; atr = none; atr_multiplier = none }
  atr_set :
      (a m : ℤ)
      → pos 0 <ℤ a
      → pos 0 <ℤ m
      → Trailing D record { percent = none; atr = some a; atr_multiplier = some m }

data BreakEven : Option ℤ × ℤ → Type 0 where
  no_break_even : BreakEven (none, pos 0)
  break_even_at :
      (delta offset : ℤ)
      → pos 0 <ℤ delta
      → pos 0 ≤ℤ offset
      → offset <ℤ delta
      → BreakEven (some delta, offset)

break_even_bounds :
    (b : Option ℤ × ℤ)
    → BreakEven b
    → (delta : ℤ) → b.0 ≡ some delta
    → (pos 0 ≤ℤ b.1) × (b.1 <ℤ delta)
break_even_bounds _ no_break_even delta e = cc
break_even_bounds _ (break_even_at trigger offset d o l) delta e = ground arith

module _ (D : Decimals) (symbol : String) (stop_loss take_profit : ℤ) where
  abbrev configured : TrailingDefaults → Option ℤ × ℤ → PositionConfig
  configured t (be_trigger_delta, be_sl_offset) = record {
    symbol = symbol;
    stop_loss = some stop_loss;
    take_profit = some take_profit;
    take_profit_levels = [];
    trailing_delta = none;
    trailing_percent = t.percent;
    trailing_atr = t.atr;
    trailing_atr_multiplier = t.atr_multiplier;
    trailing_atr_dynamic = false;
    trailing_atr_smoothing_alpha = none;
    be_trigger_delta = be_trigger_delta;
    be_sl_offset = be_sl_offset;
    invalidation_action = none;
    invalidation_price = none;
  }

  parts_accepted :
      (t : TrailingDefaults) (b : Option ℤ × ℤ)
      → Trailing D t
      → BreakEven b
      → pos 0 <ℤ stop_loss
      → pos 0 <ℤ take_profit
      → new_config D (configured t b) ≡ ok (configured t b)
  unfolding new_config config_in_bounds validate_config
  parts_accepted _ _ none_set no_break_even hs ht = ground arith
  parts_accepted _ _ none_set (break_even_at delta offset d o l) hs ht = ground arith
  parts_accepted _ _ (percent_set p a b) no_break_even hs ht = ground arith
  parts_accepted _ _ (percent_set p a b) (break_even_at delta offset d o l) hs ht = ground arith
  parts_accepted _ _ (atr_set a m x y) no_break_even hs ht = ground arith
  parts_accepted _ _ (atr_set a m x y) (break_even_at delta offset d o l) hs ht = ground arith

module _ (N : Numbers) (D : Decimals) where
  open N use {to_decimal}

  -- The section of the configuration as its validator and config.yaml leave it.
  pub record Sensible (defaults : PositionManagementConfig N D) : Type 0 where
    pub mode :
        (trailing_mode defaults.trailing_default_mode ≡ some percent_mode)
        ⊎ (trailing_mode defaults.trailing_default_mode ≡ some atr_mode)
    pub percent_positive : pos 0 <ℤ to_decimal defaults.trailing_default_percent
    pub percent_less : to_decimal defaults.trailing_default_percent <ℤ D.one
    pub multiplier_positive : pos 0 <ℤ to_decimal defaults.trailing_default_atr_multiplier
    pub offset_nonneg : pos 0 ≤ℤ to_decimal defaults.be_sl_offset_percent

  trailing_part_lem :
      (use_trailing_stop : Bool) (defaults : PositionManagementConfig N D) (atr : ℤ)
      → Sensible defaults
      → pos 0 <ℤ atr
      → (t : TrailingDefaults) × (trailing_part N D use_trailing_stop defaults (some atr) ≡ ok t)
        × Trailing D t
  unfolding trailing_part
  trailing_part_lem use_trailing_stop defaults atr s h =
      elim (Bool-cases (use_trailing_stop && defaults.trailing_stop_enabled)) [
        | inr off ↦ (no_trailing, rw off refl, none_set)
        | inl on ↦ elim s.mode [
          | inl e ↦ (_, rw (on, e) refl, percent_set _ s.percent_positive s.percent_less)
          | inr e ↦ (_, rw (on, e) refl, atr_set atr _ h s.multiplier_positive)
        ]
      ]

  break_even_part_lem :
      (move_to_break_even : Bool) (defaults : PositionManagementConfig N D) (entry_price atr : ℤ)
      → OrderedProducts D
      → Sensible defaults
      → pos 0 ≤ℤ entry_price
      → pos 0 <ℤ D.times atr (to_decimal defaults.be_trigger_atr_multiplier)
      → (b : Option ℤ × ℤ) × (break_even_part N D move_to_break_even defaults entry_price (some atr)
          ≡ ok b)
        × BreakEven b
  unfolding break_even_part
  break_even_part_lem move_to_break_even defaults entry_price atr laws s he positive =
      let delta = D.times atr (to_decimal defaults.be_trigger_atr_multiplier) in
      let buffer = D.times entry_price (to_decimal defaults.be_sl_offset_percent) in
      let half = D.times delta D.half in
      let nonneg = laws.times_nonneg delta D.half (omega (arith, positive)) laws.half_nonneg in
      let buffered = laws.times_nonneg entry_price _ he s.offset_nonneg in
      let less = laws.half_less delta positive in
      elim (Bool-cases (move_to_break_even && defaults.break_even_enabled)) [
        | inr off ↦ ((none, pos 0), rw off refl, no_break_even)
        | inl on ↦ (
          (some delta, min_ℤ buffer half),
          rw on refl,
          break_even_at delta (min_ℤ buffer half) positive (ground arith) (ground arith),
        )
      ]

  -- With a positive ATR, stop and target, an entry price that is not negative, a section with sensible
  -- values and a trigger distance that does not round to nothing, the mapper makes a configuration and
  -- the schema accepts it: it keeps the stop and the target of the decision, and where it moves
  -- the stop to break-even, the offset is not negative and less than the trigger distance, however
  -- small the ATR is against the price.
  pub build_position_config_lem :
      (symbol : String) (stop_loss take_profit : ℤ) (use_trailing_stop move_to_break_even : Bool)
      (defaults : PositionManagementConfig N D) (entry_price atr : ℤ)
      → OrderedProducts D
      → Sensible defaults
      → pos 0 <ℤ stop_loss
      → pos 0 <ℤ take_profit
      → pos 0 ≤ℤ entry_price
      → pos 0 <ℤ atr
      → pos 0 <ℤ D.times atr (to_decimal defaults.be_trigger_atr_multiplier)
      → (c : PositionConfig) × (build_position_config N D symbol stop_loss take_profit
            use_trailing_stop move_to_break_even defaults entry_price
            (some atr)
          ≡ ok c)
        × (c.symbol ≡ symbol)
        × (c.stop_loss ≡ some stop_loss)
        × (c.take_profit ≡ some take_profit)
        × ((delta : ℤ)
            → c.be_trigger_delta ≡ some delta
            → (pos 0 ≤ℤ c.be_sl_offset) × (c.be_sl_offset <ℤ delta))
  unfolding build_position_config
  build_position_config_lem symbol stop_loss take_profit use_trailing_stop move_to_break_even
        defaults entry_price atr laws s hs ht he ha hd =
      let (t, et, trailing) = trailing_part_lem use_trailing_stop defaults atr s ha in
      let (b, eb, break_even) =
        break_even_part_lem move_to_break_even defaults entry_price atr laws s he hd in
      (
        configured D symbol stop_loss take_profit t b,
        rw (et, eb) (parts_accepted D symbol stop_loss take_profit t b trailing break_even hs ht),
        refl,
        refl,
        refl,
        λ delta e. break_even_bounds b break_even delta e,
      )
