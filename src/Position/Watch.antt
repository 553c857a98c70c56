-- ===== src/Position/Watch.antt =====
-- backend/position_manager/manager.py. Every method reads and writes the entries of one symbol in
-- the dicts of the manager: they are a record, the `Watch` of that symbol. A key that is missing
-- and a value of None are both `none`, as `dict.get` reads them. Log lines are left out.
use k.Base.{ℤ, Bool, false, Option, none, some, List, [], Result, ok, err}
use k.Base.Numbers.{Numbers}
use k.Position.Schemas.{TakeProfitLevel, PositionConfig}

-- `KeyError`
pub data UnknownSymbol : Type 0 where
  no_active_config : UnknownSymbol

module _ (N : Numbers) where
  open N use {Float, le, sub, of_int}

  pub record Watch : Type 0 where
    pub config : Option PositionConfig
    pub high_water : Option ℤ
    pub trailing_stop : Option ℤ
    pub effective_sl : Option ℤ
    pub effective_tp : Option ℤ
    pub remaining_tp_levels : List TakeProfitLevel
    pub smoothed_atr : Option ℤ
    pub auto_invalidation_fired : Bool
    pub atr_unavail_warned_at : Option Float

  -- A symbol without a configuration: what `remove_config` leaves.
  abbrev pub unwatched : Watch
  unwatched = record {
    config = none;
    high_water = none;
    trailing_stop = none;
    effective_sl = none;
    effective_tp = none;
    remaining_tp_levels = [];
    smoothed_atr = none;
    auto_invalidation_fired = false;
    atr_unavail_warned_at = none;
  }

  unfoldable pub remove_config : Watch → Watch
  remove_config watch = unwatched

  unfoldable pub set_config : PositionConfig → Watch → Watch
  set_config config watch = record {
    config = some config;
    high_water = none;
    trailing_stop = none;
    effective_sl = config.stop_loss;
    effective_tp = config.take_profit;
    remaining_tp_levels = config.take_profit_levels;
    smoothed_atr = none;
    auto_invalidation_fired = false;
    atr_unavail_warned_at = none;
  }

  unfoldable pub update_sl : ℤ → Watch → Result UnknownSymbol Watch
  update_sl new_sl watch = elim watch.config [
    | none ↦ err no_active_config
    | some config ↦ ok (record watch { effective_sl = some new_sl })
  ]

  unfoldable pub update_tp : ℤ → Watch → Result UnknownSymbol Watch
  update_tp new_tp watch = elim watch.config [
    | none ↦ err no_active_config
    | some config ↦ ok (record watch { remaining_tp_levels = []; effective_tp = some new_tp })
  ]
