-- ===== src/Position/Follow.antt =====
-- The first parts of a tick of backend/position_manager/manager.py: the watch follows the price.
use k.Base.{
  ℤ, pos, leb_ℤ, ◌+ℤ◌, ◌-ℤ◌, Bool, false, not, Option, none, some, Result, ok, err, if◌then◌else◌,
}
use k.Base.Numbers.{Numbers}
use k.Base.Decimals.{Decimals}
use k.Exchange.Orders.{PositionState}
use k.Position.Stops.{
  OrderSide, TrailingMode, atr_mode, TrailingError, update_high_water, resolve_trailing_delta,
  trailing_stop_from_delta, maybe_move_to_break_even,
}
use k.Position.Schemas.{PositionConfig, is_given, resolved_trailing_mode}
use k.Position.Watch.{Watch}

-- `a if a is not None else b`
abbrev pub or_else : Option ℤ → Option ℤ → Option ℤ
or_else none b = b
or_else (some a) b = some a

abbrev pub default_to : ℤ → Option ℤ → ℤ
default_to b none = b
default_to b (some a) = a

-- The moving average of the ATR; the first value is taken as it is.
abbrev pub smooth : Decimals → ℤ → ℤ → Option ℤ → ℤ
smooth D alpha live none = live
smooth D alpha live (some prev) = D.times alpha live +ℤ D.times (D.one -ℤ alpha) prev

-- An ATR that is not positive is taken for none.
abbrev pub usable_atr : Option ℤ → Option ℤ
usable_atr none = none
usable_atr (some atr) = if leb_ℤ atr (pos 0) then none else some atr

abbrev pub lacks_atr : TrailingMode → Option ℤ → Bool
lacks_atr atr_mode atr = not (is_given atr)
lacks_atr _ atr = false

module _ (N : Numbers) where
  open N use {Float, le, sub, of_int}

  -- `_update_smoothed_atr`
  unfoldable pub update_smoothed_atr :
      Decimals → PositionConfig → Option ℤ → Watch N → Watch N × Option ℤ
  update_smoothed_atr D config atr watch =
      let prev = or_else watch.smoothed_atr config.trailing_atr in
      elim atr [
        | none ↦ (watch, prev)
        | some live ↦
            let alpha = default_to D.one config.trailing_atr_smoothing_alpha in
            let smoothed = smooth D alpha live prev in
            (record watch { smoothed_atr = some smoothed }, some smoothed)
      ]

  -- The ATR value of the tick; the mode is one of ATR and dynamic, or the value is the static one.
  unfoldable pub current_atr :
      Decimals → TrailingMode → PositionConfig → Option ℤ → Watch N → Watch N × Option ℤ
  unfolding update_smoothed_atr
  current_atr D atr_mode config atr watch =
      if config.trailing_atr_dynamic
      then update_smoothed_atr D config (usable_atr atr) watch
      else (watch, config.trailing_atr)
  current_atr D _ config atr watch = (watch, config.trailing_atr)

  -- The time of a warning that the ATR is missing, at most one in sixty seconds.
  unfoldable pub warn_unavailable : Float → Watch N → Watch N
  warn_unavailable now watch = elim watch.atr_unavail_warned_at [
    | none ↦ record watch { atr_unavail_warned_at = some now }
    | some last ↦
        if le (of_int (pos 60)) (sub now last)
        then record watch { atr_unavail_warned_at = some now }
        else watch
  ]

  -- The first part of a tick: the high-water mark and the trailing stop.
  unfoldable pub follow_price :
      Decimals
      → OrderSide
      → ℤ
      → Option ℤ
      → Float
      → PositionConfig
      → Watch N
      → Watch N × Result TrailingError (Option ℤ)
  unfolding current_atr warn_unavailable resolved_trailing_mode update_high_water
      resolve_trailing_delta trailing_stop_from_delta
  follow_price D side mark_price atr now config watch = elim (resolved_trailing_mode config) [
    | none ↦ (watch, ok none)
    | some mode ↦
        let hw = update_high_water side mark_price watch.high_water in
        let (smoothed, atr_value) = current_atr D mode config atr watch in
        let marked : Watch N = record smoothed { high_water = some hw } in
        if lacks_atr mode atr_value
        then (warn_unavailable now marked, ok none)
        else elim (resolve_trailing_delta D.times mode hw config.trailing_delta
            config.trailing_percent atr_value config.trailing_atr_multiplier) [
              | err e ↦ (marked, err e)
              | ok delta ↦
                  let stop = trailing_stop_from_delta side hw delta in
                  (record marked { trailing_stop = some stop }, ok (some stop))
            ]
  ]

  -- The second part of a tick.
  unfoldable pub break_even : PositionState → ℤ → PositionConfig → Watch N → Watch N
  unfolding maybe_move_to_break_even
  break_even position mark_price config watch = elim config.be_trigger_delta [
    | none ↦ watch
    | some delta ↦
        elim (maybe_move_to_break_even position.side position.entry_price mark_price delta
          watch.effective_sl config.be_sl_offset) [
            | none ↦ watch
            | some new_sl ↦ record watch { effective_sl = some new_sl }
          ]
  ]
