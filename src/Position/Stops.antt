-- ===== src/Position/Stops.antt =====
-- The prices at which a position is closed: backend/position_manager/break_even.py and trailing.py.
-- A Decimal price is a number of units; the product of two Decimals is an argument.
use k.Base.{
  ℤ, ltb_ℤ, leb_ℤ, min_ℤ, max_ℤ, ◌+ℤ◌, ◌-ℤ◌, Bool, false, Option, none, some, Result, ok, err,
  if◌then◌else◌,
}

-- `OrderSide` (backend/exchange_adapters/schemas.py)
pub data OrderSide : Type 0 where
  buy sell : OrderSide

pub data TrailingMode : Type 0 where
  fixed_mode percent_mode atr_mode : TrailingMode

-- The `ValueError`s of `resolve_trailing_delta`.
pub data TrailingError : Type 0 where
  requires_fixed_delta requires_percent requires_atr_value : TrailingError

-- A test of a Decimal that may be None: `sl is not None and p(sl)`.
abbrev pub is_set : Option ℤ → (ℤ → Bool) → Bool
is_set none p = false
is_set (some x) p = p x

unfoldable pub maybe_move_to_break_even : OrderSide → ℤ → ℤ → ℤ → Option ℤ → ℤ → Option ℤ
maybe_move_to_break_even buy entry_price mark_price be_trigger_delta current_sl be_sl_offset =
    let trigger_price = entry_price +ℤ be_trigger_delta in
    let be_sl = entry_price +ℤ be_sl_offset in
    if ltb_ℤ mark_price trigger_price
    then none
    else if is_set current_sl (λ sl. leb_ℤ be_sl sl)
    then none
    else some be_sl
maybe_move_to_break_even sell entry_price mark_price be_trigger_delta current_sl be_sl_offset =
    let trigger_price = entry_price -ℤ be_trigger_delta in
    let be_sl = entry_price -ℤ be_sl_offset in
    if ltb_ℤ trigger_price mark_price
    then none
    else if is_set current_sl (λ sl. leb_ℤ sl be_sl)
    then none
    else some be_sl

unfoldable pub update_high_water : OrderSide → ℤ → Option ℤ → ℤ
update_high_water side mark_price none = mark_price
update_high_water buy mark_price (some high_water) = max_ℤ mark_price high_water
update_high_water sell mark_price (some high_water) = min_ℤ mark_price high_water

unfoldable pub trailing_stop_from_delta : OrderSide → ℤ → ℤ → ℤ
trailing_stop_from_delta buy high_water delta = high_water -ℤ delta
trailing_stop_from_delta sell high_water delta = high_water +ℤ delta

unfoldable pub resolve_trailing_delta :
    (ℤ → ℤ → ℤ)
    → TrailingMode
    → ℤ
    → Option ℤ
    → Option ℤ
    → Option ℤ
    → Option ℤ
    → Result TrailingError ℤ
resolve_trailing_delta times fixed_mode reference_price fixed_delta percent atr_value multiplier =
    elim fixed_delta [ none ↦ err requires_fixed_delta | some delta ↦ ok delta ]
resolve_trailing_delta times percent_mode reference_price fixed_delta percent atr_value multiplier =
    elim percent [ none ↦ err requires_percent | some p ↦ ok (times reference_price p) ]
resolve_trailing_delta times atr_mode reference_price fixed_delta percent atr_value multiplier =
    elim atr_value [
      | none ↦ err requires_atr_value
      | some atr ↦ elim multiplier [ none ↦ ok atr | some m ↦ ok (times atr m) ]
    ]

-- The new high-water mark and the stop at the fixed distance.
unfoldable pub compute_trailing_stop : OrderSide → ℤ → ℤ → Option ℤ → ℤ × ℤ
unfolding update_high_water trailing_stop_from_delta
compute_trailing_stop side mark_price trailing_delta high_water =
    let new_high_water = update_high_water side mark_price high_water in
    (new_high_water, trailing_stop_from_delta side new_high_water trailing_delta)

unfoldable pub is_trailing_stop_hit : OrderSide → ℤ → ℤ → Bool
is_trailing_stop_hit buy mark_price trailing_stop = leb_ℤ mark_price trailing_stop
is_trailing_stop_hit sell mark_price trailing_stop = leb_ℤ trailing_stop mark_price
