-- ===== src/Position/Moves.antt =====
-- Where a tick of backend/position_manager/manager.py puts the two stops of a position.
use k.Base.{
  ℤ, ◌+ℤ◌, ◌-ℤ◌, ◌≤ℤ◌, ◌≡◌, refl, true, false, Option, none, some, Result, ok, arith, ◌⊎◌, if_ind,
  option_ind, result_ind,
}
use mathlib.Core.Path.{subst}
use k.Base.Numbers.{Numbers}
use k.Base.Decimals.{Decimals}
use k.Exchange.Orders.{PositionState}
use k.Position.Stops.{
  OrderSide, buy, sell, TrailingMode, TrailingError, update_high_water, resolve_trailing_delta,
  trailing_stop_from_delta, maybe_move_to_break_even,
}
use k.Position.Schemas.{PositionConfig, resolved_trailing_mode}
use k.Position.Watch.{Watch}
use k.Position.Follow.{current_atr, lacks_atr, follow_price, break_even}

-- The price has gained so much on the entry.
abbrev pub Gained : OrderSide → ℤ → ℤ → ℤ → Type 0
Gained buy entry_price delta mark_price = entry_price +ℤ delta ≤ℤ mark_price
Gained sell entry_price delta mark_price = mark_price ≤ℤ entry_price -ℤ delta

-- The stop on the side of the profit, so far from the entry.
abbrev pub be_stop : OrderSide → ℤ → ℤ → ℤ
be_stop buy entry_price offset = entry_price +ℤ offset
be_stop sell entry_price offset = entry_price -ℤ offset

-- There is a stop, and it guards at least as well as another.
abbrev pub Guards : OrderSide → Option ℤ → ℤ → Type 0
Guards side none other = ⊥
Guards buy (some sl) other = other ≤ℤ sl
Guards sell (some sl) other = sl ≤ℤ other

-- The stop goes to break-even if the price has gained enough and it does not guard as well already,
-- and stays otherwise.
abbrev pub BreaksEven : OrderSide → ℤ → ℤ → ℤ → Option ℤ → ℤ → Option ℤ → Type 0
BreaksEven side entry_price mark_price delta old offset new =
    (Gained side entry_price delta mark_price
      × (Guards side old (be_stop side entry_price offset) → ⊥)
      × (new ≡ some (be_stop side entry_price offset)))
    ⊎ ((Gained side entry_price delta mark_price
          → Guards side old (be_stop side entry_price offset))
        × (new ≡ old))

abbrev pub Moves : PositionState → ℤ → PositionConfig → Option ℤ → Option ℤ → Type 0
Moves position mark_price config old new = elim config.be_trigger_delta [
  | none ↦ new ≡ old
  | some delta ↦
      BreaksEven position.side position.entry_price mark_price delta old config.be_sl_offset new
]

abbrev moved_or : Option ℤ → Option ℤ → Option ℤ
moved_or old none = old
moved_or old (some new_sl) = some new_sl

maybe_move_to_break_even-BreaksEven :
    (side : OrderSide) (entry_price mark_price delta : ℤ) (old : Option ℤ) (offset : ℤ)
    → BreaksEven side entry_price mark_price delta old offset
        (moved_or old (maybe_move_to_break_even side entry_price mark_price delta old offset))
unfolding maybe_move_to_break_even
maybe_move_to_break_even-BreaksEven buy entry_price mark_price delta none offset = ground arith
maybe_move_to_break_even-BreaksEven buy entry_price mark_price delta (some sl) offset = ground arith
maybe_move_to_break_even-BreaksEven sell entry_price mark_price delta none offset = ground arith
maybe_move_to_break_even-BreaksEven sell entry_price mark_price delta (some sl) offset =
    ground arith

module _ (N : Numbers) (D : Decimals) where
  pub break_even-Moves :
      (position : PositionState) (mark_price : ℤ) (config : PositionConfig) (watch : Watch N)
      → Moves position mark_price config watch.effective_sl
          (break_even N position mark_price config watch).effective_sl
  unfolding break_even
  break_even-Moves position mark_price config watch = at_delta config.be_trigger_delta
    where
      at_delta :
          (trigger : Option ℤ)
          → let configured = record config { be_trigger_delta = trigger } in
            Moves position mark_price configured watch.effective_sl
              (break_even N position mark_price configured watch).effective_sl
      at_delta none = refl
      at_delta (some delta) =
          let moves =
            maybe_move_to_break_even-BreaksEven position.side position.entry_price mark_price delta
              watch.effective_sl config.be_sl_offset in
          option_ind {B = Watch N}
            (λ w.
              BreaksEven position.side position.entry_price mark_price delta watch.effective_sl
                config.be_sl_offset w.effective_sl)
            (maybe_move_to_break_even position.side position.entry_price mark_price delta
              watch.effective_sl config.be_sl_offset)
            (λ e. rw e at moves) (λ new_sl e. rw e at moves)

  -- The stop that trails the best price: none without a mode or without the ATR that it needs, and
  -- otherwise at the distance of the mode from the best price so far, this one included.
  pub data Trails (side : OrderSide) (mark_price : ℤ) (atr : Option ℤ) (config : PositionConfig)
      (watch : Watch N) : Option ℤ → Type 0 where
    untrailed : resolved_trailing_mode config ≡ none → Trails side mark_price atr config watch none
    without_atr :
        (mode : TrailingMode)
        → resolved_trailing_mode config ≡ some mode
        → lacks_atr mode (current_atr N D mode config atr watch).1 ≡ true
        → Trails side mark_price atr config watch none
    trailing :
        (mode : TrailingMode) (delta : ℤ)
        → resolved_trailing_mode config ≡ some mode
        → lacks_atr mode (current_atr N D mode config atr watch).1 ≡ false
        → resolve_trailing_delta D.times mode
            (update_high_water side mark_price watch.high_water)
            config.trailing_delta
            config.trailing_percent
            (current_atr N D mode config atr watch).1
            config.trailing_atr_multiplier
          ≡ ok delta
        → Trails side mark_price atr config watch (
            some (
              trailing_stop_from_delta side
                (update_high_water side mark_price watch.high_water)
                delta))

  pub follow_price-Trails :
      (side : OrderSide) (mark_price : ℤ) (atr : Option ℤ) (now : N.Float) (config : PositionConfig)
      (watch : Watch N) {stop : Option ℤ}
      → (follow_price N D side mark_price atr now config watch).1 ≡ ok stop
      → Trails side mark_price atr config watch stop
  unfolding follow_price
  follow_price-Trails side mark_price atr now config watch {stop} =
      let Found : Watch N × Result TrailingError (Option ℤ) → Type 0 =
        λ r. r.1 ≡ ok stop → Trails side mark_price atr config watch stop in
      option_ind Found (resolved_trailing_mode config)
        (λ e same.
          let eq : none ≡ stop = cc in
          subst (Trails side mark_price atr config watch) eq (untrailed e))
        (λ mode e.
          let hw = update_high_water side mark_price watch.high_water in
          let smoothed = current_atr N D mode config atr watch in
          if_ind Found (lacks_atr mode smoothed.1)
            (λ lacks same.
              let eq : none ≡ stop = cc in
              subst (Trails side mark_price atr config watch) eq (without_atr mode e lacks))
            (λ has.
              result_ind Found
                (resolve_trailing_delta D.times mode hw config.trailing_delta
                  config.trailing_percent smoothed.1 config.trailing_atr_multiplier)
                (λ er q same. cc)
                (λ delta q same.
                  let eq : some (trailing_stop_from_delta side hw delta) ≡ stop = cc in
                  subst (Trails side mark_price atr config watch) eq
                    (trailing mode delta e has q))))
