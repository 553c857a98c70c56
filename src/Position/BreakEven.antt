-- ===== src/Position/BreakEven.antt =====
-- The schema keeps the break-even of backend/position_manager/manager.py from closing the position.
use k.Base.{ℤ, ◌<ℤ◌, +ℤ_parts, -ℤ_parts, ◌≡◌, false, Option, some, ok, arith, option_ind}
use k.Base.Numbers.{Numbers}
use k.Exchange.Orders.{PositionState}
use k.Position.Stops.{OrderSide, buy, sell, is_set, maybe_move_to_break_even}
use k.Position.Schemas.{PositionConfig, validate_config}
use k.Position.Watch.{Watch}
use k.Position.Follow.{break_even}
use k.Position.Closing.{stop_reached}

-- An accepted configuration has an offset below its trigger distance.
offset_below :
    (config : PositionConfig) (delta : ℤ) {accepted : PositionConfig}
    → validate_config config ≡ ok accepted
    → config.be_trigger_delta ≡ some delta
    → config.be_sl_offset <ℤ delta
unfolding validate_config
offset_below config delta e t = ground arith

-- A stop that is moved is short of the price that moved it.
moved_short :
    (side : OrderSide) (entry_price mark_price delta : ℤ) (current_sl : Option ℤ)
    (offset new_sl : ℤ)
    → offset <ℤ delta
    → maybe_move_to_break_even side entry_price mark_price delta current_sl offset ≡ some new_sl
    → stop_reached side mark_price new_sl ≡ false
unfolding maybe_move_to_break_even stop_reached
moved_short buy entry_price mark_price delta current_sl offset new_sl h e =
    ground (arith, +ℤ_parts entry_price delta, +ℤ_parts entry_price offset)
moved_short sell entry_price mark_price delta current_sl offset new_sl h e =
    ground (arith, -ℤ_parts entry_price delta, -ℤ_parts entry_price offset)

module _ (N : Numbers) where
  -- With a configuration that the schema accepts, the break-even part of a tick never moves the stop
  -- to where the price of the same tick reaches it: a position whose stop was not reached before it
  -- is not closed by it.
  pub break_even_keeps_open :
      (position : PositionState) (mark_price : ℤ) (config : PositionConfig) (watch : Watch N)
      {accepted : PositionConfig}
      → validate_config config ≡ ok accepted
      → is_set watch.effective_sl (stop_reached position.side mark_price) ≡ false
      → is_set
          (break_even N position mark_price config watch).effective_sl
          (stop_reached position.side mark_price)
        ≡ false
  unfolding break_even
  break_even_keeps_open position mark_price config watch e clear =
      let Open : Watch N → Type 0 =
        λ w. is_set w.effective_sl (stop_reached position.side mark_price) ≡ false in
      option_ind Open config.be_trigger_delta (λ _. clear)
        (λ delta t.
          option_ind Open
            (maybe_move_to_break_even position.side position.entry_price mark_price delta
              watch.effective_sl config.be_sl_offset)
            (λ _. clear)
            (λ new_sl m.
              moved_short position.side position.entry_price mark_price delta watch.effective_sl
                config.be_sl_offset new_sl (offset_below config delta e t) m))
