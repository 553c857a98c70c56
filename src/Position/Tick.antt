-- ===== src/Position/Tick.antt =====
-- backend/position_manager/manager.py: the tick. Log lines are left out.
use k.Base.{
  ℤ, Bool, true, false, not, ◌&&◌, ◌-◌, Option, none, some, List, [], ◌∷◌, length, String, ok, err,
  if◌then◌else◌,
}
use k.Base.Numbers.{Numbers}
use k.Base.Decimals.{Decimals}
use k.Exchange.Orders.{PositionState}
use k.Position.Stops.{OrderSide, is_set, is_trailing_stop_hit}
use k.Position.Schemas.{
  no_trigger, sl_hit, tp_hit, tp_partial, trailing_sl_hit, TickResult, TakeProfitLevel,
  PositionConfig,
}
use k.Position.Watch.{Watch, remove_config}
use k.Position.Follow.{follow_price, break_even}
use k.Position.Closing.{
  trailing_error, exchange_error, Surroundings, Ended, stop_reached, target_reached,
  place_close_order, close_position, report,
}
use k.Position.Invalidation.{apply_invalidation_action}

abbrev pub is_empty : List TakeProfitLevel → Bool
is_empty [] = true
is_empty (l ∷ ls) = false

abbrev pub nothing_done : String → ℤ → TickResult
nothing_done symbol mark_price = record {
  symbol = symbol;
  trigger = no_trigger;
  mark_price = mark_price;
  close_order_id = none;
  tp_level_index = none;
  closed_fraction = none;
}

module _ (N : Numbers) where
  -- Whether the tick invalidates the setup.
  unfoldable pub is_invalidated : OrderSide → ℤ → PositionConfig → Watch N → Bool
  unfolding stop_reached
  is_invalidated side mark_price config watch =
      not watch.auto_invalidation_fired
      && is_set config.invalidation_price (stop_reached side mark_price)

module _ (N : Numbers) (D : Decimals) {World E : Type 0} (out : Surroundings N World E)
    (symbol : String) (mark_price : ℤ) (book : Option (ℤ × ℤ)) where
  -- The invalidation in a tick is marked once it has gone through, if the symbol is configured.
  abbrev pub mark_fired : Ended N World E TickResult → Ended N World E TickResult
  mark_fired applied = elim applied.result [
    | err e ↦ applied
    | ok r ↦ elim applied.watch.config [
      | none ↦ applied
      | some config ↦ record applied {
        watch = record applied.watch { auto_invalidation_fired = true };
      }
    ]
  ]

  -- A tick ends with the trailing stop.
  unfoldable pub check_trailing :
      PositionState → Option ℤ → Watch N → World → Ended N World E TickResult
  unfolding close_position is_trailing_stop_hit
  check_trailing position stop watch world =
      if is_set stop (is_trailing_stop_hit position.side mark_price)
      then close_position N out symbol mark_price book trailing_sl_hit position watch world
      else record { watch = watch; world = world; result = ok (nothing_done symbol mark_price) }

  -- A level of several that is reached: a close of its fraction. With the last level the
  -- configuration goes, whether or not the order is placed; another is dropped once it is.
  unfoldable pub take_level :
      PositionState
      → PositionConfig
      → TakeProfitLevel
      → List TakeProfitLevel
      → Watch N
      → World
      → Ended N World E TickResult
  unfolding place_close_order remove_config
  take_level position config level later watch world =
      let tp_idx = length config.take_profit_levels - length (level ∷ later) in
      let close_qty = D.times position.quantity level.close_fraction in
      let is_last_level = is_empty later in
      let (after, placed) =
        place_close_order N out symbol close_qty mark_price position.side book world in
      record {
        watch = if is_last_level then remove_config N watch else elim placed [
          | err e ↦ watch
          | ok order_id ↦ record watch { remaining_tp_levels = later }
        ];
        world = after;
        result =
            report symbol mark_price (if is_last_level then tp_hit else tp_partial) (some tp_idx)
              (some level.close_fraction) placed;
      }

  unfoldable pub check_targets :
      PositionState → PositionConfig → Option ℤ → Watch N → World → Ended N World E TickResult
  unfolding take_level check_trailing target_reached close_position
  check_targets position config stop watch world = elim watch.remaining_tp_levels [
    | [] ↦
        if is_set watch.effective_tp (target_reached position.side mark_price)
        then close_position N out symbol mark_price book tp_hit position watch world
        else check_trailing position stop watch world
    | level ∷ later ↦
        if target_reached position.side mark_price level.price
        then take_level position config level later watch world
        else check_trailing position stop watch world
  ]

  unfoldable pub check_invalidation :
      PositionState → PositionConfig → Option ℤ → Watch N → World → Ended N World E TickResult
  unfolding is_invalidated apply_invalidation_action check_targets
  check_invalidation position config stop watch world = elim config.invalidation_action [
    | none ↦ check_targets position config stop watch world
    | some action ↦
        if is_invalidated N position.side mark_price config watch
        then mark_fired
            (apply_invalidation_action N D out symbol mark_price book action position watch world)
        else check_targets position config stop watch world
  ]

  unfoldable pub check_stop :
      PositionState → PositionConfig → Option ℤ → Watch N → World → Ended N World E TickResult
  unfolding stop_reached close_position check_invalidation
  check_stop position config stop watch world =
      if is_set watch.effective_sl (stop_reached position.side mark_price)
      then close_position N out symbol mark_price book sl_hit position watch world
      else check_invalidation position config stop watch world

  unfoldable pub tick : Option ℤ → Watch N → World → Ended N World E TickResult
  unfolding follow_price break_even check_stop remove_config
  tick atr watch world = elim (out.adapter.get_position symbol world) [
    | err e ↦ record { watch = watch; world = world; result = err (exchange_error e) }
    | ok held ↦ elim held [
      | none ↦ record {
        watch = elim watch.config [ none ↦ watch | some config ↦ remove_config N watch ];
        world = world;
        result = ok (nothing_done symbol mark_price);
      }
      | some position ↦ elim watch.config [
        | none ↦ record {
          watch = watch;
          world = world;
          result = ok (nothing_done symbol mark_price);
        }
        | some config ↦
            let (marked, followed) =
              follow_price N D position.side mark_price atr (out.monotonic world) config watch in
            elim followed [
              | err e ↦ record { watch = marked; world = world; result = err (trailing_error e) }
              | ok stop ↦
                  check_stop position config stop (break_even N position mark_price config marked)
                    world
            ]
      ]
    ]
  ]
