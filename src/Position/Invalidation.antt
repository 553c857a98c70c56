-- ===== src/Position/Invalidation.antt =====
-- backend/position_manager/manager.py: the invalidation of a setup. Log lines are left out.
use k.Base.{ℤ, pos, ltb_ℤ, leb_ℤ, Option, none, some, String, ok, err, if◌then◌else◌}
use k.Base.Numbers.{Numbers}
use k.Base.Decimals.{Decimals}
use k.Exchange.Orders.{PositionState}
use k.Position.Schemas.{
  setup_invalidated, TickResult, InvalidationAction, PositionConfig, InvalidationEvent,
}
use k.Position.Watch.{Watch, remove_config}
use k.Position.Follow.{or_else}
use k.Position.Closing.{exchange_error, Surroundings, Ended, place_close_order}

-- The new stop of an action, where the symbol is still configured.
abbrev pub stop_to_set : Option PositionConfig → Option ℤ → Option ℤ
stop_to_set none new_sl = none
stop_to_set (some config) new_sl = new_sl

module _ (N : Numbers) (D : Decimals) {World E : Type 0} (out : Surroundings N World E) where
  abbrev pub set_stop : Option ℤ → Watch N → Watch N
  set_stop new_sl watch = record watch { effective_sl = or_else new_sl watch.effective_sl }

  abbrev pub notify : InvalidationEvent → World → World
  notify event world = elim out.on_invalidation_event [
    | none ↦ world
    | some callback ↦ callback event world
  ]

  module _ (symbol : String) (mark_price : ℤ) (book : Option (ℤ × ℤ)) where
    -- The close of `_apply_invalidation_action`: the id of its order and the fraction.
    unfoldable pub close_part :
        InvalidationAction
        → PositionState
        → Watch N
        → World
        → Ended N World E (Option String × Option ℤ)
    unfolding place_close_order remove_config
    close_part action position watch world =
        let (after, placed) =
          place_close_order N out symbol (D.times position.quantity action.close_fraction)
            mark_price position.side book world in
        if ltb_ℤ (pos 0) action.close_fraction
        then record {
          watch = if leb_ℤ D.one action.close_fraction then remove_config N watch else watch;
          world = after;
          result = elim placed [
            | err e ↦ err e
            | ok order_id ↦ ok (some order_id, some action.close_fraction)
          ];
        }
        else record { watch = watch; world = world; result = ok (none, none) }

    -- The rest of `_apply_invalidation_action`: the new stop and the event.
    abbrev pub finish_invalidation :
        InvalidationAction
        → Option ℤ
        → Ended N World E (Option String × Option ℤ)
        → Ended N World E TickResult
    finish_invalidation action old_sl closed = elim closed.result [
      | err e ↦ record { watch = closed.watch; world = closed.world; result = err e }
      | ok (close_order_id, closed_fraction) ↦
          let new_sl = stop_to_set closed.watch.config action.new_sl in
          let event : InvalidationEvent = record {
            symbol = symbol;
            mark_price = mark_price;
            old_sl = old_sl;
            new_sl = new_sl;
            closed_fraction = closed_fraction;
            close_order_id = close_order_id;
          } in
          record {
            watch = set_stop new_sl closed.watch;
            world = notify event closed.world;
            result = ok record {
              symbol = symbol;
              trigger = setup_invalidated;
              mark_price = mark_price;
              close_order_id = close_order_id;
              tp_level_index = none;
              closed_fraction = closed_fraction;
            };
          }
    ]

    unfoldable pub apply_invalidation_action :
        InvalidationAction → PositionState → Watch N → World → Ended N World E TickResult
    unfolding close_part
    apply_invalidation_action action position watch world =
        finish_invalidation action watch.effective_sl (close_part action position watch world)

    unfoldable pub trigger_setup_invalidation :
        Watch N → World → Ended N World E (Option TickResult)
    unfolding apply_invalidation_action
    trigger_setup_invalidation watch world = elim watch.config [
      | none ↦ record { watch = watch; world = world; result = ok none }
      | some config ↦ elim config.invalidation_action [
        | none ↦ record { watch = watch; world = world; result = ok none }
        | some action ↦ elim (out.adapter.get_position symbol world) [
          | err e ↦ record { watch = watch; world = world; result = err (exchange_error e) }
          | ok held ↦ elim held [
            | none ↦ record { watch = watch; world = world; result = ok none }
            | some position ↦
                let applied = apply_invalidation_action action position watch world in
                record {
                  watch = applied.watch;
                  world = applied.world;
                  result = elim applied.result [ ok r ↦ ok (some r) | err e ↦ err e ];
                }
          ]
        ]
      ]
    ]
