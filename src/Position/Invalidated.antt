-- ===== src/Position/Invalidated.antt =====
-- The invalidation of a setup in a tick of backend/position_manager/manager.py follows the plan.
use k.Base.{
  ℤ, pos, ltb_ℤ, leb_ℤ, true, false, ◌≡◌, refl, Option, some, String, Result, ok, err,
  if◌then◌else◌, if_ind,
}
use k.Base.Numbers.{Numbers}
use k.Base.Decimals.{Decimals}
use k.Exchange.Orders.{PositionState}
use k.Position.Stops.{is_set}
use k.Position.Schemas.{PositionConfig, InvalidationAction, TickResult}
use k.Position.Watch.{Watch, remove_config}
use k.Position.Closing.{TickError, Surroundings, Ended, stop_reached, place_close_order}
use k.Position.Invalidation.{close_part, finish_invalidation, apply_invalidation_action}
use k.Position.Tick.{mark_fired}
use k.Position.Plan.{
  plan_of, Fate, invalidated, full_close_failed, close_failed, closed, reduced, moved,
}

module _ (N : Numbers) (D : Decimals) {World E : Type 0} (out : Surroundings N World E)
    (symbol : String) (mark_price : ℤ) (book : Option (ℤ × ℤ)) (position : PositionState)
    (config : PositionConfig) where
  -- The outcome of a part of a tick that starts from this watch and this trailing stop.
  abbrev pub Follows : Option ℤ → Watch N → World → Ended N World E TickResult → Type 0
  Follows stop watch world ended =
      Fate N D out symbol mark_price book position config watch.effective_tp
        watch.remaining_tp_levels world stop watch.auto_invalidation_fired watch.effective_sl
        (plan_of N ended.watch) ended.world ended.result

  -- The invalidation of a tick; the configuration stands in the watch.
  module _ (stop : Option ℤ) (watch : Watch N) (world : World) (action : InvalidationAction)
      (set : config.invalidation_action ≡ some action)
      (first : watch.auto_invalidation_fired ≡ false)
      (due : is_set config.invalidation_price (stop_reached position.side mark_price) ≡ true)
      (clear : is_set watch.effective_sl (stop_reached position.side mark_price) ≡ false) where
    abbrev set_up : Watch N
    set_up = record watch { config = some config }

    abbrev finish : Ended N World E (Option String × Option ℤ) → Ended N World E TickResult
    finish part_closed =
        mark_fired N D out symbol mark_price book
          (finish_invalidation N D out symbol mark_price book action watch.effective_sl part_closed)

    part_fate :
        (after : World) (placed : Result (TickError E) String)
        → ltb_ℤ (pos 0) action.close_fraction ≡ true
        → place_close_order N out symbol
            (D.times position.quantity action.close_fraction)
            mark_price
            position.side
            book
            world
          ≡ (after, placed)
        → Follows stop set_up world (
            finish record {
              watch = if leb_ℤ D.one action.close_fraction then remove_config N set_up else set_up;
              world = after;
              result = elim placed [
                | err e ↦ err e
                | ok order_id ↦ ok (some order_id, some action.close_fraction)
              ];
            })
    unfolding remove_config
    part_fate after (err e) h sent =
        if_ind
          (λ w.
            Follows stop set_up world (finish record { watch = w; world = after; result = err e }))
          (leb_ℤ D.one action.close_fraction)
          (λ full. invalidated action clear set first due (full_close_failed h full sent))
          (λ part. invalidated action clear set first due (close_failed h part sent))
    part_fate after (ok order_id) h sent =
        if_ind
          (λ w. Follows stop set_up world (
            finish record {
              watch = w;
              world = after;
              result = ok (some order_id, some action.close_fraction);
            }))
          (leb_ℤ D.one action.close_fraction)
          (λ full. invalidated action clear set first due (closed _ h full sent))
          (λ part. invalidated action clear set first due (reduced _ h part sent))

    pub apply_fate : Follows stop set_up world (
        mark_fired N D out symbol mark_price book
          (apply_invalidation_action N D out symbol mark_price book action position set_up world))
    unfolding apply_invalidation_action close_part
    apply_fate =
        if_ind (λ part_closed. Follows stop set_up world (finish part_closed))
          (ltb_ℤ (pos 0) action.close_fraction) (λ h. part_fate _ _ h refl)
          (λ h. invalidated action clear set first due (moved _ h))
