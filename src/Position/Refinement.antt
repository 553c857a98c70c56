-- ===== src/Position/Refinement.antt =====
-- Every tick of backend/position_manager/manager.py follows the plan of the position.
use k.Base.{
  Bool, ℤ, true, false, ◌≡◌, refl, sym, Option, none, some, List, [], ◌∷◌, String, length, ◌-◌,
  Result, ok, err, arith, if_ind, option_ind, list_ind,
}
use mathlib.Core.Path.{subst}
use k.Base.Numbers.{Numbers}
use k.Base.Decimals.{Decimals}
use k.Exchange.Orders.{PositionState}
use k.Position.Stops.{is_set, is_trailing_stop_hit}
use k.Position.Schemas.{
  InvalidationAction, PositionConfig, TakeProfitLevel, TickResult, tp_hit, tp_partial,
}
use k.Position.Watch.{Watch, remove_config}
use k.Position.Closing.{
  TickError, Surroundings, stop_reached, target_reached, place_close_order, close_position, report,
}
use k.Position.Invalidation.{apply_invalidation_action}
use k.Position.Tick.{
  mark_fired, check_trailing, take_level, check_targets, is_invalidated, check_invalidation,
  check_stop,
}
use k.Position.Invalidated.{Follows, apply_fate}
use k.Position.Plan.{
  idle, guarding, plan_of, next_target, Fate, closed_at_stop, closed_at_target, took_last, took,
  will_retry, closed_at_trailing, rests, Reached, Due,
}

module _ (N : Numbers) (D : Decimals) {World E : Type 0} (out : Surroundings N World E)
    (symbol : String) (mark_price : ℤ) (book : Option (ℤ × ℤ)) (position : PositionState)
    (config : PositionConfig) where
  abbrev Clear : Watch N → World → Type 0
  Clear watch world =
      Reached N D out symbol mark_price book position config watch.effective_tp
        watch.remaining_tp_levels world watch.effective_sl false

  -- The plan of a watch with a configuration, in the place of its parts.
  as_planned :
      {tp : Option ℤ} {levels : List TakeProfitLevel} {before after : World} {new_sl : Option ℤ}
      {result : Result (TickError E) TickResult} {stop : Option ℤ} {fired : Bool} (watch : Watch N)
      → watch.config ≡ some config
      → Fate N D out symbol mark_price book position config tp levels before stop fired new_sl
          (guarding config watch.effective_sl watch.effective_tp watch.remaining_tp_levels
            watch.auto_invalidation_fired)
          after
          result
      → Fate N D out symbol mark_price book position config tp levels before stop fired new_sl
          (plan_of N watch)
          after
          result
  as_planned {tp} {levels} {before} {after} {new_sl} {result} {stop} {fired} watch e fate =
      subst
        (λ c.
          Fate N D out symbol mark_price book position config tp levels before stop fired new_sl
            (elim c [
              | none ↦ idle
              | some config ↦
                  guarding config watch.effective_sl watch.effective_tp watch.remaining_tp_levels
                    watch.auto_invalidation_fired
            ])
            after result)
        (sym e) fate

  abbrev Quiet : Watch N → World → Type 0
  Quiet watch world =
      Due N D out symbol mark_price book position config watch.effective_tp
        watch.remaining_tp_levels world watch.auto_invalidation_fired false

  module _ (stop : Option ℤ) (watch : Watch N) (world : World)
      (configured : watch.config ≡ some config) (clear : Clear watch world)
      (quiet : Quiet watch world) where
    check_trailing_fate :
        is_set
            (next_target watch.effective_tp watch.remaining_tp_levels)
            (target_reached position.side mark_price)
          ≡ false
        → Follows N D out symbol mark_price book position config stop watch world
            (check_trailing N D out symbol mark_price book position stop watch world)
    unfolding check_trailing close_position remove_config
    check_trailing_fate h =
        if_ind (Follows N D out symbol mark_price book position config stop watch world)
          (is_set stop (is_trailing_stop_hit position.side mark_price))
          (λ hit. closed_at_trailing clear quiet h hit refl)
          (λ e. as_planned watch configured (rests clear quiet h e))

    took_or_kept :
        (level next : TakeProfitLevel) (later : List TakeProfitLevel) (after : World)
        (placed : Result (TickError E) String)
        → watch.remaining_tp_levels ≡ level ∷ next ∷ later
        → target_reached position.side mark_price level.price ≡ true
        → place_close_order N out symbol
            (D.times position.quantity level.close_fraction)
            mark_price
            position.side
            book
            world
          ≡ (after, placed)
        → Follows N D out symbol mark_price book position config stop watch world record {
          watch = elim placed [
            | err e ↦ watch
            | ok order_id ↦ record watch { remaining_tp_levels = next ∷ later }
          ];
          world = after;
          result =
              report symbol mark_price tp_partial
                (some (length config.take_profit_levels - length (level ∷ next ∷ later)))
                (some level.close_fraction)
                placed;
        }
    took_or_kept level next later after (err error) e hit sent =
        as_planned watch configured (will_retry level next later clear quiet e (rw e hit) sent)
    took_or_kept level next later after (ok order_id) e hit sent =
        as_planned (record watch { remaining_tp_levels = next ∷ later }) configured
          (took level next later clear quiet e (rw e hit) sent)

    take_level_fate :
        (level : TakeProfitLevel) (later : List TakeProfitLevel)
        → watch.remaining_tp_levels ≡ level ∷ later
        → target_reached position.side mark_price level.price ≡ true
        → Follows N D out symbol mark_price book position config stop watch world
            (take_level N D out symbol mark_price book position config level later watch world)
    unfolding take_level remove_config
    take_level_fate level [] e hit = took_last level clear quiet e (rw e hit) refl
    take_level_fate level (next ∷ later) e hit = took_or_kept level next later _ _ e hit refl

    closed_at_target_lem :
        watch.remaining_tp_levels ≡ []
        → is_set watch.effective_tp (target_reached position.side mark_price) ≡ true
        → Follows N D out symbol mark_price book position config stop watch world
            (close_position N out symbol mark_price book tp_hit position watch world)
    unfolding close_position remove_config
    closed_at_target_lem e hit = closed_at_target clear quiet e (rw e hit) refl

    check_targets_fate :
        Follows N D out symbol mark_price book position config stop watch world
          (check_targets N D out symbol mark_price book position config stop watch world)
    unfolding check_targets
    check_targets_fate =
        list_ind (Follows N D out symbol mark_price book position config stop watch world)
          watch.remaining_tp_levels
          (λ e.
            if_ind (Follows N D out symbol mark_price book position config stop watch world)
              (is_set watch.effective_tp (target_reached position.side mark_price))
              (closed_at_target_lem e) (λ h. check_trailing_fate (rw e h)))
          (λ level later e.
            if_ind (Follows N D out symbol mark_price book position config stop watch world)
              (target_reached position.side mark_price level.price) (take_level_fate level later e)
              (λ h. check_trailing_fate (rw e h)))

  module _ (stop : Option ℤ) (watch : Watch N) (world : World)
      (configured : watch.config ≡ some config) (clear : Clear watch world) where
    is_invalidated-due :
        is_invalidated N position.side mark_price config watch ≡ true
        → (watch.auto_invalidation_fired ≡ false)
          × (is_set config.invalidation_price (stop_reached position.side mark_price) ≡ true)
    unfolding is_invalidated
    is_invalidated-due h = ground arith

    no_action : config.invalidation_action ≡ none → Quiet watch world
    no_action e = rw e refl

    not_invalidated :
        {action : InvalidationAction}
        → config.invalidation_action ≡ some action
        → is_invalidated N position.side mark_price config watch ≡ false
        → Quiet watch world
    unfolding is_invalidated
    not_invalidated e h = rw e h

    check_invalidation_fate :
        Follows N D out symbol mark_price book position config stop watch world
          (check_invalidation N D out symbol mark_price book position config stop watch world)
    unfolding check_invalidation
    check_invalidation_fate =
        option_ind (Follows N D out symbol mark_price book position config stop watch world)
          config.invalidation_action
          (λ e. check_targets_fate stop watch world configured clear (no_action e))
          (λ action set.
            if_ind (Follows N D out symbol mark_price book position config stop watch world)
              (is_invalidated N position.side mark_price config watch)
              (λ h.
                let (first, due) = is_invalidated-due h in
                subst
                  (λ c. Follows N D out symbol mark_price book position config stop watch world (
                    mark_fired N D out symbol mark_price book (
                      apply_invalidation_action N D out symbol mark_price book action position
                        (record watch { config = c }) world)))
                  (sym configured)
                  (apply_fate N D out symbol mark_price book position config stop watch world action
                    set first due clear))
              (λ h. check_targets_fate stop watch world configured clear (not_invalidated set h)))

  pub check_stop_fate :
      (watch : Watch N) (world : World) (stop : Option ℤ)
      → watch.config ≡ some config
      → Follows N D out symbol mark_price book position config stop watch world
          (check_stop N D out symbol mark_price book position config stop watch world)
  unfolding check_stop close_position remove_config
  check_stop_fate watch world stop configured =
      if_ind (Follows N D out symbol mark_price book position config stop watch world)
        (is_set watch.effective_sl (stop_reached position.side mark_price))
        (λ hit. closed_at_stop hit refl)
        (λ clear. check_invalidation_fate stop watch world configured clear)
