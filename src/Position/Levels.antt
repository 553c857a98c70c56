-- ===== src/Position/Levels.antt =====
-- The levels that remain of a configuration: backend/position_manager/manager.py over any calls.
use k.Base.{
  Bool, ℕ, ℤ, ◌≡◌, refl, Option, none, some, List, [], ◌∷◌, String, Result, ok, err, ◌-◌, length,
  get_elem?, Suffix, Suffix-tail, get_elem?-Suffix,
}
use mathlib.Core.Path.{subst}
use k.Base.Numbers.{Numbers}
use k.Base.Decimals.{Decimals}
use k.Exchange.Orders.{PositionState}
use k.Position.Schemas.{
  PositionTriggerReason, PositionConfig, TickResult, TakeProfitLevel, InvalidationAction,
  tp_partial,
}
use k.Position.Closing.{TickError, Surroundings, report}
use k.Position.Plan.{
  Plan, idle, guarding, Fate, closed_at_stop, invalidated, closed_at_target, took_last, took,
  will_retry, closed_at_trailing, rests, Invalidation, full_close_failed, close_failed, closed,
  reduced, moved,
}

-- The levels that remain are a tail of those configured.
abbrev pub Remaining : Plan → Type 0
Remaining idle = Unit
Remaining (guarding config sl tp levels fired) = Suffix levels config.take_profit_levels

some_inj : {a b : ℕ} → some a ≡ some b → a ≡ b
some_inj e = cc

-- The level that a result names is the one of that index in the configuration.
abbrev pub Names : {E : Type 0} → PositionConfig → Result (TickError E) TickResult → Type 0
Names config (err e) = Unit
Names config (ok r) =
    (i : ℕ)
    → r.tp_level_index ≡ some i
    → (level : TakeProfitLevel) × (get_elem? config.take_profit_levels i ≡ some level)
      × (r.closed_fraction ≡ some level.close_fraction)

module _ (N : Numbers) (D : Decimals) {World E : Type 0} (out : Surroundings N World E)
    (symbol : String) (mark_price : ℤ) (book : Option (ℤ × ℤ)) (position : PositionState)
    (config : PositionConfig) (tp : Option ℤ) (levels : List TakeProfitLevel) (world : World)
    (remaining : Suffix levels config.take_profit_levels) where
  invalidation-Remaining :
      (fired : Bool) (action : InvalidationAction) (new_sl : Option ℤ) {plan : Plan} {after : World}
      {result : Result (TickError E) TickResult}
      → Invalidation N D out symbol mark_price book position config tp levels world fired action
          new_sl plan after result
      → Remaining plan × Names config result
  invalidation-Remaining fired action new_sl (full_close_failed h f s) = (tt, tt)
  invalidation-Remaining fired action new_sl (close_failed h f s) = (remaining, tt)
  invalidation-Remaining fired action new_sl (closed event h f s) = (tt, λ i e. cc)
  invalidation-Remaining fired action new_sl (reduced event h f s) = (remaining, λ i e. cc)
  invalidation-Remaining fired action new_sl (moved event h) = (remaining, λ i e. cc)

  whole-Names :
      (reason : PositionTriggerReason) (placed : Result (TickError E) String)
      → Names config (report symbol mark_price reason none none placed)
  whole-Names reason (err e) = tt
  whole-Names reason (ok order_id) = λ i e. cc

  level-Names :
      (reason : PositionTriggerReason) (level : TakeProfitLevel) (later : List TakeProfitLevel)
      (placed : Result (TickError E) String)
      → levels ≡ level ∷ later
      → Names config (
          report symbol mark_price reason
            (some (length config.take_profit_levels - length (level ∷ later)))
            (some level.close_fraction)
            placed)
  level-Names reason level later (err error) e = tt
  level-Names reason level later (ok order_id) e = λ i at_i. (
    level,
    subst (λ n. get_elem? config.take_profit_levels n ≡ some level) (some_inj at_i)
        (get_elem?-Suffix level later config.take_profit_levels
          (subst (λ ls. Suffix ls config.take_profit_levels) e remaining)),
    refl,
  )

  pub Fate-Remaining :
      {stop : Option ℤ} {fired : Bool} {new_sl : Option ℤ} {plan : Plan} {after : World}
      {result : Result (TickError E) TickResult}
      → Fate N D out symbol mark_price book position config tp levels world stop fired new_sl plan
          after result
      → Remaining plan × Names config result
  Fate-Remaining (closed_at_stop {placed = placed} r s) = (tt, whole-Names _ placed)
  Fate-Remaining (invalidated action r set first due i) = invalidation-Remaining _ action _ i
  Fate-Remaining (closed_at_target {placed = placed} r q e t s) = (tt, whole-Names _ placed)
  Fate-Remaining (took_last level {placed = placed} r q e t s) =
      (tt, level-Names _ level [] placed e)
  Fate-Remaining (took level next later {order_id = order_id} r q e t s) = (
    Suffix-tail level (next ∷ later) config.take_profit_levels
        (subst (λ ls. Suffix ls config.take_profit_levels) e remaining),
    level-Names tp_partial level (next ∷ later) (ok order_id) e,
  )
  Fate-Remaining (will_retry level next later r q e t s) = (remaining, tt)
  Fate-Remaining (closed_at_trailing {placed = placed} r q t h s) = (tt, whole-Names _ placed)
  Fate-Remaining (rests r q t h) = (remaining, λ i e. cc)
