-- ===== src/Position/Guarded.antt =====
-- No position is left without its configuration by a failure: backend/position_manager/manager.py
-- behind tick_service.py.
use k.Base.{
  leb_ℤ, Bool, true, [], ◌∷◌, ℕ, ℤ, ◌≡◌, refl, ap, ◌∙◌, Option, none, some, List, String, Result,
  ok, err, at_ok, at_err, Option-cases, Result-cases, inl, inr,
}
use k.Base.Numbers.{Numbers}
use k.Base.Decimals.{Decimals}
use k.Exchange.Orders.{PositionState}
use k.Position.Schemas.{
  PositionTriggerReason, sl_hit, tp_hit, trailing_sl_hit, PositionConfig, TickResult,
  TakeProfitLevel, InvalidationAction,
}
use k.Position.Watch.{Watch, remove_config}
use k.Position.Closing.{TickError, Surroundings, Ended, place_close_order, report}
use k.Position.Tick.{tick}
use k.Position.Plan.{
  Plan, idle, guarding, plan_of, Fate, closed_at_stop, invalidated, closed_at_target, took_last,
  took, will_retry, closed_at_trailing, rests, Invalidation, full_close_failed, close_failed,
  closed, reduced, moved,
}
use k.Position.Ticks.{tick_refines}

module _ (N : Numbers) (D : Decimals) {World E : Type 0} (out : Surroundings N World E)
    (symbol : String) (mark_price : ℤ) (book : Option (ℤ × ℤ)) (config : PositionConfig)
    (levels : List TakeProfitLevel) (world : World) where
  -- An order to close so much of the position that the exchange has has been placed, and the result
  -- gives its id.
  abbrev Placed : TickResult → (ℤ → ℤ) → Type 0
  Placed r amount =
      (position : PositionState) × (out.adapter.get_position symbol world ≡ ok (some position))
      × (after : World) × (order_id : String) × (place_close_order N out symbol
            (amount position.quantity) mark_price position.side book world
          ≡ (after, ok order_id))
      × (r.close_order_id ≡ some order_id)

  -- Why the configuration may go with a result: there is no position, or a close has been placed of
  -- all of it, of the part of the last level, or of all of it or more by an invalidation.
  pub data Over (r : TickResult) : Type 0 where
    absent : out.adapter.get_position symbol world ≡ ok none → Over r
    all : Placed r (λ q. q) → Over r
    last_level :
        (level : TakeProfitLevel)
        → levels ≡ level ∷ []
        → Placed r (λ q. D.times q level.close_fraction)
        → Over r
    invalidation :
        (action : InvalidationAction)
        → config.invalidation_action ≡ some action
        → leb_ℤ D.one action.close_fraction ≡ true
        → Placed r (λ q. D.times q action.close_fraction)
        → Over r

  -- The configuration stays, or the tick raises, or the symbol is over.
  abbrev Accounted : Plan → Result (TickError E) TickResult → Type 0
  Accounted idle (err e) = Unit
  Accounted idle (ok r) = (r.symbol ≡ symbol) × Over r
  Accounted (guarding left sl tp levels fired) result = left ≡ config

  module _ (position : PositionState)
      (held : out.adapter.get_position symbol world ≡ ok (some position)) where
    report-Accounted :
        (amount : ℤ → ℤ) (reason : PositionTriggerReason) (index : Option ℕ) (fraction : Option ℤ)
        {after : World} (placed : Result (TickError E) String)
        → place_close_order N out symbol
            (amount position.quantity)
            mark_price
            position.side
            book
            world
          ≡ (after, placed)
        → ((r : TickResult) → Placed r amount → Over r)
        → Accounted idle (report symbol mark_price reason index fraction placed)
    report-Accounted amount reason index fraction (err e) s over = tt
    report-Accounted amount reason index fraction {after} (ok order_id) s over =
        (refl, over _ (position, held, after, order_id, s, refl))

    invalidation-Accounted :
        (tp : Option ℤ) (fired : Bool) (action : InvalidationAction) (new_sl : Option ℤ)
        {plan : Plan} {after : World} {result : Result (TickError E) TickResult}
        → config.invalidation_action ≡ some action
        → Invalidation N D out symbol mark_price book position config tp levels world fired action
            new_sl plan after result
        → Accounted plan result
    invalidation-Accounted tp fired action new_sl set (full_close_failed h f s) = tt
    invalidation-Accounted tp fired action new_sl set (close_failed h f s) = refl
    invalidation-Accounted tp fired action new_sl set
          (closed {after = after} {order_id = order_id} event h f s) =
        (refl, invalidation action set f (position, held, after, order_id, s, refl))
    invalidation-Accounted tp fired action new_sl set (reduced event h f s) = refl
    invalidation-Accounted tp fired action new_sl set (moved event h) = refl

    Fate-Accounted :
        {tp stop : Option ℤ} {fired : Bool} {new_sl : Option ℤ} {plan : Plan} {after : World}
        {result : Result (TickError E) TickResult}
        → Fate N D out symbol mark_price book position config tp levels world stop fired new_sl plan
            after result
        → Accounted plan result
    Fate-Accounted (closed_at_stop {placed = placed} r s) =
        report-Accounted (λ q. q) sl_hit none none placed s (λ r p. all p)
    Fate-Accounted (invalidated action r set first due i) =
        invalidation-Accounted _ _ action _ set i
    Fate-Accounted (closed_at_target {placed = placed} r q e t s) =
        report-Accounted (λ q. q) tp_hit none none placed s (λ r p. all p)
    Fate-Accounted (took_last level {placed = placed} r q e t s) =
        report-Accounted (λ q. D.times q level.close_fraction) tp_hit _ _ placed s
          (λ r p. last_level level e p)
    Fate-Accounted (took level next later r q e t s) = refl
    Fate-Accounted (will_retry level next later r q e t s) = refl
    Fate-Accounted (closed_at_trailing {placed = placed} r q t h s) =
        report-Accounted (λ q. q) trailing_sl_hit none none placed s (λ r p. all p)
    Fate-Accounted (rests r q t h) = refl

  -- The configuration after a tick, by its result.
  abbrev pub After : Option PositionConfig → Result (TickError E) TickResult → Type 0
  After none (err e) = Unit
  After none (ok r) = (r.symbol ≡ symbol) × Over r
  After (some left) result = left ≡ config

  After-plan_of :
      (watch : Watch N) (result : Result (TickError E) TickResult)
      → Accounted (plan_of N watch) result
      → After watch.config result
  After-plan_of watch (err e) h = elim (Option-cases watch.config) [
    | inl e ↦ rw e tt
    | inr (left, e) ↦ rw e (rw e at h)
  ]
  After-plan_of watch (ok r) h = elim (Option-cases watch.config) [
    | inl e ↦ rw e (rw e at h)
    | inr (left, e) ↦ rw e (rw e at h)
  ]

module _ (N : Numbers) (D : Decimals) {World E : Type 0} (out : Surroundings N World E)
    (symbol : String) where
  pub tick_accounted :
      (mark_price : ℤ) (book : Option (ℤ × ℤ)) (atr : Option ℤ) (watch : Watch N) (world : World)
      {config : PositionConfig}
      → watch.config ≡ some config
      → let ended = tick N D out symbol mark_price book atr watch world in
        After N D out symbol mark_price book config watch.remaining_tp_levels world
          ended.watch.config ended.result
  unfolding tick remove_config
  tick_accounted mark_price book atr watch world {config} configured =
      let read = out.adapter.get_position symbol world in
      let ended = tick N D out symbol mark_price book atr watch world in
      let Fine : Ended N World E TickResult → Type 0 = λ e.
        After N D out symbol mark_price book config watch.remaining_tp_levels world e.watch.config
          e.result in
      elim (Result-cases read) [
        | inr (e, unreadable) ↦ at_err Fine read _ _ unreadable (rw configured refl)
        | inl (held, readable) ↦ elim (Option-cases held) [
          | inl gone ↦
              at_ok Fine read _ _ (readable ∙ ap ok gone)
                (rw configured (refl, absent (readable ∙ ap ok gone)))
          | inr (position, there) ↦
              let there' = readable ∙ ap ok there in
              let f =
                tick_refines N D out symbol mark_price book atr watch world there' configured in
              After-plan_of N D out symbol mark_price book config watch.remaining_tp_levels world
                ended.watch ended.result
                (Fate-Accounted N D out symbol mark_price book config watch.remaining_tp_levels
                  world position there' f.fate)
        ]
      ]
