-- ===== src/Position/Ticks.antt =====
-- The whole tick of backend/position_manager/manager.py against the plan of the position.
use k.Base.{ℤ, ◌≡◌, ◌∙◌, Option, some, String, ok, is_ok-inv, at_ok, at_some}
use mathlib.Core.Path.{subst}
use k.Base.Numbers.{Numbers}
use k.Base.Decimals.{Decimals}
use k.Exchange.Orders.{PositionState}
use k.Position.Schemas.{PositionConfig, TickResult}
use k.Position.Watch.{Watch}
use k.Position.Follow.{follow_price, break_even}
use k.Position.Closing.{Surroundings, Ended}
use k.Position.Tick.{check_stop, tick}
use k.Position.Moves.{Trails, follow_price-Trails, Moves, break_even-Moves}
use k.Position.Plan.{plan_of, Tightened, Fate}
use k.Position.Following.{follow_price_lem, break_even_lem}
use k.Position.Refinement.{check_stop_fate}

module _ (N : Numbers) (D : Decimals) {World E : Type 0} (out : Surroundings N World E)
    (symbol : String) (mark_price : ℤ) (book : Option (ℤ × ℤ)) where
  -- What a tick at an open position comes to: the two stops, then the rest.
  pub record Followed (atr : Option ℤ) (position : PositionState) (config : PositionConfig)
      (watch : Watch N) (world : World) (ended : Ended N World E TickResult) : Type 0 where
    pub stop : Option ℤ
    pub trails : Trails N D position.side mark_price atr config watch stop
    pub new_sl : Option ℤ
    pub moves : Moves position mark_price config watch.effective_sl new_sl
    pub tightened : Tightened position.side watch.effective_sl new_sl
    pub fate :
        Fate N D out symbol mark_price book position config watch.effective_tp
          watch.remaining_tp_levels world stop watch.auto_invalidation_fired new_sl
          (plan_of N ended.watch)
          ended.world
          ended.result

  -- The targets, the levels and the mark of one watch in the place of those of another.
  Fate-watch :
      (position : PositionState) (config : PositionConfig) (a b : Watch N) (world : World)
      (stop new_sl : Option ℤ) (ended : Ended N World E TickResult)
      → a.effective_tp ≡ b.effective_tp
      → a.remaining_tp_levels ≡ b.remaining_tp_levels
      → a.auto_invalidation_fired ≡ b.auto_invalidation_fired
      → Fate N D out symbol mark_price book position config a.effective_tp a.remaining_tp_levels
          world stop a.auto_invalidation_fired new_sl
          (plan_of N ended.watch)
          ended.world
          ended.result
      → Fate N D out symbol mark_price book position config b.effective_tp b.remaining_tp_levels
          world stop b.auto_invalidation_fired new_sl
          (plan_of N ended.watch)
          ended.world
          ended.result
  Fate-watch position config a b world stop new_sl ended e f g fate =
      subst
        (λ x.
          Fate N D out symbol mark_price book position config b.effective_tp b.remaining_tp_levels
            world stop x new_sl (plan_of N ended.watch) ended.world ended.result)
        g
        (subst
          (λ l.
            Fate N D out symbol mark_price book position config b.effective_tp l world stop
              a.auto_invalidation_fired new_sl (plan_of N ended.watch) ended.world ended.result)
          f
          (subst
            (λ t.
              Fate N D out symbol mark_price book position config t a.remaining_tp_levels world stop
                a.auto_invalidation_fired new_sl (plan_of N ended.watch) ended.world ended.result)
            e fate))

  pub tick_refines :
      (atr : Option ℤ) (watch : Watch N) (world : World) {position : PositionState}
      {config : PositionConfig}
      → out.adapter.get_position symbol world ≡ ok (some position)
      → watch.config ≡ some config
      → Followed atr position config watch world
          (tick N D out symbol mark_price book atr watch world)
  unfolding tick
  tick_refines atr watch world {position} {config} held configured =
      let now = out.monotonic world in
      let start = follow_price N D position.side mark_price atr now config watch in
      let (same, found) = follow_price_lem N D position.side mark_price atr now config watch in
      let (stop, followed) = is_ok-inv start.1 found in
      let moved = break_even N position mark_price config start.0 in
      let (c, t, l, f, tight) = break_even_lem N D position mark_price config start.0 in
      let Fine : Ended N World E TickResult → Type 0 = Followed atr position config watch world in
      at_ok Fine (out.adapter.get_position symbol world) _ _ held (
        at_some Fine watch.config _ _ configured (
          at_ok Fine start.1 _ _ followed record {
            stop = stop;
            trails = follow_price-Trails N D position.side mark_price atr now config watch followed;
            new_sl = moved.effective_sl;
            moves =
                subst (λ sl. Moves position mark_price config sl moved.effective_sl)
                  same.effective_sl (break_even-Moves N D position mark_price config start.0);
            tightened =
                subst (λ sl. Tightened position.side sl moved.effective_sl) same.effective_sl tight;
            fate =
                Fate-watch position config moved watch world stop moved.effective_sl
                  (check_stop N D out symbol mark_price book position config stop moved world)
                  (t ∙ same.effective_tp) (l ∙ same.remaining_tp_levels)
                  (f ∙ same.auto_invalidation_fired)
                  (check_stop_fate N D out symbol mark_price book position config moved world stop
                    (c ∙ same.config ∙ configured));
          }))
