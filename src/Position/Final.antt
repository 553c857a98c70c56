-- ===== src/Position/Final.antt =====
-- A stop that is reached ends the management of a position: backend/position_manager/manager.py
-- over the ticks that follow.
use k.Base.{
  ℤ, ◌≡◌, refl, sym, true, Option, none, some, List, [], ◌∷◌, String, ok, is_ok-inv, ◌∙◌, ap, arith,
  at_ok, at_some, result_ind, option_ind,
}
use mathlib.Core.Path.{subst}
use k.Base.Numbers.{Numbers}
use k.Base.Decimals.{Decimals}
use k.Exchange.Orders.{PositionState}
use k.Position.Stops.{OrderSide, buy, sell, is_set}
use k.Position.Schemas.{PositionConfig, TickResult, sl_hit}
use k.Position.Watch.{Watch, unwatched, remove_config}
use k.Position.Follow.{follow_price, break_even}
use k.Position.Closing.{
  Surroundings, Ended, stop_reached, place_close_order, close_position, report,
}
use k.Position.Tick.{check_stop, tick}
use k.Position.Plan.{Tightened}
use k.Position.Following.{follow_price_lem, break_even_lem}

-- One tick of the loop that calls the manager, and what the world does before it.
pub record Seen (World : Type 0) : Type 0 where
  pub mark_price : ℤ
  pub atr : Option ℤ
  pub book : Option (ℤ × ℤ)
  pub passing : World → World

-- What the world does by itself over these ticks.
abbrev pub only_passing : {World : Type 0} → List (Seen World) → World → World
only_passing [] world = world
only_passing (s ∷ rest) world = only_passing rest (s.passing world)

-- A tightened stop is reached where the looser one is.
Tightened-stop_reached :
    (side : OrderSide) (mark_price sl : ℤ) (new_sl : Option ℤ)
    → Tightened side (some sl) new_sl
    → stop_reached side mark_price sl ≡ true
    → is_set new_sl (stop_reached side mark_price) ≡ true
unfolding stop_reached
Tightened-stop_reached side mark_price sl none t h = absurd t
Tightened-stop_reached buy mark_price sl (some new_sl) t h = ground arith
Tightened-stop_reached sell mark_price sl (some new_sl) t h = ground arith

module _ (N : Numbers) (D : Decimals) {World E : Type 0} (out : Surroundings N World E)
    (symbol : String) where
  abbrev pub run : List (Seen World) → Watch N → World → Watch N × World
  run [] watch world = (watch, world)
  run (s ∷ rest) watch world =
      let ended = tick N D out symbol s.mark_price s.book s.atr watch (s.passing world) in
      run rest ended.watch ended.world

  -- A tick of a symbol without a configuration.
  tick-unwatched :
      (mark_price : ℤ) (book : Option (ℤ × ℤ)) (atr : Option ℤ) (world : World)
      → let ended = tick N D out symbol mark_price book atr (unwatched N) world in
        (ended.watch ≡ unwatched N) × (ended.world ≡ world)
  unfolding tick
  tick-unwatched mark_price book atr world =
      result_ind {B = Ended N World E TickResult}
        (λ ended. (ended.watch ≡ unwatched N) × (ended.world ≡ world))
        (out.adapter.get_position symbol world) (λ e _. (refl, refl))
        (λ held _.
          option_ind {B = Ended N World E TickResult}
            (λ ended. (ended.watch ≡ unwatched N) × (ended.world ≡ world)) held (λ _. (refl, refl))
            (λ position _. (refl, refl)))

  run-unwatched :
      (seen : List (Seen World)) (watch : Watch N) (world : World)
      → watch ≡ unwatched N
      → run seen watch world ≡ (unwatched N, only_passing seen world)
  run-unwatched [] watch world e = ap (λ w. (w, world)) e
  run-unwatched (s ∷ rest) watch world e =
      let next = tick N D out symbol s.mark_price s.book s.atr (unwatched N) (s.passing world) in
      let (w, same) = tick-unwatched s.mark_price s.book s.atr (s.passing world) in
      subst (λ v. run (s ∷ rest) v world ≡ (unwatched N, only_passing (s ∷ rest) world)) (sym e)
        (subst (λ v. run rest next.watch v ≡ (unwatched N, only_passing rest (s.passing world)))
          (sym same) (run-unwatched rest next.watch (s.passing world) w))

  stop_closes :
      (mark_price sl : ℤ) (book : Option (ℤ × ℤ)) (atr : Option ℤ) (watch : Watch N) (world : World)
      {position : PositionState} {config : PositionConfig}
      → out.adapter.get_position symbol world ≡ ok (some position)
      → watch.config ≡ some config
      → watch.effective_sl ≡ some sl
      → stop_reached position.side mark_price sl ≡ true
      → tick N D out symbol mark_price book atr watch world
        ≡ close_position N out symbol mark_price book sl_hit position (unwatched N) world
  unfolding tick check_stop close_position remove_config
  stop_closes mark_price sl book atr watch world {position} {config} held configured at_sl hit =
      let start =
        follow_price N D position.side mark_price atr (out.monotonic world) config watch in
      let (same, found) =
        follow_price_lem N D position.side mark_price atr (out.monotonic world) config watch in
      let (stop, followed) = is_ok-inv start.1 found in
      let moved = break_even N position mark_price config start.0 in
      let (c, t, l, f, tight) = break_even_lem N D position mark_price config start.0 in
      let reached =
        Tightened-stop_reached position.side mark_price sl moved.effective_sl
          (subst (λ s. Tightened position.side s moved.effective_sl) (same.effective_sl ∙ at_sl)
            tight)
          hit in
      let Closes : Ended N World E TickResult → Type 0 = λ ended.
        ended ≡ close_position N out symbol mark_price book sl_hit position (unwatched N) world in
      at_ok Closes (out.adapter.get_position symbol world) _ _ held (
        at_some Closes watch.config _ _ configured
          (at_ok Closes start.1 _ _ followed (rw reached refl)))

  -- Where the price has reached the stop in force, a tick at an open position orders the close of
  -- all of it, before any invalidation, target or trailing stop, and gives up the configuration,
  -- also when the order is not placed; and no later tick, at whatever price, does anything.
  pub reached_stop_closes :
      (mark_price sl : ℤ) (book : Option (ℤ × ℤ)) (atr : Option ℤ) (watch : Watch N) (world : World)
      (seen : List (Seen World)) {position : PositionState} {config : PositionConfig}
      → out.adapter.get_position symbol world ≡ ok (some position)
      → watch.config ≡ some config
      → watch.effective_sl ≡ some sl
      → stop_reached position.side mark_price sl ≡ true
      → let ended = tick N D out symbol mark_price book atr watch world in
        let (after, placed) =
          place_close_order N out symbol position.quantity mark_price position.side book world in
        (ended ≡ record {
          watch = unwatched N;
          world = after;
          result = report symbol mark_price sl_hit none none placed;
        })
        × (run seen ended.watch ended.world ≡ (unwatched N, only_passing seen after))
  unfolding close_position remove_config
  reached_stop_closes mark_price sl book atr watch world seen {position} held configured at_sl hit =
      let closes = stop_closes mark_price sl book atr watch world held configured at_sl hit in
      (
        closes,
        subst
            (λ v. run seen v.watch v.world ≡ (
              unwatched N,
              only_passing seen
                  (place_close_order N out symbol position.quantity mark_price position.side book
                    world).0,
            ))
            (sym closes) (run-unwatched seen (unwatched N) _ refl),
      )
