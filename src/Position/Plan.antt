-- ===== src/Position/Plan.antt =====
-- What a tick of backend/position_manager/manager.py does to an open position, without the marks
-- that it keeps for itself: the stop, the target, the levels that are still to be taken, and whether
-- the setup has been invalidated.
use k.Base.{
  ℕ, ℤ, pos, ltb_ℤ, leb_ℤ, Bool, true, false, not, ◌&&◌, ◌≡◌, Option, none, some, List, [], ◌∷◌,
  String, length, ◌-◌, Result, ok, err,
}
use k.Base.Numbers.{Numbers}
use k.Base.Decimals.{Decimals}
use k.Exchange.Orders.{PositionState}
use k.Position.Stops.{OrderSide, is_set, is_trailing_stop_hit}
use k.Position.Ratchet.{NoWorse}
use k.Position.Schemas.{
  sl_hit, tp_hit, tp_partial, trailing_sl_hit, setup_invalidated, TickResult, TakeProfitLevel,
  PositionConfig, InvalidationAction, InvalidationEvent,
}
use k.Position.Watch.{Watch}
use k.Position.Follow.{or_else}
use k.Position.Closing.{
  TickError, Surroundings, stop_reached, target_reached, place_close_order, report,
}
use k.Position.Invalidation.{notify}
use k.Position.Tick.{nothing_done}

pub data Plan : Type 0 where
  idle : Plan
  guarding : PositionConfig → Option ℤ → Option ℤ → List TakeProfitLevel → Bool → Plan

module _ (N : Numbers) where
  abbrev pub plan_of : Watch N → Plan
  plan_of watch = elim watch.config [
    | none ↦ idle
    | some config ↦
        guarding config watch.effective_sl watch.effective_tp watch.remaining_tp_levels
          watch.auto_invalidation_fired
  ]

-- A stop in place of another that guards the position at least as well.
abbrev pub Tightened : OrderSide → Option ℤ → Option ℤ → Type 0
Tightened side none new_sl = Unit
Tightened side (some sl) none = ⊥
Tightened side (some sl) (some new_sl) = NoWorse side new_sl sl

-- The target that comes next.
abbrev pub next_target : Option ℤ → List TakeProfitLevel → Option ℤ
next_target tp [] = tp
next_target tp (level ∷ later) = some level.price

module _ (N : Numbers) (D : Decimals) {World E : Type 0} (out : Surroundings N World E)
    (symbol : String) (mark_price : ℤ) (book : Option (ℤ × ℤ)) (position : PositionState)
    (config : PositionConfig) (tp : Option ℤ) (levels : List TakeProfitLevel) (world : World) where
  -- An order to close so much has been sent, with this outcome.
  abbrev pub Sent : ℤ → World → Result (TickError E) String → Type 0
  Sent quantity after placed =
      place_close_order N out symbol quantity mark_price position.side book world ≡ (after, placed)

  abbrev pub part : ℤ → ℤ
  part fraction = D.times position.quantity fraction

  abbrev pub Reached : Option ℤ → Bool → Type 0
  Reached new_sl b = is_set new_sl (stop_reached position.side mark_price) ≡ b

  abbrev pub Target : Bool → Type 0
  Target b = is_set (next_target tp levels) (target_reached position.side mark_price) ≡ b

  -- The place in the list of the configuration of the first of the levels that remain.
  abbrev pub level_index : List TakeProfitLevel → ℕ
  level_index remaining = length config.take_profit_levels - length remaining

  -- An invalidation of the setup: the close of a part failed, the position is closed, it is
  -- reduced, or only its stop moves.
  pub data Invalidation (fired : Bool) (action : InvalidationAction) (new_sl : Option ℤ)
      : Plan → World → Result (TickError E) TickResult → Type 0 where
    full_close_failed :
        {after : World} {e : TickError E}
        → ltb_ℤ (pos 0) action.close_fraction ≡ true
        → leb_ℤ D.one action.close_fraction ≡ true
        → Sent (part action.close_fraction) after (err e)
        → Invalidation fired action new_sl idle after (err e)
    close_failed :
        {after : World} {e : TickError E}
        → ltb_ℤ (pos 0) action.close_fraction ≡ true
        → leb_ℤ D.one action.close_fraction ≡ false
        → Sent (part action.close_fraction) after (err e)
        → Invalidation fired action new_sl (guarding config new_sl tp levels fired) after (err e)
    closed :
        {after : World} {order_id : String} (event : InvalidationEvent)
        → ltb_ℤ (pos 0) action.close_fraction ≡ true
        → leb_ℤ D.one action.close_fraction ≡ true
        → Sent (part action.close_fraction) after (ok order_id)
        → Invalidation fired action new_sl idle (notify N D out event after) (
            report symbol mark_price setup_invalidated none
              (some action.close_fraction)
              (ok order_id))
    reduced :
        {after : World} {order_id : String} (event : InvalidationEvent)
        → ltb_ℤ (pos 0) action.close_fraction ≡ true
        → leb_ℤ D.one action.close_fraction ≡ false
        → Sent (part action.close_fraction) after (ok order_id)
        → Invalidation fired action new_sl
            (guarding config (or_else action.new_sl new_sl) tp levels true)
            (notify N D out event after)
            (report symbol mark_price setup_invalidated none
              (some action.close_fraction)
              (ok order_id))
    moved :
        (event : InvalidationEvent)
        → ltb_ℤ (pos 0) action.close_fraction ≡ false
        → Invalidation fired action new_sl
            (guarding config (or_else action.new_sl new_sl) tp levels true)
            (notify N D out event world)
            (ok (record (nothing_done symbol mark_price) { trigger = setup_invalidated }))

  -- The setup is to be invalidated, or is not.
  abbrev pub Due : Bool → Bool → Type 0
  Due fired b =
      (elim config.invalidation_action [
        | none ↦ false
        | some action ↦
            not fired && is_set config.invalidation_price (stop_reached position.side mark_price)
      ])
      ≡ b

  -- The trailing stop is reached, or is not.
  abbrev pub Trailed : Option ℤ → Bool → Type 0
  Trailed stop b = is_set stop (is_trailing_stop_hit position.side mark_price) ≡ b

  -- A tick at an open position with this plan, once its stops are at `new_sl` and `stop`: the plan,
  -- the world and the result afterwards. The stop comes first, then the invalidation, the next
  -- target, and the trailing stop; each is done exactly if it is due and none before it is.
  pub data Fate (stop : Option ℤ) (fired : Bool) (new_sl : Option ℤ)
      : Plan → World → Result (TickError E) TickResult → Type 0 where
    closed_at_stop :
        {after : World} {placed : Result (TickError E) String}
        → Reached new_sl true
        → Sent position.quantity after placed
        → Fate stop fired new_sl idle after (report symbol mark_price sl_hit none none placed)
    invalidated :
        (action : InvalidationAction) {plan : Plan} {after : World}
        {result : Result (TickError E) TickResult}
        → Reached new_sl false
        → config.invalidation_action ≡ some action
        → fired ≡ false
        → is_set config.invalidation_price (stop_reached position.side mark_price) ≡ true
        → Invalidation fired action new_sl plan after result
        → Fate stop fired new_sl plan after result
    closed_at_target :
        {after : World} {placed : Result (TickError E) String}
        → Reached new_sl false
        → Due fired false
        → levels ≡ []
        → Target true
        → Sent position.quantity after placed
        → Fate stop fired new_sl idle after (report symbol mark_price tp_hit none none placed)
    took_last :
        (level : TakeProfitLevel) {after : World} {placed : Result (TickError E) String}
        → Reached new_sl false
        → Due fired false
        → levels ≡ level ∷ []
        → Target true
        → Sent (part level.close_fraction) after placed
        → Fate stop fired new_sl idle after (
            report symbol mark_price tp_hit
              (some (level_index (level ∷ [])))
              (some level.close_fraction)
              placed)
    took :
        (level next : TakeProfitLevel) (later : List TakeProfitLevel) {after : World}
        {order_id : String}
        → Reached new_sl false
        → Due fired false
        → levels ≡ level ∷ next ∷ later
        → Target true
        → Sent (part level.close_fraction) after (ok order_id)
        → Fate stop fired new_sl (guarding config new_sl tp (next ∷ later) fired) after (
            report symbol mark_price tp_partial
              (some (level_index (level ∷ next ∷ later)))
              (some level.close_fraction)
              (ok order_id))
    will_retry :
        (level next : TakeProfitLevel) (later : List TakeProfitLevel) {after : World}
        {e : TickError E}
        → Reached new_sl false
        → Due fired false
        → levels ≡ level ∷ next ∷ later
        → Target true
        → Sent (part level.close_fraction) after (err e)
        → Fate stop fired new_sl (guarding config new_sl tp levels fired) after (err e)
    closed_at_trailing :
        {after : World} {placed : Result (TickError E) String}
        → Reached new_sl false
        → Due fired false
        → Target false
        → Trailed stop true
        → Sent position.quantity after placed
        → Fate stop fired new_sl idle after
            (report symbol mark_price trailing_sl_hit none none placed)
    rests :
        Reached new_sl false
        → Due fired false
        → Target false
        → Trailed stop false
        → Fate stop fired new_sl
            (guarding config new_sl tp levels fired)
            world
            (ok (nothing_done symbol mark_price))
