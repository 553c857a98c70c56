-- ===== src/Position/Closing.antt =====
-- backend/position_manager/manager.py: how a position is closed. Log lines are left
-- out.
use k.Base.{
  ℕ, ℤ, pos, leb_ℤ, Bool, true, ◌||◌, Option, none, some, String, Result, ok, err, if◌then◌else◌,
}
use k.Base.Numbers.{Numbers}
use k.Exchange.Orders.{OrderRequest, market, request_is_valid, PositionState, Adapter}
use k.Position.Stops.{OrderSide, buy, sell, TrailingError}
use k.Position.Schemas.{PositionTriggerReason, TickResult, InvalidationEvent}
use k.Position.Watch.{Watch, remove_config}

-- What may leave a tick: the `ValueError` of the trailing distance, that of an order that is not
-- valid, and what the exchange raises.
pub data TickError (E : Type 0) : Type 0 where
  trailing_error : TrailingError → TickError E
  invalid_order : TickError E
  exchange_error : E → TickError E

-- `_usable_book`
unfoldable pub usable_book : Option (ℤ × ℤ) → Option (ℤ × ℤ)
usable_book none = none
usable_book (some (bid, ask)) =
    if leb_ℤ bid (pos 0) || leb_ℤ ask (pos 0) || leb_ℤ ask bid then none else some (bid, ask)

abbrev pub opposite_side : OrderSide → OrderSide
opposite_side buy = sell
opposite_side sell = buy

abbrev pub bid_of : Option (ℤ × ℤ) → Option ℤ
bid_of none = none
bid_of (some (bid, ask)) = some bid

abbrev pub ask_of : Option (ℤ × ℤ) → Option ℤ
ask_of none = none
ask_of (some (bid, ask)) = some ask

-- The price has gone as far as a stop, or as far as a target.
unfoldable pub stop_reached : OrderSide → ℤ → ℤ → Bool
stop_reached buy mark_price level = leb_ℤ mark_price level
stop_reached sell mark_price level = leb_ℤ level mark_price

unfoldable pub target_reached : OrderSide → ℤ → ℤ → Bool
target_reached buy mark_price level = leb_ℤ level mark_price
target_reached sell mark_price level = leb_ℤ mark_price level

module _ (N : Numbers) where
  open N use {Float}

  -- What surrounds the manager: its adapter, the callback, the clock and `uuid4`. An exception of
  -- the callback is caught, so the callback is only what it does to the world.
  pub record Surroundings (World E : Type 0) : Type 0 where
    pub adapter : Adapter World E
    pub on_invalidation_event : Option (InvalidationEvent → World → World)
    pub monotonic : World → Float
    pub uuid4 : World → String
    pub is_uuid : String → Bool

  -- A call of the manager has ended: the watch, the world and what it returns or raises.
  pub record Ended (World E A : Type 0) : Type 0 where
    pub watch : Watch N
    pub world : World
    pub result : Result (TickError E) A

module _ (N : Numbers) {World E : Type 0} (out : Surroundings N World E) where
  -- `_place_close_order`
  unfoldable pub place_close_order :
      String → ℤ → ℤ → OrderSide → Option (ℤ × ℤ) → World → World × Result (TickError E) String
  unfolding usable_book request_is_valid
  place_close_order symbol quantity mark_price side book world =
      let usable = usable_book book in
      let client_order_id = out.uuid4 world in
      let request : OrderRequest = record {
        client_order_id = client_order_id;
        symbol = symbol;
        side = opposite_side side;
        order_type = market;
        quantity = quantity;
        price = some mark_price;
        stop_price = none;
        is_reduce_only = true;
        bid = bid_of usable;
        ask = ask_of usable;
      } in
      let (after, answer) = out.adapter.place_order request world in
      if request_is_valid out.is_uuid request
      then (after, elim answer [ ok _ ↦ ok client_order_id | err e ↦ err (exchange_error e) ])
      else (world, err invalid_order)

module _ {E : Type 0} (symbol : String) (mark_price : ℤ) where
  -- The result of a tick that has sent an order.
  abbrev pub report :
      PositionTriggerReason
      → Option ℕ
      → Option ℤ
      → Result (TickError E) String
      → Result (TickError E) TickResult
  report reason tp_level_index closed_fraction (err e) = err e
  report reason tp_level_index closed_fraction (ok order_id) = ok record {
    symbol = symbol;
    trigger = reason;
    mark_price = mark_price;
    close_order_id = some order_id;
    tp_level_index = tp_level_index;
    closed_fraction = closed_fraction;
  }

module _ (N : Numbers) {World E : Type 0} (out : Surroundings N World E) (symbol : String)
    (mark_price : ℤ) (book : Option (ℤ × ℤ)) where
  -- A close of the whole position: the configuration goes, whether or not the order is placed.
  unfoldable pub close_position :
      PositionTriggerReason → PositionState → Watch N → World → Ended N World E TickResult
  unfolding place_close_order remove_config
  close_position reason position watch world =
      let (after, placed) =
        place_close_order N out symbol position.quantity mark_price position.side book world in
      record {
        watch = remove_config N watch;
        world = after;
        result = report symbol mark_price reason none none placed;
      }
