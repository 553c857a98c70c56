-- ===== src/Exchange/Orders.antt =====
-- The orders and positions of backend/exchange_adapters/schemas.py, and the calls of the
-- `ExchangeAdapter` of base.py that the position manager makes.
use k.Base.{
  ℕ, ℤ, pos, ltb_ℤ, leb_ℤ, leb, Bool, true, false, ◌&&◌, Option, none, some, String, Result,
}
use k.Decision.{symbol_allowed}
use k.Position.Stops.{OrderSide}

pub data OrderType : Type 0 where
  market limit stop_market take_profit_market : OrderType

pub record OrderRequest : Type 0 where
  pub client_order_id : String
  pub symbol : String
  pub side : OrderSide
  pub order_type : OrderType
  pub quantity : ℤ
  pub price : Option ℤ
  pub stop_price : Option ℤ
  pub is_reduce_only : Bool
  pub bid : Option ℤ
  pub ask : Option ℤ

-- `gt=Decimal("0")` of a field that may be None.
abbrev pub positive_or_none : Option ℤ → Bool
positive_or_none none = true
positive_or_none (some x) = ltb_ℤ (pos 0) x

unfoldable pub book_coherent : OrderRequest → Bool
book_coherent r = elim r.bid [
  | none ↦ elim r.ask [ none ↦ true | some ask ↦ false ]
  | some bid ↦ elim r.ask [ none ↦ false | some ask ↦ ltb_ℤ bid ask ]
]

-- All the constraints of the fields and the validators; `is_uuid` is whether `uuid.UUID` reads a
-- string.
unfoldable pub request_is_valid : (String → Bool) → OrderRequest → Bool
unfolding book_coherent symbol_allowed
request_is_valid is_uuid r =
    is_uuid r.client_order_id
    && symbol_allowed r.symbol
    && ltb_ℤ (pos 0) r.quantity
    && positive_or_none r.price
    && positive_or_none r.stop_price
    && positive_or_none r.bid
    && positive_or_none r.ask
    && book_coherent r

pub data OrderStatus : Type 0 where
  pending filled partially_filled cancelled failed : OrderStatus

unfoldable pub status_value : OrderStatus → String
status_value pending = "PENDING"
status_value filled = "FILLED"
status_value partially_filled = "PARTIALLY_FILLED"
status_value cancelled = "CANCELLED"
status_value failed = "FAILED"

-- `OrderResult`, without the id of the exchange, the time stamp and the error, which nothing reads.
pub record OrderResult : Type 0 where
  pub client_order_id : String
  pub symbol : String
  pub side : OrderSide
  pub order_type : OrderType
  pub status : OrderStatus
  pub quantity_requested : ℤ
  pub quantity_filled : ℤ
  pub fill_price : Option ℤ
  pub fee_usdt : ℤ
  pub slippage_usdt : Option ℤ

-- `PositionState`, without its id, its mark price and whether it is simulated.
pub record PositionState : Type 0 where
  pub symbol : String
  pub side : OrderSide
  pub quantity : ℤ
  pub entry_price : ℤ
  pub unrealized_pnl : ℤ
  pub margin_usdt : ℤ
  pub leverage : ℕ
  pub stop_loss : Option ℤ
  pub take_profit : Option ℤ

-- `ge=Decimal("0")` of a field that may be None.
abbrev pub nonneg_or_none : Option ℤ → Bool
nonneg_or_none none = true
nonneg_or_none (some x) = leb_ℤ (pos 0) x

-- The constraints of the fields.
unfoldable pub result_is_valid : OrderResult → Bool
result_is_valid r =
    leb_ℤ (pos 0) r.quantity_filled
    && nonneg_or_none r.fill_price
    && leb_ℤ (pos 0) r.fee_usdt
    && nonneg_or_none r.slippage_usdt

unfoldable pub position_is_valid : PositionState → Bool
position_is_valid p =
    ltb_ℤ (pos 0) p.quantity
    && ltb_ℤ (pos 0) p.entry_price
    && ltb_ℤ (pos 0) p.margin_usdt
    && leb 1 p.leverage
    && nonneg_or_none p.stop_loss
    && nonneg_or_none p.take_profit

-- The calls of an adapter. `World` is what it acts on; `E` is what it may raise. Reading a position
-- changes nothing that the program sees.
pub record Adapter (World E : Type 0) : Type 0 where
  pub get_position : String → World → Result E (Option PositionState)
  pub place_order : OrderRequest → World → World × Result E (Unit {0})
