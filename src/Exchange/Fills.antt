-- ===== src/Exchange/Fills.antt =====
-- The price and the fee of a simulated fill: backend/backtesting/fee_model.py and
-- slippage_model.py, `half_spread` of backend/core/slippage.py, and `_cross_spread` of
-- backend/exchange_adapters/paper_adapter.py. The checks of strings that are not a known side or
-- type are left out: the types have no others.
use k.Base.{ℤ, pos, ◌+ℤ◌, ◌-ℤ◌, leb_ℤ, ◌||◌, none, some, Result, ok, err, if◌then◌else◌}
use k.Base.Decimals.{Decimals, decimal}
use k.Exchange.Orders.{OrderType, market, limit, stop_market, take_profit_market, OrderRequest}
use k.Position.Stops.{OrderSide, buy, sell}

-- What the paper exchange raises: no price to fill a market order at, quotes that are not coherent,
-- a position or a result that breaks the constraints of its fields, a leverage that is not allowed,
-- and cross margin.
pub data PaperError : Type 0 where
  no_price bad_book invalid_position invalid_result bad_leverage cross_margin : PaperError

-- The types of order that the fee and slippage models know.
pub data FillType : Type 0 where
  market_fill limit_fill stop_fill : FillType

-- `_ORDER_TYPE_TO_MODEL_TYPE`
unfoldable pub fill_type : OrderType → FillType
fill_type market = market_fill
fill_type limit = limit_fill
fill_type stop_market = stop_fill
fill_type take_profit_market = stop_fill

pub record FeeModel : Type 0 where
  pub taker_rate : ℤ
  pub maker_rate : ℤ

abbrev rate_of : FeeModel → FillType → ℤ
rate_of f market_fill = f.taker_rate
rate_of f stop_fill = f.taker_rate
rate_of f limit_fill = f.maker_rate

module _ (D : Decimals) where
  -- `FeeModel.calculate`
  unfoldable pub calculate : FeeModel → ℤ → FillType → ℤ
  calculate f notional_usdt t = D.quantize (D.times notional_usdt (rate_of f t))

  -- A market or stop order is filled at a price that is worse by the basis points.
  abbrev adverse : ℤ → ℤ → OrderSide → ℤ
  adverse market_bps price buy =
      D.quantize (D.times price (D.one +ℤ D.over market_bps (decimal D 10000)))
  adverse market_bps price sell =
      D.quantize (D.times price (D.one -ℤ D.over market_bps (decimal D 10000)))

  -- `SlippageModel.apply`
  unfoldable pub slip : ℤ → ℤ → OrderSide → FillType → ℤ
  slip market_bps price side market_fill = adverse market_bps price side
  slip market_bps price side stop_fill = adverse market_bps price side
  slip market_bps price side limit_fill = D.quantize price

  unfoldable pub half_spread : ℤ → ℤ → Result PaperError ℤ
  half_spread bid ask =
      if leb_ℤ bid (pos 0) || leb_ℤ ask (pos 0)
      then err bad_book
      else if leb_ℤ ask bid
      then err bad_book
      else ok (D.over (ask -ℤ bid) (decimal D 2))

  abbrev moved_against : ℤ → OrderSide → ℤ → ℤ
  moved_against fill_price buy spread = D.quantize (fill_price +ℤ spread)
  moved_against fill_price sell spread = D.quantize (fill_price -ℤ spread)

  -- `_cross_spread`
  unfoldable pub cross_spread : ℤ → OrderRequest → Result PaperError ℤ
  unfolding half_spread
  cross_spread fill_price request = elim request.bid [
    | none ↦ ok fill_price
    | some bid ↦ elim request.ask [
      | none ↦ ok fill_price
      | some ask ↦ elim (half_spread bid ask) [
        | err e ↦ err e
        | ok spread ↦ ok (moved_against fill_price request.side spread)
      ]
    ]
  ]
