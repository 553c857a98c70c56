-- ===== src/Exchange/Paper.antt =====
-- backend/exchange_adapters/paper_adapter.py: orders. Log lines are left out, and the time stamps
-- and random ids of results, which nothing reads.
use k.Base.{ℤ, pos, ◌-ℤ◌, leb_ℤ, ltb_ℤ, none, some, ok, err, if◌then◌else◌}
use k.Base.Decimals.{Decimals}
use k.Base.Dict.{get, put}
use k.Exchange.Orders.{
  OrderRequest, OrderResult, OrderType, market, limit, stop_market, take_profit_market, filled,
  pending, result_is_valid,
}
use k.Exchange.Fills.{no_price, invalid_result, FeeModel, fill_type, calculate, slip, cross_spread}
use k.Exchange.Ledger.{Paper, Answer, open_or_net_position, close_or_reduce_position}

abbrev magnitude : ℤ → ℤ
magnitude x = if ltb_ℤ x (pos 0) then pos 0 -ℤ x else x

module _ (D : Decimals) where
  module _ (fees : FeeModel) (market_bps : ℤ) where
    -- What a filled order returns.
    abbrev pub filled_result : OrderRequest → ℤ → ℤ → OrderResult
    filled_result request price fill_price =
        let notional = D.quantize (D.times fill_price request.quantity) in
        record {
          client_order_id = request.client_order_id;
          symbol = request.symbol;
          side = request.side;
          order_type = request.order_type;
          status = filled;
          quantity_requested = request.quantity;
          quantity_filled = request.quantity;
          fill_price = some fill_price;
          fee_usdt = calculate D fees notional (fill_type request.order_type);
          slippage_usdt =
              some (D.quantize (D.times (magnitude (fill_price -ℤ price)) request.quantity));
        }

    -- The fee is paid, then the position changes, then the result is built.
    unfoldable pub settle : OrderRequest → ℤ → ℤ → Paper → Answer OrderResult
    unfolding open_or_net_position close_or_reduce_position result_is_valid calculate fill_type
    settle request price fill_price paper =
        let result = filled_result request price fill_price in
        let charged = record paper { balance_usdt = paper.balance_usdt -ℤ result.fee_usdt } in
        let (after, changed) =
          if request.is_reduce_only
          then close_or_reduce_position D request.symbol request.quantity fill_price charged
          else open_or_net_position D request fill_price charged in
        (
          after,
          elim changed [
            | err e ↦ err e
            | ok _ ↦ if result_is_valid result then ok result else err invalid_result
          ],
        )

    -- `_fill_market_order`
    unfoldable pub fill_market_order : OrderRequest → Paper → Answer OrderResult
    unfolding settle cross_spread slip fill_type
    fill_market_order request paper = elim request.price [
      | none ↦ (paper, err no_price)
      | some price ↦
          if leb_ℤ price (pos 0)
          then (paper, err no_price)
          else elim (cross_spread D
              (slip D market_bps price request.side (fill_type request.order_type)) request) [
                | err e ↦ (paper, err e)
                | ok fill_price ↦ settle request price fill_price paper
              ]
    ]

    -- `_register_pending_order`
    abbrev pub pending_result : OrderRequest → OrderResult
    pending_result request = record {
      client_order_id = request.client_order_id;
      symbol = request.symbol;
      side = request.side;
      order_type = request.order_type;
      status = pending;
      quantity_requested = request.quantity;
      quantity_filled = pos 0;
      fill_price = none;
      fee_usdt = pos 0;
      slippage_usdt = none;
    }

    abbrev pub place_new : OrderRequest → OrderType → Paper → Answer OrderResult
    place_new request market paper = fill_market_order request paper
    place_new request limit paper = (paper, ok (pending_result request))
    place_new request stop_market paper = (paper, ok (pending_result request))
    place_new request take_profit_market paper = (paper, ok (pending_result request))

    -- The result of an order is kept under its id.
    abbrev pub keep : OrderRequest → Answer OrderResult → Answer OrderResult
    keep request (after, err e) = (after, err e)
    keep request (after, ok result) =
        (record after { orders = put request.client_order_id result after.orders }, ok result)

    unfoldable pub place_order : OrderRequest → Paper → Answer OrderResult
    unfolding fill_market_order
    place_order request paper = elim (get request.client_order_id paper.orders) [
      | some result ↦ (paper, ok result)
      | none ↦ keep request (place_new request request.order_type paper)
    ]
