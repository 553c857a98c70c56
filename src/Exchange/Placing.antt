-- ===== src/Exchange/Placing.antt =====
-- The ways in which `place_order` of backend/exchange_adapters/paper_adapter.py ends.
use k.Base.{ℤ, pos, leb_ℤ, ◌≡◌, none, some, ok, err, if_ind, option_ind, result_ind}
use k.Base.Decimals.{Decimals}
use k.Base.Dict.{get}
use k.Exchange.Orders.{
  OrderRequest, OrderResult, OrderType, market, limit, stop_market, take_profit_market,
}
use k.Exchange.Fills.{FeeModel, PaperError, cross_spread, slip, fill_type}
use k.Exchange.Ledger.{Paper, Answer}
use k.Exchange.Paper.{settle, fill_market_order, pending_result, place_new, keep, place_order}

module _ (D : Decimals) (fees : FeeModel) (market_bps : ℤ) (P : Answer OrderResult → Type 0)
    (request : OrderRequest) (paper : Paper)
    (refused : (e : PaperError) → P (keep D fees market_bps request (paper, err e)))
    (settled : (price fill_price : ℤ)
      → get request.client_order_id paper.orders ≡ none
      → P (
          keep D fees market_bps request
            (settle D fees market_bps request price fill_price paper))) where
  fill_ind :
      get request.client_order_id paper.orders ≡ none
      → P (keep D fees market_bps request (fill_market_order D fees market_bps request paper))
  unfolding fill_market_order
  fill_ind fresh =
      let Kept : Answer OrderResult → Type 0 =
        λ answer. P (keep D fees market_bps request answer) in
      option_ind {B = Answer OrderResult} Kept request.price (λ _. refused PaperError.no_price)
        (λ price _.
          if_ind {B = Answer OrderResult} Kept (leb_ℤ price (pos 0))
            (λ _. refused PaperError.no_price)
            (λ _.
              result_ind {B = Answer OrderResult} Kept
                (cross_spread D
                  (slip D market_bps price request.side (fill_type request.order_type)) request)
                {f = λ e. (paper, err e)} (λ e _. refused e)
                (λ fill_price _. settled price fill_price fresh)))

  new_ind :
      (t : OrderType)
      → get request.client_order_id paper.orders ≡ none
      → P (keep D fees market_bps request (paper, ok (pending_result D fees market_bps request)))
      → P (keep D fees market_bps request (place_new D fees market_bps request t paper))
  new_ind market fresh registered = fill_ind fresh
  new_ind limit fresh registered = registered
  new_ind stop_market fresh registered = registered
  new_ind take_profit_market fresh registered = registered

  pub place_order_ind :
      ((known : OrderResult)
        → get request.client_order_id paper.orders ≡ some known
        → P (paper, ok known))
      → (get request.client_order_id paper.orders ≡ none
          → P (
              keep D fees market_bps request
                (paper, ok (pending_result D fees market_bps request))))
      → P (place_order D fees market_bps request paper)
  unfolding place_order
  place_order_ind repeated registered =
      option_ind {B = Answer OrderResult} P (get request.client_order_id paper.orders)
        (λ fresh. new_ind request.order_type fresh (registered fresh)) repeated
