-- ===== src/Exchange/Known.antt =====
-- Placing an order again: backend/exchange_adapters/paper_adapter.py.
use k.Base.{
  ℤ, ◌-ℤ◌, ◌≡◌, refl, ap, ◌∙◌, Bool-cases, inl, inr, none, some, String, str_eq, str_eq_iff, ok,
  err, arith, if_ind, at_some,
}
use k.Base.Decimals.{Decimals}
use k.Base.Dict.{get, get-put_self, get-put_other}
use k.Exchange.Orders.{OrderRequest, OrderResult, PositionState}
use k.Exchange.Fills.{FeeModel}
use k.Exchange.Placing.{place_order_ind}
use k.Exchange.Ledger.{
  Paper, Answer, store_position, open_or_net_position, close_or_reduce_position,
}
use k.Exchange.Paper.{settle, pending_result, keep, place_order, filled_result}

-- The orders are those of a state.
abbrev Same : {A : Type 0} → Paper → Answer A → Type 0
Same paper answer = answer.0.orders ≡ paper.orders

module _ (D : Decimals) where
  store_position-Same :
      (position : PositionState) (paper : Paper) → Same paper (store_position position paper)
  unfolding store_position
  store_position-Same position paper = ground arith

  open_or_net_position-Same :
      (request : OrderRequest) (fill_price : ℤ) (paper : Paper)
      → Same paper (open_or_net_position D request fill_price paper)
  unfolding open_or_net_position store_position
  open_or_net_position-Same request fill_price paper = ground arith

  close_or_reduce_position-Same :
      (symbol : String) (quantity fill_price : ℤ) (paper : Paper)
      → Same paper (close_or_reduce_position D symbol quantity fill_price paper)
  unfolding close_or_reduce_position store_position
  close_or_reduce_position-Same symbol quantity fill_price paper = ground arith

  module _ (fees : FeeModel) (market_bps : ℤ) where
    settle-Same :
        (request : OrderRequest) (price fill_price : ℤ) (paper : Paper)
        → Same paper (settle D fees market_bps request price fill_price paper)
    unfolding settle
    settle-Same request price fill_price paper =
        let charged = record paper {
          balance_usdt =
              paper.balance_usdt
              -ℤ (filled_result D fees market_bps request price fill_price).fee_usdt;
        } in
        if_ind {B = Answer (Unit {0})} (Same paper) request.is_reduce_only
          (λ _. close_or_reduce_position-Same request.symbol request.quantity fill_price charged)
          (λ _. open_or_net_position-Same request fill_price charged)

    keep-get :
        (id : String) (request : OrderRequest) (paper : Paper) {known : OrderResult}
        (answer : Answer OrderResult)
        → Same paper answer
        → get id paper.orders ≡ some known
        → get request.client_order_id paper.orders ≡ none
        → get id (keep D fees market_bps request answer).0.orders ≡ some known
    keep-get id request paper (after, err e) same found fresh = ap (get id) same ∙ found
    keep-get id request paper (after, ok result) same found fresh =
        elim (Bool-cases (str_eq request.client_order_id id)) [
          | inl is ↦ let eq = (str_eq_iff request.client_order_id id).0 is in cc
          | inr other ↦
              get-put_other request.client_order_id id result after.orders other
              ∙ ap (get id) same
              ∙ found
        ]

    pub place_known :
        (request : OrderRequest) (paper : Paper) {known : OrderResult}
        → get request.client_order_id paper.orders ≡ some known
        → place_order D fees market_bps request paper ≡ (paper, ok known)
    unfolding place_order
    place_known request paper {known} found =
        at_some (λ answer. answer ≡ (paper, ok known)) (get request.client_order_id paper.orders) _
          _ found refl

    pub place_order-get :
        (id : String) (request : OrderRequest) (paper : Paper) {known : OrderResult}
        → get id paper.orders ≡ some known
        → get id (place_order D fees market_bps request paper).0.orders ≡ some known
    place_order-get id request paper {known} found =
        place_order_ind D fees market_bps (λ answer. get id answer.0.orders ≡ some known) request
          paper (λ e. found)
          (λ price fill_price.
            keep-get id request paper (settle D fees market_bps request price fill_price paper)
              (settle-Same request price fill_price paper) found)
          (λ other _. found)
          (keep-get id request paper (paper, ok (pending_result D fees market_bps request)) refl
            found)

    keep-kept :
        (request : OrderRequest) (answer : Answer OrderResult) {result : OrderResult}
        → (keep D fees market_bps request answer).1 ≡ ok result
        → get request.client_order_id (keep D fees market_bps request answer).0.orders ≡ some result
    keep-kept request (after, err e) h = cc
    keep-kept request (after, ok other) {result} h =
        let eq : other ≡ result = cc in
        get-put_self request.client_order_id other after.orders ∙ ap some eq

    pub accepted-get :
        (request : OrderRequest) (paper : Paper) {result : OrderResult}
        → (place_order D fees market_bps request paper).1 ≡ ok result
        → get request.client_order_id (place_order D fees market_bps request paper).0.orders
          ≡ some result
    accepted-get request paper {result} =
        place_order_ind D fees market_bps
          (λ answer.
            answer.1 ≡ ok result → get request.client_order_id answer.0.orders ≡ some result)
          request paper (λ e h. cc)
          (λ price fill_price _.
            keep-kept request (settle D fees market_bps request price fill_price paper))
          (λ known found h. let eq : known ≡ result = cc in found ∙ ap some eq)
          (λ _. keep-kept request (paper, ok (pending_result D fees market_bps request)))
