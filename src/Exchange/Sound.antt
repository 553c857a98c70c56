-- ===== src/Exchange/Sound.antt =====
-- The state that the paper exchange keeps: backend/exchange_adapters/paper_adapter.py.
use k.Base.{
  ℕ, ℤ, ◌-ℤ◌, leb_ℤ, ◌≤◌, ◌≡◌, refl, true, if◌then◌else◌, min_ℤ, String, ok, err, arith, if_ind,
  option_ind,
}
use k.Base.Decimals.{Decimals}
use k.Base.Dict.{get, get_or, remove, Entries, Entries-get, Entries-put, Entries-remove}
use k.Exchange.Orders.{OrderRequest, OrderResult, PositionState, position_is_valid, result_is_valid}
use k.Exchange.Fills.{FeeModel, PaperError}
use k.Exchange.Placing.{place_order_ind}
use k.Exchange.Ledger.{
  Paper, Answer, store_position, open_or_net_position, close_or_reduce_position, opened, netted,
  reduced, realize,
}
use k.Exchange.Paper.{settle, keep, place_order, filled_result, pending_result}

-- A position is kept under its symbol, with fields in their ranges and a leverage that is allowed.
abbrev pub SoundPosition : String → PositionState → Type 0
SoundPosition symbol p = (symbol ≡ p.symbol) × (position_is_valid p ≡ true) × (p.leverage ≤ 10)

abbrev pub SoundLeverage : String → ℕ → Type 0
SoundLeverage symbol n = (1 ≤ n) × (n ≤ 10)

-- An order is kept under its id.
abbrev pub SoundOrder : String → OrderResult → Type 0
SoundOrder id r = (id ≡ r.client_order_id) × (result_is_valid r ≡ true)

pub record Sound (paper : Paper) : Type 0 where
  pub positions : Entries SoundPosition paper.positions
  pub leverage : Entries SoundLeverage paper.leverage
  pub orders : Entries SoundOrder paper.orders

store_position-Sound :
    (position : PositionState) (paper : Paper)
    → Sound paper
    → position.leverage ≤ 10
    → Sound (store_position position paper).0
unfolding store_position
store_position-Sound position paper s small =
    if_ind {B = Answer (Unit {0})} (λ a. Sound a.0) (position_is_valid position)
      (λ valid. record {
        positions =
            Entries-put SoundPosition position.symbol position paper.positions s.positions
              (refl, valid, small);
        leverage = s.leverage;
        orders = s.orders;
      })
      (λ _. s)

leverage_small :
    (symbol : String) (default : ℕ) (paper : Paper)
    → Sound paper
    → default ≤ 10
    → get_or symbol default paper.leverage ≤ 10
leverage_small symbol default paper s small =
    option_ind (λ n. n ≤ 10) (get symbol paper.leverage) (λ _. small)
      (λ n found. (Entries-get SoundLeverage symbol paper.leverage s.leverage found).1)

module _ (D : Decimals) where
  open_or_net_position-Sound :
      (request : OrderRequest) (fill_price : ℤ) (paper : Paper)
      → Sound paper
      → Sound (open_or_net_position D request fill_price paper).0
  unfolding open_or_net_position
  open_or_net_position-Sound request fill_price paper s =
      let leverage = get_or request.symbol 1 paper.leverage in
      let small = leverage_small request.symbol 1 paper s (omega arith) in
      option_ind {B = Answer (Unit {0})} (λ a. Sound a.0) (get request.symbol paper.positions)
        (λ _. store_position-Sound (opened D request fill_price leverage) paper s small)
        (λ existing _.
          if_ind {B = Answer (Unit {0})} (λ a. Sound a.0) _
            (λ _. store_position-Sound (opened D request fill_price leverage) paper s small)
            (λ _.
              store_position-Sound (netted D existing request fill_price leverage) paper s small))

  close_or_reduce_position-Sound :
      (symbol : String) (quantity fill_price : ℤ) (paper : Paper)
      → Sound paper
      → Sound (close_or_reduce_position D symbol quantity fill_price paper).0
  unfolding close_or_reduce_position
  close_or_reduce_position-Sound symbol quantity fill_price paper s =
      option_ind {B = Answer (Unit {0})} (λ a. Sound a.0) (get symbol paper.positions) (λ _. s)
        (λ existing found.
          let closed_qty = min_ℤ quantity existing.quantity in
          let paid = realize D existing closed_qty fill_price paper in
          let rest =
            reduced D symbol existing closed_qty (get_or symbol existing.leverage paid.leverage) in
          let t : Sound paid = record {
            positions = s.positions;
            leverage = s.leverage;
            orders = s.orders;
          } in
          if_ind {B = Answer (Unit {0})} (λ a. Sound a.0) (leb_ℤ existing.quantity closed_qty)
            {x = (record paid { positions = remove symbol paid.positions }, ok tt)}
            {y = store_position rest paid}
            (λ _. record {
              positions = Entries-remove SoundPosition symbol paper.positions s.positions;
              leverage = s.leverage;
              orders = s.orders;
            })
            (λ _.
              store_position-Sound rest paid t
                (Entries-get SoundPosition symbol paper.positions s.positions found).2))

  -- What a call does to the orders: it returns a valid result with the id of the request.
  abbrev SoundAnswer : OrderRequest → Answer OrderResult → Type 0
  SoundAnswer request (after, err e) = Sound after
  SoundAnswer request (after, ok r) = Sound after × SoundOrder request.client_order_id r

  module _ (fees : FeeModel) (market_bps : ℤ) where
    built :
        (request : OrderRequest) (result : OrderResult)
        → request.client_order_id ≡ result.client_order_id
        → (changed : Answer (Unit {0})) → Sound changed.0
        → SoundAnswer request (
          changed.0,
          elim changed.1 [
            | err e ↦ err e
            | ok _ ↦ if result_is_valid result then ok result else err PaperError.invalid_result
          ],
        )
    built request result id (after, err e) s = s
    built request result id (after, ok u) s =
        if_ind (λ r. SoundAnswer request (after, r)) (result_is_valid result)
          (λ valid. (s, (id, valid))) (λ _. s)

    settle-Sound :
        (request : OrderRequest) (price fill_price : ℤ) (paper : Paper)
        → Sound paper
        → SoundAnswer request (settle D fees market_bps request price fill_price paper)
    unfolding settle
    settle-Sound request price fill_price paper s =
        let result = filled_result D fees market_bps request price fill_price in
        let charged = record paper { balance_usdt = paper.balance_usdt -ℤ result.fee_usdt } in
        let t : Sound charged = record {
          positions = s.positions;
          leverage = s.leverage;
          orders = s.orders;
        } in
        built request result refl _ (
          if_ind {B = Answer (Unit {0})} (λ a. Sound a.0) request.is_reduce_only
            (λ _.
              close_or_reduce_position-Sound request.symbol request.quantity fill_price charged t)
            (λ _. open_or_net_position-Sound request fill_price charged t))

    keep-Sound :
        (request : OrderRequest) (answer : Answer OrderResult)
        → SoundAnswer request answer
        → Sound (keep D fees market_bps request answer).0
    keep-Sound request (after, err e) s = s
    keep-Sound request (after, ok r) (s, valid) = record {
      positions = s.positions;
      leverage = s.leverage;
      orders = Entries-put SoundOrder request.client_order_id r after.orders s.orders valid;
    }

    pub place_order-Sound :
        (request : OrderRequest) (paper : Paper)
        → Sound paper
        → Sound (place_order D fees market_bps request paper).0
    unfolding result_is_valid
    place_order-Sound request paper s =
        place_order_ind D fees market_bps (λ a. Sound a.0) request paper (λ e. s)
          (λ price fill_price _.
            keep-Sound request (settle D fees market_bps request price fill_price paper)
              (settle-Sound request price fill_price paper s))
          (λ known _. s)
          (λ _.
            keep-Sound request (paper, ok (pending_result D fees market_bps request))
              (s, (refl, refl)))
