-- ===== src/Exchange/Account.antt =====
-- backend/exchange_adapters/paper_adapter.py: cancelling, the account, the leverage and funding,
-- with backend/core/funding.py. Log lines are left out.
use k.Base.{
  ℤ, pos, pos_part, ◌+ℤ◌, ◌-ℤ◌, ltb_ℤ, max_ℤ, Bool, true, false, ◌&&◌, ◌||◌, none, some, List, [],
  ◌∷◌, String, str_eq, Result, ok, err, if◌then◌else◌,
}
use k.Base.Decimals.{Decimals}
use k.Base.Dict.{Dict, get, get_or, put}
use k.Exchange.Orders.{
  OrderResult, OrderStatus, pending, filled, partially_filled, cancelled, failed, PositionState,
}
use k.Exchange.Fills.{PaperError, bad_leverage, cross_margin}
use k.Exchange.Ledger.{Paper}
use k.Position.Stops.{OrderSide, buy, sell}

pub data MarginType : Type 0 where
  isolated cross : MarginType

abbrev pub is_pending : OrderStatus → Bool
is_pending pending = true
is_pending filled = false
is_pending partially_filled = false
is_pending cancelled = false
is_pending failed = false

-- The result of an order that is cancelled.
abbrev pub cancelled_result : OrderResult → OrderResult
cancelled_result result = record result {
  status = cancelled;
  quantity_filled = pos 0;
  fill_price = none;
  fee_usdt = pos 0;
  slippage_usdt = none;
}

-- `cancel_order`
unfoldable pub cancel_order : String → Paper → Paper × Bool
cancel_order client_order_id paper = elim (get client_order_id paper.orders) [
  | none ↦ (paper, false)
  | some result ↦
      if is_pending result.status
      then (
        record paper { orders = put client_order_id (cancelled_result result) paper.orders },
        true,
      )
      else (paper, false)
]

-- `get_open_orders`
unfoldable pub get_open_orders : String → Dict OrderResult → List OrderResult
get_open_orders symbol [] = []
get_open_orders symbol ((k, o) ∷ rest) =
    let later = get_open_orders symbol rest in
    if str_eq o.symbol symbol && is_pending o.status then o ∷ later else later

pub record AccountState : Type 0 where
  pub balance_usdt : ℤ
  pub equity_usdt : ℤ
  pub available_margin_usdt : ℤ
  pub used_margin_usdt : ℤ

abbrev pub sum_of : (PositionState → ℤ) → Dict PositionState → ℤ → ℤ
sum_of f [] total = total
sum_of f ((k, p) ∷ rest) total = sum_of f rest (total +ℤ f p)

-- `get_account_state`
unfoldable pub get_account_state : Paper → AccountState
get_account_state paper =
    let used_margin = sum_of (λ p. p.margin_usdt) paper.positions (pos 0) in
    let unrealized_pnl = sum_of (λ p. p.unrealized_pnl) paper.positions (pos 0) in
    let equity = paper.balance_usdt +ℤ unrealized_pnl in
    record {
      balance_usdt = paper.balance_usdt;
      equity_usdt = equity;
      available_margin_usdt = max_ℤ (pos 0) (equity -ℤ used_margin);
      used_margin_usdt = used_margin;
    }

-- `set_leverage`
unfoldable pub set_leverage : String → ℤ → Paper → Result PaperError Paper
set_leverage symbol leverage paper =
    if ltb_ℤ leverage (pos 1) || ltb_ℤ (pos 10) leverage
    then err bad_leverage
    else ok (record paper { leverage = put symbol (pos_part leverage) paper.leverage })

-- `set_margin_type`
unfoldable pub set_margin_type : String → MarginType → Paper → Result PaperError Paper
set_margin_type symbol cross paper = err cross_margin
set_margin_type symbol isolated paper = ok paper

module _ (D : Decimals) where
  unfoldable pub compute_funding_payment : OrderSide → ℤ → ℤ → ℤ → ℤ
  compute_funding_payment buy quantity mark_price funding_rate =
      D.times (D.times quantity mark_price) funding_rate
  compute_funding_payment sell quantity mark_price funding_rate =
      pos 0 -ℤ D.times (D.times quantity mark_price) funding_rate

  -- `apply_funding`
  unfoldable pub apply_funding : String → ℤ → ℤ → Paper → Paper × ℤ
  unfolding compute_funding_payment
  apply_funding symbol funding_rate mark_price paper = elim (get symbol paper.positions) [
    | none ↦ (paper, pos 0)
    | some position ↦
        let payment =
          compute_funding_payment position.side position.quantity mark_price funding_rate in
        (
          record paper {
            balance_usdt = paper.balance_usdt -ℤ payment;
            funding_paid =
                put symbol (get_or symbol (pos 0) paper.funding_paid +ℤ payment) paper.funding_paid;
          },
          payment,
        )
  ]
