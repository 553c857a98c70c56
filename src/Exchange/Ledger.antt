-- ===== src/Exchange/Ledger.antt =====
-- backend/exchange_adapters/paper_adapter.py: the state and the positions. Log lines are left out, and
-- the random ids of positions, which nothing reads. A call returns the state that it leaves, with what it
-- returns or raises: what was changed before an exception stays changed.
use k.Base.{
  ℕ, ℤ, pos, ◌+ℤ◌, ◌-ℤ◌, leb_ℤ, min_ℤ, Bool, true, false, not, none, some, String, Result, ok, err,
  if◌then◌else◌,
}
use k.Base.Decimals.{Decimals, decimal}
use k.Base.Dict.{Dict, get, get_or, put, remove}
use k.Exchange.Orders.{OrderRequest, OrderResult, PositionState, position_is_valid}
use k.Exchange.Fills.{PaperError, invalid_position}
use k.Position.Stops.{OrderSide, buy, sell}

-- The state of a `PaperAdapter`: the orders by client order id, the rest by symbol.
pub record Paper : Type 0 where
  pub balance_usdt : ℤ
  pub orders : Dict OrderResult
  pub positions : Dict PositionState
  pub leverage : Dict ℕ
  pub funding_paid : Dict ℤ

abbrev pub Answer : Type 0 → Type 0
Answer A = Paper × Result PaperError A

abbrev pub same_side : OrderSide → OrderSide → Bool
same_side buy buy = true
same_side sell sell = true
same_side buy sell = false
same_side sell buy = false

-- A position is stored if it keeps the constraints of its fields.
unfoldable pub store_position : PositionState → Paper → Answer (Unit {0})
unfolding position_is_valid
store_position position paper =
    if position_is_valid position
    then (record paper { positions = put position.symbol position paper.positions }, ok tt)
    else (paper, err invalid_position)

module _ (D : Decimals) where
  abbrev pub opened : OrderRequest → ℤ → ℕ → PositionState
  opened request fill_price leverage = record {
    symbol = request.symbol;
    side = request.side;
    quantity = request.quantity;
    entry_price = fill_price;
    unrealized_pnl = pos 0;
    margin_usdt = D.over (D.times fill_price request.quantity) (decimal D leverage);
    leverage = leverage;
    stop_loss = none;
    take_profit = none;
  }

  abbrev pub netted : PositionState → OrderRequest → ℤ → ℕ → PositionState
  netted existing request fill_price leverage =
      let total_quantity = existing.quantity +ℤ request.quantity in
      record {
        symbol = request.symbol;
        side = existing.side;
        quantity = total_quantity;
        entry_price =
            D.over
              (D.times existing.entry_price existing.quantity
                +ℤ D.times fill_price request.quantity)
              total_quantity;
        unrealized_pnl = pos 0;
        margin_usdt =
            existing.margin_usdt
            +ℤ D.over (D.times fill_price request.quantity) (decimal D leverage);
        leverage = leverage;
        stop_loss = none;
        take_profit = none;
      }

  -- `_open_or_net_position`
  unfoldable pub open_or_net_position : OrderRequest → ℤ → Paper → Answer (Unit {0})
  unfolding store_position
  open_or_net_position request fill_price paper =
      let leverage = get_or request.symbol 1 paper.leverage in
      elim (get request.symbol paper.positions) [
        | none ↦ store_position (opened request fill_price leverage) paper
        | some existing ↦
            if not (same_side existing.side request.side)
            then store_position (opened request fill_price leverage) paper
            else store_position (netted existing request fill_price leverage) paper
      ]

  abbrev pub pnl_per_unit : PositionState → ℤ → ℤ
  pnl_per_unit existing fill_price = elim existing.side [
    | buy ↦ fill_price -ℤ existing.entry_price
    | sell ↦ existing.entry_price -ℤ fill_price
  ]

  -- The profit or loss of what is closed goes to the balance.
  abbrev pub realize : PositionState → ℤ → ℤ → Paper → Paper
  realize existing closed_qty fill_price paper = record paper {
    balance_usdt = paper.balance_usdt +ℤ D.times (pnl_per_unit existing fill_price) closed_qty;
  }

  abbrev pub reduced : String → PositionState → ℤ → ℕ → PositionState
  reduced symbol existing closed_qty leverage =
      let remaining_qty = existing.quantity -ℤ closed_qty in
      record {
        symbol = symbol;
        side = existing.side;
        quantity = remaining_qty;
        entry_price = existing.entry_price;
        unrealized_pnl = pos 0;
        margin_usdt = D.over (D.times existing.entry_price remaining_qty) (decimal D leverage);
        leverage = existing.leverage;
        stop_loss = none;
        take_profit = none;
      }

  -- `_close_or_reduce_position`
  unfoldable pub close_or_reduce_position : String → ℤ → ℤ → Paper → Answer (Unit {0})
  unfolding store_position
  close_or_reduce_position symbol quantity fill_price paper = elim (get symbol paper.positions) [
    | none ↦ (paper, ok tt)
    | some existing ↦
        let closed_qty = min_ℤ quantity existing.quantity in
        let paid = realize existing closed_qty fill_price paper in
        if leb_ℤ existing.quantity closed_qty
        then (record paid { positions = remove symbol paid.positions }, ok tt)
        else store_position
            (reduced symbol existing closed_qty (get_or symbol existing.leverage paid.leverage))
            paid
  ]
