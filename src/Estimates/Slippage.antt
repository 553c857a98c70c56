-- ===== src/Estimates/Slippage.antt =====
-- backend/core/slippage.py: the slippage that an order is expected to have.
use k.Base.{
  ℤ, pos, ◌+ℤ◌, ◌-ℤ◌, leb_ℤ, ltb_ℤ, Bool, true, false, not, ◌&&◌, ◌||◌, String, str_eq, Result, ok,
  err, if◌then◌else◌,
}
use k.Base.Numbers.{Numbers}
use k.Base.Decimals.{Decimals, decimal}
use k.Decision.{DecisionType, EntryType, ModelDecision, is_long}
use k.Estimates.Fees.{EstimateError, no_order, out_of_range, incoherent, wrong_symbol, is_entry}
use k.Exchange.Orders.{OrderType, market, limit, stop_market, take_profit_market}
use k.Position.Stops.{OrderSide, buy, sell}
use k.Risk.Checks.{SlippageEstimate}

-- `is_estimable`
unfoldable pub is_estimable : (N : Numbers) → ModelDecision N → Bool
is_estimable N decision = decision.execute && is_entry decision.entry_type

-- `_CROSSES_SPREAD`
abbrev pub crosses_spread : OrderType → Bool
crosses_spread market = true
crosses_spread limit = false
crosses_spread stop_market = false
crosses_spread take_profit_market = false

abbrev moved : OrderSide → ℤ → ℤ → ℤ
moved buy reference_price adverse = reference_price +ℤ adverse
moved sell reference_price adverse = reference_price -ℤ adverse

module _ (D : Decimals) where
  -- What a unit costs: the half spread and the impact.
  abbrev pub half_spread_per_unit : ℤ → ℤ → ℤ
  half_spread_per_unit bid ask = D.over (ask -ℤ bid) (decimal D 2)

  abbrev pub impact_per_unit : ℤ → ℤ → ℤ
  impact_per_unit reference_price market_impact_bps =
      D.over (D.times reference_price market_impact_bps) (decimal D 10000)

  unfoldable pub crossing_estimate : OrderSide → ℤ → ℤ → ℤ → ℤ → ℤ → SlippageEstimate
  crossing_estimate side notional_usdt bid ask reference_price market_impact_bps =
      let quantity = D.over notional_usdt reference_price in
      let spread = half_spread_per_unit bid ask in
      let impact = impact_per_unit reference_price market_impact_bps in
      record {
        estimated_slippage_usdt = D.quantize (D.times (spread +ℤ impact) quantity);
        half_spread_usdt = D.quantize (D.times spread quantity);
        impact_usdt = D.quantize (D.times impact quantity);
        expected_fill_price = D.quantize (moved side reference_price (spread +ℤ impact));
        bid = bid;
        ask = ask;
      }

  unfoldable pub estimate_slippage :
      OrderSide → OrderType → ℤ → ℤ → ℤ → ℤ → ℤ → Result EstimateError SlippageEstimate
  unfolding crossing_estimate
  estimate_slippage side order_type notional_usdt bid ask reference_price market_impact_bps =
      if leb_ℤ notional_usdt (pos 0)
      then err out_of_range
      else if leb_ℤ bid (pos 0) || leb_ℤ ask (pos 0)
      then err out_of_range
      else if leb_ℤ ask bid
      then err incoherent
      else if leb_ℤ reference_price (pos 0)
      then err out_of_range
      else if ltb_ℤ market_impact_bps (pos 0)
      then err out_of_range
      else if not (crosses_spread order_type)
      then ok record {
        estimated_slippage_usdt = pos 0;
        half_spread_usdt = pos 0;
        impact_usdt = pos 0;
        expected_fill_price = D.quantize reference_price;
        bid = bid;
        ask = ask;
      }
      else ok (crossing_estimate side notional_usdt bid ask reference_price market_impact_bps)

  -- The side and the type of order of a decision.
  abbrev pub side_of_trade : DecisionType → OrderSide
  side_of_trade decision = if is_long decision then buy else sell

  abbrev pub order_type_of : EntryType → OrderType
  order_type_of EntryType.market = market
  order_type_of EntryType.limit = limit
  order_type_of EntryType.no_entry = limit

  module _ (N : Numbers) where
    -- The symbol, the bid and the ask are those of the snapshot.
    unfoldable pub estimate_for_decision :
        String → ℤ → ℤ → ModelDecision N → ℤ → ℤ → ℤ → Result EstimateError SlippageEstimate
    unfolding is_estimable estimate_slippage
    estimate_for_decision symbol bid ask decision margin_usdt leverage market_impact_bps =
        if not (is_estimable N decision)
        then err no_order
        else if not (str_eq symbol decision.symbol)
        then err wrong_symbol
        else estimate_slippage (side_of_trade decision.decision) (order_type_of decision.entry_type)
            (D.times margin_usdt leverage) bid ask (N.to_decimal decision.entry_price)
            market_impact_bps
