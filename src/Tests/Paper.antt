-- ===== src/Tests/Paper.antt =====
-- A paper exchange with 1000 USDT, on which a long position of 2 units is opened at 100 and closed.
-- Amounts are in hundredths; a fee is one hundredth of the notional.
use k.Base.{pos, ◌+ℤ◌, ◌-ℤ◌, ◌≡◌, refl, true, false, none, some, [], ◌∷◌, ◌++◌, ok, arith}
use k.Base.Dict.{get, remove}
use k.Decision.{symbol_allowed}
use k.Exchange.Orders.{OrderRequest, OrderResult, market, limit, position_is_valid, result_is_valid}
use k.Exchange.Account.{
  cancel_order, cancelled_result, set_leverage, apply_funding, compute_funding_payment,
}
use k.Exchange.Fills.{FeeModel, PaperError, fill_type, calculate, slip, half_spread, cross_spread}
use k.Exchange.Ledger.{Paper, store_position, open_or_net_position, close_or_reduce_position}
use k.Exchange.Paper.{settle, fill_market_order, place_order, pending_result}
use k.Exchange.Sound.{Sound}
use k.Exchange.Session.{
  start, ordered, withdrawn, leveraged, funded, after_call, after_calls, after_calls-Sound,
  session_invariant,
}
use k.Exchange.Retried.{Fares, retried_order_changes_nothing}
use k.Exchange.Reducing.{Shrinks, reduce_only_never_grows}
use k.Position.Stops.{buy, sell}
use k.Position.Closing.{Surroundings, stop_reached}
use k.Position.Watch.{unwatched}
use k.Position.Tick.{tick}
use k.Position.OnPaper.{paper_exchange, on_paper, stop_empties_paper}
use k.Tests.Fixed.{fixed}
use k.Tests.Managed.{decimals, watched, two_levels, long}

abbrev fees : FeeModel
fees = record { taker_rate = pos 1; maker_rate = pos 0 }

abbrev enter : OrderRequest
enter = record {
  client_order_id = "first";
  symbol = "BTCUSDT";
  side = buy;
  order_type = market;
  quantity = pos 200;
  price = some (pos 10000);
  stop_price = none;
  is_reduce_only = false;
  bid = some (pos 9990);
  ask = some (pos 10010);
}

abbrev leave : OrderRequest
leave = record enter {
  client_order_id = "second";
  side = sell;
  quantity = pos 50;
  is_reduce_only = true;
  bid = none;
  ask = none;
}

abbrev book_of : Paper
book_of =
    after_calls decimals fees (pos 2) (ordered enter ∷ ordered leave ∷ []) (start (pos 100000))

-- Bought at the ask: 2 units at 100.1 cost a fee of 2; a quarter sold at 100 costs 0.5 and a loss of 0.05.
bought :
    (get "BTCUSDT" book_of.positions
      ≡ some (record long {
        quantity = pos 150;
        entry_price = pos 10010;
        margin_usdt = pos 15015;
        leverage = 1;
      }))
    × (book_of.balance_usdt ≡ pos 99745)
unfolding after_call place_order fill_market_order settle open_or_net_position
    close_or_reduce_position store_position position_is_valid result_is_valid fill_type calculate
    slip half_spread cross_spread ◌+ℤ◌ ◌-ℤ◌
bought = (refl, refl)

-- A payment of funding on the long position.
cost :
    (after_calls decimals fees
      (pos 2)
      (leveraged "BTCUSDT" (pos 5) ∷ ordered enter ∷ funded "BTCUSDT" (pos 10) (pos 10000) ∷ [])
      (start (pos 100000))).funding_paid
    ≡ ("BTCUSDT", pos 2000) ∷ []
unfolding after_call place_order fill_market_order settle open_or_net_position store_position
    position_is_valid result_is_valid fill_type calculate slip half_spread cross_spread set_leverage
    apply_funding compute_funding_payment ◌+ℤ◌ ◌-ℤ◌
cost = refl

session_invariant_example : Sound (
    after_calls decimals fees
      (pos 2)
      (ordered enter ∷ leveraged "BTCUSDT" (pos 11) ∷ withdrawn "first" ∷ ordered leave ∷ [])
      (start (pos 100000)))
session_invariant_example =
    session_invariant decimals fees (pos 2)
      (ordered enter ∷ leveraged "BTCUSDT" (pos 11) ∷ withdrawn "first" ∷ ordered leave ∷ [])
      (pos 100000)

-- A limit order to buy, which waits.
abbrev wait_at : OrderRequest
wait_at = record enter { client_order_id = "limit"; order_type = limit }

abbrev waiting : OrderResult
waiting = pending_result decimals fees (pos 2) wait_at

-- Placed again after it was cancelled, it is reported as cancelled.
retried :
    (place_order decimals fees (pos 2) wait_at (
      after_calls decimals fees
        (pos 2)
        (ordered wait_at ∷ withdrawn "limit" ∷ [])
        (start (pos 100000)))).1
    ≡ ok (cancelled_result waiting)
unfolding after_call place_order cancel_order
retried = refl

retried_order_changes_nothing_example :
    let between = withdrawn "limit" ∷ leveraged "BTCUSDT" (pos 5) ∷ [] in
    let later =
      after_calls decimals fees (pos 2) (ordered wait_at ∷ between) (start (pos 100000)) in
    ((known : OrderResult) × Fares "limit" between waiting known
      × (place_order decimals fees (pos 2) (record leave { client_order_id = "limit" }) later
          ≡ (later, ok known)))
    × (after_calls decimals fees
          (pos 2)
          ((ordered wait_at ∷ between)
            ++ ordered (record leave { client_order_id = "limit" }) ∷ ordered enter ∷ [])
          (start (pos 100000))
        ≡ after_calls decimals fees
            (pos 2)
            ((ordered wait_at ∷ between) ++ ordered enter ∷ [])
            (start (pos 100000)))
unfolding place_order
retried_order_changes_nothing_example =
    retried_order_changes_nothing decimals fees (pos 2) wait_at
      (record leave { client_order_id = "limit" })
      (withdrawn "limit" ∷ leveraged "BTCUSDT" (pos 5) ∷ []) (ordered enter ∷ [])
      (start (pos 100000)) {result = waiting} refl refl

reduce_only_never_grows_example :
    Shrinks
      (get "BTCUSDT" book_of.positions)
      (get "BTCUSDT" (place_order decimals fees (pos 2) leave book_of).0.positions)
reduce_only_never_grows_example =
    reduce_only_never_grows decimals fees (pos 2) leave book_of "BTCUSDT" refl (omega arith)

abbrev around : Surroundings fixed Paper PaperError
around = record {
  adapter = paper_exchange decimals fees (pos 2);
  on_invalidation_event = none;
  monotonic = λ p. pos 0;
  uuid4 = λ p. "third";
  is_uuid = λ s. true;
}

book_of-Sound : Sound book_of
unfolding after_call
book_of-Sound =
    after_calls-Sound decimals fees (pos 2) (ordered enter ∷ ordered leave ∷ [])
      (start (pos 100000)) (record { positions = tt; leverage = tt; orders = tt })

stop_empties_paper_example :
    let ended =
      tick fixed decimals
        (on_paper decimals fees (pos 2) fixed around)
        "BTCUSDT"
        (pos 9400)
        none
        none
        watched
        book_of in
    (get "BTCUSDT" ended.world.positions ≡ none)
    × (ended.world.positions ≡ remove "BTCUSDT" book_of.positions)
    × (ended.watch ≡ unwatched fixed)
unfolding after_call place_order fill_market_order settle open_or_net_position
    close_or_reduce_position store_position position_is_valid result_is_valid fill_type calculate
    slip half_spread cross_spread stop_reached symbol_allowed ◌+ℤ◌ ◌-ℤ◌
stop_empties_paper_example =
    stop_empties_paper decimals fees (pos 2) fixed around "BTCUSDT" (pos 9400) (pos 9500) none none
      watched book_of
      {position = record long {
        quantity = pos 150;
        entry_price = pos 10010;
        margin_usdt = pos 15015;
        leverage = 1;
      }}
      {config = two_levels} book_of-Sound refl refl refl refl (omega arith) refl refl refl
