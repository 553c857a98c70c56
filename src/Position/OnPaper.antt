-- ===== src/Position/OnPaper.antt =====
-- The position manager on the paper exchange: backend/position_manager/manager.py over
-- backend/exchange_adapters/paper_adapter.py.
use k.Base.{
  ℤ, pos, ◌<ℤ◌, leb_ℤ, min_ℤ, ◌≡◌, refl, ap, ◌∙◌, true, false, Bool, Option, none, some, String, ok,
  err, arith, at_some, at_none, at_ok, if_ind, is_ok, is_ok-inv, [],
}
use k.Base.Numbers.{Numbers}
use k.Base.Decimals.{Decimals}
use k.Base.Dict.{get, remove, get-remove_self, Entries-get}
use k.Decision.{symbol_allowed}
use k.Exchange.Orders.{
  OrderRequest, OrderResult, market, PositionState, Adapter, request_is_valid, book_coherent,
  position_is_valid,
}
use k.Exchange.Fills.{FeeModel, PaperError, half_spread, cross_spread, slip, fill_type}
use k.Exchange.Ledger.{Paper, Answer, close_or_reduce_position}
use k.Exchange.Paper.{settle, fill_market_order, keep, place_order}
use k.Exchange.Sound.{Sound, SoundPosition}
use k.Position.Stops.{OrderSide}
use k.Position.Schemas.{PositionConfig}
use k.Position.Watch.{Watch, unwatched}
use k.Position.Closing.{
  Surroundings, usable_book, bid_of, ask_of, opposite_side, stop_reached, place_close_order,
}
use k.Position.Tick.{tick}
use k.Position.Final.{reached_stop_closes}

abbrev close_request : String → String → ℤ → ℤ → OrderSide → Option (ℤ × ℤ) → OrderRequest
close_request id symbol quantity mark_price side book = record {
  client_order_id = id;
  symbol = symbol;
  side = opposite_side side;
  order_type = market;
  quantity = quantity;
  price = some mark_price;
  stop_price = none;
  is_reduce_only = true;
  bid = bid_of (usable_book book);
  ask = ask_of (usable_book book);
}

close_request_is_valid :
    (is_uuid : String → Bool) (id symbol : String) (quantity mark_price : ℤ) (side : OrderSide)
    (book : Option (ℤ × ℤ))
    → is_uuid id ≡ true
    → symbol_allowed symbol ≡ true
    → pos 0 <ℤ quantity
    → pos 0 <ℤ mark_price
    → request_is_valid is_uuid (close_request id symbol quantity mark_price side book) ≡ true
unfolding request_is_valid book_coherent usable_book
close_request_is_valid is_uuid id symbol quantity mark_price side none u allowed q m = ground arith
close_request_is_valid is_uuid id symbol quantity mark_price side (some (bid, ask)) u allowed q m =
    ground arith

positive_quantity : (p : PositionState) → position_is_valid p ≡ true → pos 0 <ℤ p.quantity
unfolding position_is_valid
positive_quantity p h = ground arith

module _ (D : Decimals) where
  crosses :
      (fill_price : ℤ) (id symbol : String) (quantity mark_price : ℤ) (side : OrderSide)
      (book : Option (ℤ × ℤ))
      → is_ok (cross_spread D fill_price (close_request id symbol quantity mark_price side book))
        ≡ true
  unfolding cross_spread half_spread usable_book
  crosses fill_price id symbol quantity mark_price side none = refl
  crosses fill_price id symbol quantity mark_price side (some (bid, ask)) = ground arith

  module _ (fees : FeeModel) (market_bps : ℤ) where
    settle-close :
        (id symbol : String) (mark_price price : ℤ) (book : Option (ℤ × ℤ)) (paper : Paper)
        {position : PositionState}
        → get symbol paper.positions ≡ some position
        → let request = close_request id symbol position.quantity mark_price position.side book in
          (settle D fees market_bps request mark_price price paper).0.positions
          ≡ remove symbol paper.positions
    unfolding settle close_or_reduce_position
    settle-close id symbol mark_price price book paper {position} found =
        at_some {B = Answer (Unit {0})} (λ a. a.0.positions ≡ remove symbol paper.positions)
          (get symbol paper.positions) _ _ found
          (if_ind {B = Answer (Unit {0})} (λ a. a.0.positions ≡ remove symbol paper.positions)
            (leb_ℤ position.quantity (min_ℤ position.quantity position.quantity)) (λ _. refl)
            (λ part. absurd (whole position.quantity part)))
      where
        whole : (q : ℤ) → leb_ℤ q (min_ℤ q q) ≡ false → ⊥
        whole q h = ground arith

    keep-positions :
        (request : OrderRequest) (answer : Answer OrderResult)
        → (keep D fees market_bps request answer).0.positions ≡ answer.0.positions
    keep-positions request (after, ok r) = refl
    keep-positions request (after, err e) = refl

    -- The order that closes all of a position takes it off, also if its result is refused.
    place_order-close :
        (id symbol : String) (mark_price : ℤ) (book : Option (ℤ × ℤ)) (paper : Paper)
        {position : PositionState}
        → get symbol paper.positions ≡ some position
        → get id paper.orders ≡ none
        → pos 0 <ℤ mark_price
        → let request = close_request id symbol position.quantity mark_price position.side book in
          (place_order D fees market_bps request paper).0.positions ≡ remove symbol paper.positions
    unfolding place_order fill_market_order
    place_order-close id symbol mark_price book paper {position} found fresh positive =
        let request = close_request id symbol position.quantity mark_price position.side book in
        let slipped = slip D market_bps mark_price request.side (fill_type market) in
        let (price, crossed) =
          is_ok-inv (cross_spread D slipped request)
            (crosses slipped id symbol position.quantity mark_price position.side book) in
        let Removes : Answer OrderResult → Type 0 =
          λ a. a.0.positions ≡ remove symbol paper.positions in
        at_none {B = Answer OrderResult} Removes (get id paper.orders) _ _ fresh (
          keep-positions request (fill_market_order D fees market_bps request paper)
          ∙ if_ind {B = Answer OrderResult} Removes (leb_ℤ mark_price (pos 0))
              (λ negative. absurd (above mark_price positive negative))
              (λ _.
                at_ok {B = Answer OrderResult} Removes (cross_spread D slipped request)
                  (λ e. (paper, err e)) _ crossed
                  (settle-close id symbol mark_price price book paper found)))
      where
        above : (x : ℤ) → pos 0 <ℤ x → leb_ℤ x (pos 0) ≡ true → ⊥
        above x h g = ground arith

    abbrev forget : Answer OrderResult → Answer (Unit {0})
    forget (after, ok r) = (after, ok tt)
    forget (after, err e) = (after, err e)

    -- The paper exchange as the adapter of the manager.
    abbrev pub paper_exchange : Adapter Paper PaperError
    paper_exchange = record {
      get_position = λ symbol paper. ok (get symbol paper.positions);
      place_order = λ request paper. forget (place_order D fees market_bps request paper);
    }

    forget-state : (answer : Answer OrderResult) → (forget answer).0 ≡ answer.0
    forget-state (after, ok r) = refl
    forget-state (after, err e) = refl

    -- The manager over the paper exchange.
    abbrev pub on_paper :
        (N : Numbers) → Surroundings N Paper PaperError → Surroundings N Paper PaperError
    on_paper N around = record around { adapter = paper_exchange }

    module _ (N : Numbers) (around : Surroundings N Paper PaperError) where
      place_close_order-removes :
          (symbol : String) (mark_price : ℤ) (book : Option (ℤ × ℤ)) (paper : Paper)
          {position : PositionState}
          → get symbol paper.positions ≡ some position
          → get (around.uuid4 paper) paper.orders ≡ none
          → around.is_uuid (around.uuid4 paper) ≡ true
          → symbol_allowed symbol ≡ true
          → pos 0 <ℤ position.quantity
          → pos 0 <ℤ mark_price
          → (place_close_order N
              (on_paper N around)
              symbol
              position.quantity
              mark_price
              position.side
              book
              paper).0.positions
            ≡ remove symbol paper.positions
      unfolding place_close_order
      place_close_order-removes symbol mark_price book paper {position} found fresh u allowed q m =
          let id = around.uuid4 paper in
          let request = close_request id symbol position.quantity mark_price position.side book in
          let valid =
            close_request_is_valid around.is_uuid id symbol position.quantity mark_price
              position.side book u allowed q m in
          let placed = place_order D fees market_bps request paper in
          rw valid (
            ap (λ p. p.positions) (forget-state placed)
            ∙ place_order-close id symbol mark_price book paper found fresh m)

      -- On the paper exchange, with its state sound, a tick at a positive price that has reached
      -- the stop in force closes the position: when the new order id is a UUID that is not in use and the
      -- symbol is an allowed one, then after the tick the exchange has no position for the symbol,
      -- it has all its other positions as they were, and the manager watches nothing more.
      pub stop_empties_paper :
          (symbol : String) (mark_price sl : ℤ) (book : Option (ℤ × ℤ)) (atr : Option ℤ)
          (watch : Watch N) (paper : Paper) {position : PositionState} {config : PositionConfig}
          → Sound paper
          → get symbol paper.positions ≡ some position
          → watch.config ≡ some config
          → watch.effective_sl ≡ some sl
          → stop_reached position.side mark_price sl ≡ true
          → pos 0 <ℤ mark_price
          → get (around.uuid4 paper) paper.orders ≡ none
          → around.is_uuid (around.uuid4 paper) ≡ true
          → symbol_allowed symbol ≡ true
          → let ended = tick N D (on_paper N around) symbol mark_price book atr watch paper in
            (get symbol ended.world.positions ≡ none)
            × (ended.world.positions ≡ remove symbol paper.positions)
            × (ended.watch ≡ unwatched N)
      stop_empties_paper symbol mark_price sl book atr watch paper {position} sound found configured
            at_sl hit positive fresh u allowed =
          let closes =
            (reached_stop_closes N D (on_paper N around) symbol mark_price sl book atr watch paper
              [] (ap ok found) configured at_sl hit).0 in
          let held = Entries-get SoundPosition symbol paper.positions sound.positions found in
          let removed =
            ap (λ e. e.world.positions) closes
            ∙ place_close_order-removes symbol mark_price book paper found fresh u allowed
                (positive_quantity position held.1) positive in
          (
            ap (get symbol) removed ∙ get-remove_self symbol paper.positions,
            removed,
            ap (λ e. e.watch) closes,
          )
