-- ===== src/Exchange/Session.antt =====
-- A session of the paper exchange: the calls of backend/exchange_adapters/paper_adapter.py in any
-- order.
use k.Base.{
  ℤ, pos, pos_part, ltb_ℤ, ◌≡◌, refl, Bool, false, ◌||◌, List, [], ◌∷◌, String, Result, ok, err,
  arith, if_ind, option_ind,
}
use k.Base.Decimals.{Decimals}
use k.Base.Dict.{get, Entries-get, Entries-put}
use k.Exchange.Orders.{OrderRequest, result_is_valid}
use k.Exchange.Fills.{FeeModel, PaperError}
use k.Exchange.Ledger.{Paper}
use k.Exchange.Paper.{place_order}
use k.Exchange.Account.{cancel_order, set_leverage, apply_funding, is_pending}
use k.Exchange.Sound.{SoundLeverage, SoundOrder, Sound, place_order-Sound}

-- The calls that change the state.
pub data Call : Type 0 where
  ordered : OrderRequest → Call
  withdrawn : String → Call
  leveraged : String → ℤ → Call
  funded : String → ℤ → ℤ → Call

-- A paper exchange as it is built.
abbrev pub start : ℤ → Paper
start balance = record {
  balance_usdt = balance;
  orders = [];
  positions = [];
  leverage = [];
  funding_paid = [];
}

cancel_order-Sound : (id : String) (paper : Paper) → Sound paper → Sound (cancel_order id paper).0
unfolding cancel_order result_is_valid
cancel_order-Sound id paper s =
    option_ind {B = Paper × Bool} (λ a. Sound a.0) (get id paper.orders) (λ _. s)
      (λ result found.
        if_ind {B = Paper × Bool} (λ a. Sound a.0) (is_pending result.status)
          (λ _. record {
            positions = s.positions;
            leverage = s.leverage;
            orders =
                Entries-put SoundOrder id _ paper.orders s.orders
                  ((Entries-get SoundOrder id paper.orders s.orders found).0, refl);
          })
          (λ _. s))

abbrev pub or_same : Paper → Result PaperError Paper → Paper
or_same paper (ok after) = after
or_same paper (err e) = paper

set_leverage-Sound :
    (symbol : String) (n : ℤ) (paper : Paper)
    → Sound paper
    → Sound (or_same paper (set_leverage symbol n paper))
unfolding set_leverage
set_leverage-Sound symbol n paper s =
    if_ind (λ r. Sound (or_same paper r)) (ltb_ℤ n (pos 1) || ltb_ℤ (pos 10) n) (λ _. s)
      (λ inside. record {
        positions = s.positions;
        leverage =
            Entries-put SoundLeverage symbol (pos_part n) paper.leverage s.leverage
              (in_range n inside);
        orders = s.orders;
      })
  where
    in_range :
        (n : ℤ) → (ltb_ℤ n (pos 1) || ltb_ℤ (pos 10) n) ≡ false → SoundLeverage symbol (pos_part n)
    in_range n h = ground arith

module _ (D : Decimals) (fees : FeeModel) (market_bps : ℤ) where
  -- The state that a call leaves, also one that raises.
  unfoldable pub after_call : Call → Paper → Paper
  unfolding place_order cancel_order set_leverage apply_funding
  after_call (ordered request) paper = (place_order D fees market_bps request paper).0
  after_call (withdrawn id) paper = (cancel_order id paper).0
  after_call (leveraged symbol n) paper = or_same paper (set_leverage symbol n paper)
  after_call (funded symbol rate price) paper = (apply_funding D symbol rate price paper).0

  abbrev pub after_calls : List Call → Paper → Paper
  after_calls [] paper = paper
  after_calls (c ∷ rest) paper = after_calls rest (after_call c paper)

  after_call-Sound : (c : Call) (paper : Paper) → Sound paper → Sound (after_call c paper)
  unfolding after_call apply_funding
  after_call-Sound (ordered request) paper s = place_order-Sound D fees market_bps request paper s
  after_call-Sound (withdrawn id) paper s = cancel_order-Sound id paper s
  after_call-Sound (leveraged symbol n) paper s = set_leverage-Sound symbol n paper s
  after_call-Sound (funded symbol rate price) paper s =
      option_ind {B = Paper × ℤ} (λ a. Sound a.0) (get symbol paper.positions) (λ _. s)
        (λ position _. record { positions = s.positions; leverage = s.leverage; orders = s.orders })

  pub after_calls-Sound :
      (calls : List Call) (paper : Paper) → Sound paper → Sound (after_calls calls paper)
  after_calls-Sound [] paper s = s
  after_calls-Sound (c ∷ rest) paper s =
      after_calls-Sound rest (after_call c paper) (after_call-Sound c paper s)

  -- Whatever orders, cancellations, changes of leverage and funding payments a paper exchange gets,
  -- those that raise included: it keeps each position under its symbol, with a positive quantity,
  -- entry price and margin and a leverage of 1 to 10; each leverage set is from 1 to 10; and each
  -- order is kept under its id, with amounts that are not negative.
  pub session_invariant :
      (calls : List Call) (balance : ℤ) → Sound (after_calls calls (start balance))
  session_invariant calls balance =
      after_calls-Sound calls (start balance)
        (record { positions = tt; leverage = tt; orders = tt })
