-- ===== src/Estimates/Estimable.antt =====
-- When backend/core/slippage.py gives an estimate.
use k.Base.{
  ℤ, pos, ◌≤ℤ◌, ◌<ℤ◌, ◌≡◌, ◌≢◌, refl, true, false, Bool, not, ◌&&◌, ◌↔◌, String, str_eq, str_eq_iff,
  Result, err, is_ok, arith, if◌then◌else◌,
}
use k.Base.Numbers.{Numbers}
use k.Base.Decimals.{Decimals}
use k.Decision.{ModelDecision, EntryType}
use k.Exchange.Orders.{OrderType}
use k.Position.Stops.{OrderSide}
use k.Estimates.Fees.{is_entry, no_order, wrong_symbol}
use k.Estimates.Slippage.{
  side_of_trade, order_type_of, is_estimable, estimate_slippage, estimate_for_decision,
}

-- Amounts in their ranges and a book that is not crossed.
abbrev pub InRange : ℤ → ℤ → ℤ → ℤ → ℤ → Type 0
InRange notional_usdt bid ask reference_price market_impact_bps =
    (pos 0 <ℤ notional_usdt)
    × (pos 0 <ℤ bid)
    × (bid <ℤ ask)
    × (pos 0 <ℤ reference_price)
    × (pos 0 ≤ℤ market_impact_bps)

gated :
    {E A : Type 0} (e f : E) (b c : Bool) (r : Result E A)
    → (is_ok (if not b then err e else if not c then err f else r) ≡ true)
      ↔ ((b ≡ true) × (c ≡ true) × (is_ok r ≡ true))
gated e f b c r = ground arith

entry_iff : (t : EntryType) → (is_entry t ≡ true) ↔ (t ≢ EntryType.no_entry)
entry_iff EntryType.market = (λ _ e. cc, λ _. refl)
entry_iff EntryType.limit = (λ _ e. cc, λ _. refl)
entry_iff EntryType.no_entry = (λ h e. cc, λ h. absurd (h refl))

estimable_iff :
    (execute : Bool) (t : EntryType)
    → ((execute && is_entry t) ≡ true) ↔ ((execute ≡ true) × (t ≢ EntryType.no_entry))
estimable_iff true t = (λ h. (refl, (entry_iff t).0 h), λ h. (entry_iff t).1 h.1)
estimable_iff false t = (λ h. cc, λ h. let no = h.0 in cc)

module _ (D : Decimals) where
  estimate_slippage_iff :
      (side : OrderSide) (t : OrderType) (n bid ask price bps : ℤ)
      → (is_ok (estimate_slippage D side t n bid ask price bps) ≡ true)
        ↔ InRange n bid ask price bps
  unfolding estimate_slippage
  estimate_slippage_iff side t n bid ask price bps = ground arith

  module _ (N : Numbers) where
    -- The slippage of a decision has an estimate exactly when the decision is to be executed, with a
    -- market or limit order, the quotes are of its symbol, and the notional, the bid and the entry
    -- price are positive, the ask is above the bid and the market impact is not negative.
    pub estimate_for_decision_iff :
        (symbol : String) (bid ask : ℤ) (d : ModelDecision N)
        (margin_usdt leverage market_impact_bps : ℤ)
        → (is_ok (estimate_for_decision D N symbol bid ask d margin_usdt leverage market_impact_bps)
            ≡ true)
          ↔ ((d.execute ≡ true)
              × (d.entry_type ≢ EntryType.no_entry)
              × (symbol ≡ d.symbol)
              × InRange
                  (D.times margin_usdt leverage)
                  bid
                  ask
                  (N.to_decimal d.entry_price)
                  market_impact_bps)
    unfolding estimate_for_decision is_estimable
    estimate_for_decision_iff symbol bid ask d margin_usdt leverage market_impact_bps =
        let tests = gated no_order wrong_symbol (is_estimable N d) (str_eq symbol d.symbol) (
          estimate_slippage D (side_of_trade D d.decision) (order_type_of D d.entry_type)
            (D.times margin_usdt leverage) bid ask (N.to_decimal d.entry_price)
            market_impact_bps) in
        let estimable = estimable_iff d.execute d.entry_type in
        let same = str_eq_iff symbol d.symbol in
        let ranges =
          estimate_slippage_iff (side_of_trade D d.decision) (order_type_of D d.entry_type)
            (D.times margin_usdt leverage) bid ask (N.to_decimal d.entry_price) market_impact_bps in
        (
          λ h.
              let (e, s, r) = tests.0 h in
              let (execute, entry) = estimable.0 e in (execute, entry, same.0 s, ranges.0 r),
          λ h. tests.1 (estimable.1 (h.0, h.1), same.1 h.2, ranges.1 h.3),
        )
