-- ===== src/Estimates/Costs.antt =====
-- What the estimates of backend/core/fees.py and slippage.py guarantee, also to the gates of
-- backend/risk_engine/checks.py.
use k.Base.{
  ℤ, pos, ◌+ℤ◌, ◌-ℤ◌, +ℤ_parts, -ℤ_parts, ◌≤ℤ◌, ◌<ℤ◌, leb_ℤ, ◌≡◌, true, false, not, ◌||◌, Result,
  ok, some, arith, if_ind,
}
use mathlib.Core.Path.{subst}
use k.Base.Numbers.{Numbers}
use k.Base.Decimals.{Decimals, OrderedProducts}
use k.Decision.{DecisionType, long, short, no_operar, EntryType}
use k.Risk.Checks.{FeeEstimate, check_fee_gate}
use k.Risk.Results.{is_block}
use k.Estimates.Fees.{
  EstimateError, FeeRates, Roundings, rates_are_valid, reward_per_unit, risk_per_unit,
  entry_rate_of, is_direction, is_entry, fees_of, estimate_fees,
}

-- What the estimates rely on of quotients and roundings: a greater numerator over a smaller
-- denominator gives no smaller quotient, where these are positive, and rounding keeps the order.
pub record OrderedQuotients (D : Decimals) (R : Roundings) : Type 0 where
  pub over_less :
      (a b c d : ℤ) → a ≤ℤ b → pos 0 <ℤ b → pos 0 <ℤ c → c ≤ℤ d → D.over a d ≤ℤ D.over b c
  pub over_nonneg : (a b : ℤ) → pos 0 ≤ℤ a → pos 0 <ℤ b → pos 0 ≤ℤ D.over a b
  pub floor_less : (a b : ℤ) → a ≤ℤ b → R.floor a ≤ℤ R.floor b
  pub up_nonneg : (a : ℤ) → pos 0 ≤ℤ a → pos 0 ≤ℤ R.up a

-- The stop is on the side of the loss and the target on that of the gain.
abbrev pub OnTheirSides : DecisionType → ℤ → ℤ → ℤ → Type 0
OnTheirSides long entry_price stop_loss take_profit =
    (stop_loss <ℤ entry_price) × (entry_price <ℤ take_profit)
OnTheirSides short entry_price stop_loss take_profit =
    (take_profit <ℤ entry_price) × (entry_price <ℤ stop_loss)
OnTheirSides no_operar entry_price stop_loss take_profit = ⊥

sides_hold :
    (side : DecisionType) (entry_price stop_loss take_profit : ℤ)
    → not (is_direction side) ≡ false
    → (leb_ℤ (reward_per_unit side entry_price take_profit) (pos 0)
        || leb_ℤ (risk_per_unit side entry_price stop_loss) (pos 0))
      ≡ false
    → OnTheirSides side entry_price stop_loss take_profit
sides_hold long e s t d h = ground (arith, -ℤ_parts t e, -ℤ_parts e s)
sides_hold short e s t d h = ground (arith, -ℤ_parts e t, -ℤ_parts s e)
sides_hold no_operar e s t d h = cc

module _ (D : Decimals) (R : Roundings) (P : OrderedProducts D) (Q : OrderedQuotients D R) where
  rate_nonneg :
      (entry_type : EntryType) (rates : FeeRates)
      → rates_are_valid D rates ≡ true
      → (pos 0 ≤ℤ entry_rate_of entry_type rates) × (pos 0 ≤ℤ rates.taker)
  unfolding rates_are_valid
  rate_nonneg EntryType.market rates h = ground arith
  rate_nonneg EntryType.limit rates h = ground arith
  rate_nonneg EntryType.no_entry rates h = ground arith

  less_after : (reward a b : ℤ) → pos 0 ≤ℤ a → pos 0 ≤ℤ b → reward -ℤ a -ℤ b ≤ℤ reward
  less_after reward a b h g = omega (arith, -ℤ_parts (reward -ℤ a) b, -ℤ_parts reward a)

  more_after : (risk a b : ℤ) → pos 0 ≤ℤ a → pos 0 ≤ℤ b → risk ≤ℤ risk +ℤ a +ℤ b
  more_after risk a b h g = omega (arith, +ℤ_parts (risk +ℤ a) b, +ℤ_parts risk a)

  -- Fees cost something and do not improve the ratio.
  abbrev pub Honest : FeeEstimate → Type 0
  Honest e =
      (e.net_risk_reward ≤ℤ e.gross_risk_reward)
      × (pos 0 ≤ℤ e.entry_fee_usdt)
      × (pos 0 ≤ℤ e.exit_fee_at_tp_usdt)
      × (pos 0 ≤ℤ e.exit_fee_at_sl_usdt)

  fees_of-Honest :
      (side : DecisionType) (entry_type : EntryType) (n e s t : ℤ) (rates : FeeRates)
      → rates_are_valid D rates ≡ true
      → leb_ℤ n (pos 0) ≡ false
      → (leb_ℤ e (pos 0) || leb_ℤ s (pos 0) || leb_ℤ t (pos 0)) ≡ false
      → (leb_ℤ (reward_per_unit side e t) (pos 0) || leb_ℤ (risk_per_unit side e s) (pos 0)) ≡ false
      → Honest (fees_of D R side entry_type n e s t rates)
  unfolding fees_of
  fees_of-Honest side entry_type n e s t rates valid n+ prices+ sides+ =
      let (entry+, exit+) = rate_nonneg entry_type rates valid in
      let n_nonneg : pos 0 ≤ℤ n = ground arith in
      let e_positive : pos 0 <ℤ e = ground arith in
      let e_nonneg : pos 0 ≤ℤ e = ground arith in
      let s_nonneg : pos 0 ≤ℤ s = ground arith in
      let t_nonneg : pos 0 ≤ℤ t = ground arith in
      let reward = reward_per_unit side e t in
      let risk = risk_per_unit side e s in
      let entry_rate = entry_rate_of entry_type rates in
      let reward_positive : pos 0 <ℤ reward = ground arith in
      let risk_positive : pos 0 <ℤ risk = ground arith in
      let q = Q.over_nonneg n e n_nonneg e_positive in
      let entry_cost = P.times_nonneg e entry_rate e_nonneg entry+ in
      let tp_cost = P.times_nonneg t rates.taker t_nonneg exit+ in
      let sl_cost = P.times_nonneg s rates.taker s_nonneg exit+ in
      (
        Q.floor_less _ _ (
            Q.over_less _ reward risk _ (less_after reward _ _ entry_cost tp_cost) reward_positive
              risk_positive (more_after risk _ _ entry_cost sl_cost)),
        Q.up_nonneg _ (P.times_nonneg n entry_rate n_nonneg entry+),
        Q.up_nonneg _ (P.times_nonneg _ rates.taker (P.times_nonneg _ t q t_nonneg) exit+),
        Q.up_nonneg _ (P.times_nonneg _ rates.taker (P.times_nonneg _ s q s_nonneg) exit+),
      )

  abbrev Passed : DecisionType → ℤ → ℤ → ℤ → FeeEstimate → Type 0
  Passed side e s t estimate = OnTheirSides side e s t × Honest estimate

  estimate_fees-Passed :
      (side : DecisionType) (entry_type : EntryType) (n e s t : ℤ) (rates : FeeRates)
      {estimate : FeeEstimate}
      → rates_are_valid D rates ≡ true
      → estimate_fees D R side entry_type n e s t rates ≡ ok estimate
      → Passed side e s t estimate
  unfolding estimate_fees
  estimate_fees-Passed side entry_type n e s t rates {estimate} valid =
      let Right : Result EstimateError FeeEstimate → Type 0 =
        λ r. r ≡ ok estimate → Passed side e s t estimate in
      if_ind Right (not (is_direction side)) (λ _ h. cc)
        (λ directed.
          if_ind Right (not (is_entry entry_type)) (λ _ h. cc)
            (λ _.
              if_ind Right (leb_ℤ n (pos 0)) (λ _ h. cc)
                (λ n+.
                  if_ind Right (leb_ℤ e (pos 0) || leb_ℤ s (pos 0) || leb_ℤ t (pos 0)) (λ _ h. cc)
                    (λ prices+.
                      if_ind Right
                        (leb_ℤ (reward_per_unit side e t) (pos 0)
                          || leb_ℤ (risk_per_unit side e s) (pos 0))
                        (λ _ h. cc)
                        (λ sides+ h.
                          let built = fees_of D R side entry_type n e s t rates in
                          let same : built ≡ estimate = cc in
                          subst (Passed side e s t) same (
                            sides_hold side e s t directed sides+,
                            fees_of-Honest side entry_type n e s t rates valid n+ prices+ sides+,
                          ))))))

  module _ (N : Numbers) where
    gate_passes :
        (estimate : FeeEstimate) (min : N.Float)
        → is_block (check_fee_gate N (some estimate) min) ≡ false
        → N.to_decimal min ≤ℤ estimate.net_risk_reward
    unfolding check_fee_gate
    gate_passes estimate min h = ground arith

    -- With valid rates, where products, quotients and roundings keep the order, an estimate of the
    -- fees that passes the gate of the Risk Engine is of a trade with its stop and its target on
    -- their sides of the entry and with fees that are not negative; its ratio of reward to risk is
    -- at least the minimum after fees, and at least that before them.
    pub passed_fee_gate :
        (side : DecisionType) (entry_type : EntryType)
        (notional_usdt entry_price stop_loss take_profit : ℤ) (rates : FeeRates) (min : N.Float)
        {estimate : FeeEstimate}
        → rates_are_valid D rates ≡ true
        → estimate_fees D R side entry_type notional_usdt entry_price stop_loss take_profit rates
          ≡ ok estimate
        → is_block (check_fee_gate N (some estimate) min) ≡ false
        → OnTheirSides side entry_price stop_loss take_profit
          × (N.to_decimal min ≤ℤ estimate.net_risk_reward)
          × (estimate.net_risk_reward ≤ℤ estimate.gross_risk_reward)
          × (pos 0 ≤ℤ estimate.entry_fee_usdt)
          × (pos 0 ≤ℤ estimate.exit_fee_at_tp_usdt)
          × (pos 0 ≤ℤ estimate.exit_fee_at_sl_usdt)
    passed_fee_gate side entry_type n e s t rates min {estimate} valid made passes =
        let (sides, honest) = estimate_fees-Passed side entry_type n e s t rates valid made in
        (sides, gate_passes estimate min passes, honest.0, honest.1, honest.2, honest.3)
