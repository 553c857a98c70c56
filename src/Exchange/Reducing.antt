-- ===== src/Exchange/Reducing.antt =====
-- Reduce-only orders on the paper exchange: backend/exchange_adapters/paper_adapter.py.
use k.Base.{
  -ℤ_parts, ℕ, ℤ, pos, ◌-ℤ◌, ◌≤ℤ◌, ◌<ℤ◌, leb_ℤ, min_ℤ, ◌≡◌, refl, sym, true, false, Bool,
  Bool-cases, Option, none, some, String, str_eq, str_eq_iff, ok, err, arith, if_ind, option_ind,
  inl, inr,
}
use mathlib.Core.Path.{subst}
use k.Base.Decimals.{Decimals}
use k.Base.Dict.{
  get, get_or, put, remove, get-put_self, get-put_other, get-remove_self, get-remove_other,
}
use k.Exchange.Orders.{OrderRequest, OrderResult, PositionState, position_is_valid}
use k.Exchange.Fills.{FeeModel}
use k.Exchange.Placing.{place_order_ind}
use k.Exchange.Ledger.{Paper, Answer, store_position, close_or_reduce_position, reduced, realize}
use k.Exchange.Paper.{settle, keep, place_order, filled_result}

-- A position has gone, or is left with no more than it had, on the same side, at the same entry
-- price and leverage; no position has appeared.
abbrev pub Shrinks : Option PositionState → Option PositionState → Type 0
Shrinks none after = after ≡ none
Shrinks (some before) none = Unit {0}
Shrinks (some before) (some after) =
    (after.side ≡ before.side)
    × (after.quantity ≤ℤ before.quantity)
    × (after.entry_price ≡ before.entry_price)
    × (after.leverage ≡ before.leverage)

Shrinks-self : (held : Option PositionState) → Shrinks held held
Shrinks-self none = refl
Shrinks-self (some p) = (refl, omega arith, refl, refl)

Shrinks-none : (held : Option PositionState) → Shrinks held none
Shrinks-none none = refl
Shrinks-none (some p) = tt

-- The positions of an answer have shrunk.
abbrev AllShrink : {A : Type 0} → Paper → Answer A → Type 0
AllShrink paper answer = (s : String) → Shrinks (get s paper.positions) (get s answer.0.positions)

AllShrink-removed :
    (symbol : String) (paper : Paper) (s : String)
    → Shrinks (get s paper.positions) (get s (remove symbol paper.positions))
AllShrink-removed symbol paper s = elim (Bool-cases (str_eq symbol s)) [
  | inl is ↦
      subst (λ n. Shrinks (get n paper.positions) (get n (remove symbol paper.positions)))
        ((str_eq_iff symbol s).0 is)
        (subst (Shrinks (get symbol paper.positions)) (sym (get-remove_self symbol paper.positions))
          (Shrinks-none (get symbol paper.positions)))
  | inr other ↦
      subst (Shrinks (get s paper.positions))
        (sym (get-remove_other symbol s paper.positions other))
        (Shrinks-self (get s paper.positions))
]

AllShrink-stored :
    (position existing : PositionState) (paper : Paper)
    → get position.symbol paper.positions ≡ some existing
    → Shrinks (some existing) (some position)
    → (s : String)
    → Shrinks (get s paper.positions) (get s (store_position position paper).0.positions)
unfolding store_position
AllShrink-stored position existing paper found shrinks s =
    if_ind {B = Answer (Unit {0})} (λ a. Shrinks (get s paper.positions) (get s a.0.positions))
      (position_is_valid position)
      (λ _. elim (Bool-cases (str_eq position.symbol s)) [
        | inl is ↦
            subst
              (λ n.
                Shrinks (get n paper.positions)
                  (get n (put position.symbol position paper.positions)))
              ((str_eq_iff position.symbol s).0 is)
              (subst (Shrinks (get position.symbol paper.positions))
                (sym (get-put_self position.symbol position paper.positions))
                (subst (λ held. Shrinks held (some position)) (sym found) shrinks))
        | inr other ↦
            subst (Shrinks (get s paper.positions))
              (sym (get-put_other position.symbol s position paper.positions other))
              (Shrinks-self (get s paper.positions))
      ])
      (λ _. Shrinks-self (get s paper.positions))

module _ (D : Decimals) where
  reduced-Shrinks :
      (symbol : String) (existing : PositionState) (quantity : ℤ) (n : ℕ)
      → pos 0 <ℤ quantity
      → leb_ℤ existing.quantity (min_ℤ quantity existing.quantity) ≡ false
      → Shrinks
          (some existing)
          (some (reduced D symbol existing (min_ℤ quantity existing.quantity) n))
  reduced-Shrinks symbol existing quantity n positive part =
      (refl, less existing.quantity quantity positive part, refl, refl)
    where
      less :
          (q quantity : ℤ)
          → pos 0 <ℤ quantity
          → leb_ℤ q (min_ℤ quantity q) ≡ false
          → q -ℤ min_ℤ quantity q ≤ℤ q
      less q quantity positive part = ground (arith, -ℤ_parts q (min_ℤ quantity q))

  close_or_reduce_position-AllShrink :
      (symbol : String) (quantity fill_price : ℤ) (paper : Paper)
      → pos 0 <ℤ quantity
      → AllShrink paper (close_or_reduce_position D symbol quantity fill_price paper)
  unfolding close_or_reduce_position
  close_or_reduce_position-AllShrink symbol quantity fill_price paper positive =
      option_ind {B = Answer (Unit {0})} (AllShrink paper) (get symbol paper.positions)
        (λ _ s. Shrinks-self (get s paper.positions))
        (λ existing found.
          let closed_qty = min_ℤ quantity existing.quantity in
          let paid = realize D existing closed_qty fill_price paper in
          let n = get_or symbol existing.leverage paid.leverage in
          let rest = reduced D symbol existing closed_qty n in
          if_ind {B = Answer (Unit {0})} (AllShrink paper) (leb_ℤ existing.quantity closed_qty)
            {x = (record paid { positions = remove symbol paid.positions }, ok tt)}
            {y = store_position rest paid} (λ _. AllShrink-removed symbol paper)
            (λ part.
              AllShrink-stored rest existing paid found
                (reduced-Shrinks symbol existing quantity n positive part)))

  module _ (fees : FeeModel) (market_bps : ℤ) where
    settle-AllShrink :
        (request : OrderRequest) (price fill_price : ℤ) (paper : Paper)
        → request.is_reduce_only ≡ true
        → pos 0 <ℤ request.quantity
        → AllShrink paper (settle D fees market_bps request price fill_price paper)
    unfolding settle
    settle-AllShrink request price fill_price paper only positive =
        let result = filled_result D fees market_bps request price fill_price in
        let charged = record paper { balance_usdt = paper.balance_usdt -ℤ result.fee_usdt } in
        if_ind {B = Answer (Unit {0})} (AllShrink paper) request.is_reduce_only
          (λ _.
            close_or_reduce_position-AllShrink request.symbol request.quantity fill_price charged
              positive)
          (λ no. absurd (distinct no only))
      where
        distinct : {b : Bool} → b ≡ false → b ≡ true → ⊥
        distinct e f = cc

    keep-AllShrink :
        (request : OrderRequest) (paper : Paper) (answer : Answer OrderResult)
        → AllShrink paper answer
        → AllShrink paper (keep D fees market_bps request answer)
    keep-AllShrink request paper (after, ok r) h = h
    keep-AllShrink request paper (after, err e) h = h

    -- A reduce-only order of any type with a positive quantity, filled, refused, repeated or left
    -- pending, neither opens nor enlarges nor flips a position of any symbol: each position is gone
    -- or has at most the quantity it had, on the same side, at the same entry price and leverage.
    pub reduce_only_never_grows :
        (request : OrderRequest) (paper : Paper) (symbol : String)
        → request.is_reduce_only ≡ true
        → pos 0 <ℤ request.quantity
        → Shrinks
            (get symbol paper.positions)
            (get symbol (place_order D fees market_bps request paper).0.positions)
    reduce_only_never_grows request paper symbol only positive =
        place_order_ind D fees market_bps (AllShrink paper) request paper
          (λ e s. Shrinks-self (get s paper.positions))
          (λ price fill_price _.
            keep-AllShrink request paper (settle D fees market_bps request price fill_price paper)
              (settle-AllShrink request price fill_price paper only positive))
          (λ known _ s. Shrinks-self (get s paper.positions))
          (λ _ s. Shrinks-self (get s paper.positions)) symbol
