-- ===== src/Exchange/Retried.antt =====
-- An order that is placed again later: backend/exchange_adapters/paper_adapter.py.
use k.Base.{
  ltb_ℤ, pos, pos_part, ◌||◌, ℤ, ◌≡◌, refl, sym, ap, ◌∙◌, inl, inr, ◌⊎◌, Bool, true, Bool-cases,
  some, List, [], ◌∷◌, ◌++◌, String, str_eq, str_eq_iff, ok, err, Member, if_ind, option_ind,
}
use mathlib.Core.Path.{subst}
use k.Base.Decimals.{Decimals}
use k.Base.Dict.{get, put, get-put_self, get-put_other}
use k.Exchange.Orders.{OrderRequest, OrderResult, cancelled}
use k.Exchange.Fills.{FeeModel, PaperError}
use k.Exchange.Ledger.{Paper}
use k.Exchange.Paper.{place_order}
use k.Exchange.Account.{cancelled_result, is_pending, cancel_order, set_leverage, apply_funding}
use k.Exchange.Known.{place_known, place_order-get, accepted-get}
use k.Exchange.Session.{
  Call, ordered, withdrawn, leveraged, funded, or_same, after_call, after_calls,
}

-- A known order after calls: cancelled by one of them if it was pending, and as it was otherwise.
abbrev pub Fares : String → List Call → OrderResult → OrderResult → Type 0
Fares id calls before after =
    ((after ≡ before) × (is_pending before.status ≡ true → Member (withdrawn id) calls → ⊥))
    ⊎ ((after ≡ cancelled_result before)
        × Member (withdrawn id) calls
        × (is_pending before.status ≡ true))

withdrawn_inj : {id other : String} → withdrawn id ≡ withdrawn other → id ≡ other
withdrawn_inj e = cc

module _ (D : Decimals) (fees : FeeModel) (market_bps : ℤ) where
  -- What is known of an order in a state that these calls have led to.
  abbrev Known : String → List Call → OrderResult → Paper → Type 0
  Known id calls before paper =
      (after : OrderResult) × (get id paper.orders ≡ some after) × Fares id calls before after

  cancel_order-Known :
      (id other : String) (paper : Paper) {before : OrderResult}
      → get id paper.orders ≡ some before
      → Known id (withdrawn other ∷ []) before (cancel_order other paper).0
  unfolding cancel_order
  cancel_order-Known id other paper {before} found =
      option_ind {B = Paper × Bool} (λ a. Known id (withdrawn other ∷ []) before a.0)
        (get other paper.orders)
        (λ gone. (
          before,
          found,
          inl (
            refl,
            λ p m. elim m [
              | inl e ↦ let eq : id ≡ other = withdrawn_inj e in cc
              | inr none_left ↦ none_left
            ],
          ),
        ))
        (λ result held.
          if_ind {B = Paper × Bool} (λ a. Known id (withdrawn other ∷ []) before a.0)
            (is_pending result.status)
            (λ pending. elim (Bool-cases (str_eq other id)) [
              | inl is ↦
                  let eq = (str_eq_iff other id).0 is in
                  let same : result ≡ before = cc in
                  (
                    cancelled_result before,
                    subst
                        (λ n.
                          get n (put other (cancelled_result result) paper.orders)
                          ≡ some (cancelled_result before))
                        eq
                        (get-put_self other (cancelled_result result) paper.orders
                          ∙ ap (λ r. some (cancelled_result r)) same),
                    inr (
                      refl,
                      inl (ap withdrawn (sym eq)),
                      subst (λ (r : OrderResult). is_pending r.status ≡ true) same pending,
                    ),
                  )
              | inr differs ↦ (
                before,
                get-put_other other id (cancelled_result result) paper.orders differs ∙ found,
                inl (
                  refl,
                  λ p m. elim m [
                    | inl e ↦ let same = (str_eq_iff other id).1 (sym (withdrawn_inj e)) in cc
                    | inr none_left ↦ none_left
                  ],
                ),
              )
            ])
            (λ settled. (
              before,
              found,
              inl (
                refl,
                λ p m. elim m [
                  | inl e ↦
                      let eq : id ≡ other = withdrawn_inj e in
                      let same : result ≡ before = cc in
                      let held_too = ap (λ (r : OrderResult). is_pending r.status) same in cc
                  | inr none_left ↦ none_left
                ],
              ),
            )))

  after_call-Known :
      (id : String) (c : Call) (paper : Paper) {before : OrderResult}
      → get id paper.orders ≡ some before
      → Known id (c ∷ []) before (after_call D fees market_bps c paper)
  unfolding after_call set_leverage apply_funding
  after_call-Known id (ordered request) paper {before} found = (
    before,
    place_order-get D fees market_bps id request paper found,
    inl (refl, λ p m. elim m [ inl e ↦ cc | inr none_left ↦ none_left ]),
  )
  after_call-Known id (withdrawn other) paper found = cancel_order-Known id other paper found
  after_call-Known id (leveraged symbol n) paper {before} found =
      if_ind (λ r. Known id (leveraged symbol n ∷ []) before (or_same paper r))
        (ltb_ℤ n (pos 1) || ltb_ℤ (pos 10) n) {x = err PaperError.bad_leverage}
        {y = ok (record paper { leverage = put symbol (pos_part n) paper.leverage })}
        (λ _. (before, found, inl (refl, λ p m. elim m [ inl e ↦ cc | inr none_left ↦ none_left ])))
        (λ _. (before, found, inl (refl, λ p m. elim m [ inl e ↦ cc | inr none_left ↦ none_left ])))
  after_call-Known id (funded symbol rate price) paper {before} found =
      option_ind {B = Paper × ℤ} (λ a. Known id (funded symbol rate price ∷ []) before a.0)
        (get symbol paper.positions)
        (λ _. (before, found, inl (refl, λ p m. elim m [ inl e ↦ cc | inr none_left ↦ none_left ])))
        (λ position _.
          (before, found, inl (refl, λ p m. elim m [ inl e ↦ cc | inr none_left ↦ none_left ])))

  -- A cancelled order is not cancelled again.
  Fares-step :
      (id : String) (c : Call) (rest : List Call) (before next after : OrderResult)
      → Fares id (c ∷ []) before next
      → Fares id rest next after
      → Fares id (c ∷ rest) before after
  Fares-step id c rest before next after first later = elim first [
    | inl (same, spared) ↦ elim (subst (λ r. Fares id rest r after) same later) [
      | inl (e, left) ↦
          inl (e, λ p m. elim m [ inl here ↦ spared p (inl here) | inr m' ↦ left p m' ])
      | inr (e, m, p) ↦ inr (e, inr m, p)
    ]
    | inr (gone, m, p) ↦ elim (subst (λ r. Fares id rest r after) gone later) [
      | inl (e, _) ↦ inr (e, elim m [ inl here ↦ inl here | inr none_left ↦ absurd none_left ], p)
      | inr (e, _, again) ↦ absurd (never again)
    ]
  ]
    where
      never : is_pending cancelled ≡ true → ⊥
      never e = cc

  after_calls-Known :
      (id : String) (calls : List Call) (paper : Paper) {before : OrderResult}
      → get id paper.orders ≡ some before
      → Known id calls before (after_calls D fees market_bps calls paper)
  after_calls-Known id [] paper {before} found = (before, found, inl (refl, λ p m. m))
  after_calls-Known id (c ∷ rest) paper {before} found =
      let (next, there, first) = after_call-Known id c paper found in
      let (after, known, later) =
        after_calls-Known id rest (after_call D fees market_bps c paper) there in
      (after, known, Fares-step id c rest before next after first later)

  after_calls-append :
      (first second : List Call) (paper : Paper)
      → after_calls D fees market_bps (first ++ second) paper
        ≡ after_calls D fees market_bps second (after_calls D fees market_bps first paper)
  after_calls-append [] second paper = refl
  after_calls-append (c ∷ rest) second paper =
      after_calls-append rest second (after_call D fees market_bps c paper)

  -- Once an order is accepted, an order with its id, whatever its other fields, may be placed or
  -- left out after any orders, cancellations, changes of leverage and funding payments: it returns
  -- the result of the first, which is then cancelled exactly if it was pending and one of the calls
  -- cancels it, it leaves the exchange as it is, and the calls that follow leave it in the same
  -- state as without it.
  pub retried_order_changes_nothing :
      (first again : OrderRequest) (between rest : List Call) (paper : Paper) {result : OrderResult}
      → (place_order D fees market_bps first paper).1 ≡ ok result
      → again.client_order_id ≡ first.client_order_id
      → let later = after_calls D fees market_bps (ordered first ∷ between) paper in
        ((known : OrderResult) × Fares first.client_order_id between result known
          × (place_order D fees market_bps again later ≡ (later, ok known)))
        × (after_calls D fees market_bps ((ordered first ∷ between) ++ ordered again ∷ rest) paper
            ≡ after_calls D fees market_bps ((ordered first ∷ between) ++ rest) paper)
  unfolding after_call
  retried_order_changes_nothing first again between rest paper {result} accepted same =
      let later = after_calls D fees market_bps (ordered first ∷ between) paper in
      let (known, found, fares) =
        after_calls-Known first.client_order_id between
          (place_order D fees market_bps first paper).0
          (accepted-get D fees market_bps first paper accepted) in
      let repeated =
        place_known D fees market_bps again later (ap (λ id. get id later.orders) same ∙ found) in
      (
        (known, fares, repeated),
        after_calls-append (ordered first ∷ between) (ordered again ∷ rest) paper
            ∙ ap (λ a. after_calls D fees market_bps rest a.0) repeated
            ∙ sym (after_calls-append (ordered first ∷ between) rest paper),
      )
