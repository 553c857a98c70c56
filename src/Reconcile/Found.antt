-- ===== src/Reconcile/Found.antt =====
-- Which discrepancies of positions backend/reconciliation/engine.py reports.
use k.Base.{
  ℤ, ◌<ℤ◌, ◌-ℤ◌, -ℤ_parts, ◌≡◌, ◌≢◌, refl, ◌↔◌, ◌⊎◌, inl, inr, Bool, true, false, not, Option, none,
  some, List, [], ◌∷◌, ◌++◌, String, str_eq, str_eq_iff, Member, Member-append, iff_trans, iff_or,
  arith,
}
use mathlib.Core.Bool.{false≢true}
use k.Base.Numbers.{Numbers}
use k.Exchange.Orders.{PositionState}
use k.Position.Schemas.{PositionConfig}
use k.Position.Watch.{Watch}
use k.Position.Follow.{or_else}
use k.Reconcile.Gate.{
  DiscrepancyType, missing_in_db, missing_in_adapter, quantity_mismatch, price_mismatch,
  status_mismatch, side_mismatch, partial_fill, missing_protection, manual_sl_tp_change,
}
use k.Reconcile.Rows.{DbPosition, side_value}
use k.Reconcile.Engine.{
  differs, when, compare_position, check_manual_sl_tp_change, check_protection, check_symbol,
}

-- Two amounts are further apart than the tolerance.
abbrev pub Apart : ℤ → ℤ → ℤ → Type 0
Apart tolerance a b = (tolerance <ℤ a -ℤ b) ⊎ (tolerance <ℤ b -ℤ a)

-- A value that the exchange reports is not the one that is watched here.
abbrev pub Changed : ℤ → Option ℤ → Option ℤ → Type 0
Changed tolerance none watched = ⊥
Changed tolerance (some value) none = Unit
Changed tolerance (some value) (some watched) = Apart tolerance value watched

pub differs_iff : (tolerance a b : ℤ) → (differs tolerance a b ≡ true) ↔ Apart tolerance a b
unfolding differs
differs_iff tolerance a b = ground (arith, -ℤ_parts a b, -ℤ_parts b a)

when_iff :
    {A : Type 0} (t x : A) (b : Bool) (P : Type 0)
    → (b ≡ true) ↔ P
    → Member t (when b x) ↔ ((t ≡ x) × P)
when_iff t x true P h =
    (λ m. elim m [ inl e ↦ (e, h.0 refl) | inr no_member ↦ absurd no_member ], λ m. inl m.0)
when_iff t x false P h = (λ m. absurd m, λ m. absurd (false≢true (h.1 m.1)))

not_same : (a b : String) → (not (str_eq a b) ≡ true) ↔ (a ≢ b)
not_same a b = ground (arith, (str_eq_iff a b).0, (str_eq_iff a b).1)

compare_iff :
    (t : DiscrepancyType) (tolerance : ℤ) (held : PositionState) (row : DbPosition)
    → Member t (compare_position tolerance held row) ↔ (
        ((t ≡ side_mismatch) × (side_value held.side ≢ row.direction))
        ⊎ ((t ≡ quantity_mismatch) × Apart tolerance held.quantity row.quantity)
        ⊎ ((t ≡ price_mismatch) × Apart tolerance held.entry_price row.entry_price))
unfolding compare_position
compare_iff t tolerance held row =
    let amounts = when (differs tolerance held.quantity row.quantity) quantity_mismatch in
    let prices = when (differs tolerance held.entry_price row.entry_price) price_mismatch in
    iff_trans (Member-append t _ (amounts ++ prices)) (
      iff_or (when_iff t side_mismatch _ _ (not_same (side_value held.side) row.direction)) (
        iff_trans (Member-append t amounts prices) (
          iff_or
            (when_iff t quantity_mismatch _ _ (differs_iff tolerance held.quantity row.quantity))
            (when_iff t price_mismatch _ _
              (differs_iff tolerance held.entry_price row.entry_price)))))

Changed-iff :
    (t : DiscrepancyType) (tolerance : ℤ) (value watched : Option ℤ)
    → Member t (check_manual_sl_tp_change tolerance value watched)
      ↔ ((t ≡ manual_sl_tp_change) × Changed tolerance value watched)
unfolding check_manual_sl_tp_change
Changed-iff t tolerance none watched = ground arith
Changed-iff t tolerance (some value) none = ground arith
Changed-iff t tolerance (some value) (some watched) =
    ground (arith, (differs_iff tolerance value watched).0, (differs_iff tolerance value watched).1)

module _ (N : Numbers) (tolerance : ℤ) (position_manager : Option (String → Watch N)) where
  -- The watch of a symbol has no configuration.
  abbrev pub Unprotected : String → Type 0
  Unprotected symbol = elim position_manager [
    | none ↦ ⊥
    | some watches ↦ (watches symbol).config ≡ none
  ]

  -- The stop or the target on the exchange is not the one in force.
  abbrev pub Moved : String → PositionState → Type 0
  Moved symbol held = elim position_manager [
    | none ↦ ⊥
    | some watches ↦ elim (watches symbol).config [
      | none ↦ ⊥
      | some config ↦
          Changed tolerance held.stop_loss (or_else (watches symbol).effective_sl config.stop_loss)
          ⊎ Changed tolerance held.take_profit
              (or_else (watches symbol).effective_tp config.take_profit)
    ]
  ]

-- The protection of a symbol with this configuration, stop and target.
config_iff :
    (t : DiscrepancyType) (tolerance : ℤ) (held : PositionState) (sl tp : Option ℤ)
    (config : Option PositionConfig)
    → Member t (elim config as (λ c. List DiscrepancyType) [
      | none ↦ missing_protection ∷ []
      | some config ↦
          check_manual_sl_tp_change tolerance held.stop_loss (or_else sl config.stop_loss)
          ++ check_manual_sl_tp_change tolerance held.take_profit (or_else tp config.take_profit)
    ])
      ↔ (((t ≡ missing_protection) × (config ≡ none))
          ⊎ ((t ≡ manual_sl_tp_change) × (elim config as (λ c. Type 0) [
            | none ↦ ⊥
            | some config ↦
                Changed tolerance held.stop_loss (or_else sl config.stop_loss)
                ⊎ Changed tolerance held.take_profit (or_else tp config.take_profit)
          ])))
config_iff t tolerance held sl tp none = (
  λ h. elim h [ inl e ↦ inl (e, refl) | inr no_member ↦ absurd no_member ],
  λ h. elim h [ inl m ↦ inl m.0 | inr m ↦ absurd m.1 ],
)
config_iff t tolerance held sl tp (some config) = iff_trans (Member-append t _ _) (
    iff_trans
      (iff_or (Changed-iff t tolerance held.stop_loss (or_else sl config.stop_loss))
        (Changed-iff t tolerance held.take_profit (or_else tp config.take_profit)))
      (
        λ h. elim h [ inl m ↦ inr (m.0, inl m.1) | inr m ↦ inr (m.0, inr m.1) ],
        λ h. elim h [
          | inl m ↦ cc
          | inr m ↦ elim m.1 [ inl c ↦ inl (m.0, c) | inr c ↦ inr (m.0, c) ]
        ],
      ))

protection_iff :
    (N : Numbers) (tolerance : ℤ) (position_manager : Option (String → Watch N)) (symbol : String)
    (t : DiscrepancyType) (held : PositionState)
    → Member t (check_protection N tolerance position_manager symbol held) ↔ (
        ((t ≡ missing_protection) × Unprotected N tolerance position_manager symbol)
        ⊎ ((t ≡ manual_sl_tp_change) × Moved N tolerance position_manager symbol held))
unfolding check_protection
protection_iff N tolerance none symbol t held = ground arith
protection_iff N tolerance (some watches) symbol t held =
    config_iff t tolerance held (watches symbol).effective_sl (watches symbol).effective_tp
      (watches symbol).config

module _ (N : Numbers) (tolerance : ℤ) (position_manager : Option (String → Watch N)) where
  -- What a discrepancy of each type between a position and its row says.
  abbrev pub Between : String → PositionState → DbPosition → DiscrepancyType → Type 0
  Between symbol held row side_mismatch = side_value held.side ≢ row.direction
  Between symbol held row quantity_mismatch = Apart tolerance held.quantity row.quantity
  Between symbol held row price_mismatch = Apart tolerance held.entry_price row.entry_price
  Between symbol held row missing_protection = Unprotected N tolerance position_manager symbol
  Between symbol held row manual_sl_tp_change = Moved N tolerance position_manager symbol held
  Between symbol held row t = ⊥

  -- What a discrepancy of each type says of a symbol.
  abbrev pub Cause : String → Option PositionState → Option DbPosition → DiscrepancyType → Type 0
  Cause symbol none none t = ⊥
  Cause symbol none (some row) t = t ≡ missing_in_adapter
  Cause symbol (some held) none t = t ≡ missing_in_db
  Cause symbol (some held) (some row) t = Between symbol held row t

  between_iff :
      (symbol : String) (t : DiscrepancyType) (held : PositionState) (row : DbPosition)
      → (((t ≡ side_mismatch) × (side_value held.side ≢ row.direction))
          ⊎ ((t ≡ quantity_mismatch) × Apart tolerance held.quantity row.quantity)
          ⊎ ((t ≡ price_mismatch) × Apart tolerance held.entry_price row.entry_price)
          ⊎ ((t ≡ missing_protection) × Unprotected N tolerance position_manager symbol)
          ⊎ ((t ≡ manual_sl_tp_change) × Moved N tolerance position_manager symbol held))
        ↔ Between symbol held row t
  between_iff symbol missing_in_db held row = ground arith
  between_iff symbol missing_in_adapter held row = ground arith
  between_iff symbol quantity_mismatch held row = ground arith
  between_iff symbol price_mismatch held row = ground arith
  between_iff symbol status_mismatch held row = ground arith
  between_iff symbol side_mismatch held row = ground arith
  between_iff symbol partial_fill held row = ground arith
  between_iff symbol missing_protection held row = ground arith
  between_iff symbol manual_sl_tp_change held row = ground arith

  pub check_symbol_iff :
      (symbol : String) (t : DiscrepancyType) (held : Option PositionState)
      (row : Option DbPosition)
      → Member t (check_symbol N tolerance position_manager symbol held row)
        ↔ Cause symbol held row t
  unfolding check_symbol
  check_symbol_iff symbol t none none = ground arith
  check_symbol_iff symbol t none (some row) = ground arith
  check_symbol_iff symbol t (some held) none = ground arith
  check_symbol_iff symbol t (some held) (some row) =
      iff_trans
        (iff_trans (Member-append t (compare_position tolerance held row) _) (
          iff_trans
            (iff_or (compare_iff t tolerance held row)
              (protection_iff N tolerance position_manager symbol t held))
            (
              λ h. elim h [
                | inl (inl a) ↦ inl a
                | inl (inr (inl a)) ↦ inr (inl a)
                | inl (inr (inr a)) ↦ inr (inr (inl a))
                | inr a ↦ inr (inr (inr a))
              ],
              λ h. elim h [
                | inl a ↦ inl (inl a)
                | inr (inl a) ↦ inl (inr (inl a))
                | inr (inr (inl a)) ↦ inl (inr (inr a))
                | inr (inr (inr a)) ↦ inr a
              ],
            )))
        (between_iff symbol t held row)
