-- ===== src/Position/Schemas.antt =====
-- The exit plan of a position and what a tick reports: backend/position_manager/schemas.py.
use k.Base.{
  ℕ, ℤ, pos, ltb_ℤ, leb_ℤ, Bool, true, false, not, ◌&&◌, ◌||◌, Option, none, some, List, [], ◌∷◌,
  String, Result, ok, err, any, if◌then◌else◌,
}
use k.Base.Decimals.{Decimals}
use k.Exchange.Orders.{positive_or_none}
use k.Position.Stops.{TrailingMode, fixed_mode, percent_mode, atr_mode}

pub data PositionTriggerReason : Type 0 where
  no_trigger sl_hit tp_hit tp_partial trailing_sl_hit setup_invalidated : PositionTriggerReason

pub record TakeProfitLevel : Type 0 where
  pub price : ℤ
  pub close_fraction : ℤ

pub record InvalidationAction : Type 0 where
  pub new_sl : Option ℤ
  pub close_fraction : ℤ

pub record PositionConfig : Type 0 where
  pub symbol : String
  pub stop_loss : Option ℤ
  pub take_profit : Option ℤ
  pub take_profit_levels : List TakeProfitLevel
  pub trailing_delta : Option ℤ
  pub trailing_percent : Option ℤ
  pub trailing_atr : Option ℤ
  pub trailing_atr_multiplier : Option ℤ
  pub trailing_atr_dynamic : Bool
  pub trailing_atr_smoothing_alpha : Option ℤ
  pub be_trigger_delta : Option ℤ
  pub be_sl_offset : ℤ
  pub invalidation_action : Option InvalidationAction
  pub invalidation_price : Option ℤ

pub record InvalidationEvent : Type 0 where
  pub symbol : String
  pub mark_price : ℤ
  pub old_sl : Option ℤ
  pub new_sl : Option ℤ
  pub closed_fraction : Option ℤ
  pub close_order_id : Option String

pub record TickResult : Type 0 where
  pub symbol : String
  pub trigger : PositionTriggerReason
  pub mark_price : ℤ
  pub close_order_id : Option String
  pub tp_level_index : Option ℕ
  pub closed_fraction : Option ℤ

-- `x is not None`
abbrev pub is_given : Option ℤ → Bool
is_given none = false
is_given (some x) = true

abbrev pub has_levels : List TakeProfitLevel → Bool
has_levels [] = false
has_levels (l ∷ ls) = true

-- `trailing_atr is not None or trailing_atr_dynamic`
abbrev pub has_atr_mode : PositionConfig → Bool
has_atr_mode c = is_given c.trailing_atr || c.trailing_atr_dynamic

unfoldable pub resolved_trailing_mode : PositionConfig → Option TrailingMode
resolved_trailing_mode c =
    if is_given c.trailing_delta
    then some fixed_mode
    else if is_given c.trailing_percent
    then some percent_mode
    else if has_atr_mode c
    then some atr_mode
    else none

-- `x < Decimal("1")` and `x <= Decimal("1")` of a field that may be None.
abbrev below_or_none : (ℤ → ℤ → Bool) → ℤ → Option ℤ → Bool
below_or_none below one none = true
below_or_none below one (some x) = below x one

unfoldable pub level_in_bounds : Decimals → TakeProfitLevel → Bool
level_in_bounds D l =
    ltb_ℤ (pos 0) l.price && ltb_ℤ (pos 0) l.close_fraction && leb_ℤ l.close_fraction D.one

-- The bounds of the fields of an action and its validator.
unfoldable pub at_least_one_action : Decimals → InvalidationAction → Bool
at_least_one_action D a =
    positive_or_none a.new_sl
    && leb_ℤ (pos 0) a.close_fraction
    && leb_ℤ a.close_fraction D.one
    && (is_given a.new_sl || not (leb_ℤ a.close_fraction (pos 0)))

-- The bounds of the fields of a configuration, those of its levels and its action included.
unfoldable pub config_in_bounds : Decimals → PositionConfig → Bool
unfolding level_in_bounds at_least_one_action
config_in_bounds D c =
    positive_or_none c.stop_loss
    && positive_or_none c.take_profit
    && not (any (λ l. not (level_in_bounds D l)) c.take_profit_levels)
    && positive_or_none c.trailing_delta
    && positive_or_none c.trailing_percent
    && below_or_none ltb_ℤ D.one c.trailing_percent
    && positive_or_none c.trailing_atr
    && positive_or_none c.trailing_atr_multiplier
    && positive_or_none c.trailing_atr_smoothing_alpha
    && below_or_none leb_ℤ D.one c.trailing_atr_smoothing_alpha
    && positive_or_none c.be_trigger_delta
    && leb_ℤ (pos 0) c.be_sl_offset
    && elim c.invalidation_action [ none ↦ true | some a ↦ at_least_one_action D a ]
    && positive_or_none c.invalidation_price

-- The `ValueError`s of `validate_config`, in the order of its tests.
pub data ConfigError : Type 0 where
  two_take_profits two_trailing_modes multiplier_without_atr alpha_without_atr no_exit
        offset_without_trigger offset_beyond_trigger price_without_action :
      ConfigError

-- More than one of three tests holds.
abbrev pub two_of : Bool → Bool → Bool → Bool
two_of a b c = (a && b) || (a && c) || (b && c)

-- Its last test.
abbrev requires_action : PositionConfig → Result ConfigError PositionConfig
requires_action c = elim c.invalidation_price [
  | none ↦ ok c
  | some price ↦ elim c.invalidation_action [ none ↦ err price_without_action | some action ↦ ok c ]
]

unfoldable pub validate_config : PositionConfig → Result ConfigError PositionConfig
validate_config c =
    if is_given c.take_profit && has_levels c.take_profit_levels
    then err two_take_profits
    else if two_of (is_given c.trailing_delta) (is_given c.trailing_percent) (has_atr_mode c)
    then err two_trailing_modes
    else if is_given c.trailing_atr_multiplier && not (has_atr_mode c)
    then err multiplier_without_atr
    else if is_given c.trailing_atr_smoothing_alpha && not (has_atr_mode c)
    then err alpha_without_atr
    else if not (
        is_given c.stop_loss
        || is_given c.take_profit
        || has_levels c.take_profit_levels
        || is_given c.trailing_delta
        || is_given c.trailing_percent
        || has_atr_mode c)
    then err no_exit
    else elim c.be_trigger_delta [
      | none ↦
          if ltb_ℤ (pos 0) c.be_sl_offset then err offset_without_trigger else requires_action c
      | some delta ↦
          if leb_ℤ delta c.be_sl_offset then err offset_beyond_trigger else requires_action c
    ]
