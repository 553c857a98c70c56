-- ===== src/Position/Following.antt =====
-- What the first parts of a tick of backend/position_manager/manager.py leave as it is.
use k.Base.{
  ℤ, ◌≡◌, refl, true, false, Option, some, Result, is_ok, arith, if_ind, option_ind, result_ind,
}
use k.Base.Numbers.{Numbers}
use k.Base.Decimals.{Decimals}
use k.Exchange.Orders.{PositionState}
use k.Position.Stops.{
  OrderSide, TrailingMode, fixed_mode, percent_mode, atr_mode, TrailingError,
  resolve_trailing_delta, maybe_move_to_break_even, update_high_water,
}
use k.Position.Schemas.{PositionConfig, resolved_trailing_mode}
use k.Position.Watch.{Watch}
use k.Position.Follow.{
  update_smoothed_atr, current_atr, warn_unavailable, lacks_atr, follow_price, break_even,
}
use k.Position.Plan.{Tightened}

-- The plan of one watch is that of another.
pub record SamePlan {N : Numbers} (a b : Watch N) : Type 0 where
  pub config : a.config ≡ b.config
  pub effective_sl : a.effective_sl ≡ b.effective_sl
  pub effective_tp : a.effective_tp ≡ b.effective_tp
  pub remaining_tp_levels : a.remaining_tp_levels ≡ b.remaining_tp_levels
  pub auto_invalidation_fired : a.auto_invalidation_fired ≡ b.auto_invalidation_fired

module _ (N : Numbers) (D : Decimals) where
  current_atr-SamePlan :
      (mode : TrailingMode) (config : PositionConfig) (atr : Option ℤ) (watch : Watch N)
      → SamePlan (current_atr N D mode config atr watch).0 watch
  unfolding current_atr update_smoothed_atr
  current_atr-SamePlan fixed_mode config atr watch = ground arith
  current_atr-SamePlan percent_mode config atr watch = ground arith
  current_atr-SamePlan atr_mode config atr watch = ground arith

  -- The parameter of the mode is set, so the distance is found.
  resolve_found :
      (times : ℤ → ℤ → ℤ) (mode : TrailingMode) (hw : ℤ) (config : PositionConfig)
      (atr_value : Option ℤ)
      → resolved_trailing_mode config ≡ some mode
      → lacks_atr mode atr_value ≡ false
      → is_ok (
          resolve_trailing_delta times mode hw config.trailing_delta config.trailing_percent
            atr_value config.trailing_atr_multiplier)
        ≡ true
  unfolding resolved_trailing_mode resolve_trailing_delta
  resolve_found times fixed_mode hw config atr_value e h = ground arith
  resolve_found times percent_mode hw config atr_value e h = ground arith
  resolve_found times atr_mode hw config atr_value e h = ground arith

  warned-SamePlan :
      (now : N.Float) (hw : ℤ) (smoothed watch : Watch N)
      → SamePlan smoothed watch
      → SamePlan (warn_unavailable N now (record smoothed { high_water = some hw })) watch
  unfolding warn_unavailable
  warned-SamePlan now hw smoothed watch h = ground (arith, h.config, h.effective_sl)

  -- The first part of a tick finds its distance and leaves the plan.
  pub follow_price_lem :
      (side : OrderSide) (mark_price : ℤ) (atr : Option ℤ) (now : N.Float) (config : PositionConfig)
      (watch : Watch N)
      → let (marked, followed) = follow_price N D side mark_price atr now config watch in
        SamePlan marked watch × (is_ok followed ≡ true)
  unfolding follow_price
  follow_price_lem side mark_price atr now config watch =
      option_ind Fine (resolved_trailing_mode config) (λ e. (same, refl))
        (λ mode e.
          let smoothed = current_atr N D mode config atr watch in
          let kept = current_atr-SamePlan mode config atr watch in
          if_ind Fine (lacks_atr mode smoothed.1)
            (λ h. (warned-SamePlan now _ smoothed.0 watch kept, refl))
            (λ h.
              result_ind Fine
                (resolve_trailing_delta D.times mode
                  (update_high_water side mark_price watch.high_water) config.trailing_delta
                  config.trailing_percent smoothed.1 config.trailing_atr_multiplier)
                (λ er q. absurd (
                  ground (
                    arith,
                    resolve_found D.times mode (update_high_water side mark_price watch.high_water)
                        config smoothed.1 e h,
                  )))
                (λ delta q. (kept_after kept, refl))))
    where
      Fine : Watch N × Result TrailingError (Option ℤ) → Type 0
      Fine r = SamePlan r.0 watch × (is_ok r.1 ≡ true)

      same : SamePlan watch watch
      same = record {
        config = refl;
        effective_sl = refl;
        effective_tp = refl;
        remaining_tp_levels = refl;
        auto_invalidation_fired = refl;
      }

      kept_after :
          {a : Watch N} {hw stop : Option ℤ}
          → SamePlan a watch
          → SamePlan (record a { high_water = hw; trailing_stop = stop }) watch
      kept_after h = record {
        config = h.config;
        effective_sl = h.effective_sl;
        effective_tp = h.effective_tp;
        remaining_tp_levels = h.remaining_tp_levels;
        auto_invalidation_fired = h.auto_invalidation_fired;
      }

  -- The second part of a tick tightens the stop and leaves the rest of the plan.
  pub break_even_lem :
      (position : PositionState) (mark_price : ℤ) (config : PositionConfig) (watch : Watch N)
      → let moved = break_even N position mark_price config watch in
        (moved.config ≡ watch.config)
        × (moved.effective_tp ≡ watch.effective_tp)
        × (moved.remaining_tp_levels ≡ watch.remaining_tp_levels)
        × (moved.auto_invalidation_fired ≡ watch.auto_invalidation_fired)
        × Tightened position.side watch.effective_sl moved.effective_sl
  unfolding break_even maybe_move_to_break_even
  break_even_lem position mark_price config watch = ground arith
