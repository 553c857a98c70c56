-- ===== src/Position/Calls.antt =====
-- Any sequence of calls of the manager for one symbol: backend/position_manager/manager.py.
use k.Base.{
  ℤ, pos, ltb_ℤ, leb_ℤ, ◌≡◌, ap, ◌∙◌, Option, none, some, List, [], ◌∷◌, String, ok, err, Suffix,
  Suffix-self, Suffix-empty, if_ind, option_ind, result_ind, at_ok, at_err, at_none, Option-cases,
  Result-cases, inl, inr,
}
use mathlib.Core.Path.{subst}
use k.Base.Numbers.{Numbers}
use k.Base.Decimals.{Decimals}
use k.Exchange.Orders.{PositionState}
use k.Position.Schemas.{PositionConfig, InvalidationAction, TakeProfitLevel}
use k.Position.Watch.{Watch, unwatched, set_config, remove_config, update_sl, update_tp}
use k.Position.Closing.{Surroundings, Ended}
use k.Position.Invalidation.{
  close_part, finish_invalidation, apply_invalidation_action, trigger_setup_invalidation,
}
use k.Position.Tick.{tick}
use k.Position.Plan.{plan_of}
use k.Position.Ticks.{tick_refines}
use k.Position.Levels.{Remaining, Names, Fate-Remaining}

abbrev pub TailOf : Option PositionConfig → List TakeProfitLevel → Type 0
TailOf none levels = Unit
TailOf (some config) levels = Suffix levels config.take_profit_levels

TailOf-empty : (config : Option PositionConfig) → TailOf config []
TailOf-empty none = tt
TailOf-empty (some config) = Suffix-empty config.take_profit_levels

pub data Call : Type 0 where
  setting : PositionConfig → Call
  removing : Call
  moving_sl moving_tp : ℤ → Call
  invalidating : ℤ → Option (ℤ × ℤ) → Call
  ticking : ℤ → Option (ℤ × ℤ) → Option ℤ → Call

module _ (N : Numbers) (D : Decimals) {World E : Type 0} (out : Surroundings N World E)
    (symbol : String) where
  -- The watch and the world after a call, whether it returns or raises.
  abbrev pub after_call : Call → Watch N → World → Watch N × World
  after_call (setting config) watch world = (set_config N config watch, world)
  after_call removing watch world = (remove_config N watch, world)
  after_call (moving_sl new_sl) watch world =
      (elim (update_sl N new_sl watch) [ err e ↦ watch | ok moved ↦ moved ], world)
  after_call (moving_tp new_tp) watch world =
      (elim (update_tp N new_tp watch) [ err e ↦ watch | ok moved ↦ moved ], world)
  after_call (invalidating mark_price book) watch world =
      let ended = trigger_setup_invalidation N D out symbol mark_price book watch world in
      (ended.watch, ended.world)
  after_call (ticking mark_price book atr) watch world =
      let ended = tick N D out symbol mark_price book atr watch world in (ended.watch, ended.world)

  abbrev pub after_calls : List Call → Watch N → World → Watch N × World
  after_calls [] watch world = (watch, world)
  after_calls (call ∷ calls) watch world =
      let (next, later) = after_call call watch world in after_calls calls next later

  -- The levels that remain are a tail of those configured.
  abbrev pub Sound : Watch N → Type 0
  Sound watch = TailOf watch.config watch.remaining_tp_levels

  plan-Sound : (watch : Watch N) → Remaining (plan_of N watch) → Sound watch
  plan-Sound watch h = elim (Option-cases watch.config) [
    | inl e ↦ rw e tt
    | inr (config, e) ↦ rw e (rw e at h)
  ]

  update_sl-Sound :
      (new_sl : ℤ) (watch : Watch N)
      → Sound watch
      → Sound (elim (update_sl N new_sl watch) [ err e ↦ watch | ok moved ↦ moved ])
  unfolding update_sl
  update_sl-Sound new_sl watch sound = elim (Option-cases watch.config) [
    | inl e ↦ rw e sound
    | inr (config, e) ↦ rw e sound
  ]

  update_tp-Sound :
      (new_tp : ℤ) (watch : Watch N)
      → Sound watch
      → Sound (elim (update_tp N new_tp watch) [ err e ↦ watch | ok moved ↦ moved ])
  unfolding update_tp
  update_tp-Sound new_tp watch sound = elim (Option-cases watch.config) [
    | inl e ↦ rw e sound
    | inr (config, e) ↦ rw e (TailOf-empty watch.config)
  ]

  module _ (mark_price : ℤ) (book : Option (ℤ × ℤ)) where
    abbrev Kept : {A : Type 0} → Ended N World E A → Type 0
    Kept ended = Sound ended.watch

    tick_open-Sound :
        (atr : Option ℤ) (watch : Watch N) (world : World) {position : PositionState}
        {config : PositionConfig}
        → out.adapter.get_position symbol world ≡ ok (some position)
        → watch.config ≡ some config
        → Sound watch
        → let ended = tick N D out symbol mark_price book atr watch world in
          Sound ended.watch × Names config ended.result
    tick_open-Sound atr watch world {position} {config} held configured sound =
        let ended = tick N D out symbol mark_price book atr watch world in
        let f = tick_refines N D out symbol mark_price book atr watch world held configured in
        let (left, named) =
          Fate-Remaining N D out symbol mark_price book position config watch.effective_tp
            watch.remaining_tp_levels world
            (subst (λ c. TailOf c watch.remaining_tp_levels) configured sound) f.fate in
        (plan-Sound ended.watch left, named)

    tick-Sound :
        (atr : Option ℤ) (watch : Watch N) (world : World)
        → Sound watch
        → Sound (tick N D out symbol mark_price book atr watch world).watch
    unfolding tick remove_config
    tick-Sound atr watch world sound =
        let read = out.adapter.get_position symbol world in
        elim (Result-cases read) [
          | inr (e, unreadable) ↦ at_err Kept read _ _ unreadable sound
          | inl (held, readable) ↦ elim (Option-cases held) [
            | inl gone ↦
                at_ok Kept read _ _ (readable ∙ ap ok gone)
                  (option_ind Sound watch.config (λ _. sound) (λ _ _. tt))
            | inr (position, there) ↦ elim (Option-cases watch.config) [
              | inl e ↦
                  at_ok Kept read _ _ (readable ∙ ap ok there)
                    (at_none Kept watch.config _ _ e sound)
              | inr (config, e) ↦
                  (tick_open-Sound atr watch world (readable ∙ ap ok there) e sound).0
            ]
          ]
        ]

    finish-Sound :
        (action : InvalidationAction) (old_sl : Option ℤ)
        (part_closed : Ended N World E (Option String × Option ℤ))
        → Sound part_closed.watch
        → Sound (finish_invalidation N D out symbol mark_price book action old_sl part_closed).watch
    finish-Sound action old_sl part_closed sound =
        result_ind Kept part_closed.result (λ e _. sound) (λ a _. sound)

    applied-Sound :
        (action : InvalidationAction) (position : PositionState) (watch : Watch N) (world : World)
        → Sound watch
        → Sound
            (apply_invalidation_action N D out symbol mark_price book action position watch
              world).watch
    unfolding apply_invalidation_action close_part remove_config
    applied-Sound action position watch world sound = finish-Sound action watch.effective_sl _ (
        if_ind Kept (ltb_ℤ (pos 0) action.close_fraction)
          (λ _. if_ind Sound (leb_ℤ D.one action.close_fraction) (λ _. tt) (λ _. sound))
          (λ _. sound))

    trigger-Sound :
        (watch : Watch N) (world : World)
        → Sound watch
        → Sound (trigger_setup_invalidation N D out symbol mark_price book watch world).watch
    unfolding trigger_setup_invalidation
    trigger-Sound watch world sound =
        option_ind Kept watch.config (λ _. sound)
          (λ config _.
            option_ind Kept config.invalidation_action (λ _. sound)
              (λ action _.
                result_ind Kept (out.adapter.get_position symbol world) (λ e _. sound)
                  (λ held _.
                    option_ind Kept held (λ _. sound)
                      (λ position _. applied-Sound action position watch world sound))))

  after_call-Sound :
      (call : Call) (watch : Watch N) (world : World)
      → Sound watch
      → Sound (after_call call watch world).0
  unfolding set_config remove_config
  after_call-Sound (setting config) watch world sound = Suffix-self config.take_profit_levels
  after_call-Sound removing watch world sound = tt
  after_call-Sound (moving_sl new_sl) watch world sound = update_sl-Sound new_sl watch sound
  after_call-Sound (moving_tp new_tp) watch world sound = update_tp-Sound new_tp watch sound
  after_call-Sound (invalidating mark_price book) watch world sound =
      trigger-Sound mark_price book watch world sound
  after_call-Sound (ticking mark_price book atr) watch world sound =
      tick-Sound mark_price book atr watch world sound

  after_calls-Sound :
      (calls : List Call) (watch : Watch N) (world : World)
      → Sound watch
      → Sound (after_calls calls watch world).0
  after_calls-Sound [] watch world sound = sound
  after_calls-Sound (call ∷ calls) watch world sound =
      let next = after_call call watch world in
      after_calls-Sound calls next.0 next.1 (after_call-Sound call watch world sound)

  -- Whatever calls are made of the manager for a symbol, from none on, the levels that remain are a
  -- tail of those of the configuration, before and after a tick at an open position; and where such
  -- a tick reports the index of a level, the level at that index in the configuration is the one
  -- whose fraction it reports to have closed.
  pub levels_in_order :
      (calls : List Call) (start world : World) (watch : Watch N) (mark_price : ℤ)
      (book : Option (ℤ × ℤ)) (atr : Option ℤ) {position : PositionState} {config : PositionConfig}
      → after_calls calls (unwatched N) start ≡ (watch, world)
      → out.adapter.get_position symbol world ≡ ok (some position)
      → watch.config ≡ some config
      → let ended = tick N D out symbol mark_price book atr watch world in
        Sound watch × Sound ended.watch × Names config ended.result
  levels_in_order calls start world watch mark_price book atr reached held configured =
      let sound : Sound watch =
        subst (λ r. Sound r.0) reached (after_calls-Sound calls (unwatched N) start tt) in
      let (after, named) = tick_open-Sound mark_price book atr watch world held configured sound in
      (sound, after, named)
