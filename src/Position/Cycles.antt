-- ===== src/Position/Cycles.antt =====
-- A cycle of backend/position_manager/tick_service.py leaves no position without its configuration.
use k.Base.{
  ℤ, Result, ◌≡◌, refl, sym, ap, ◌∙◌, false, Option, none, some, List, [], ◌∷◌, String, str_eq,
  str_eq_iff, ok, err, Member, result_ind, Option-cases, Bool-cases, inl, inr, ◌⊎◌,
}
use mathlib.Core.Path.{subst}
use k.Base.Numbers.{Numbers}
use k.Base.Decimals.{Decimals}
use k.Position.Schemas.{PositionConfig, TickResult}
use k.Position.Watch.{Watch, set_config}
use k.Position.Closing.{Surroundings, TickError}
use k.Position.Tick.{tick}
use k.Position.Guarded.{Over, After, tick_accounted}
use k.Position.Service.{
  Sources, read_book, Watches, put_watch, reregister, add_result, tick_symbol, tick_all,
}

some_inj : {A : Type 0} {a b : A} → some a ≡ some b → a ≡ b
some_inj e = cc

module _ (N : Numbers) (D : Decimals) {World E : Type 0} (out : Surroundings N World E)
    (sources : Sources World E) where
  put_same :
      (symbol : String) (watch : Watch N) (watches : Watches N)
      → put_watch N symbol watch watches symbol ≡ watch
  put_same symbol watch watches = rw ((str_eq_iff symbol symbol).1 refl) refl

  put_other :
      (symbol s : String) (watch : Watch N) (watches : Watches N)
      → str_eq s symbol ≡ false
      → put_watch N symbol watch watches s ≡ watches s
  put_other symbol s watch watches h = rw h refl

  -- How the configuration of a symbol comes to an end in its turn, with the watch and the world at
  -- that turn: with this result, at the price of the turn.
  abbrev pub Finished : String → PositionConfig → Watch N → World → TickResult → Type 0
  Finished s config watch world r =
      (r.symbol ≡ s)
      × (mark_price : ℤ) × (sources.get_mark_price s world ≡ ok mark_price)
      × Over N D out s mark_price (read_book sources s world) config watch.remaining_tp_levels world
          r

  -- The configuration after a tick of its turn.
  abbrev AfterTick :
      String
      → ℤ
      → PositionConfig
      → Watch N
      → World
      → Option PositionConfig
      → Result (TickError E) TickResult
      → Type 0
  AfterTick s mark_price config watch world left result =
      After N D out s mark_price (read_book sources s world) config watch.remaining_tp_levels world
        left result

  -- Registered again, or left with the configuration that it has.
  reregister_lem :
      (symbol : String) (mark_price : ℤ) (config : PositionConfig) (before : Watch N)
      (world : World) (watch : Watch N) (e : TickError E)
      → AfterTick symbol mark_price config before world watch.config (err e)
      → (reregister N (some config) watch).config ≡ some config
  unfolding reregister set_config
  reregister_lem symbol mark_price config before world watch e h =
      elim (Option-cases watch.config) [
        | inl gone ↦ rw gone refl
        | inr (left, here) ↦ rw here (ap some (rw here at h))
      ]

  -- A symbol after its turn: its configuration, or a result that ends it.
  abbrev Kept :
      String → PositionConfig → Watch N → World → Watches N × World × Option TickResult → Type 0
  Kept symbol config before world (watches, after, result) =
      ((watches symbol).config ≡ some config)
      ⊎ ((r : TickResult) × (result ≡ some r) × Finished symbol config before world r)

  raised_keeps :
      (symbol : String) (mark_price : ℤ) (watches : Watches N) (world : World)
      (config : PositionConfig) (watch : Watch N) (e : TickError E)
      → (watches symbol).config ≡ some config
      → AfterTick symbol mark_price config (watches symbol) world watch.config (err e)
      → (put_watch N symbol (reregister N (watches symbol).config watch) watches symbol).config
        ≡ some config
  raised_keeps symbol mark_price watches world config watch e here after =
      ap (λ (w : Watch N). w.config)
        (put_same symbol (reregister N (watches symbol).config watch) watches)
      ∙ (ap (λ before. (reregister N before watch).config) here
          ∙ reregister_lem symbol mark_price config (watches symbol) world watch e after)

  returned_keeps :
      (symbol : String) (mark_price : ℤ) (watches : Watches N) (world : World)
      (config : PositionConfig) (watch : Watch N) (later : World) (r : TickResult)
      → sources.get_mark_price symbol world ≡ ok mark_price
      → AfterTick symbol mark_price config (watches symbol) world watch.config (ok r)
      → Kept symbol config (watches symbol) world (put_watch N symbol watch watches, later, some r)
  returned_keeps symbol mark_price watches world config watch later r priced after =
      let same = ap (λ (w : Watch N). w.config) (put_same symbol watch watches) in
      elim (Option-cases watch.config) [
        | inl gone ↦
            let (named, over) = rw gone at after in inr (r, refl, (named, mark_price, priced, over))
        | inr (left, there) ↦ inl (same ∙ (there ∙ ap some (rw there at after)))
      ]

  turn_keeps :
      (symbol : String) (watches : Watches N) (world : World) (config : PositionConfig)
      → (watches symbol).config ≡ some config
      → Kept symbol config (watches symbol) world (tick_symbol N D out sources symbol watches world)
  unfolding tick_symbol
  turn_keeps symbol watches world config here =
      let Fine : Watches N × World × Option TickResult → Type 0 =
        Kept symbol config (watches symbol) world in
      result_ind Fine (sources.get_mark_price symbol world) (λ e _. inl here)
        (λ mark_price priced.
          let ended =
            tick N D out symbol mark_price (read_book sources symbol world) none (watches symbol)
              world in
          let after =
            tick_accounted N D out symbol mark_price (read_book sources symbol world) none
              (watches symbol) world here in
          result_ind Fine ended.result
            (λ e raised. inl (
              raised_keeps symbol mark_price watches world config ended.watch e here
                (rw raised at after)))
            (λ r returned.
              returned_keeps symbol mark_price watches world config ended.watch ended.world r priced
                (rw returned at after)))

  -- The turn of a symbol leaves the watches of the others.
  turn_other :
      (symbol s : String) (watches : Watches N) (world : World)
      → str_eq s symbol ≡ false
      → (tick_symbol N D out sources symbol watches world).0 s ≡ watches s
  unfolding tick_symbol
  turn_other symbol s watches world h =
      let Same : Watches N × World × Option TickResult → Type 0 = λ t. t.0 s ≡ watches s in
      result_ind Same (sources.get_mark_price symbol world) (λ e _. refl)
        (λ mark_price _.
          result_ind Same
            (tick N D out symbol mark_price (read_book sources symbol world) none (watches symbol)
              world).result
            (λ e _. put_other symbol s _ watches h) (λ r _. put_other symbol s _ watches h))

  -- The turns of a cycle: the symbol, with its watch and the world as its turn begins.
  abbrev pub turns : List String → Watches N → World → List (String × Watch N × World)
  turns [] watches world = []
  turns (symbol ∷ symbols) watches world =
      let turn = tick_symbol N D out sources symbol watches world in
      (symbol, watches symbol, world) ∷ turns symbols turn.0 turn.1

  -- A result of a symbol among the results of a cycle, which ends its configuration at a turn of it.
  abbrev pub Reported :
      String → PositionConfig → List (String × Watch N × World) → List TickResult → Type 0
  Reported s config turned results =
      (r : TickResult) × Member r results
      × (watch : Watch N) × (world : World) × Member (s, watch, world) turned
      × Finished s config watch world r

  Reported-add :
      (s : String) (config : PositionConfig) (first : String × Watch N × World)
      (turned : List (String × Watch N × World)) (result : Option TickResult)
      (results : List TickResult)
      → Reported s config turned results
      → Reported s config (first ∷ turned) (add_result N D out sources result results)
  Reported-add s config first turned none results (r, at, watch, world, turn, done) =
      (r, at, watch, world, inr turn, done)
  Reported-add s config first turned (some new) results (r, at, watch, world, turn, done) =
      (r, inr at, watch, world, inr turn, done)

  Reported-first :
      (s : String) (config : PositionConfig) (watch : Watch N) (world : World)
      (turned : List (String × Watch N × World)) (result : Option TickResult)
      (results : List TickResult) (r : TickResult)
      → result ≡ some r
      → Finished s config watch world r
      → Reported s config ((s, watch, world) ∷ turned) (add_result N D out sources result results)
  Reported-first s config watch world turned none results r e done = cc
  Reported-first s config watch world turned (some first) results r e done =
      (r, inl (sym (some_inj e)), watch, world, inl refl, done)

  -- A cycle over any symbols, whatever prices, books and orders fail in it: every symbol with a
  -- configuration keeps it, or registers it again after a close that failed, unless a result of the
  -- cycle ends it at a turn of the symbol. Then, in the world of that turn, the exchange has no
  -- position of the symbol, or an order was placed whose id the result gives, and which closes all
  -- of the position, or the part of the only level that remained, or, as an invalidation whose
  -- fraction is one or more, that fraction. After any other level or invalidation the configuration
  -- stays.
  pub cycle_guards :
      (symbols : List String) (watches : Watches N) (world : World) (s : String)
      (config : PositionConfig)
      → (watches s).config ≡ some config
      → let cycle = tick_all N D out sources symbols watches world in
        ((cycle.watches s).config ≡ some config)
        ⊎ Reported s config (turns symbols watches world) cycle.results
  unfolding tick_all
  cycle_guards [] watches world s config here = inl here
  cycle_guards (symbol ∷ symbols) watches world s config here =
      let turn = tick_symbol N D out sources symbol watches world in
      let rest = tick_all N D out sources symbols turn.0 turn.1 in
      let turned = turns symbols turn.0 turn.1 in
      let results = add_result N D out sources turn.2 rest.results in
      let later : (turn.0 s).config ≡ some config
          → ((rest.watches s).config ≡ some config)
            ⊎ Reported s config ((symbol, watches symbol, world) ∷ turned) results =
        λ h. elim (cycle_guards symbols turn.0 turn.1 s config h) [
          | inl kept ↦ inl kept
          | inr told ↦ inr (
              Reported-add s config (symbol, watches symbol, world) turned turn.2 rest.results told)
        ] in
      elim (Bool-cases (str_eq s symbol)) [
        | inl same ↦
            let e : symbol ≡ s = sym ((str_eq_iff s symbol).0 same) in
            elim (turn_keeps symbol watches world config
              (subst (λ x. (watches x).config ≡ some config) (sym e) here)) [
                | inl kept ↦ later (subst (λ x. (turn.0 x).config ≡ some config) e kept)
                | inr (r, given, done) ↦ inr (
                    subst
                      (λ x. Reported x config ((symbol, watches symbol, world) ∷ turned) results) e
                      (Reported-first symbol config (watches symbol) world turned turn.2
                        rest.results r given done))
              ]
        | inr other ↦
            later (ap (λ (w : Watch N). w.config) (turn_other symbol s watches world other) ∙ here)
      ]
