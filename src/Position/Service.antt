-- ===== src/Position/Service.antt =====
-- backend/position_manager/tick_service.py. The lock makes one `tick_all` after another, so a cycle
-- is a function. The order of `configured_symbols` is an argument. Log lines are left out.
use k.Base.{ℤ, Option, none, some, List, [], ◌∷◌, String, str_eq, Result, ok, err, if◌then◌else◌}
use k.Base.Numbers.{Numbers}
use k.Base.Decimals.{Decimals}
use k.Position.Schemas.{PositionConfig, TickResult}
use k.Position.Watch.{Watch, set_config}
use k.Position.Closing.{Surroundings}
use k.Position.Tick.{tick}

-- The functions that the service is given; they may raise.
pub record Sources (World E : Type 0) : Type 0 where
  pub get_mark_price : String → World → Result E ℤ
  pub get_book : Option (String → World → Result E (Option (ℤ × ℤ)))

-- The book of a symbol, or None where it cannot be read.
unfoldable pub read_book : {World E : Type 0} → Sources World E → String → World → Option (ℤ × ℤ)
read_book sources symbol world = elim sources.get_book [
  | none ↦ none
  | some get_book ↦ elim (get_book symbol world) [ err e ↦ none | ok book ↦ book ]
]

module _ (N : Numbers) where
  -- The watches of the manager.
  abbrev pub Watches : Type 0
  Watches = String → Watch N

  abbrev pub put_watch : String → Watch N → Watches → Watches
  put_watch symbol watch watches s = if str_eq s symbol then watch else watches s

  -- After a tick that raised: the configuration before it is registered again if none is left.
  unfoldable pub reregister : Option PositionConfig → Watch N → Watch N
  unfolding set_config
  reregister before watch = elim before [
    | none ↦ watch
    | some config ↦ elim watch.config [ none ↦ set_config N config watch | some left ↦ watch ]
  ]

  -- The watches, the world and the results so far.
  pub record Cycle (World : Type 0) : Type 0 where
    pub watches : Watches
    pub world : World
    pub results : List TickResult

module _ (N : Numbers) (D : Decimals) {World E : Type 0} (out : Surroundings N World E)
    (sources : Sources World E) where
  -- The turn of one symbol, and its result if there is one.
  unfoldable pub tick_symbol : String → Watches N → World → Watches N × World × Option TickResult
  unfolding tick read_book reregister
  tick_symbol symbol watches world = elim (sources.get_mark_price symbol world) [
    | err e ↦ (watches, world, none)
    | ok mark_price ↦
        let before = (watches symbol).config in
        let ended =
          tick N D out symbol mark_price (read_book sources symbol world) none (watches symbol)
            world in
        elim ended.result [
          | err e ↦
              (put_watch N symbol (reregister N before ended.watch) watches, ended.world, none)
          | ok result ↦ (put_watch N symbol ended.watch watches, ended.world, some result)
        ]
  ]

  abbrev pub add_result : Option TickResult → List TickResult → List TickResult
  add_result none results = results
  add_result (some result) results = result ∷ results

  -- The loop of `tick_all`; the results stand in the order of the symbols.
  unfoldable pub tick_all : List String → Watches N → World → Cycle N World
  unfolding tick_symbol
  tick_all [] watches world = record { watches = watches; world = world; results = [] }
  tick_all (symbol ∷ symbols) watches world =
      let (next, after, result) = tick_symbol symbol watches world in
      let rest = tick_all symbols next after in
      record rest { results = add_result result rest.results }
