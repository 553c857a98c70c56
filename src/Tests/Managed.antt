-- ===== src/Tests/Managed.antt =====
-- A position over ticks: a long one of 2 units entered at 100 with a stop at 95 and two levels, on an
-- exchange that counts the orders that it is sent. Prices are in hundredths.
use k.Base.{
  ℕ, suc, ◌+ℤ◌, ℤ, pos, ◌≡◌, refl, true, false, none, some, List, [], ◌∷◌, String, Result, ok, err,
  arith, ◌≤ℤ◌, ◌<ℤ◌, inr, ◌⊎◌,
}
use k.Base.Decimals.{Decimals, OrderedProducts}
use k.Exchange.Orders.{PositionState, request_is_valid, book_coherent}
use k.Decision.{symbol_allowed}
use k.Position.Stops.{is_set, buy, maybe_move_to_break_even}
use k.Position.Schemas.{
  PositionConfig, TakeProfitLevel, TickResult, resolved_trailing_mode, validate_config, sl_hit,
}
use k.Position.Watch.{Watch, unwatched, set_config, remove_config}
use k.Position.Follow.{follow_price, break_even}
use k.Position.Closing.{
  Surroundings, Ended, TickError, usable_book, stop_reached, target_reached, place_close_order,
  close_position, report,
}
use k.Position.Tick.{take_level, check_targets, check_invalidation, check_stop, tick}
use k.Position.Final.{Seen, only_passing, run, reached_stop_closes}
use k.Position.Levels.{Names}
use k.Position.Calls.{setting, Sound, levels_in_order}
use k.Position.BreakEven.{break_even_keeps_open}
use k.Position.Service.{Sources, Watches, read_book, reregister, tick_symbol, tick_all}
use k.Position.Cycles.{Reported, turns, cycle_guards}
use k.Position.Mapper.{PositionManagementConfig, trailing_mode}
use k.Position.Mapping.{Sensible}
use k.Tests.Fixed.{fixed, times, quotient}

abbrev pub decimals : Decimals
decimals = record {
  one = pos 100;
  half = pos 50;
  times = times;
  over = quotient;
  quantize = λ x. x;
}

abbrev pub long : PositionState
long = record {
  symbol = "BTCUSDT";
  side = buy;
  quantity = pos 200;
  entry_price = pos 10000;
  unrealized_pnl = pos 0;
  margin_usdt = pos 2000;
  leverage = 10;
  stop_loss = none;
  take_profit = none;
}

-- The world is the number of orders placed; the exchange raises on the third.
abbrev pub exchange : Surroundings fixed ℕ String
exchange = record {
  adapter = record {
    get_position = λ symbol orders. ok (some long);
    place_order =
        λ request orders. (suc orders, elim orders [ suc (suc n) ↦ err "timeout" | _ ↦ ok tt ]);
  };
  on_invalidation_event = none;
  monotonic = λ orders. pos 0;
  uuid4 = λ orders. "id";
  is_uuid = λ s. true;
}

abbrev level : ℤ → ℤ → TakeProfitLevel
level price close_fraction = record { price = price; close_fraction = close_fraction }

abbrev pub two_levels : PositionConfig
two_levels = record {
  symbol = "BTCUSDT";
  stop_loss = some (pos 9500);
  take_profit = none;
  take_profit_levels = level (pos 10500) (pos 50) ∷ level (pos 11000) (pos 100) ∷ [];
  trailing_delta = none;
  trailing_percent = none;
  trailing_atr = none;
  trailing_atr_multiplier = none;
  trailing_atr_dynamic = false;
  trailing_atr_smoothing_alpha = none;
  be_trigger_delta = some (pos 400);
  be_sl_offset = pos 100;
  invalidation_action = none;
  invalidation_price = none;
}

abbrev pub watched : Watch fixed
watched = record (unwatched fixed) {
  config = some two_levels;
  effective_sl = some (pos 9500);
  remaining_tp_levels = two_levels.take_profit_levels;
}

set_lem : set_config fixed two_levels (unwatched fixed) ≡ watched
unfolding set_config
set_lem = refl

-- The first level is taken, and the stop goes to one above the entry.
ticked :
    let ended = tick fixed decimals exchange "BTCUSDT" (pos 10600) none none watched 0 in
    (ended.watch.effective_sl ≡ some (pos 10100))
    × (ended.watch.remaining_tp_levels ≡ level (pos 11000) (pos 100) ∷ [])
    × (ended.world ≡ 1)
unfolding tick follow_price resolved_trailing_mode break_even maybe_move_to_break_even check_stop
    stop_reached check_invalidation check_targets target_reached take_level place_close_order
    usable_book request_is_valid symbol_allowed book_coherent remove_config ◌+ℤ◌
ticked = (refl, refl, refl)

abbrev later : List (Seen ℕ)
later = record { mark_price = pos 9000; atr = none; book = none; passing = λ n. n } ∷ []

abbrev stopped : Ended fixed ℕ String TickResult
stopped = tick fixed decimals exchange "BTCUSDT" (pos 9400) none none watched 0

abbrev sent : ℕ × Result (TickError String) String
sent = place_close_order fixed exchange "BTCUSDT" (pos 200) (pos 9400) buy none 0

reached_stop_closes_example :
    (stopped ≡ record {
      watch = unwatched fixed;
      world = sent.0;
      result = report "BTCUSDT" (pos 9400) sl_hit none none sent.1;
    })
    × (run fixed decimals exchange "BTCUSDT" later stopped.watch stopped.world
        ≡ (unwatched fixed, only_passing later sent.0))
unfolding stop_reached
reached_stop_closes_example =
    reached_stop_closes fixed decimals exchange "BTCUSDT" (pos 9400) (pos 9500) none none watched 0
      later {position = long} {config = two_levels} refl refl refl refl

levels_in_order_example :
    let ended = tick fixed decimals exchange "BTCUSDT" (pos 10600) none none watched 0 in
    Sound fixed decimals exchange "BTCUSDT" watched
    × Sound fixed decimals exchange "BTCUSDT" ended.watch
    × Names two_levels ended.result
unfolding set_config
levels_in_order_example =
    levels_in_order fixed decimals exchange "BTCUSDT" (setting two_levels ∷ []) 0 0 watched
      (pos 10600) none none {position = long} {config = two_levels} refl refl refl

break_even_keeps_open_example :
    is_set
      (break_even fixed long (pos 10600) two_levels watched).effective_sl
      (stop_reached buy (pos 10600))
    ≡ false
unfolding validate_config stop_reached
break_even_keeps_open_example =
    break_even_keeps_open fixed long (pos 10600) two_levels watched {accepted = two_levels} refl
      refl

-- The price has fallen to 94 and the order of the close is the third, which the exchange refuses.
abbrev sources : Sources ℕ String
sources = record { get_mark_price = λ symbol orders. ok (pos 9400); get_book = none }

abbrev watches : Watches fixed
watches s = watched

cycle_guards_example :
    let cycle = tick_all fixed decimals exchange sources ("BTCUSDT" ∷ []) watches 2 in
    ((cycle.watches "BTCUSDT").config ≡ some two_levels)
    ⊎ Reported fixed decimals exchange sources "BTCUSDT" two_levels
        (turns fixed decimals exchange sources ("BTCUSDT" ∷ []) watches 2)
        cycle.results
cycle_guards_example =
    cycle_guards fixed decimals exchange sources ("BTCUSDT" ∷ []) watches 2 "BTCUSDT" two_levels
      refl

registered_again :
    (tick_all fixed decimals exchange sources ("BTCUSDT" ∷ []) watches 2).watches "BTCUSDT"
    ≡ watched
unfolding tick_all tick_symbol reregister set_config read_book tick follow_price
    resolved_trailing_mode break_even maybe_move_to_break_even check_stop stop_reached
    close_position place_close_order usable_book request_is_valid symbol_allowed book_coherent
    remove_config ◌+ℤ◌
registered_again = refl

abbrev defaults : PositionManagementConfig fixed decimals
defaults = record {
  break_even_enabled = true;
  trailing_stop_enabled = true;
  trailing_default_mode = "ATR";
  trailing_default_percent = pos 2;
  trailing_default_atr_multiplier = pos 250;
  be_trigger_atr_multiplier = pos 100;
  be_sl_offset_percent = pos 1;
}

times_nonneg : (a b : ℤ) → pos 0 ≤ℤ a → pos 0 ≤ℤ b → pos 0 ≤ℤ times a b
times_nonneg a b h k = ground arith

half_less : (a : ℤ) → pos 0 <ℤ a → times a (pos 50) <ℤ a
half_less a h = ground arith

pub ordered : OrderedProducts decimals
ordered = record { times_nonneg = times_nonneg; half_nonneg = omega arith; half_less = half_less }

sensible : Sensible fixed decimals defaults
unfolding trailing_mode
sensible = record {
  mode = inr refl;
  percent_positive = omega arith;
  percent_less = omega arith;
  multiplier_positive = omega arith;
  offset_nonneg = omega arith;
}
