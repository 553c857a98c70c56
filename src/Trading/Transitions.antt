-- ===== src/Trading/Transitions.antt =====
-- What the transition table of backend/trading_core/bot_state_machine.py enforces over single
-- requests and over whole runs of them.
use mathlib.Core.List.{Memᴰ}
use k.Base.{
  ◌≡◌, refl, sym, ◌↔◌, ◌⊎◌, inl, inr, true, false, none, some, List, [], ◌∷◌, String, str_eq_iff,
  arith, is_ok,
}
use k.Trading.State.{
  BotState, active, halted, kill_switch_triggered, value, state_eq, BotStateMachine, init,
  can_transition_to, transition_to, force_set, can_trade, can_manage_positions, is_running,
  bot_state, resolve_persisted_state,
}

pub state_eq_iff : (s t : BotState) → (state_eq s t ≡ true) ↔ (s ≡ t)
state_eq_iff s t = ground arith

-- The requests of a run in their order; a caller goes on after a rejected one.
abbrev pub run : BotStateMachine → List BotState → BotStateMachine
run m [] = m
run m (t ∷ ts) = run (transition_to m t).0 ts

-- The three permissions are nested: a bot that may open positions may manage them, and one that
-- may manage them has a running cycle; no other state has more than a running cycle.
pub permissions_nested :
    (m : BotStateMachine)
    → (can_trade m ≡ true → can_manage_positions m ≡ true)
      × (can_manage_positions m ≡ true → is_running m ≡ true)
      × (is_running m ≡ false → (m.state ≡ halted) ⊎ (m.state ≡ kill_switch_triggered))
unfolding can_trade can_manage_positions is_running
permissions_nested m = ground arith

-- A bot whose cycle is stopped starts running again in one way only, from HALTED to ACTIVE.
pub restart_only_from_halted :
    (m : BotStateMachine) (target : BotState)
    → is_running m ≡ false
    → is_running (transition_to m target).0 ≡ true
    → (m.state ≡ halted) × (target ≡ active)
unfolding is_running transition_to
restart_only_from_halted m target stopped running = ground arith

leave_kill_switch :
    (m : BotStateMachine) (t : BotState)
    → m.state ≡ kill_switch_triggered
    → (t ≡ halted) ⊎ ((transition_to m t).0.state ≡ kill_switch_triggered)
unfolding transition_to
leave_kill_switch m t e = ground arith

kill_switch-run :
    (m : BotStateMachine) (ts : List BotState)
    → m.state ≡ kill_switch_triggered
    → can_trade (run m ts) ≡ true
    → Memᴰ halted ts
unfolding can_trade
kill_switch-run m [] e trades = ground arith
kill_switch-run m (t ∷ ts) e trades = elim (leave_kill_switch m t e) [
  | inl h ↦ Memᴰ.head (sym h)
  | inr stays ↦ Memᴰ.tail (kill_switch-run (transition_to m t).0 ts stays trades)
]

-- After a kill switch no sequence of requests makes the bot trade again unless HALTED is among
-- them.
pub kill_switch_needs_review :
    (ts : List BotState) → can_trade (run (init kill_switch_triggered) ts) ≡ true → Memᴰ halted ts
unfolding init
kill_switch_needs_review ts trades = kill_switch-run (init kill_switch_triggered) ts refl trades

-- A request is granted exactly when the table permits it; then the machine is at the target, and
-- otherwise it is where it was. No state may follow itself.
pub transition_to-grants :
    (m : BotStateMachine) (t : BotState)
    → (is_ok (transition_to m t).1 ≡ can_transition_to m t)
      × (can_transition_to m t ≡ true → (transition_to m t).0.state ≡ t)
      × (can_transition_to m t ≡ false → (transition_to m t).0 ≡ m)
      × (can_transition_to m m.state ≡ false)
unfolding transition_to can_transition_to
transition_to-grants m t = ground arith

-- The requests of an operator that bring the bot back.
abbrev pub recovery : BotState → List BotState
recovery active = []
recovery kill_switch_triggered = halted ∷ active ∷ []
recovery _ = active ∷ []

-- From every state at most two requests bring the bot back to trading: none from ACTIVE, HALTED and
-- then ACTIVE after a kill switch, and ACTIVE from the others.
pub recovery_trades : (s : BotState) → can_trade (run (init s) (recovery s)) ≡ true
unfolding can_trade transition_to init
recovery_trades active = refl
recovery_trades _ = refl

-- `force_set` reaches any state, whatever the table says.
pub force_set_lem : (m : BotStateMachine) (t : BotState) → (force_set m t).state ≡ t
unfolding force_set
force_set_lem m t = ground arith

bot_state-value : (s : BotState) → bot_state (value s) ≡ some s
unfolding bot_state
bot_state-value active = refl
bot_state-value _ = refl

bot_state_sound : (raw : String) (s : BotState) → bot_state raw ≡ some s → raw ≡ value s
unfolding bot_state
bot_state_sound raw s e = ground (
  arith,
  str_eq_iff raw "ACTIVE",
  str_eq_iff raw "SAFE_MODE",
  str_eq_iff raw "HALTED",
  str_eq_iff raw "KILL_SWITCH_TRIGGERED",
  str_eq_iff raw "MANUAL_PAUSED",
)

-- A persisted string is read as a state exactly when it is that state's own string, and a run
-- without a persisted state is read as ACTIVE.
pub resolve_persisted_state_iff :
    (raw : String) (s : BotState)
    → ((resolve_persisted_state (some raw) ≡ some s) ↔ (raw ≡ value s))
      × (resolve_persisted_state none ≡ some active)
unfolding resolve_persisted_state
resolve_persisted_state_iff raw s = ((bot_state_sound raw s, λ e. rw e (bot_state-value s)), refl)
