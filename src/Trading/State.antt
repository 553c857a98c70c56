-- ===== src/Trading/State.antt =====
-- backend/trading_core/bot_state_machine.py: the operating states of the bot, the table of
-- permitted transitions and the machine that enforces it. The log lines are not modelled.
use k.Base.{
  Bool, true, false, not, Option, none, some, List, [], ◌∷◌, String, str_eq, Result, ok, err, any,
  if◌then◌else◌,
}

pub data BotState : Type 0 where
  active safe_mode halted kill_switch_triggered manual_paused : BotState

-- The strings of the StrEnum.
abbrev pub value : BotState → String
value active = "ACTIVE"
value safe_mode = "SAFE_MODE"
value halted = "HALTED"
value kill_switch_triggered = "KILL_SWITCH_TRIGGERED"
value manual_paused = "MANUAL_PAUSED"

-- `==` on members of the enum.
abbrev pub state_eq : BotState → BotState → Bool
state_eq active active = true
state_eq safe_mode safe_mode = true
state_eq halted halted = true
state_eq kill_switch_triggered kill_switch_triggered = true
state_eq manual_paused manual_paused = true
state_eq _ _ = false

-- `state in {…}`
abbrev pub member : BotState → List BotState → Bool
member s = any (state_eq s)

-- `_ALLOWED_TRANSITIONS`: from a state to the states that may follow it.
unfoldable pub allowed_transitions : BotState → List BotState
allowed_transitions active = safe_mode ∷ halted ∷ kill_switch_triggered ∷ manual_paused ∷ []
allowed_transitions safe_mode = active ∷ halted ∷ kill_switch_triggered ∷ manual_paused ∷ []
allowed_transitions halted = active ∷ kill_switch_triggered ∷ []
allowed_transitions kill_switch_triggered = halted ∷ []
allowed_transitions manual_paused = active ∷ safe_mode ∷ []

-- `InvalidStateTransitionError`
pub record InvalidStateTransitionError : Type 0 where
  pub current : BotState
  pub target : BotState

pub record BotStateMachine : Type 0 where
  pub state : BotState

-- `BotStateMachine(initial=…)`; the source's default is `active`.
unfoldable pub init : BotState → BotStateMachine
init initial = record { state = initial }

unfoldable pub can_transition_to : BotStateMachine → BotState → Bool
unfolding allowed_transitions
can_transition_to m target = member target (allowed_transitions m.state)

-- The machine afterwards, and what the call returned or raised.
unfoldable pub transition_to :
    BotStateMachine → BotState → BotStateMachine × Result InvalidStateTransitionError (Unit {0})
unfolding can_transition_to
transition_to m target =
    if not (can_transition_to m target)
    then (m, err (record { current = m.state; target = target }))
    else (record m { state = target }, ok tt)

unfoldable pub force_set : BotStateMachine → BotState → BotStateMachine
force_set m target = if state_eq target m.state then m else record m { state = target }

unfoldable pub can_trade : BotStateMachine → Bool
can_trade m = state_eq m.state active

unfoldable pub can_manage_positions : BotStateMachine → Bool
can_manage_positions m = member m.state (active ∷ safe_mode ∷ [])

unfoldable pub is_running : BotStateMachine → Bool
is_running m = not (member m.state (halted ∷ kill_switch_triggered ∷ []))

-- `BotState(raw)`: the member with that string; `none` stands for the ValueError.
unfoldable pub bot_state : String → Option BotState
bot_state raw =
    if str_eq raw "ACTIVE"
    then some active
    else if str_eq raw "SAFE_MODE"
    then some safe_mode
    else if str_eq raw "HALTED"
    then some halted
    else if str_eq raw "KILL_SWITCH_TRIGGERED"
    then some kill_switch_triggered
    else if str_eq raw "MANUAL_PAUSED"
    then some manual_paused
    else none

unfoldable pub resolve_persisted_state : Option String → Option BotState
unfolding bot_state
resolve_persisted_state none = some active
resolve_persisted_state (some raw) = bot_state raw
