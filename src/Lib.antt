-- ===== src/Lib.antt =====
-- A verification library of the trading bot's backend.
--
-- The program is an autonomous futures bot. A model proposes a decision, which a schema validates
-- (backend/decision_engine/schemas.py) and an aggregator weighs against the market's signals; the
-- Risk Engine (backend/risk_engine) has the last word on it, with estimates of what it will cost; a
-- state machine (backend/trading_core) says whether the bot may trade at all, and an emergency stop
-- moves it through the database that several processes share. Around them, a monitor of the market
-- data and the reconciliation with the exchange ask for an emergency stop, the calls of the exchange
-- and of the model are retried behind a circuit breaker and kept within a token budget, a manager
-- follows the price of an open position and closes it, on a simulated exchange or a real one, and
-- the login of the dashboard is throttled.
--
-- Which file models what:
--   Base: shared names, Boolean tests, lists, integers for Decimal amounts (Base/Int), outcomes of
--     calls that may raise (Base/Outcomes), rules for case analysis (Base/Cases) and the interfaces of
--     the arithmetic of floats (Base/Numbers) and of products of Decimals (Base/Decimals).
--   Config: sections of backend/core/config.py, with LeverageConfig.leverage_limits and cap_for_env.
--   Decision: ModelDecision and its validators, backend/decision_engine/schemas.py.
--   Risk/Results, Risk/Checks and its children: the checks of backend/risk_engine/checks.py.
--   Risk/Schemas: RiskValidationResult and its validation, backend/risk_engine/schemas.py.
--   Risk/Engine: validate of backend/risk_engine/engine.py and adjustments.py. The proofs about it
--     are in Risk/Causes, Tradable, Safety (the verdict), Built, Limits (the parameters), Audit (the
--     reasons), Fields, Totality (it returns) and Gaps (two behaviours that its text does not say).
--   Trading/State, Trading/Transitions: backend/trading_core/bot_state_machine.py.
--   Trading/Emergency, Trading/Stops, Trading/Sync: backend/trading_core/emergency_stop.py, with
--     the rows of backend/storage/models.py and get_latest of backend/storage/repositories/bot.py.
--   Trading/SafeMode: the shared end of the two monitors, which ask for SAFE_MODE from ACTIVE only.
--   Retry: backend/core/retry.py, the circuit breaker (Retry/Breaker) and the retry loop with its
--     delays (Retry/Loop). The proofs are in Retry/Circuit (any use of a breaker), Attempts (how
--     often it calls), Endings (why it ends), Guarded (loop and breaker together) and Delay.
--   Health: backend/connection_health, the anomalies of a cycle's market snapshots
--     (Health/Monitor, proofs in Health/Findings) and the SAFE_MODE that they cause through the
--     emergency stop (Health/Enforce).
--   Auth: the login throttle, backend/auth/throttle.py (Auth/Service) on the tables of
--     backend/storage/repositories/auth.py (Auth/Throttle). The proofs are in Auth/Lockouts (rows),
--     Purges (what is too old), Failures and Logins (a failed login), Active and Decisions (the
--     check, and the reset).
--   Position: backend/position_manager. Position/Stops is break_even.py and trailing.py, Schemas is
--     schemas.py and Mapper is config_mapper.py. The entries of one symbol in the dicts of manager.py
--     are a record (Watch), on which the tick first follows the price (Follow), then closes (Closing),
--     invalidates (Invalidation) or takes a level (Tick); Service is tick_service.py. The proofs are in
--     Ratchet (stops), Mapping (the mapper against the schema), Following and BreakEven (the first
--     parts of a tick), Moves (where the stops then are), Plan, Invalidated, Refinement and Ticks (a
--     tick against an abstract plan), Final (after the stop), Levels and Calls (any calls of the
--     manager), Guarded and Cycles (a cycle of the service).
--   Budget: the token budget, backend/token_budget/manager.py (Budget/Manager), with the proofs in
--     Budget/Windows.
--   Reconcile: backend/reconciliation. The engine of engine.py is in Rows (the rows and queries),
--     Engine (the comparisons) and Report (the whole of it), with the proofs in Symbols, Found and
--     Positions (positions), Newest (the limit of a query), Lost and Missing (orders) and Agreement (what
--     a report means). The gate of gate.py is in Gate, with the proofs in Blocking.
--   Decision/Aggregator: backend/decision_engine/aggregator.py, which weighs the decision of the model
--     against the quantitative signals, with the proofs in Decision/Agreed.
--   Estimates: backend/core/fees.py in Fees and backend/core/slippage.py in Slippage, with the proofs
--     in Costs (what the fee gate of the Risk Engine then guarantees) and Estimable.
--   Exchange: backend/exchange_adapters. The schemas are in Orders. The simulated exchange of
--     paper_adapter.py is in Fills (prices and fees, with the two models of backend/backtesting),
--     Ledger (the state and the positions), Paper (orders) and Account (the rest), with the proofs in
--     Placing (how an order ends), Known and Retried (orders placed again), Sound and Session (what stays
--     true) and Reducing (orders that only reduce). Position/OnPaper puts the position manager on it.
--   Tests: runs of the models and the theorems at concrete inputs, over a fixed-point arithmetic.
--
-- How the code is read. A Decimal is an integer number of units of the finest exponent in use, so
-- that comparisons are exact. A float is a value of an abstract type with the operations that the
-- code makes on it (Base/Numbers); a theorem that needs a law of that arithmetic names it as a
-- hypothesis, and Tests/Fixed has an arithmetic that meets them. A raise is an error value. The
-- database session is a committed store, the store of the open transaction and the row that is
-- locked; whether a commit goes through is an argument. Strings that are formatted for people are
-- kept by their kind, without the numbers in them. Python's isinstance tests hold by the types.
-- A time is a number of microseconds, or a float where the source reads the monotonic clock. Nothing
-- runs on fuel: loops are over lists, and the retry loop over the attempts that are left.
--
-- Not modelled: logging, HTTP, the adapters of the real exchanges and their transport, prompts and
-- the GPT client, persistence other than the tables named above, uuid and time stamp validators,
-- signals and indicators, and the cycle that joins the parts.
pub mod Base
pub mod Config
pub mod Decision
pub mod Risk
pub mod Trading
pub mod Retry
pub mod Health
pub mod Auth
pub mod Exchange
pub mod Estimates
pub mod Position
pub mod Budget
pub mod Reconcile
mod Tests
