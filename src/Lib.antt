-- ===== src/Lib.antt =====
-- BIN BOT, an event-driven automated trading system: a strategy turns bars into signals, the risk
-- engine lets a signal through or refuses it, the order manager sends it to a broker and follows its
-- fills, and an event bus carries everything that happens to whoever listens. This library models
-- that core and proves what makes each part correct.
--
-- Parts and files (paths of the repository on the left):
--   core/enums.py, core/events.py     Core/Enums, Core/Events: sides, order states, the events as records
--   core/event_bus.py                 Core/EventBus (publish, dispatch, join), with Order and Counts
--   risk/circuit_breaker.py           Risk/CircuitBreaker (update, reset_session, snapshot, restore, ...),
--                                     with Trip, Session, Recovery and Drawdown
--   risk/risk_engine.py               Risk/RateLimiter (_TokenRateLimiter) with Window and Bound;
--                                     Risk/Engine (the checks and check_order) with Gate and Limits
--   risk/position_sizing.py           Risk/PositionSizing, with Sizes
--   risk/margin.py                    Risk/Margin (check_margin is MarginCalculator.check_order)
--   execution/broker_interface.py,
--   execution/order_manager.py        Execution/Orders (one order), Execution/OrderManager (the book), with
--                                     Fills, Book and Oco
--   execution/slippage.py             Execution/Slippage
--   execution/trade_tracker.py        Execution/TradeTracker, with Positions and Closing
--   execution/position_monitor.py     Execution/Trailing (the decision on one position), Execution/PositionMonitor
--                                     (check_once and loop) with Steps, Closing, Frozen, Peak, Unprotected
--   strategies/base_strategy.py,
--   strategies/funding_momentum_scanner.py
--                                     Strategies/BaseStrategy, Strategies/Scanner (on_bar), with Entry and Pending
--   utils/state_recovery.py           Recovery (recover, persist), with Restart
--   utils/daily_log.py                DailyLog (append, read_recent), with Window
--   server/dashboard_bridge.py        Server/Dashboard (state, audit, commands), with Clients, Charts, Events and Kpis,
--                                     and the proofs Control, Recent and Runs
--   backtest/market_simulator.py      Backtest/Fills (one fill), Backtest/Impact (its price), Backtest/Simulator
--                                     (orders and bars), with Bars, Trades, Conservation and Carried
--   backtest/engine.py                Backtest/Engine (run), with Causality
--   execution/binance_broker.py       Execution/Binance (state, maps, conversions), with Symbols (filters), Leverage,
--                                     Universe, Sending (orders), Stops, UserStream, Account, Backoff, and the
--                                     proofs Keeping, Replies, Answered, Oca, Caps, Protection, Agreement
--   execution/ibkr_broker.py          Execution/Ibkr (state, maps, queue), with Sending (orders), Callbacks, Account,
--                                     Heartbeat, and the proofs Names, Runs, Told, Unheard
--   scripts/run_live_binance_scanner.py
--                                     Live (state, on_tick), with Signals, Operator, Monitor, Turns (runs), and the proofs
--                                     Halted, Killed, Stranded, Cancelling
--   data/bar_aggregator.py            Data/BarAggregator (on_tick, flush), with Bounds and Buckets
--   data/binance_universe_feed.py     Data/UniverseFeed (windows, messages, backfill), with Windows, Streams, Batches
--
-- How the source is read. A class is a record; a method takes the state and returns the new one, beside
-- its result. A method that can raise returns a Result (Base/Raise) beside the state that it leaves; the
-- checks of the risk engine are a state monad whose error is RiskViolation. Python dicts are association
-- lists in insertion order (Dict). Log lines, and the random event ids that nothing reads, are left out.
-- A formatted message is a constructor with the values that the f-string shows.
--
-- Numbers. Python's int is a signed integer (Base/Int), and a natural number where the source only ever
-- holds counts and sizes. Python's float is an interface, Float: every operation that the code makes is
-- written out in its order, and no algebra of reals is assumed. What a theorem needs of floats is a
-- hypothesis: IsOrdered (the comparisons of values that are not NaN) or IsMonotone (rounding keeps the
-- order of differences, x - x is 0, small whole numbers convert exactly and in order). Float/Fixed gives
-- thousandths as a value that meets both, and the tests run on it. Overflow to infinity is not modelled.
-- Times are microseconds since the epoch in UTC, a date is a day number; readings of time.monotonic() are
-- floats. Clocks and uuid4 come in as arguments. What math and round add to the operators is a second interface,
-- FloatMath, of which nothing is assumed.
--
-- The world outside. What the exchange answers in a check of the position monitor is its input (Responses), with
-- none or false for an answer that is an exception; what the monitor does to the world is a list of actions.
-- What a bar finds when the scanner looks at its feed, the monitor, the broker and the clocks is its input (Market).
-- Calls into the broker from the order manager are recorded in the same way, and so are the calls that the
-- adapters make of Binance and of ib_async, whose answers and callbacks come in as arguments. The text of a float
-- in a message of the Binance adapter is an argument, show, and the text of a whole number in the IBKR adapter is
-- str. A set of an adapter is a list without duplicates, in one order. In the live script, orders and cancellations
-- of the order manager go on to the model of the broker. Its tasks are cut at their awaits, and a run takes the pieces
-- in any order (Live/Turns); the step size or multiplier of a symbol that is traded is taken to be found.
--
-- The queue of the simulated broker's events is the list of its fills, beside the acknowledgement that place_order
-- returns.
--
-- Termination. Loops over lists and windows are structural. EventBus.join runs on a number of rounds,
-- none if they do not suffice; for handlers that publish nothing the length of the queue is enough, which
-- is part of its theorem.
--
-- Not modelled: the Redis fan-out, asyncio's scheduling beyond the order of turns (Core/EventBus/Counts takes
-- any schedule), the tick storage and the servers' sockets, which are input and output; the query plans of
-- strategies/features.py, the settings, and the live script's construction of its objects and its shutdown.
pub mod Base
pub mod Float
pub mod Dict
pub mod Core
pub mod Risk
pub mod Execution
pub mod Data
pub mod Server
pub mod Strategies
pub mod Backtest
pub mod DailyLog
pub mod Recovery
pub mod Live
pub mod Tests
