-- ===== src/Tests/Live.antt =====
-- scripts/run_live_binance_scanner.py at concrete inputs.
use binbot.Base.{
  ℕ, ◌+◌, ◌≤◌, ◌≡◌, refl, true, List, [], ◌∷◌, ◌++◌, none, some, ℤ, ok, String_discrete, ◌-ℤ◌, ◌+ℤ◌,
  ◌*ℤ◌, length,
}
use binbot.Float.Fixed.{fixed, fixed_math, units}
use binbot.Dict.{get, put}
use binbot.Core.Events.{TickEvent, date, mid}
use binbot.Execution.Orders.{cancel_all_orders}
use binbot.Execution.OrderManager.{submit}
use binbot.Execution.Binance.{get_step_size, lots_to_quantity}
use binbot.Execution.Binance.Account.{get_positions}
use binbot.Execution.Binance.Leverage.{ensure_symbol_ready, configure_leverage_and_margin}
use binbot.Execution.Binance.Sending.{place_order, place_found, register, send_registered, send}
use binbot.Data.BarAggregator.{on_tick, bucket_of, next_bar}
use binbot.Execution.Binance.Symbols.{Answers}
use binbot.Core.Enums.{sell}
use binbot.Risk.CircuitBreaker.{update, snapshot, force_halt}
use binbot.Recovery.{missing, persist, update_positions}
use binbot.Risk.Engine.{check_order, update_market_state, signed_quantity}
use binbot.Risk.Margin.{check_margin, set_requirement}
use binbot.Risk.RateLimiter.{try_acquire, drop_old}
use binbot.Live.{LiveScanner, ready}
use binbot.Live.Signals.{
  Replies, account_of, gross_exposure, begin_signal, begin_with, check_signal, judge_signal,
  ready_signal, ready_flight, submit_signal, submit_flight, submit_order,
}
use binbot.Live.Operator.{begin_kill, finish_kill, engage_kill_switch}
use binbot.Live.Monitor.{monitor_update, monitor_with, after_update}
use binbot.Live.Halted.{IsHalted, placed, flying, closings}
use binbot.Live.Turns.{
  Script, Turn, ticking, checking, readying, submitting, closing, updating, persisting, resuming,
  run, turn,
}
use binbot.Live.Killed.{finish_kill-Keeps}
use binbot.Live.Cancelling.{kill_switch_cancels_nothing}
use binbot.Tests.Binance.{connected, show, capped}
use binbot.Tests.Engine.{engine, signal}
use binbot.Tests.Orders.{manager, uuid}

abbrev live : LiveScanner ℕ ℤ
live = record {
  service = record { risk_engine = engine; disk = missing; environment_id = "live:1" };
  broker = record connected { symbols = [] };
  order_manager = manager;
  bar_aggregator = record { timeframe_s = 60; open_bars = [] };
  last_price = [];
  strategy = record { strategy_id = "scanner"; symbols = "BTCUSDT" ∷ []; active = true };
  flight = none;
  bars_written = [];
  notes = [];
}

abbrev script : Script ℤ
script = record {
  settings = record { universe = "BTCUSDT" ∷ []; leverage = 2; margin_type = "ISOLATED" };
  show = show;
  uuid = uuid;
}

abbrev tick : TickEvent ℤ
tick = record {
  ts = 90000000000;
  symbol = "BTCUSDT";
  bid = units 90;
  ask = units 92;
  bid_size = 1;
  ask_size = 1;
  last = units 91;
  last_size = 1;
}

-- The morning of the breaker's day.
abbrev replies : Replies ℤ
replies = record {
  equity = ok (units 10000);
  positions = ok [];
  margin_usage = ok (units 0, units 0);
  monotonic = units 9;
  now = 90000000000;
}

abbrev answers : Answers ℤ
answers = record capped { accepts = λ symbol leverage. true }

-- A signal after a tick passes the checks, and its symbol is made ready.
abbrev before : List (Turn ℤ)
before = ticking tick ∷ checking replies signal ∷ readying answers ∷ []

-- A round of the monitor, another signal, the submission of the one under way, and a stop-loss.
abbrev rest_of_day : List (Turn ℤ)
rest_of_day =
    updating replies
    ∷ persisting
    ∷ resuming
    ∷ checking replies signal
    ∷ submitting 90000000000 none
    ∷ closing 90000000000 none (record signal { side = sell }) none
    ∷ checking replies signal
    ∷ []

-- A signal becomes an order at the exchange: its margin type, its leverage and itself. The kill switch halts what comes
-- after it, and not the signal that has passed the checks.
signal_placed :
    let s = run script (before ++ submitting 90000000000 none ∷ []) live in
    let s' = run script rest_of_day (finish_kill (run script before live)) in
    (length s.order_manager.orders ≡ 1)
    × (length s.broker.calls ≡ 3)
    × (placed s'.order_manager.broker_calls ≡ 2)
unfolding run turn account_of gross_exposure begin_signal begin_with check_signal judge_signal
    ready_signal ready_flight submit_signal submit_flight submit_order submit place_order
    place_found register send_registered send ensure_symbol_ready configure_leverage_and_margin
    finish_kill persist snapshot force_halt monitor_update monitor_with after_update
    update_positions update date get_step_size lots_to_quantity get_positions check_order
    try_acquire drop_old get put check_margin signed_quantity on_tick bucket_of next_bar
    update_market_state mid set_requirement String_discrete ◌+ℤ◌ ◌-ℤ◌ ◌*ℤ◌
signal_placed = (refl, refl, refl)

abbrev under_way : LiveScanner ℕ ℤ
under_way = record live { flight = some (ready signal) }

finish_kill-Keeps_example :
    let killed = finish_kill under_way in
    let s' = run script rest_of_day killed in
    IsHalted 1 s'
    × (placed s'.order_manager.broker_calls + flying s'.flight
        ≤ placed killed.order_manager.broker_calls + flying killed.flight + closings rest_of_day)
unfolding date
finish_kill-Keeps_example =
    finish_kill-Keeps script rest_of_day under_way (refl, (tt, (tt, (tt, (tt, (tt, (tt, tt)))))))

kill_switch_cancels_nothing_example :
    let s' = run script before live in
    let during = run script rest_of_day (begin_kill s') in
    let after = engage_kill_switch (run script rest_of_day) s' in
    ((begin_kill s').order_manager.broker_calls
      ≡ s'.order_manager.broker_calls ++ cancel_all_orders ∷ [])
    × ((begin_kill s').broker ≡ s'.broker)
    × (after.order_manager.broker_calls ≡ during.order_manager.broker_calls)
    × (after.broker ≡ during.broker)
kill_switch_cancels_nothing_example =
    kill_switch_cancels_nothing script before rest_of_day live refl
