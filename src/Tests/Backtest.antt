-- ===== src/Tests/Backtest.antt =====
-- backtest/engine.py at concrete inputs.
use binbot.Base.{
  ℕ, ◌*◌, ◌≡◌, refl, true, false, none, List, [], ◌∷◌, ℤ, pos, arith, length, map, ◌==◌,
  if◌then◌else◌, String_discrete, ◌+ℤ◌, ◌-ℤ◌, ◌*ℤ◌,
}
use binbot.Float.Fixed.{fixed_math, fixed, units}
use binbot.Dict.{get, put, remove}
use binbot.Core.Enums.{buy, market, day}
use binbot.Core.Events.{BarEvent, SignalEvent, EventType, date}
use binbot.Core.EventBus.{Handler, publish}
use binbot.Execution.OrderManager.{submit, consume, handle_broker_event, handle_found}
use binbot.Execution.Orders.{apply_event}
use binbot.Execution.Slippage.{record_with, record_fill}
use binbot.Risk.CircuitBreaker.{nothing, update, drawdown_pct, trip, reset_session}
use binbot.Risk.RateLimiter.{try_acquire, drop_old}
use binbot.Risk.Margin.{check_margin, check_against}
use binbot.Risk.Engine.{
  check_order, checks, signed_quantity, update_position, update_market_state,
  set_contract_multiplier,
}
use binbot.Recovery.{update_positions}
use binbot.Backtest.Fills.{
  Account, Costs, fill_quantity, apply_fill, current_trade, entry_price_after, trades_after,
}
use binbot.Backtest.Impact.{
  MarketImpactParams, compute_fill_price, sqrt_market_impact_bps, realized_vol_pct,
}
use binbot.Backtest.Simulator.{
  update_history, resolve_bar, place_order, resolve, resolve_all, process_bar,
}
use binbot.Backtest.Engine.{
  BacktestEngine, Outside, sorted_bars, run_bars, run, step, simulate, settle, drain, on_signals,
  on_signal, submit_if, gross_exposure, roll_session,
}
use binbot.Backtest.Engine.Causality.{run_bars-IsCausal}
use binbot.Tests.Engine.{engine}

abbrev signal : SignalEvent ℤ
signal = record {
  ts = 0;
  symbol = "BTCUSDT";
  strategy_id = "scanner";
  side = buy;
  strength = units 1;
  target_quantity = pos 5;
  order_type = market;
  limit_price = none;
  time_in_force = day;
  correlation_id = "c1";
  oca_group = none;
}

abbrev bar_at : ℕ → BarEvent ℤ
bar_at minute = record {
  ts = minute * 60000000;
  symbol = "BTCUSDT";
  timeframe_s = 60;
  open_price = units 100;
  high = units 105;
  low = units 95;
  close = units 100;
  volume = units 50;
  vwap = units 100;
}

abbrev no_handlers : EventType → List (Handler (Unit {0}) ℤ)
no_handlers t = []

abbrev account : Account ℤ
account = record {
  equity = units 10000;
  positions = [];
  avg_entry_price = [];
  open_trades = [];
  trades = [];
  fills = [];
}

abbrev start : BacktestEngine ℤ
start = record {
  risk_engine = record engine { positions = [] };
  broker = record {
    account = account;
    pending_orders = [];
    last_bar = [];
    volume_history = [];
    return_history = [];
  };
  contract_multipliers = [];
  order_manager = record {
    broker_calls = [];
    event_bus = record {
      queue = [];
      queue_maxsize = 0;
      subscribers = no_handlers;
      global_subscribers = [];
      running = true;
      published_count = 0;
      dropped_count = 0;
    };
    slippage_tracker = record { records = [] };
    orders = [];
    uuids_drawn = 0;
  };
  last_price = [];
  broker_events = [];
  current_session_date = 0;
  equity_curve = [];
  equity_timestamps = [];
  halted = false;
  halt_reason = nothing;
  signals_seen = 0;
}

abbrev outside : Outside ℤ
outside = record { uuid = λ n. "o1"; monotonic = λ n. units 9; now = λ n. 7 }

abbrev costs : Costs ℤ
costs = record {
  contract_multipliers = [];
  commission_per_contract = units 0;
  max_participation_rate = pos 100;
}

abbrev impact : MarketImpactParams ℤ
impact = record { impact_coefficient = units 1; spread_capture_fraction = pos 500 }

-- A strategy that buys on its first bar, one that buys on its second, and one that never does.
abbrev buys_on : ℕ → List (BarEvent ℤ) → List (SignalEvent ℤ)
buys_on n past = if length past == n then signal ∷ [] else []

abbrev never : List (BarEvent ℤ) → List (SignalEvent ℤ)
never past = []

run_bars-IsCausal_example :
    (run_bars impact costs outside (buys_on 2) [] (bar_at 1 ∷ bar_at 2 ∷ []) start).1.broker.account
    ≡ (run_bars impact costs outside never [] (bar_at 1 ∷ bar_at 2 ∷ []) start).1.broker.account
run_bars-IsCausal_example =
    run_bars-IsCausal impact costs outside (buys_on 2) never (bar_at 1 ∷ []) [] (bar_at 2) start
      (λ past h. ground (arith, h))

filled_next_bar :
    map
      (λ e. e.ts)
      (run impact costs outside (buys_on 1) (bar_at 2 ∷ bar_at 1 ∷ []) start).1.broker.account.fills
    ≡ 120000000 ∷ []
unfolding run run_bars sorted_bars step simulate settle drain on_signals on_signal submit_if
    gross_exposure roll_session get put remove process_bar update_history resolve_bar date
    reset_session update drawdown_pct trip check_order checks try_acquire drop_old check_margin
    check_against signed_quantity update_position update_market_state set_contract_multiplier
    update_positions consume handle_broker_event handle_found apply_event record_with record_fill
    submit place_order publish resolve resolve_all fill_quantity apply_fill current_trade
    entry_price_after trades_after compute_fill_price sqrt_market_impact_bps realized_vol_pct
    String_discrete ◌+ℤ◌ ◌-ℤ◌ ◌*ℤ◌
filled_next_bar = refl
