-- ===== src/Tests/Engine.antt =====
-- risk/risk_engine.py and risk/margin.py at concrete inputs.
use binbot.Base.{
  ◌≡◌, ◌↔◌, true, false, none, [], ◌∷◌, arith, ℤ, pos, refl, String_discrete, ◌+ℤ◌, ◌-ℤ◌, ◌*ℤ◌,
}
use binbot.Float.Fixed.{fixed, units}
use binbot.Dict.{get}
use binbot.Core.Enums.{buy, market, day}
use binbot.Core.Events.{SignalEvent}
use binbot.Risk.CircuitBreaker.{nothing}
use binbot.Risk.RateLimiter.{try_acquire, drop_old}
use binbot.Risk.Margin.{MarginRequirement, check_margin}
use binbot.Risk.Engine.{
  RiskEngine, Account, check_order, update_position, signed_quantity, current_position,
}
use binbot.Risk.Engine.Gate.{Admissible, passes_iff_admissible}
use binbot.Risk.Engine.Limits.{WithinLimit, filled_position, fill_keeps_limit}

abbrev pub signal : SignalEvent ℤ
signal = record {
  ts = 0;
  symbol = "BTCUSDT";
  strategy_id = "scanner";
  side = buy;
  strength = units 1;
  target_quantity = pos 5;
  order_type = market;
  limit_price = none;
  time_in_force = day;
  correlation_id = "c1";
  oca_group = none;
}

abbrev account : Account ℤ
account = record {
  account_equity = units 10000;
  gross_exposure_usd = units 0;
  current_initial_margin_used = units 0;
  current_maintenance_margin_used = units 0;
}

abbrev requirement : MarginRequirement ℤ
requirement = record {
  symbol = "BTCUSDT";
  initial_margin_per_contract = units 100;
  maintenance_margin_per_contract = units 80;
}

abbrev pub engine : RiskEngine ℤ
engine = record {
  max_contracts_per_order = pos 10;
  max_contracts_per_symbol = pos 12;
  max_position_notional_usd = units 5000;
  max_gross_leverage = units 3;
  circuit_breaker = record {
    max_daily_drawdown_pct = units 3;
    starting_equity = units 10000;
    session_date = 1;
    peak_equity = units 10000;
    halted = false;
    halt_reason = nothing;
    auto_reset_pending = false;
  };
  margin_calculator = record {
    schedule = ("BTCUSDT", requirement) ∷ [];
    initial_margin_buffer_pct = units 25;
    maintenance_margin_buffer_pct = units 10;
  };
  rate_limiter = record {
    max_per_second = units 5;
    max_per_minute = pos 60;
    second_window = [];
    minute_window = [];
  };
  positions = ("BTCUSDT", pos 7) ∷ [];
  prices = ("BTCUSDT", units 100) ∷ [];
  contract_multipliers = [];
}

abbrev halted_engine : RiskEngine ℤ
halted_engine = record engine { circuit_breaker = record engine.circuit_breaker { halted = true } }

engine_passes : (check_order (units 9) signal account engine).0.passed ≡ true
unfolding check_order try_acquire drop_old get check_margin signed_quantity String_discrete ◌+ℤ◌
    ◌-ℤ◌ ◌*ℤ◌
engine_passes = refl

passes_iff_admissible_example :
    ((check_order (units 9) signal account engine).0.passed ≡ true)
    ↔ Admissible (units 9) signal account engine
passes_iff_admissible_example = passes_iff_admissible (units 9) signal account engine

engine-WithinLimit : WithinLimit engine
unfolding get
engine-WithinLimit = record { at_symbol = λ j. ground arith }

fill_keeps_limit_example : WithinLimit (
    update_position "BTCUSDT"
      (filled_position (current_position engine "BTCUSDT") 3 buy)
      (check_order (units 9) signal account engine).1)
fill_keeps_limit_example =
    fill_keeps_limit (units 9) signal account engine 3 5 refl (omega arith) engine-WithinLimit
      engine_passes
