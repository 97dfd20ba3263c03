-- ===== src/Tests/Bridge.antt =====
-- server/dashboard_bridge.py at concrete inputs.
use binbot.Base.{
  ◌≡◌, refl, Bool, true, false, String, List, [], ◌∷◌, ◌++◌, none, some, ℤ, arith, String_discrete,
}
use binbot.Float.Fixed.{fixed, units}
use binbot.Dict.{get}
use binbot.Core.Events.{DateTime, BarEvent}
use binbot.Server.Dashboard.{DashboardBridge, Incoming, object, malformed}
use binbot.Server.Dashboard.Events.{close_label}
use binbot.Server.Dashboard.Control.{
  Arrival, listen, commands_run, authorised, all_authorised, commands_run-listen,
}
use binbot.Server.Dashboard.Recent.{IsBounded}
use binbot.Server.Dashboard.Runs.{Operation, bar_event, client_message, run, run-IsBounded}

abbrev bridge : DashboardBridge ℤ
bridge = record {
  control_token = "secret";
  chart_symbol = "BTCUSDT";
  strategy_id = "scanner";
  max_daily_loss_usd = units 100;
  max_position_contracts = 5;
  has_closed_trades_log = true;
  has_audit_log = true;
  has_notifier = false;
  has_klines = true;
  trade_tracker = none;
  close_reasons = [];
  closed_trades_recent = [];
  audit_recent = [];
  candles_by_symbol = [];
  backfilled_symbols = [];
  clients = "c1" ∷ [];
  starting_equity = none;
  effects = [];
}

abbrev arrival : Incoming → Arrival
arrival incoming = record {
  now = 1000;
  alive = λ c. true;
  returns = λ c. false;
  incoming = incoming;
}

abbrev arrivals : List Arrival
arrivals =
    arrival (object (some "wrong") (some "flatten"))
    ∷ arrival (object (some "secret") (some "pause"))
    ∷ arrival malformed
    ∷ arrival (object (some "secret") (some "reboot"))
    ∷ []

only_pause : all_authorised "secret" arrivals ≡ "pause" ∷ []
unfolding all_authorised authorised String_discrete
only_pause = refl

stopped_out : close_label "STOP-LOSS: -5%" ≡ "STOP-LOSS HIT"
stopped_out = refl

commands_run-listen_example :
    commands_run (listen arrivals bridge).effects
    ≡ commands_run bridge.effects ++ all_authorised "secret" arrivals
commands_run-listen_example = commands_run-listen arrivals bridge

abbrev bar : BarEvent ℤ
bar = record {
  ts = 60000000;
  symbol = "BTCUSDT";
  timeframe_s = 60;
  open_price = units 100;
  high = units 101;
  low = units 99;
  close = units 100;
  volume = units 0;
  vwap = units 100;
}

abbrev operations : List (DateTime × (String → Bool) × Operation ℤ)
operations =
    (1000, (λ c. true), bar_event none bar)
    ∷ (2000, (λ c. false), client_message (λ c. true) (object (some "secret") (some "kill_switch")))
    ∷ []

run-IsBounded_example : IsBounded (run (λ s. units 1) operations bridge)
unfolding get
run-IsBounded_example =
    run-IsBounded (λ s. units 1) operations bridge (omega arith, omega arith, λ s. tt)
