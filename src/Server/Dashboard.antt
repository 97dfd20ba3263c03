-- ===== src/Server/Dashboard.antt =====
-- server/dashboard_bridge.py: the state of the bridge, its audit lines and the commands that it takes. A client is the
-- name of its connection; whether a send to it returns comes in as an argument. What the bridge does to the
-- world is recorded in order. An f-string is a constructor with its values; the metadata of a signal is left out.
pub mod Clients
pub mod Charts
pub mod Events
pub mod Kpis
pub mod Control
pub mod Recent
pub mod Runs
use binbot.Base.{
  ℕ, zero, suc, ◌+◌, ◌/◌, Bool, true, false, not, Option, none, some, String, List, [], ◌∷◌, ◌++◌,
  ℤ, map, filter, keep_last, member, str_eq, Result, ok, err, call_failed, if◌then◌else◌, ◌||◌,
  Error,
}
use binbot.Dict.{Dict, get, put}
use binbot.Core.Enums.{OrderSide}
use binbot.Core.Events.{DateTime}
use binbot.Execution.TradeTracker.{ClosedTrade, TradeTracker}
use binbot.Execution.Binance.Account.{Candle}

pub data AuditText (F : Type 0) : Type 0 where
  bad_token : AuditText F
  failed_command : String → AuditText F
  generated : OrderSide → ℤ → String → AuditText F
  filled_at : OrderSide → ℕ → String → F → AuditText F
  closed_with : String → OrderSide → F → AuditText F
  stated : String → AuditText F

pub record Audit (F : Type 0) : Type 0 where
  pub ts : ℕ
  pub level : String
  pub source : String
  pub message : AuditText F

pub record OrderPayload (F : Type 0) : Type 0 where
  pub id : String
  pub symbol : String
  pub side : OrderSide
  pub order_type : String
  pub quantity : ℕ
  pub filled_quantity : ℕ
  pub limit_price : Option F
  pub avg_fill_price : Option F
  pub status : String
  pub strategy_id : String
  pub submitted_at : ℕ
  pub updated_at : ℕ
  pub reject_reason : Option String

pub record Marker (F : Type 0) : Type 0 where
  pub symbol : String
  pub time : ℕ
  pub price : F
  pub side : OrderSide
  pub quantity : ℕ

pub record OpenTradePayload (F : Type 0) : Type 0 where
  pub symbol : String
  pub side : OrderSide
  pub quantity : ℕ
  pub entry_price : F
  pub mark_price : F
  pub unrealized_pnl : F
  pub opened_at : Option ℕ

pub record RiskPayload (F : Type 0) : Type 0 where
  pub max_daily_loss_usd : F
  pub daily_loss_used_usd : F
  pub max_position_contracts : ℕ
  pub position_contracts_used : ℕ
  pub strategy_paused : Bool
  pub circuit_breaker_halted : Bool
  pub halt_reason : Option String

-- The messages by their "type".
pub data Message (F : Type 0) : Type 0 where
  audit : Audit F → Message F
  candle : String → Candle F → Message F
  order : OrderPayload F → Message F
  execution_marker : Marker F → Message F
  closed_trade : ClosedTrade F → Message F
  open_trades : List (OpenTradePayload F) → Message F
  halted : String → Message F
  status : Bool → Message F
  kpis : F → F → F → F → Message F
  equity_point : ℕ → F → F → Message F
  risk : RiskPayload F → Message F
  closed_trades_backfill : List (ClosedTrade F) → Message F
  audit_backfill : List (Audit F) → Message F
  candles_backfill : String → List (Candle F) → Message F

-- The texts for the notifier; a closing has its label.
pub data Notice (F : Type 0) : Type 0 where
  opened : OrderSide → String → ℕ → F → Notice F
  closed : String → ClosedTrade F → Notice F
  tripped : String → Notice F

pub data Effect (F : Type 0) : Type 0 where
  sent : String → Message F → Effect F
  logged_audit : Audit F → Effect F
  logged_trade : ClosedTrade F → Effect F
  ran : String → Effect F
  notified : Notice F → Effect F

pub record DashboardBridge (F : Type 0) : Type 0 where
  pub control_token : String
  pub chart_symbol : String
  pub strategy_id : String
  pub max_daily_loss_usd : F
  pub max_position_contracts : ℕ
  -- whether there is a log of each kind, a notifier, a provider of klines
  pub has_closed_trades_log : Bool
  pub has_audit_log : Bool
  pub has_notifier : Bool
  pub has_klines : Bool
  pub trade_tracker : Option (TradeTracker F)
  pub close_reasons : Dict String
  pub closed_trades_recent : List (ClosedTrade F)
  pub audit_recent : List (Audit F)
  pub candles_by_symbol : Dict (List (Candle F))
  pub backfilled_symbols : List String
  pub clients : List String
  pub starting_equity : Option F
  pub effects : List (Effect F)

module _ {F : Type 0} where
  abbrev pub act : Effect F → DashboardBridge F → DashboardBridge F
  act e b = record b { effects = b.effects ++ e ∷ [] }

  abbrev pub act_if : Bool → Effect F → DashboardBridge F → DashboardBridge F
  act_if true e b = act e b
  act_if false e b = b

  -- The sends to the clients that are there.
  unfoldable pub send_each :
      (String → Bool) → Message F → List String → DashboardBridge F → DashboardBridge F
  send_each alive message [] b = b
  send_each alive message (client ∷ clients) b =
      send_each alive message clients (act_if (alive client) (sent client message) b)

  -- `_broadcast`: a client to which a send raises is dropped.
  unfoldable pub broadcast : (String → Bool) → Message F → DashboardBridge F → DashboardBridge F
  unfolding send_each
  broadcast alive message b =
      let b' = send_each alive message b.clients b in
      record b' { clients = filter alive b'.clients }

  unfoldable pub broadcast_all :
      (String → Bool) → List (Message F) → DashboardBridge F → DashboardBridge F
  unfolding broadcast
  broadcast_all alive [] b = b
  broadcast_all alive (message ∷ messages) b =
      broadcast_all alive messages (broadcast alive message b)

  -- `push_audit`, which keeps the last 5000 lines.
  unfoldable pub push_audit :
      DateTime
      → (String → Bool)
      → String
      → String
      → AuditText F
      → DashboardBridge F
      → DashboardBridge F
  unfolding broadcast
  push_audit now alive level source message b =
      let payload : Audit F = record {
        ts = now / 1000;
        level = level;
        source = source;
        message = message;
      } in
      broadcast alive (audit payload) (
        act_if b.has_audit_log (logged_audit payload)
          (record b { audit_recent = keep_last 5000 (b.audit_recent ++ payload ∷ []) }))

  unfoldable pub note_close_reason : String → String → DashboardBridge F → DashboardBridge F
  note_close_reason symbol reason b = record b { close_reasons = put b.close_reasons symbol reason }

-- What a client sends: text that does not parse, a value that is no object, or an object by two of its keys.
pub data Incoming : Type 0 where
  malformed : Incoming
  no_object : Incoming
  object : Option String → Option String → Incoming

-- The keys of `_commands`.
abbrev pub commands : List String
commands = "pause" ∷ "resume" ∷ "flatten" ∷ "kill_switch" ∷ "reset_kill_switch" ∷ []

-- `not self._control_token or token != self._control_token`
abbrev pub is_rejected : String → Option String → Bool
is_rejected control_token none = true
is_rejected control_token (some token) = str_eq control_token "" || not (str_eq token control_token)

module _ {F : Type 0} where
  -- The dispatch of a command; `returns` says whether its handler does.
  unfoldable pub run_command :
      DateTime
      → (String → Bool)
      → (String → Bool)
      → Option String
      → DashboardBridge F
      → DashboardBridge F
  unfolding push_audit
  run_command now alive returns none b = b
  run_command now alive returns (some command) b =
      let b' = act (ran command) b in
      if member command commands
      then (if returns command
          then b'
          else push_audit now alive "error" "dashboard_bridge" (failed_command command) b')
      else b

  -- `_handle_incoming`; `get` on a value that is no object raises.
  unfoldable pub handle_incoming :
      DateTime
      → (String → Bool)
      → (String → Bool)
      → Incoming
      → DashboardBridge F
      → Result (Unit {0}) × DashboardBridge F
  unfolding run_command
  handle_incoming now alive returns malformed b = (ok tt, b)
  handle_incoming now alive returns no_object b = (err call_failed, b)
  handle_incoming now alive returns (object token command) b =
      if is_rejected b.control_token token
      then (ok tt, push_audit now alive "error" "dashboard_bridge" bad_token b)
      else (ok tt, run_command now alive returns command b)
