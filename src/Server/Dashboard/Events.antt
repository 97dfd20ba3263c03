-- ===== src/Server/Dashboard/Events.antt =====
-- The events that server/dashboard_bridge.py mirrors: bars, orders and their fills, signals and halts.
use Prim.Native.Char.{code}
use binbot.Base.{
  ◌/◌, ◌==◌, ◌&&◌, Bool, true, false, not, Option, none, some, String, [], ◌∷◌, ◌++◌, keep_last,
  str_eq, Result, ok, err, if◌then◌else◌,
}
use binbot.Float.{Float, ◌≤F◌, ◌==F◌, lit}
use binbot.Dict.{get_or, remove, contains}
use binbot.Core.Enums.{
  OrderType, market, limit, stop, stop_limit, market_on_close, OrderStatus, pending_new, submitted,
  acknowledged, partially_filled, filled, cancel_pending, cancelled, rejected, expired,
}
use binbot.Core.Events.{DateTime, SignalEvent, RiskHaltEvent, ExecutionEvent}
use binbot.Execution.Orders.{ManagedOrder, BrokerEvent, acked, refused, executed}
use binbot.Execution.TradeTracker.{ClosedTrade, TradeTracker, on_execution}
use binbot.Server.Dashboard.{
  DashboardBridge, generated, filled_at, closed_with, stated, OrderPayload, Marker, order,
  execution_marker, closed_trade, halted, opened, closed, tripped, logged_trade, notified, act,
  act_if, broadcast, push_audit,
}

abbrev pub order_status_to_dashboard : OrderStatus → String
order_status_to_dashboard pending_new = "WORKING"
order_status_to_dashboard submitted = "WORKING"
order_status_to_dashboard acknowledged = "WORKING"
order_status_to_dashboard partially_filled = "PARTIAL"
order_status_to_dashboard filled = "FILLED"
order_status_to_dashboard cancel_pending = "WORKING"
order_status_to_dashboard cancelled = "CANCELED"
order_status_to_dashboard rejected = "REJECTED"
order_status_to_dashboard expired = "REJECTED"

abbrev pub order_type_to_dashboard : OrderType → String
order_type_to_dashboard market = "MKT"
order_type_to_dashboard limit = "LMT"
order_type_to_dashboard stop = "STP"
order_type_to_dashboard stop_limit = "STP"
order_type_to_dashboard market_on_close = "MKT"

-- `text.startswith(prefix)`
abbrev pub starts_with : String → String → Bool
starts_with String.[] text = true
starts_with (String.◌∷◌ c prefix) String.[] = false
starts_with (String.◌∷◌ c prefix) (String.◌∷◌ d text) = code c == code d && starts_with prefix text

abbrev pub close_label : String → String
close_label reason =
    if starts_with "STOP-LOSS" reason
    then "STOP-LOSS HIT"
    else if starts_with "PROFIT-CAP" reason
    then "PROFIT CAP HIT"
    else if starts_with "TRAILING-PROFIT" reason
    then "TRAILING-PROFIT HIT"
    else "Position closed"

-- `x or None`, for a text.
abbrev pub text_or_none : String → Option String
text_or_none text = if str_eq text "" then none else some text

module _ {F : Type 0} where
  unfoldable pub on_signal_event :
      DateTime → (String → Bool) → SignalEvent F → DashboardBridge F → DashboardBridge F
  unfolding push_audit
  on_signal_event now alive event b =
      push_audit now alive "signal" event.strategy_id
        (generated event.side event.target_quantity event.symbol) b

  unfoldable pub on_halt_event :
      DateTime → (String → Bool) → RiskHaltEvent → DashboardBridge F → DashboardBridge F
  unfolding push_audit broadcast
  on_halt_event now alive event b =
      let b' =
        push_audit now alive "error" event.triggered_by (stated event.reason)
          (broadcast alive (halted event.reason) b) in
      act_if b'.has_notifier (notified (tripped event.reason)) b'

module _ {F : Type 0} ⦃f : Float F⦄ where
  abbrev pub order_payload : ManagedOrder F → DashboardBridge F → OrderPayload F
  order_payload managed b = record {
    id = managed.order_id;
    symbol = managed.symbol;
    side = managed.side;
    order_type = order_type_to_dashboard managed.order_type;
    quantity = managed.quantity;
    filled_quantity = managed.filled_quantity;
    limit_price = managed.limit_price;
    avg_fill_price = if managed.avg_fill_price ==F lit 0 then none else some managed.avg_fill_price;
    status = order_status_to_dashboard managed.status;
    strategy_id = b.strategy_id;
    submitted_at = managed.created_ts / 1000;
    updated_at = managed.updated_ts / 1000;
    reject_reason = text_or_none managed.reject_reason;
  }

  -- What follows a closed trade, up to the notifier.
  unfoldable pub close_round_trip :
      DateTime → (String → Bool) → ClosedTrade F → DashboardBridge F → DashboardBridge F
  unfolding push_audit broadcast
  close_round_trip now alive t b =
      let b1 =
        act_if b.has_closed_trades_log (logged_trade t)
          (record b { closed_trades_recent = keep_last 2000 (b.closed_trades_recent ++ t ∷ []) }) in
      push_audit now alive (if lit 0 ≤F t.pnl then "fill" else "risk") "trade_tracker"
        (closed_with t.symbol t.side t.pnl) (broadcast alive (closed_trade t) b1)

  unfoldable pub notify_close : ClosedTrade F → DashboardBridge F → DashboardBridge F
  notify_close t b =
      if b.has_notifier
      then (let reason = get_or b.close_reasons t.symbol "" in
          act (notified (closed (close_label reason) t))
            (record b { close_reasons = remove b.close_reasons t.symbol }))
      else b

  -- What the tracker found in the fill: an exception, an opened or a closed trade, or neither.
  unfoldable pub after_tracking :
      DateTime
      → (String → Bool)
      → ExecutionEvent F
      → Bool
      → Result (Option (ClosedTrade F)) × TradeTracker F
      → DashboardBridge F
      → Result (Unit {0}) × DashboardBridge F
  unfolding close_round_trip notify_close
  after_tracking now alive event was_open (err e, t) b =
      (err e, record b { trade_tracker = some t })
  after_tracking now alive event was_open (ok trade, t) b =
      let b1 = record b { trade_tracker = some t } in
      let is_new = not was_open && contains t.open_trades event.symbol in
      let b2 =
        act_if (is_new && b1.has_notifier)
          (notified (opened event.side event.symbol event.fill_quantity event.fill_price)) b1 in
      (
        ok tt,
        elim trade [
          | none ↦ b2
          | some closed_one ↦ notify_close closed_one (close_round_trip now alive closed_one b2)
        ],
      )

  unfoldable pub track :
      DateTime
      → (String → Bool)
      → (String → F)
      → ExecutionEvent F
      → Option (TradeTracker F)
      → DashboardBridge F
      → Result (Unit {0}) × DashboardBridge F
  unfolding after_tracking
  track now alive multiplier event none b = (ok tt, b)
  track now alive multiplier event (some t) b =
      after_tracking now alive event (contains t.open_trades event.symbol)
        (on_execution multiplier event t) b

  unfoldable pub on_fill_event :
      DateTime
      → (String → Bool)
      → (String → F)
      → ExecutionEvent F
      → DashboardBridge F
      → Result (Unit {0}) × DashboardBridge F
  unfolding track push_audit broadcast
  on_fill_event now alive multiplier event b =
      let marker : Marker F = record {
        symbol = event.symbol;
        time = event.ts / 1000000;
        price = event.fill_price;
        side = event.side;
        quantity = event.fill_quantity;
      } in
      let b' =
        push_audit now alive "fill" "order_manager"
          (filled_at event.side event.fill_quantity event.symbol event.fill_price)
          (broadcast alive (execution_marker marker) b) in
      track now alive multiplier event b'.trade_tracker b'

  -- `_handle_order_event`, by the order that the order manager has of the event's id.
  unfoldable pub handle_order_event :
      DateTime
      → (String → Bool)
      → (String → F)
      → Option (ManagedOrder F)
      → BrokerEvent F
      → DashboardBridge F
      → Result (Unit {0}) × DashboardBridge F
  unfolding on_fill_event broadcast
  handle_order_event now alive multiplier none event b = (ok tt, b)
  handle_order_event now alive multiplier (some managed) (acked e) b =
      (ok tt, broadcast alive (order (order_payload managed b)) b)
  handle_order_event now alive multiplier (some managed) (refused e) b =
      (ok tt, broadcast alive (order (order_payload managed b)) b)
  handle_order_event now alive multiplier (some managed) (executed e) b =
      on_fill_event now alive multiplier e (broadcast alive (order (order_payload managed b)) b)
