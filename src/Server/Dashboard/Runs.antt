-- ===== src/Server/Dashboard/Runs.antt =====
-- The bridge over any sequence of what reaches it: events, commands of clients, reasons of closings.
use binbot.Base.{
  Bool, not, Option, none, some, String, List, [], ◌∷◌, ◌++◌, ◌/◌, ◌&&◌, keep_last,
  length-keep_last-le, if-cases, if◌then◌else◌, map, member, Result, ok, err,
}
use binbot.Float.{Float, ◌≤F◌, lit}
use binbot.Dict.{get_or, remove, contains}
use binbot.Core.Events.{DateTime, BarEvent, SignalEvent, RiskHaltEvent, ExecutionEvent}
use binbot.Execution.Orders.{ManagedOrder, BrokerEvent, acked, refused, executed}
use binbot.Execution.TradeTracker.{ClosedTrade, TradeTracker, on_execution}
use binbot.Execution.Binance.Account.{Candle}
use binbot.Server.Dashboard.{
  DashboardBridge, generated, filled_at, closed_with, stated, bad_token, failed_command, Marker,
  order, execution_marker, closed_trade, halted, opened, closed, tripped, ran, logged_trade,
  notified, act, act_if, open_trades, broadcast, broadcast_all, push_audit, note_close_reason,
  Incoming, malformed, no_object, object, is_rejected, commands, run_command, handle_incoming,
}
use binbot.Server.Dashboard.Charts.{on_bar_event}
use binbot.Server.Dashboard.Events.{
  on_signal_event, on_halt_event, order_payload, close_label, close_round_trip, notify_close,
  after_tracking, track, on_fill_event, handle_order_event,
}
use binbot.Server.Dashboard.Kpis.{
  push_details, open_starts, open_trade_payload, first_equity, kpi_messages, Readings, kpi_turn,
  push_open_trades, push_status_and_kpis,
}
use binbot.Execution.Trailing.{PositionDetail}
use binbot.Server.Dashboard.Recent.{
  IsBounded, act_if-IsBounded, broadcast-IsBounded, broadcast_all-IsBounded, push_audit-IsBounded,
  on_bar_event-IsBounded,
}

-- What reaches the bridge, with what its environment answers.
pub data Operation (F : Type 0) : Type 0 where
  bar_event : Option (List (Candle F)) → BarEvent F → Operation F
  signal_event : SignalEvent F → Operation F
  halt_event : RiskHaltEvent → Operation F
  order_event : Option (ManagedOrder F) → BrokerEvent F → Operation F
  close_reason : String → String → Operation F
  client_message : (String → Bool) → Incoming → Operation F
  kpi_push : Readings F → Operation F

module _ {F : Type 0} where
  signal_event-IsBounded :
      (now : DateTime) (alive : String → Bool) (event : SignalEvent F) (b : DashboardBridge F)
      → IsBounded b
      → IsBounded (on_signal_event now alive event b)
  unfolding on_signal_event
  signal_event-IsBounded now alive event b h =
      push_audit-IsBounded now alive "signal" event.strategy_id
        (generated event.side event.target_quantity event.symbol) b h

  halt_event-IsBounded :
      (now : DateTime) (alive : String → Bool) (event : RiskHaltEvent) (b : DashboardBridge F)
      → IsBounded b
      → IsBounded (on_halt_event now alive event b)
  unfolding on_halt_event
  halt_event-IsBounded now alive event b h =
      let b1 = broadcast alive (halted event.reason) b in
      let b2 = push_audit now alive "error" event.triggered_by (stated event.reason) b1 in
      act_if-IsBounded b2.has_notifier (notified (tripped event.reason)) b2 (
        push_audit-IsBounded now alive "error" event.triggered_by (stated event.reason) b1
          (broadcast-IsBounded alive (halted event.reason) b h))

  run_command-IsBounded :
      (now : DateTime) (alive returns : String → Bool) (command : Option String)
      (b : DashboardBridge F)
      → IsBounded b
      → IsBounded (run_command now alive returns command b)
  unfolding run_command
  run_command-IsBounded now alive returns none b h = h
  run_command-IsBounded now alive returns (some command) b h =
      let b1 = act (ran command) b in
      let b2 = push_audit now alive "error" "dashboard_bridge" (failed_command command) b1 in
      let P = λ (x : DashboardBridge F). IsBounded x in
      if-cases P (member command commands) (if returns command then b1 else b2) b
        (λ t.
          if-cases P (returns command) b1 b2 (λ s. h)
            (λ f.
              push_audit-IsBounded now alive "error" "dashboard_bridge" (failed_command command) b1
                h))
        (λ f. h)

  handle_incoming-IsBounded :
      (now : DateTime) (alive returns : String → Bool) (incoming : Incoming) (b : DashboardBridge F)
      → IsBounded b
      → IsBounded (handle_incoming now alive returns incoming b).1
  unfolding handle_incoming
  handle_incoming-IsBounded now alive returns malformed b h = h
  handle_incoming-IsBounded now alive returns no_object b h = h
  handle_incoming-IsBounded now alive returns (object token command) b h =
      if-cases (λ (x : Result (Unit {0}) × DashboardBridge F). IsBounded x.1)
        (is_rejected b.control_token token)
        (ok tt, push_audit now alive "error" "dashboard_bridge" bad_token b)
        (ok tt, run_command now alive returns command b)
        (λ t. push_audit-IsBounded now alive "error" "dashboard_bridge" bad_token b h)
        (λ f. run_command-IsBounded now alive returns command b h)

module _ {F : Type 0} ⦃f : Float F⦄ where
  close_round_trip-IsBounded :
      (now : DateTime) (alive : String → Bool) (t : ClosedTrade F) (b : DashboardBridge F)
      → IsBounded b
      → IsBounded (close_round_trip now alive t b)
  unfolding close_round_trip
  close_round_trip-IsBounded now alive t b h =
      let b0 = record b {
        closed_trades_recent = keep_last 2000 (b.closed_trades_recent ++ t ∷ []);
      } in
      let b1 = act_if b.has_closed_trades_log (logged_trade t) b0 in
      push_audit-IsBounded now alive (if lit 0 ≤F t.pnl then "fill" else "risk") "trade_tracker"
        (closed_with t.symbol t.side t.pnl) (broadcast alive (closed_trade t) b1)
        (broadcast-IsBounded alive (closed_trade t) b1 (
          act_if-IsBounded b.has_closed_trades_log (logged_trade t) b0
            (h.0, length-keep_last-le 2000 (b.closed_trades_recent ++ t ∷ []), h.2)))

  notify_close-IsBounded :
      (t : ClosedTrade F) (b : DashboardBridge F) → IsBounded b → IsBounded (notify_close t b)
  unfolding notify_close
  notify_close-IsBounded t b h =
      let reason = get_or b.close_reasons t.symbol "" in
      if-cases (λ (x : DashboardBridge F). IsBounded x) b.has_notifier
        (act (notified (closed (close_label reason) t))
          (record b { close_reasons = remove b.close_reasons t.symbol }))
        b (λ s. h) (λ g. h)

  after_tracking-IsBounded :
      (now : DateTime) (alive : String → Bool) (event : ExecutionEvent F) (was_open : Bool)
      (x : Result (Option (ClosedTrade F)) × TradeTracker F) (b : DashboardBridge F)
      → IsBounded b
      → IsBounded (after_tracking now alive event was_open x b).1
  unfolding after_tracking
  after_tracking-IsBounded now alive event was_open (err e, t) b h = h
  after_tracking-IsBounded now alive event was_open (ok none, t) b h =
      act_if-IsBounded (not was_open && contains t.open_trades event.symbol && b.has_notifier) _ _ h
  after_tracking-IsBounded now alive event was_open (ok (some trade), t) b h =
      let b1 = record b { trade_tracker = some t } in
      let is_new = not was_open && contains t.open_trades event.symbol in
      let notice = notified (opened event.side event.symbol event.fill_quantity event.fill_price) in
      let b2 = act_if (is_new && b1.has_notifier) notice b1 in
      notify_close-IsBounded trade (close_round_trip now alive trade b2) (
        close_round_trip-IsBounded now alive trade b2
          (act_if-IsBounded (is_new && b1.has_notifier) notice b1 h))

  track-IsBounded :
      (now : DateTime) (alive : String → Bool) (multiplier : String → F) (event : ExecutionEvent F)
      (o : Option (TradeTracker F)) (b : DashboardBridge F)
      → IsBounded b
      → IsBounded (track now alive multiplier event o b).1
  unfolding track
  track-IsBounded now alive multiplier event none b h = h
  track-IsBounded now alive multiplier event (some t) b h =
      after_tracking-IsBounded now alive event (contains t.open_trades event.symbol)
        (on_execution multiplier event t) b h

  on_fill_event-IsBounded :
      (now : DateTime) (alive : String → Bool) (multiplier : String → F) (event : ExecutionEvent F)
      (b : DashboardBridge F)
      → IsBounded b
      → IsBounded (on_fill_event now alive multiplier event b).1
  unfolding on_fill_event
  on_fill_event-IsBounded now alive multiplier event b h =
      let marker : Marker F = record {
        symbol = event.symbol;
        time = event.ts / 1000000;
        price = event.fill_price;
        side = event.side;
        quantity = event.fill_quantity;
      } in
      let text = filled_at event.side event.fill_quantity event.symbol event.fill_price in
      let b1 = broadcast alive (execution_marker marker) b in
      let b2 = push_audit now alive "fill" "order_manager" text b1 in
      track-IsBounded now alive multiplier event b2.trade_tracker b2 (
        push_audit-IsBounded now alive "fill" "order_manager" text b1
          (broadcast-IsBounded alive (execution_marker marker) b h))

  order_event-IsBounded :
      (now : DateTime) (alive : String → Bool) (multiplier : String → F)
      (o : Option (ManagedOrder F)) (event : BrokerEvent F) (b : DashboardBridge F)
      → IsBounded b
      → IsBounded (handle_order_event now alive multiplier o event b).1
  unfolding handle_order_event
  order_event-IsBounded now alive multiplier none event b h = h
  order_event-IsBounded now alive multiplier (some managed) (acked e) b h =
      broadcast-IsBounded alive (order (order_payload managed b)) b h
  order_event-IsBounded now alive multiplier (some managed) (refused e) b h =
      broadcast-IsBounded alive (order (order_payload managed b)) b h
  order_event-IsBounded now alive multiplier (some managed) (executed e) b h =
      on_fill_event-IsBounded now alive multiplier e
        (broadcast alive (order (order_payload managed b)) b)
        (broadcast-IsBounded alive (order (order_payload managed b)) b h)

  push_details-IsBounded :
      (alive : String → Bool) (o : Option (List (PositionDetail F))) (b : DashboardBridge F)
      → IsBounded b
      → IsBounded (push_details alive o b)
  unfolding push_details
  push_details-IsBounded alive none b h = h
  push_details-IsBounded alive (some details) b h =
      broadcast-IsBounded alive
        (open_trades (map (open_trade_payload (open_starts b.trade_tracker)) details)) b h

  kpi_turn-IsBounded :
      (now : DateTime) (alive : String → Bool) (r : Readings F) (b : DashboardBridge F)
      → IsBounded b
      → IsBounded (kpi_turn now alive r b)
  unfolding kpi_turn push_open_trades push_status_and_kpis
  kpi_turn-IsBounded now alive r b h =
      let starting = first_equity b.starting_equity r.equity in
      let b1 = record b { starting_equity = some starting } in
      let b2 = broadcast_all alive (kpi_messages now r starting b) b1 in
      push_details-IsBounded alive r.details b2
        (broadcast_all-IsBounded alive (kpi_messages now r starting b) b1 h)

module _ {F : Type 0} ⦃f : Float F⦄ (multiplier : String → F) where
  unfoldable pub step :
      DateTime → (String → Bool) → Operation F → DashboardBridge F → DashboardBridge F
  unfolding kpi_turn handle_incoming handle_order_event on_halt_event on_signal_event on_bar_event
      note_close_reason
  step now alive (bar_event answer event) b = on_bar_event alive answer event b
  step now alive (signal_event event) b = on_signal_event now alive event b
  step now alive (halt_event event) b = on_halt_event now alive event b
  step now alive (order_event o event) b = (handle_order_event now alive multiplier o event b).1
  step now alive (close_reason symbol reason) b = note_close_reason symbol reason b
  step now alive (client_message returns incoming) b =
      (handle_incoming now alive returns incoming b).1
  step now alive (kpi_push r) b = kpi_turn now alive r b

  unfoldable pub run :
      List (DateTime × (String → Bool) × Operation F) → DashboardBridge F → DashboardBridge F
  unfolding step
  run [] b = b
  run ((now, alive, op) ∷ ops) b = run ops (step now alive op b)

  step-IsBounded :
      (now : DateTime) (alive : String → Bool) (op : Operation F) (b : DashboardBridge F)
      → IsBounded b
      → IsBounded (step now alive op b)
  unfolding step note_close_reason
  step-IsBounded now alive (bar_event answer event) b h =
      on_bar_event-IsBounded alive answer event b h
  step-IsBounded now alive (signal_event event) b h = signal_event-IsBounded now alive event b h
  step-IsBounded now alive (halt_event event) b h = halt_event-IsBounded now alive event b h
  step-IsBounded now alive (order_event o event) b h =
      order_event-IsBounded now alive multiplier o event b h
  step-IsBounded now alive (close_reason symbol reason) b h = h
  step-IsBounded now alive (client_message returns incoming) b h =
      handle_incoming-IsBounded now alive returns incoming b h
  step-IsBounded now alive (kpi_push r) b h = kpi_turn-IsBounded now alive r b h

  -- Over any sequence of bars, signals, halts, order events, pushes and client messages, whatever the clients and the
  -- exchange answer, the bridge keeps at most 5000 audit lines, 2000 closed trades and 1600 candles of a symbol if it started with no more.
  pub run-IsBounded :
      (ops : List (DateTime × (String → Bool) × Operation F)) (b : DashboardBridge F)
      → IsBounded b
      → IsBounded (run ops b)
  unfolding run
  run-IsBounded [] b h = h
  run-IsBounded ((now, alive, op) ∷ ops) b h =
      run-IsBounded ops (step now alive op b) (step-IsBounded now alive op b h)
