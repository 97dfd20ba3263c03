-- ===== src/Live/Operator.antt =====
-- The operator's commands of scripts/run_live_binance_scanner.py. `flatten_all_positions` is written for a run that
-- nothing interrupts; in the runs of Turns each of its orders is a piece of its own.
use binbot.Base.{
  ℕ, Bool, not, none, String, List, [], ◌∷◌, ℤ, pos, nat_abs, ltb_ℤ, ◌==◌, length, filter, Result,
  ok, err, if◌then◌else◌, Option,
}
use binbot.Float.{Float, FloatMath, lit}
use binbot.Dict.{Dict}
use binbot.Core.Enums.{buy, sell, market, day}
use binbot.Core.Events.{DateTime, SignalEvent}
use binbot.Execution.OrderManager.{cancel_all}
use binbot.Execution.Binance.Account.{PositionInformation, get_positions}
use binbot.Execution.Binance.Sending.{cancel_all as cancel_all_at_broker}
use binbot.Recovery.{persist}
use binbot.Risk.CircuitBreaker.{force_halt, reset_session}
use binbot.Strategies.BaseStrategy.{pause, resume}
use binbot.Live.{
  LiveScanner, note, nothing_to_flatten, flattening, kill_switch_engaged, kill_switch_reset,
  set_risk_engine,
}
use binbot.Live.Signals.{Replies, submit_order}

module _ {W F : Type 0} where
  abbrev pub do_pause : LiveScanner W F → LiveScanner W F
  do_pause s = record s { strategy = pause s.strategy }

  abbrev pub do_resume : LiveScanner W F → LiveScanner W F
  do_resume s = record s { strategy = resume s.strategy }

  -- `order_manager.cancel_all`, which has the broker cancel.
  unfoldable pub cancel_everything : LiveScanner W F → LiveScanner W F
  cancel_everything s = record s {
    order_manager = cancel_all s.order_manager;
    broker = cancel_all_at_broker s.broker;
  }

  abbrev pub persist_state : LiveScanner W F → LiveScanner W F
  persist_state s = record s { service = persist s.service }

  abbrev pub force_halt_by : String → LiveScanner W F → LiveScanner W F
  force_halt_by reason s =
      set_risk_engine
        (record s.service.risk_engine {
          circuit_breaker = force_halt reason s.service.risk_engine.circuit_breaker;
        })
        s

  abbrev pub close_next :
      (LiveScanner W F → Result (Unit {0}) × LiveScanner W F)
      → Result (Unit {0}) × LiveScanner W F
      → Result (Unit {0}) × LiveScanner W F
  close_next next (err e, s) = (err e, s)
  close_next next (ok u, s) = next s

  -- `engage_kill_switch` up to the await of the cancelling, and from there on.
  unfoldable pub begin_kill : LiveScanner W F → LiveScanner W F
  unfolding cancel_everything
  begin_kill s = cancel_everything (do_pause s)

  unfoldable pub finish_kill : LiveScanner W F → LiveScanner W F
  finish_kill s =
      note kill_switch_engaged (persist_state (force_halt_by "Manual kill switch via dashboard" s))

  -- With what the other tasks do at the await.
  unfoldable pub engage_kill_switch :
      (LiveScanner W F → LiveScanner W F) → LiveScanner W F → LiveScanner W F
  unfolding begin_kill finish_kill
  engage_kill_switch meanwhile s = finish_kill (meanwhile (begin_kill s))

module _ {W F : Type 0} ⦃f : Float F⦄ where
  abbrev pub reset_breaker : F → DateTime → LiveScanner W F → LiveScanner W F
  reset_breaker equity now s =
      set_risk_engine
        (record s.service.risk_engine {
          circuit_breaker = reset_session equity none now s.service.risk_engine.circuit_breaker;
        })
        s

  unfoldable pub reset_kill_switch :
      Result F → DateTime → LiveScanner W F → Result (Unit {0}) × LiveScanner W F
  reset_kill_switch (err e) now s = (err e, s)
  reset_kill_switch (ok equity) now s =
      (ok tt, note kill_switch_reset (persist_state (do_resume (reset_breaker equity now s))))

abbrev pub is_open_position : String × ℤ → Bool
is_open_position p = not (nat_abs p.1 == 0)

module _ {F : Type 0} ⦃f : Float F⦄ where
  abbrev pub close_signal : DateTime → String → String → ℤ → SignalEvent F
  close_signal now new_id symbol qty = record {
    ts = now;
    symbol = symbol;
    strategy_id = "operator-flatten";
    side = if ltb_ℤ (pos 0) qty then sell else buy;
    strength = lit 1;
    target_quantity = pos (nat_abs qty);
    order_type = market;
    limit_price = none;
    time_in_force = day;
    correlation_id = new_id;
    oca_group = none;
  }

module _ {W F : Type 0} ⦃f : Float F⦄ ⦃m : FloatMath F⦄ (show : F → String) (uuid : ℕ → String)
    (correlation_id : ℕ → String) (latest_price : String → Option F)
    (placed : String → Option String) where
  -- The loop over the open positions, `placed` telling what each order's call raises; the first exception ends it. The correlation ids are numbered by the orders drawn.
  unfoldable pub close_each :
      Replies F → Dict ℤ → LiveScanner W F → Result (Unit {0}) × LiveScanner W F
  unfolding submit_order
  close_each r [] s = (ok tt, s)
  close_each r ((symbol, qty) ∷ positions) s =
      let event = close_signal r.now (correlation_id s.order_manager.uuids_drawn) symbol qty in
      close_next (λ s'. close_each r positions s')
        (submit_order show uuid r.now (placed symbol) event (latest_price symbol) s)

  abbrev pub flatten_open :
      Replies F → Dict ℤ → LiveScanner W F → Result (Unit {0}) × LiveScanner W F
  flatten_open r [] s = (ok tt, note nothing_to_flatten s)
  flatten_open r (p ∷ ps) s = close_each r (p ∷ ps) (note (flattening (length (p ∷ ps))) s)

  -- `flatten_all_positions` by what the exchange answers of the positions.
  unfoldable pub flatten_with :
      Replies F
      → Result (List (PositionInformation F))
      → LiveScanner W F
      → Result (Unit {0}) × LiveScanner W F
  unfolding close_each
  flatten_with r (err e) s = (err e, s)
  flatten_with r (ok positions) s =
      flatten_open r (filter is_open_position (get_positions positions s.broker)) s

  unfoldable pub flatten_all_positions :
      Replies F → LiveScanner W F → Result (Unit {0}) × LiveScanner W F
  unfolding flatten_with
  flatten_all_positions r s = flatten_with r r.positions s
