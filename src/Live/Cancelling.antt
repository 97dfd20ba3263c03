-- ===== src/Live/Cancelling.antt =====
-- What `cancel_all` does in a run of scripts/run_live_binance_scanner.py, whose broker starts with no symbols.
use binbot.Base.{◌≡◌, refl, ap, ◌∙◌, List, [], ◌∷◌, ◌++◌, Result, ok, err}
use binbot.Float.{Float, FloatMath}
use binbot.Core.Events.{DateTime}
use binbot.Execution.Orders.{cancel_all_orders}
use binbot.Execution.Binance.{BinanceFuturesBroker}
use binbot.Execution.Binance.Account.{PositionInformation, get_positions}
use binbot.Execution.OrderManager.{cancel_all}
use binbot.Recovery.{persist, update_positions}
use binbot.Risk.CircuitBreaker.{update}
use binbot.Live.{LiveScanner, set_risk_engine}
use binbot.Live.Signals.{account_of, begin_signal, ready_signal, submit_signal}
use binbot.Live.Operator.{
  cancel_everything, reset_kill_switch, begin_kill, finish_kill, engage_kill_switch,
}
use binbot.Live.Monitor.{monitor_with, monitor_update, set_breaker}
use binbot.Live.Turns.{
  Turn, ticking, checking, readying, submitting, closing, updating, rolling, persisting, pausing,
  resuming, kill_begins, kill_ends, resetting, Script, turn, run, core-on_tick,
}
use binbot.Live.Stranded.{
  IsStranded, IsStranded-after_update, IsStranded-note_new_day, IsStranded-submit_order,
  IsStranded-submit_flight, IsStranded-ready_flight, IsStranded-begin_with,
  IsStranded-cancel_everything,
}

module _ {W F : Type 0} ⦃f : Float F⦄ ⦃m : FloatMath F⦄ (x : Script F) where
  IsStranded-monitor_with :
      (now : DateTime) (equity : Result F) (positions : Result (List (PositionInformation F)))
      (s : LiveScanner W F)
      → IsStranded s
      → IsStranded (monitor_with now equity positions s)
  unfolding monitor_with
  IsStranded-monitor_with now (err e) positions s h = h
  IsStranded-monitor_with now (ok equity) (err e) s h = h
  IsStranded-monitor_with now (ok equity) (ok positions) s h =
      let e = update_positions (get_positions positions s.broker) s.service.risk_engine in
      let (tripped, b) = update equity now e.circuit_breaker in
      IsStranded-after_update tripped (set_breaker b (set_risk_engine e s)) h

  IsStranded-reset_kill_switch :
      (equity : Result F) (now : DateTime) (s : LiveScanner W F)
      → IsStranded s
      → IsStranded (reset_kill_switch equity now s).1
  unfolding reset_kill_switch persist
  IsStranded-reset_kill_switch (err e) now s h = h
  IsStranded-reset_kill_switch (ok equity) now s h = h

  IsStranded-finish_kill : (s : LiveScanner W F) → IsStranded s → IsStranded (finish_kill s)
  unfolding finish_kill persist
  IsStranded-finish_kill s h = h

  broker-begin_kill : (s : LiveScanner W F) → IsStranded s → (begin_kill s).broker ≡ s.broker
  unfolding begin_kill cancel_everything
  broker-begin_kill s h = IsStranded-cancel_everything s h

  IsStranded-turn : (t : Turn F) (s : LiveScanner W F) → IsStranded s → IsStranded (turn x t s)
  unfolding turn begin_signal ready_signal submit_signal monitor_update persist
  IsStranded-turn (ticking tick) s h = ap (λ k. k.2.symbols) (core-on_tick x.settings tick s) ∙ h
  IsStranded-turn (checking r event) s h =
      IsStranded-begin_with r.monotonic event s.flight (account_of r s) s h
  IsStranded-turn (readying answers) s h = IsStranded-ready_flight x.settings answers s.flight s h
  IsStranded-turn (submitting now answer) s h = IsStranded-submit_flight x now answer s.flight s h
  IsStranded-turn (closing now answer event price) s h =
      IsStranded-submit_order x now answer event price s h
  IsStranded-turn (updating r) s h = IsStranded-monitor_with r.now r.equity r.positions s h
  IsStranded-turn rolling s h = IsStranded-note_new_day s h
  IsStranded-turn persisting s h = h
  IsStranded-turn pausing s h = h
  IsStranded-turn resuming s h = h
  IsStranded-turn kill_begins s h =
      ap (λ (b : BinanceFuturesBroker F). b.symbols) (broker-begin_kill s h) ∙ h
  IsStranded-turn kill_ends s h = IsStranded-finish_kill s h
  IsStranded-turn (resetting equity now) s h = IsStranded-reset_kill_switch equity now s h

  IsStranded-run :
      (turns : List (Turn F)) (s : LiveScanner W F) → IsStranded s → IsStranded (run x turns s)
  unfolding run
  IsStranded-run [] s h = h
  IsStranded-run (t ∷ turns) s h = IsStranded-run turns (turn x t s) (IsStranded-turn t s h)

  -- A script whose broker starts without symbols, as this one's does, asks the exchange to cancel nothing when the kill
  -- switch is engaged after any run, whatever orders the run has placed, and whatever the other tasks do meanwhile: the
  -- order manager has the broker cancel all, and the broker is left as it was; from the await on, the switch makes no
  -- call of the order manager and leaves the broker as the other tasks have left it.
  pub kill_switch_cancels_nothing :
      (turns meanwhile : List (Turn F)) (s : LiveScanner W F)
      → s.broker.symbols ≡ []
      → let s' = run x turns s in
        let during = run x meanwhile (begin_kill s') in
        let after = engage_kill_switch (run x meanwhile) s' in
        ((begin_kill s').order_manager.broker_calls
          ≡ s'.order_manager.broker_calls ++ cancel_all_orders ∷ [])
        × ((begin_kill s').broker ≡ s'.broker)
        × (after.order_manager.broker_calls ≡ during.order_manager.broker_calls)
        × (after.broker ≡ during.broker)
  unfolding engage_kill_switch begin_kill finish_kill cancel_everything cancel_all persist
  kill_switch_cancels_nothing turns meanwhile s h =
      (refl, broker-begin_kill (run x turns s) (IsStranded-run turns s h), refl, refl)
