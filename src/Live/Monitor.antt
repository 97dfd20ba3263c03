-- ===== src/Live/Monitor.antt =====
-- One round of `monitor_loop` of scripts/run_live_binance_scanner.py in its pieces between awaits. It catches every
-- exception; the round is then over.
use binbot.Base.{Bool, true, false, Result, ok, err, if◌then◌else◌, List}
use binbot.Float.{Float, FloatMath}
use binbot.Core.Events.{DateTime}
use binbot.Execution.Binance.Account.{PositionInformation, get_positions}
use binbot.Recovery.{update_positions}
use binbot.Risk.CircuitBreaker.{DrawdownCircuitBreaker, update, consume_auto_reset_flag}
use binbot.Live.{LiveScanner, note, new_trading_day, new_trading_day_sent, set_risk_engine}
use binbot.Live.Operator.{cancel_everything}
use binbot.Live.Signals.{Replies}

module _ {W F : Type 0} where
  abbrev pub set_breaker : DrawdownCircuitBreaker F → LiveScanner W F → LiveScanner W F
  set_breaker b s = set_risk_engine (record s.service.risk_engine { circuit_breaker = b }) s

  -- The piece after the cancelling: the flag of a new day. The last piece is `persist_state`.
  unfoldable pub note_new_day : LiveScanner W F → LiveScanner W F
  note_new_day s =
      let (flag, b) = consume_auto_reset_flag s.service.risk_engine.circuit_breaker in
      let s' = set_breaker b s in
      if flag then note new_trading_day_sent (note new_trading_day s') else s'

  -- By what `update` of the circuit breaker returns.
  unfoldable pub after_update : Result Bool → LiveScanner W F → LiveScanner W F
  unfolding cancel_everything
  after_update (err e) s = s
  after_update (ok true) s = cancel_everything s
  after_update (ok false) s = s

module _ {W F : Type 0} ⦃f : Float F⦄ ⦃m : FloatMath F⦄ where
  unfoldable pub monitor_with :
      DateTime
      → Result F
      → Result (List (PositionInformation F))
      → LiveScanner W F
      → LiveScanner W F
  unfolding after_update
  monitor_with now (err e) positions s = s
  monitor_with now (ok equity) (err e) s = s
  monitor_with now (ok equity) (ok positions) s =
      let e = update_positions (get_positions positions s.broker) s.service.risk_engine in
      let (tripped, b) = update equity now e.circuit_breaker in
      after_update tripped (set_breaker b (set_risk_engine e s))

  -- The piece from the answers on to the cancelling.
  unfoldable pub monitor_update : Replies F → LiveScanner W F → LiveScanner W F
  unfolding monitor_with
  monitor_update r s = monitor_with r.now r.equity r.positions s
