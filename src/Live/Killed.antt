-- ===== src/Live/Killed.antt =====
-- What the kill switch of scripts/run_live_binance_scanner.py stops, for the rest of its day.
use binbot.Base.{
  ◌+◌, ◌≡◌, ◌≤◌, refl, sym, ap, ◌∙◌, subst, Option, none, some, List, [], ◌∷◌, All, arith, Result,
  ok, err, String,
}
use binbot.Float.{Float, FloatMath}
use binbot.Dict.{get}
use binbot.Core.Events.{DateTime, Date, date, SignalEvent}
use binbot.Execution.Orders.{place_order, request}
use binbot.Execution.OrderManager.{submit}
use binbot.Execution.Binance.Account.{PositionInformation, get_positions}
use binbot.Execution.Binance.Leverage.{ensure_symbol_ready}
use binbot.Execution.Binance.Symbols.{Answers}
use binbot.Recovery.{update_positions, persist}
use binbot.Risk.CircuitBreaker.{DrawdownCircuitBreaker, update, snapshot, force_halt}
use binbot.Risk.CircuitBreaker.Session.{update_keeps_day, update_halted}
use binbot.Risk.Engine.{RiskEngine, RiskCheckResult, Account}
use binbot.Risk.Engine.Gate.{halted_refuses}
use binbot.Live.{Settings, LiveScanner, Flight, checked, ready, set_risk_engine, on_tick}
use binbot.Live.Signals.{
  begin_signal, begin_with, check_signal, judge_signal, account_of, ready_signal, ready_flight,
  submit_signal, submit_flight, submit_order, set_flight,
}
use binbot.Live.Operator.{begin_kill, finish_kill}
use binbot.Live.Monitor.{monitor_update, monitor_with, after_update, set_breaker}
use binbot.Live.Turns.{
  Turn, ticking, checking, readying, submitting, closing, updating, rolling, persisting, pausing,
  resuming, kill_begins, kill_ends, resetting, Script, turn, run, core-on_tick,
}
use binbot.Live.Halted.{
  circuit_breaker-update_positions, placed-append, Keeps-same, Keeps-core, IsHalted-persist,
  Keeps-note_new_day, Keeps-cancel_everything, Keeps-after_ready, placed, flying, closes, closings,
  IsLater, IsHalted, Keeps,
}

module _ {W F : Type 0} ⦃f : Float F⦄ (today : Date) where
  Keeps-check_signal :
      (monotonic : F) (event : SignalEvent F) (account : Account F) (s : LiveScanner W F)
      → IsHalted today s
      → Keeps today 0 s (check_signal monotonic event account s)
  unfolding check_signal judge_signal
  Keeps-check_signal monotonic event account s h =
      subst
        (λ (y : RiskCheckResult F × RiskEngine F).
          Keeps today 0 s (judge_signal event y.0 y.0.passed (set_risk_engine y.1 s)))
        (sym (halted_refuses monotonic event account s.service.risk_engine h.0)) (h, omega arith)

  Keeps-begin_with :
      (monotonic : F) (event : SignalEvent F) (flight : Option (Flight F))
      (account : Result (Account F)) (s : LiveScanner W F)
      → IsHalted today s
      → Keeps today 0 s (begin_with monotonic event flight account s).1
  unfolding begin_with
  Keeps-begin_with monotonic event (some flight) account s h = Keeps-same today s h
  Keeps-begin_with monotonic event none (err e) s h = Keeps-same today s h
  Keeps-begin_with monotonic event none (ok account) s h =
      Keeps-check_signal monotonic event account s h

  Keeps-ready_flight :
      (c : Settings) (answers : Answers F) (flight : Option (Flight F)) (s : LiveScanner W F)
      → s.flight ≡ flight
      → IsHalted today s
      → Keeps today 0 s (ready_flight c answers flight s).1
  unfolding ready_flight
  Keeps-ready_flight c answers none s e h = Keeps-same today s h
  Keeps-ready_flight c answers (some (ready event)) s e h = Keeps-same today s h
  Keeps-ready_flight c answers (some (checked event)) s e h =
      let (result, b) =
        ensure_symbol_ready answers event.symbol c.leverage c.margin_type s.broker in
      Keeps-after_ready today event result (record s { broker = b }) h e

module _ {W F : Type 0} ⦃f : Float F⦄ ⦃m : FloatMath F⦄ (today : Date) where
  Keeps-submit_order :
      (x : Script F) (now : DateTime) (answer : Option String) (event : SignalEvent F)
      (price : Option F) (s : LiveScanner W F)
      → IsHalted today s
      → Keeps today 1 s (submit_order x.show x.uuid now answer event price s).1
  unfolding submit_order submit
  Keeps-submit_order x now answer event price s h =
      let r = request (x.uuid s.order_manager.uuids_drawn) event in
      let e = placed-append s.order_manager.broker_calls (place_order r ∷ []) in
      (h, omega (arith, e))

  Keeps-submit_flight :
      (x : Script F) (now : DateTime) (answer : Option String) (flight : Option (Flight F))
      (s : LiveScanner W F)
      → s.flight ≡ flight
      → IsHalted today s
      → Keeps today 0 s (submit_flight x.show x.uuid now answer flight s).1
  unfolding submit_flight
  Keeps-submit_flight x now answer none s e h = Keeps-same today s h
  Keeps-submit_flight x now answer (some (checked event)) s e h = Keeps-same today s h
  Keeps-submit_flight x now answer (some (ready event)) s e h =
      let k =
        Keeps-submit_order x now answer event (get s.last_price event.symbol) (set_flight none s)
          h in
      let one : flying s.flight ≡ 1 = ap flying e in (k.0, omega (arith, k.1, one))

  Keeps-after_update :
      (equity : F) (now : DateTime) (breaker : DrawdownCircuitBreaker F) (s : LiveScanner W F)
      → date now ≡ today
      → breaker ≡ s.service.risk_engine.circuit_breaker
      → IsHalted today s
      → let (tripped, breaker') = update equity now breaker in
        Keeps today 0 s (after_update tripped (set_breaker breaker' s))
  unfolding after_update
  Keeps-after_update equity now breaker s day same h =
      let halted = ap (λ k. k.halted) same ∙ h.0 in
      let of_today = ap (λ k. k.session_date) same ∙ h.1 in
      let now_today = day ∙ sym of_today in
      let (no_report, still, reason) = update_halted equity now breaker now_today halted in
      let kept = update_keeps_day equity now breaker now_today ∙ of_today in
      let s' = set_breaker (update equity now breaker).1 s in
      subst (λ r. Keeps today 0 s (after_update r s')) (sym no_report)
        ((still, kept, h.2), omega arith)

  Keeps-monitor_with :
      (now : DateTime) (equity : Result F) (positions : Result (List (PositionInformation F)))
      (s : LiveScanner W F)
      → date now ≡ today
      → IsHalted today s
      → Keeps today 0 s (monitor_with now equity positions s)
  unfolding monitor_with
  Keeps-monitor_with now (err e) positions s day h = Keeps-same today s h
  Keeps-monitor_with now (ok equity) (err e) s day h = Keeps-same today s h
  Keeps-monitor_with now (ok equity) (ok positions) s day h =
      let held = get_positions positions s.broker in
      let e = update_positions held s.service.risk_engine in
      let same = circuit_breaker-update_positions held s.service.risk_engine in
      Keeps-after_update equity now e.circuit_breaker (set_risk_engine e s) day refl
        (ap (λ k. k.halted) same ∙ h.0, ap (λ k. k.session_date) same ∙ h.1, h.2)

  Keeps-finish_kill :
      (s : LiveScanner W F)
      → s.service.risk_engine.circuit_breaker.session_date ≡ today
      → Keeps today 0 s (finish_kill s)
  unfolding finish_kill persist snapshot force_halt
  Keeps-finish_kill s k =
      let breaker =
        force_halt "Manual kill switch via dashboard" s.service.risk_engine.circuit_breaker in
      ((refl, k, (snapshot breaker, s.service.environment_id, refl, refl, k)), omega arith)

  Keeps-turn :
      (x : Script F) (t : Turn F) (s : LiveScanner W F)
      → IsLater today t
      → IsHalted today s
      → Keeps today (closes t) s (turn x t s)
  unfolding turn begin_signal ready_signal submit_signal monitor_update begin_kill
  Keeps-turn x (ticking tick) s later h =
      Keeps-core today s (on_tick x.settings tick s).1 (core-on_tick x.settings tick s) h
  Keeps-turn x (checking r event) s later h =
      Keeps-begin_with today r.monotonic event s.flight (account_of r s) s h
  Keeps-turn x (readying answers) s later h =
      Keeps-ready_flight today x.settings answers s.flight s refl h
  Keeps-turn x (submitting now answer) s later h =
      Keeps-submit_flight x now answer s.flight s refl h
  Keeps-turn x (closing now answer event price) s later h =
      Keeps-submit_order x now answer event price s h
  Keeps-turn x (updating r) s later h = Keeps-monitor_with r.now r.equity r.positions s later h
  Keeps-turn x rolling s later h = Keeps-note_new_day today s h
  Keeps-turn x persisting s later h = (IsHalted-persist today s h.0 h.1, omega arith)
  Keeps-turn x pausing s later h = Keeps-same today s h
  Keeps-turn x resuming s later h = Keeps-same today s h
  Keeps-turn x kill_begins s later h = Keeps-cancel_everything today s h
  Keeps-turn x kill_ends s later h = Keeps-finish_kill s h.1
  Keeps-turn x (resetting equity now) s later h = absurd later

  Keeps-run :
      (x : Script F) (turns : List (Turn F)) (s : LiveScanner W F)
      → All (IsLater today) turns
      → IsHalted today s
      → Keeps today (closings turns) s (run x turns s)
  unfolding run
  Keeps-run x [] s later h = Keeps-same today s h
  Keeps-run x (t ∷ turns) s later h =
      let first = Keeps-turn x t s later.0 h in
      let rest = Keeps-run x turns (turn x t s) later.1 first.0 in
      (rest.0, omega (arith, first.1, rest.1))

module _ {W F : Type 0} ⦃f : Float F⦄ ⦃m : FloatMath F⦄ (x : Script F) where
  -- From the moment on at which the kill switch has halted the breaker, over pieces of the script in any order, with the
  -- monitor's updates on the breaker's day, and as long as the operator does not reset it: the breaker stays halted, the
  -- snapshot on the disk is that of a halt on this day, and the orders placed are no more than the pieces that close a
  -- position, and one more if a signal had passed the checks before and was not yet submitted.
  pub finish_kill-Keeps :
      (turns : List (Turn F)) (s : LiveScanner W F)
      → All (IsLater s.service.risk_engine.circuit_breaker.session_date) turns
      → let killed = finish_kill s in
        let s' = run x turns killed in
        IsHalted s.service.risk_engine.circuit_breaker.session_date s'
        × (placed s'.order_manager.broker_calls + flying s'.flight
            ≤ placed killed.order_manager.broker_calls + flying killed.flight + closings turns)
  finish_kill-Keeps turns s later =
      let today = s.service.risk_engine.circuit_breaker.session_date in
      Keeps-run today x turns (finish_kill s) later (Keeps-finish_kill today s refl).0
