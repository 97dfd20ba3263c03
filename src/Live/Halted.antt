-- ===== src/Live/Halted.antt =====
-- What a halt means in a run of scripts/run_live_binance_scanner.py, and the pieces of its tasks that keep it whatever
-- the numbers are.
use binbot.Base.{
  ℕ, ◌+◌, ◌≡◌, ◌≤◌, refl, sym, ap, ◌∙◌, subst, true, Option, none, some, List, [], ◌∷◌, ◌++◌, arith,
  if-cases, Result, ok, err, ℤ, String,
}
use binbot.Dict.{Dict}
use binbot.Core.Events.{Date, date, SignalEvent}
use binbot.Execution.Orders.{BrokerCall, place_order, cancel_order, cancel_all_orders}
use binbot.Execution.OrderManager.{cancel_all}
use binbot.Execution.Binance.{SymbolFilters}
use binbot.Recovery.{Disk, stored, update_positions, persist}
use binbot.Risk.CircuitBreaker.{Snapshot, consume_auto_reset_flag, snapshot}
use binbot.Risk.Engine.{RiskEngine, update_position}
use binbot.Live.{LiveScanner, Flight, checked, note, new_trading_day, new_trading_day_sent}
use binbot.Live.Signals.{after_ready}
use binbot.Live.Operator.{persist_state, cancel_everything}
use binbot.Live.Monitor.{note_new_day, set_breaker}
use binbot.Live.Turns.{Turn, closing, updating, resetting, core}

module _ {F : Type 0} where
  -- The snapshot on the disk is of this day, and halted.
  abbrev pub IsHaltStored : Date → Disk F → Type 0
  IsHaltStored today disk =
      (s : Snapshot F) × (environment : String) × (disk ≡ stored s environment)
      × (s.halted ≡ true)
      × (s.session_date ≡ today)

  pub circuit_breaker-update_positions :
      (positions : Dict ℤ) (e : RiskEngine F)
      → (update_positions positions e).circuit_breaker ≡ e.circuit_breaker
  unfolding update_positions update_position
  circuit_breaker-update_positions [] e = refl
  circuit_breaker-update_positions ((symbol, quantity) ∷ positions) e =
      circuit_breaker-update_positions positions (update_position symbol quantity e)

  -- The orders among the calls.
  abbrev pub placed : List (BrokerCall F) → ℕ
  placed [] = 0
  placed (place_order r ∷ calls) = placed calls + 1
  placed (cancel_order order_id ∷ calls) = placed calls
  placed (cancel_all_orders ∷ calls) = placed calls

  pub placed-append : (xs ys : List (BrokerCall F)) → placed (xs ++ ys) ≡ placed xs + placed ys
  placed-append [] ys = omega arith
  placed-append (place_order r ∷ xs) ys = ground (arith, placed-append xs ys)
  placed-append (cancel_order order_id ∷ xs) ys = placed-append xs ys
  placed-append (cancel_all_orders ∷ xs) ys = placed-append xs ys

  -- A signal that is under way.
  abbrev pub flying : Option (Flight F) → ℕ
  flying none = 0
  flying (some flight) = 1

  -- The pieces that place an order to close a position.
  abbrev pub closes : Turn F → ℕ
  closes (closing now answer event price) = 1
  closes _ = 0

  abbrev pub closings : List (Turn F) → ℕ
  closings [] = 0
  closings (t ∷ turns) = closes t + closings turns

  -- A piece that is neither the operator's resetting nor the monitor's update of another day.
  abbrev pub IsLater : Date → Turn F → Type 0
  IsLater today (updating r) = date r.now ≡ today
  IsLater today (resetting equity now) = ⊥
  IsLater today _ = Unit {0}

module _ {W F : Type 0} where
  -- The orders placed, and the one that may still come of the signal under way.
  abbrev pub due : LiveScanner W F → ℕ
  due s = placed s.order_manager.broker_calls + flying s.flight

  -- Halted on this day, on the disk too.
  abbrev pub IsHalted : Date → LiveScanner W F → Type 0
  IsHalted today s =
      (s.service.risk_engine.circuit_breaker.halted ≡ true)
      × (s.service.risk_engine.circuit_breaker.session_date ≡ today)
      × IsHaltStored today s.service.disk

  -- A piece on a halted state, with this many orders of its own.
  abbrev pub Keeps : Date → ℕ → LiveScanner W F → LiveScanner W F → Type 0
  Keeps today n s s' = IsHalted today s' × (due s' ≤ due s + n)

  pub Keeps-same : (today : Date) (s : LiveScanner W F) → IsHalted today s → Keeps today 0 s s
  Keeps-same today s h = (h, omega arith)

  pub Keeps-core :
      (today : Date) (s s' : LiveScanner W F)
      → core s' ≡ core s
      → IsHalted today s
      → Keeps today 0 s s'
  Keeps-core today s s' same h =
      let calls = ap (λ k. placed k.1) same in
      let flight = ap (λ k. flying k.4) same in
      (
        (
          ap (λ k. k.0.halted) same ∙ h.0,
          ap (λ k. k.0.session_date) same ∙ h.1,
          subst (IsHaltStored today) (sym (ap (λ k. k.3) same)) h.2,
        ),
        omega (arith, calls, flight),
      )

  pub IsHalted-persist :
      (today : Date) (s : LiveScanner W F)
      → s.service.risk_engine.circuit_breaker.halted ≡ true
      → s.service.risk_engine.circuit_breaker.session_date ≡ today
      → IsHalted today (persist_state s)
  unfolding persist snapshot
  IsHalted-persist today s h k =
      (h, k, (snapshot s.service.risk_engine.circuit_breaker, s.service.environment_id, refl, h, k))

  pub Keeps-note_new_day :
      (today : Date) (s : LiveScanner W F) → IsHalted today s → Keeps today 0 s (note_new_day s)
  unfolding note_new_day consume_auto_reset_flag
  Keeps-note_new_day today s h =
      let (flag, breaker) = consume_auto_reset_flag s.service.risk_engine.circuit_breaker in
      let s' = set_breaker breaker s in
      if-cases (Keeps today 0 s) flag (note new_trading_day_sent (note new_trading_day s')) s'
        (λ t. (h, omega arith)) (λ g. (h, omega arith))

  pub Keeps-cancel_everything :
      (today : Date) (s : LiveScanner W F)
      → IsHalted today s
      → Keeps today 0 s (cancel_everything s)
  unfolding cancel_everything cancel_all
  Keeps-cancel_everything today s h =
      let e = placed-append s.order_manager.broker_calls (cancel_all_orders ∷ []) in
      (h, omega (arith, e))

  pub Keeps-after_ready :
      (today : Date) (event : SignalEvent F) (result : Result (SymbolFilters F))
      (s : LiveScanner W F)
      → IsHalted today s
      → s.flight ≡ some (checked event)
      → Keeps today 0 s (after_ready event result s).1
  Keeps-after_ready today event (err e) s h k = (h, omega arith)
  Keeps-after_ready today event (ok filt) s h k = (h, ground (arith, k))
