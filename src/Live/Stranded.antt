-- ===== src/Live/Stranded.antt =====
-- The symbols of the broker in scripts/run_live_binance_scanner.py, which starts it with none: what the handlers do
-- never adds one.
use binbot.Base.{
  some, none, ℕ, ◌≡◌, refl, ap, ◌∙◌, Bool, true, false, String, Option, List, [], ◌∷◌, Result, ok,
  err, arith,
}
use binbot.Float.{Float, FloatMath}
use binbot.Dict.{get}
use binbot.Core.Events.{DateTime, SignalEvent}
use binbot.Execution.Orders.{BrokerOrderRequest, request}
use binbot.Execution.Binance.{
  BinanceFuturesBroker, SymbolFilters, request_of, cancel_all_open_orders,
}
use binbot.Execution.Binance.Keeping.{place_found_keeps}
use binbot.Execution.Binance.Leverage.{
  ensure_symbol_ready, configure_leverage_and_margin, cap_leverage,
}
use binbot.Execution.Binance.Sending.{
  place_order, register, below_min_qty, cancel_all as cancel_all_at_broker, cancel_each,
}
use binbot.Execution.Binance.Symbols.{Answers, refresh_exchange_info}
use binbot.Risk.CircuitBreaker.{consume_auto_reset_flag}
use binbot.Risk.Engine.{Account, RiskCheckResult, check_order}
use binbot.Live.{LiveScanner, Settings, Flight, checked, ready, set_risk_engine}
use binbot.Live.Signals.{
  submit_order, submit_flight, set_flight, after_ready, ready_flight, judge_signal, begin_with,
  check_signal,
}
use binbot.Live.Operator.{cancel_everything}
use binbot.Live.Monitor.{note_new_day, after_update}
use binbot.Live.Turns.{Script}

module _ {F : Type 0} ⦃f : Float F⦄ where
  -- The symbols are never changed by what a signal does at the broker.
  symbols-ensure_symbol_ready :
      (answers : Answers F) (symbol : String) (leverage : ℕ) (margin_type : String)
      (b : BinanceFuturesBroker F)
      → (ensure_symbol_ready answers symbol leverage margin_type b).1.symbols ≡ b.symbols
  unfolding ensure_symbol_ready configure_leverage_and_margin cap_leverage refresh_exchange_info
  symbols-ensure_symbol_ready answers symbol leverage margin_type b = ground arith

  symbols-register :
      (r : BrokerOrderRequest F) (b : BinanceFuturesBroker F) → (register r b).symbols ≡ b.symbols
  unfolding register
  symbols-register r b = ground arith

  symbols-cancel_each :
      (symbols : List String) (b : BinanceFuturesBroker F)
      → (cancel_each symbols b).symbols ≡ b.symbols
  unfolding cancel_each
  symbols-cancel_each [] b = refl
  symbols-cancel_each (symbol ∷ symbols) b =
      symbols-cancel_each symbols (request_of (cancel_all_open_orders symbol) b)

module _ {F : Type 0} ⦃f : Float F⦄ ⦃m : FloatMath F⦄ (show : F → String) where
  symbols-place_order :
      (now : DateTime) (answer : Option String) (r : BrokerOrderRequest F)
      (b : BinanceFuturesBroker F)
      → (place_order show now answer r b).1.symbols ≡ b.symbols
  unfolding place_order
  symbols-place_order now answer r b =
      place_found_keeps (λ b'. b'.symbols ≡ b.symbols) (λ e b' h. h) (λ c b' h. h) now answer r
        (below_min_qty show) (get b.filters r.symbol) b refl (symbols-register r b)

module _ {W F : Type 0} where
  -- The broker walks over no symbols.
  abbrev pub IsStranded : LiveScanner W F → Type 0
  IsStranded s = s.broker.symbols ≡ []

  pub IsStranded-cancel_everything :
      (s : LiveScanner W F) → IsStranded s → (cancel_everything s).broker ≡ s.broker
  unfolding cancel_everything cancel_all_at_broker cancel_each
  IsStranded-cancel_everything s h = ap (λ symbols. cancel_each symbols s.broker) h

  pub IsStranded-note_new_day : (s : LiveScanner W F) → IsStranded s → IsStranded (note_new_day s)
  unfolding note_new_day consume_auto_reset_flag
  IsStranded-note_new_day s h = ground (arith, h)

  pub IsStranded-after_update :
      (tripped : Result Bool) (s : LiveScanner W F)
      → IsStranded s
      → IsStranded (after_update tripped s)
  unfolding after_update
  IsStranded-after_update (err e) s h = h
  IsStranded-after_update (ok true) s h =
      ap (λ (b : BinanceFuturesBroker F). b.symbols) (IsStranded-cancel_everything s h) ∙ h
  IsStranded-after_update (ok false) s h = h

module _ {W F : Type 0} ⦃f : Float F⦄ ⦃m : FloatMath F⦄ (x : Script F) where
  pub IsStranded-submit_order :
      (now : DateTime) (answer : Option String) (event : SignalEvent F) (price : Option F)
      (s : LiveScanner W F)
      → IsStranded s
      → IsStranded (submit_order x.show x.uuid now answer event price s).1
  unfolding submit_order
  IsStranded-submit_order now answer event price s h =
      symbols-place_order x.show now answer (request (x.uuid s.order_manager.uuids_drawn) event)
        s.broker
      ∙ h

  pub IsStranded-submit_flight :
      (now : DateTime) (answer : Option String) (flight : Option (Flight F)) (s : LiveScanner W F)
      → IsStranded s
      → IsStranded (submit_flight x.show x.uuid now answer flight s).1
  unfolding submit_flight
  IsStranded-submit_flight now answer none s h = h
  IsStranded-submit_flight now answer (some (checked event)) s h = h
  IsStranded-submit_flight now answer (some (ready event)) s h =
      IsStranded-submit_order now answer event (get s.last_price event.symbol) (set_flight none s) h

module _ {W F : Type 0} ⦃f : Float F⦄ where
  IsStranded-after_ready :
      (event : SignalEvent F) (result : Result (SymbolFilters F)) (s : LiveScanner W F)
      → IsStranded s
      → IsStranded (after_ready event result s).1
  IsStranded-after_ready event (err e) s h = h
  IsStranded-after_ready event (ok filt) s h = h

  pub IsStranded-ready_flight :
      (c : Settings) (answers : Answers F) (flight : Option (Flight F)) (s : LiveScanner W F)
      → IsStranded s
      → IsStranded (ready_flight c answers flight s).1
  unfolding ready_flight
  IsStranded-ready_flight c answers none s h = h
  IsStranded-ready_flight c answers (some (ready event)) s h = h
  IsStranded-ready_flight c answers (some (checked event)) s h =
      let (result, b) =
        ensure_symbol_ready answers event.symbol c.leverage c.margin_type s.broker in
      IsStranded-after_ready event result (record s { broker = b })
        (symbols-ensure_symbol_ready answers event.symbol c.leverage c.margin_type s.broker ∙ h)

  IsStranded-judge_signal :
      (event : SignalEvent F) (result : RiskCheckResult F) (passed : Bool) (s : LiveScanner W F)
      → IsStranded s
      → IsStranded (judge_signal event result passed s)
  unfolding judge_signal
  IsStranded-judge_signal event result false s h = h
  IsStranded-judge_signal event result true s h = h

  pub IsStranded-begin_with :
      (monotonic : F) (event : SignalEvent F) (flight : Option (Flight F))
      (account : Result (Account F)) (s : LiveScanner W F)
      → IsStranded s
      → IsStranded (begin_with monotonic event flight account s).1
  unfolding begin_with check_signal
  IsStranded-begin_with monotonic event (some flight) account s h = h
  IsStranded-begin_with monotonic event none (err e) s h = h
  IsStranded-begin_with monotonic event none (ok account) s h =
      let (result, engine) = check_order monotonic event account s.service.risk_engine in
      IsStranded-judge_signal event result result.passed (set_risk_engine engine s) h
