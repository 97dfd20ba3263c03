-- ===== src/Live/Signals.antt =====
-- `on_signal` of scripts/run_live_binance_scanner.py in its pieces between awaits: the checks on the account that the
-- broker has reported, the symbol's settings, the order.
use binbot.Base.{
  ℕ, Bool, true, false, Option, none, some, String, List, [], ◌∷◌, ℤ, pos, nat_abs, Result, ok, err,
  ◌>>=◌,
}
use binbot.Float.{Float, FloatMath, ◌+F◌, ◌*F◌, lit}
use binbot.Dict.{Dict, get, get_or}
use binbot.Core.Events.{DateTime, SignalEvent}
use binbot.Execution.Orders.{request}
use binbot.Execution.OrderManager.{submit}
use binbot.Execution.Binance.{BinanceFuturesBroker, SymbolFilters, get_step_size}
use binbot.Execution.Binance.Account.{PositionInformation, get_positions}
use binbot.Execution.Binance.Leverage.{ensure_symbol_ready}
use binbot.Execution.Binance.Sending.{place_order}
use binbot.Execution.Binance.Symbols.{Answers}
use binbot.Risk.Engine.{RiskCheckResult, Account, check_order}
use binbot.Live.{
  Settings, LiveScanner, note, order_rejected, checks_passed, set_risk_engine, Flight, checked,
  ready,
}

-- What the exchange and the clocks answer in one run of a handler.
pub record Replies (F : Type 0) : Type 0 where
  pub equity : Result F
  pub positions : Result (List (PositionInformation F))
  pub margin_usage : Result (F × F)
  pub monotonic : F
  pub now : DateTime

module _ {F : Type 0} ⦃f : Float F⦄ where
  -- The sum of `gross_exposure_usd`, from the left.
  unfoldable pub gross_exposure : BinanceFuturesBroker F → Dict F → Dict ℤ → F → Result F
  gross_exposure b last_price [] total = ok total
  gross_exposure b last_price ((symbol, qty) ∷ positions) total = do
    step_size ← get_step_size symbol b
    gross_exposure b last_price positions
        (total +F f.of_int (pos (nat_abs qty)) *F get_or last_price symbol (lit 0) *F step_size)

module _ {W F : Type 0} ⦃f : Float F⦄ ⦃m : FloatMath F⦄ where
  unfoldable pub account_of : Replies F → LiveScanner W F → Result (Account F)
  unfolding gross_exposure
  account_of r s = do
    equity ← r.equity
    positions ← r.positions
    gross ← gross_exposure s.broker s.last_price (get_positions positions s.broker) (lit 0)
    usage ← r.margin_usage
    ok (record {
      account_equity = equity;
      gross_exposure_usd = gross;
      current_initial_margin_used = usage.0;
      current_maintenance_margin_used = usage.1;
    })

module _ {W F : Type 0} where
  abbrev pub set_flight : Option (Flight F) → LiveScanner W F → LiveScanner W F
  set_flight flight s = record s { flight = flight }

  -- The verdict of the checks; a signal that passes goes on.
  unfoldable pub judge_signal :
      SignalEvent F → RiskCheckResult F → Bool → LiveScanner W F → LiveScanner W F
  judge_signal event result false s = note (order_rejected result) s
  judge_signal event result true s = note checks_passed (set_flight (some (checked event)) s)

  -- An exception ends the handler.
  abbrev pub after_ready :
      SignalEvent F
      → Result (SymbolFilters F)
      → LiveScanner W F
      → Result (Unit {0}) × LiveScanner W F
  after_ready event (err e) s = (err e, set_flight none s)
  after_ready event (ok filt) s = (ok tt, set_flight (some (ready event)) s)

module _ {W F : Type 0} ⦃f : Float F⦄ where
  unfoldable pub check_signal : F → SignalEvent F → Account F → LiveScanner W F → LiveScanner W F
  unfolding judge_signal
  check_signal monotonic event account s =
      let (result, engine) = check_order monotonic event account s.service.risk_engine in
      judge_signal event result result.passed (set_risk_engine engine s)

  -- The first piece of `on_signal`, by the signal under way and the account: while one is, the next waits in the queue.
  unfoldable pub begin_with :
      F
      → SignalEvent F
      → Option (Flight F)
      → Result (Account F)
      → LiveScanner W F
      → Result (Unit {0}) × LiveScanner W F
  unfolding check_signal
  begin_with monotonic event (some flight) account s = (ok tt, s)
  begin_with monotonic event none (err e) s = (err e, s)
  begin_with monotonic event none (ok account) s = (ok tt, check_signal monotonic event account s)

  -- The piece after the audit line of the checks.
  unfoldable pub ready_flight :
      Settings
      → Answers F
      → Option (Flight F)
      → LiveScanner W F
      → Result (Unit {0}) × LiveScanner W F
  ready_flight c answers none s = (ok tt, s)
  ready_flight c answers (some (ready event)) s = (ok tt, s)
  ready_flight c answers (some (checked event)) s =
      let (result, b) =
        ensure_symbol_ready answers event.symbol c.leverage c.margin_type s.broker in
      after_ready event result (record s { broker = b })

  unfoldable pub ready_signal :
      Settings → Answers F → LiveScanner W F → Result (Unit {0}) × LiveScanner W F
  unfolding ready_flight
  ready_signal c answers s = ready_flight c answers s.flight s

module _ {W F : Type 0} ⦃f : Float F⦄ ⦃m : FloatMath F⦄ where
  unfoldable pub begin_signal :
      Replies F → SignalEvent F → LiveScanner W F → Result (Unit {0}) × LiveScanner W F
  unfolding begin_with account_of
  begin_signal r event s = begin_with r.monotonic event s.flight (account_of r s) s

module _ {W F : Type 0} ⦃f : Float F⦄ ⦃m : FloatMath F⦄ (show : F → String)
    (uuid : ℕ → String) where
  -- `order_manager.submit`, which stores the order and then has the broker place it.
  unfoldable pub submit_order :
      DateTime
      → Option String
      → SignalEvent F
      → Option F
      → LiveScanner W F
      → Result (Unit {0}) × LiveScanner W F
  submit_order now answer event expected_price s =
      let order_id = uuid s.order_manager.uuids_drawn in
      let (order, manager) = submit uuid now event expected_price s.order_manager in
      let (result, b) = place_order show now answer (request order_id event) s.broker in
      (result, record s { order_manager = manager; broker = b })

  -- The piece after `ensure_symbol_ready`.
  unfoldable pub submit_flight :
      DateTime
      → Option String
      → Option (Flight F)
      → LiveScanner W F
      → Result (Unit {0}) × LiveScanner W F
  unfolding submit_order
  submit_flight now answer none s = (ok tt, s)
  submit_flight now answer (some (checked event)) s = (ok tt, s)
  submit_flight now answer (some (ready event)) s =
      submit_order now answer event (get s.last_price event.symbol) (set_flight none s)

  unfoldable pub submit_signal :
      DateTime → Option String → LiveScanner W F → Result (Unit {0}) × LiveScanner W F
  unfolding submit_flight
  submit_signal now answer s = submit_flight now answer s.flight s
