-- ===== src/Backtest/Engine.antt =====
-- backtest/engine.py: the loop over the bars, which drives the simulated broker, the risk engine and the order manager. A
-- strategy is what it signals on the bars that it has seen, the latest included. The clocks that a signal's
-- check and its order read are numbered by the signals. The order manager takes the broker's events where the loop lets it, and `join` leaves the bus empty.
pub mod Causality
use Prim.Native.String.{compare}
use Prim.Native.Nat.{Ordering}
use binbot.Base.{
  ℕ, suc, ◌+◌, ◌-◌, Bool, true, false, not, Option, none, some, String, List, [], ◌∷◌, ◌++◌, ℤ, pos,
  nat_abs, ltb, ◌==◌, ◌&&◌, ◌||◌, length, map, drop, Result, ok, err, value_error, if◌then◌else◌,
}
use binbot.Float.{Float, FloatMath, ◌+F◌, ◌*F◌, lit, sum}
use binbot.Dict.{Dict, get, put, get_or}
use binbot.Core.Events.{DateTime, Date, date, BarEvent, SignalEvent, ExecutionEvent}
use binbot.Execution.Orders.{BrokerEvent, acked, executed, request}
use binbot.Execution.OrderManager.{OrderLifecycleManager, submit, consume}
use binbot.Risk.CircuitBreaker.{DrawdownCircuitBreaker, HaltReason, nothing, update, reset_session}
use binbot.Risk.Engine.{
  RiskEngine, RiskCheckResult, Account, check_order, update_market_state, set_contract_multiplier,
}
use binbot.Recovery.{update_positions}
use binbot.Backtest.Fills.{Costs}
use binbot.Backtest.Impact.{MarketImpactParams}
use binbot.Backtest.Simulator.{Simulator, process_bar, place_order}

pub record BacktestEngine (F : Type 0) : Type 0 where
  pub risk_engine : RiskEngine F
  pub broker : Simulator F
  pub contract_multipliers : Dict F
  pub order_manager : OrderLifecycleManager (Unit {0}) F
  pub last_price : Dict F
  -- the broker's events that the order manager has not taken yet
  pub broker_events : List (BrokerEvent F)
  pub current_session_date : Date
  pub equity_curve : List F
  pub equity_timestamps : List DateTime
  pub halted : Bool
  pub halt_reason : HaltReason F
  pub signals_seen : ℕ

-- What the checks and the orders read from outside.
pub record Outside (F : Type 0) : Type 0 where
  pub uuid : ℕ → String
  pub monotonic : ℕ → F
  pub now : ℕ → DateTime

module _ {F : Type 0} where
  -- `key=lambda b: (b.ts, b.symbol)`, in an order that keeps equal bars in place
  abbrev pub not_after : BarEvent F → BarEvent F → Bool
  not_after a b =
      ltb a.ts b.ts
      || (a.ts == b.ts && (elim (compare a.symbol b.symbol) [ Ordering.gt ↦ false | _ ↦ true ]))

  abbrev pub insert_bar : BarEvent F → List (BarEvent F) → List (BarEvent F)
  insert_bar a [] = a ∷ []
  insert_bar a (b ∷ bars) =
      let rest = insert_bar a bars in if not_after a b then a ∷ b ∷ bars else b ∷ rest

  unfoldable pub sorted_bars : List (BarEvent F) → List (BarEvent F)
  sorted_bars [] = []
  sorted_bars (a ∷ bars) = insert_bar a (sorted_bars bars)

  abbrev pub executions : List (ExecutionEvent F) → List (BrokerEvent F)
  executions = map executed

  -- `event_bus.join()`, after which no event waits.
  abbrev pub join_bus : BacktestEngine F → BacktestEngine F
  join_bus s = record s {
    order_manager = record s.order_manager {
      event_bus = record s.order_manager.event_bus { queue = [] };
    };
  }

module _ {F : Type 0} ⦃f : Float F⦄ where
  -- A new session at the first bar of a day.
  unfoldable pub roll_session : BarEvent F → BacktestEngine F → BacktestEngine F
  roll_session bar s =
      let day = date bar.ts in
      if day == s.current_session_date then s else record s {
        current_session_date = day;
        risk_engine = record s.risk_engine {
          circuit_breaker =
              reset_session s.broker.account.equity (some day) bar.ts s.risk_engine.circuit_breaker;
        };
      }

  abbrev pub note_bar : BarEvent F → BacktestEngine F → BacktestEngine F
  note_bar bar s = record s {
    last_price = put s.last_price bar.symbol bar.close;
    risk_engine =
        set_contract_multiplier bar.symbol (get_or s.contract_multipliers bar.symbol (lit 1))
          (update_market_state bar.symbol bar.close s.risk_engine);
  }

  -- The gross exposure that `_on_signal` computes.
  unfoldable pub gross_exposure : BacktestEngine F → Dict ℤ → List F
  gross_exposure s [] = []
  gross_exposure s ((symbol, qty) ∷ positions) =
      (f.of_int (pos (nat_abs qty))
        *F get_or s.last_price symbol (lit 0)
        *F get_or s.contract_multipliers symbol (lit 1))
      ∷ gross_exposure s positions

  abbrev pub account_of : BacktestEngine F → Account F
  account_of s = record {
    account_equity = s.broker.account.equity;
    gross_exposure_usd = sum (gross_exposure s s.broker.account.positions);
    current_initial_margin_used = lit 0;
    current_maintenance_margin_used = lit 0;
  }

  -- `_on_signal` from the verdict on; the order goes to the broker under the id that the order manager drew.
  unfoldable pub submit_if : Outside F → SignalEvent F → Bool → BacktestEngine F → BacktestEngine F
  submit_if out event false s = s
  submit_if out event true s =
      let now = out.now s.signals_seen in
      let order_id = out.uuid s.order_manager.uuids_drawn in
      let (order, manager) =
        submit out.uuid now event (get s.last_price event.symbol) s.order_manager in
      let (ack, broker) = place_order now (request order_id event) s.broker in
      record s {
        order_manager = manager;
        broker = broker;
        broker_events = s.broker_events ++ acked ack ∷ [];
      }

  unfoldable pub on_signal : Outside F → SignalEvent F → BacktestEngine F → BacktestEngine F
  unfolding submit_if gross_exposure
  on_signal out event s =
      let (result, engine) =
        check_order (out.monotonic s.signals_seen) event (account_of s) s.risk_engine in
      let s' = submit_if out event result.passed (record s { risk_engine = engine }) in
      record s' { signals_seen = s'.signals_seen + 1 }

  -- The signals in the order of their publication.
  unfoldable pub on_signals : Outside F → List (SignalEvent F) → BacktestEngine F → BacktestEngine F
  unfolding on_signal
  on_signals out [] s = s
  on_signals out (event ∷ events) s = on_signals out events (on_signal out event s)

  -- The order manager takes the broker's events.
  unfoldable pub drain : DateTime → BacktestEngine F → BacktestEngine F
  drain now s = record s {
    order_manager = consume (map (λ e. (now, e)) s.broker_events) s.order_manager;
    broker_events = [];
  }

  -- The verdict of the circuit breaker at the end of a bar.
  abbrev pub halt_if :
      Result Bool × DrawdownCircuitBreaker F
      → BacktestEngine F
      → Result (Unit {0}) × BacktestEngine F
  halt_if (err e, breaker) s =
      (err e, record s { risk_engine = record s.risk_engine { circuit_breaker = breaker } })
  halt_if (ok tripped, breaker) s = (
    ok tt,
    record s {
      risk_engine = record s.risk_engine { circuit_breaker = breaker };
      halted = tripped;
      halt_reason = if tripped then breaker.halt_reason else s.halt_reason;
    },
  )

  -- The end of a bar: positions, equity, circuit breaker.
  unfoldable pub settle : BarEvent F → BacktestEngine F → Result (Unit {0}) × BacktestEngine F
  settle bar s =
      let equity = s.broker.account.equity in
      halt_if (update equity bar.ts s.risk_engine.circuit_breaker) (record s {
        risk_engine = update_positions s.broker.account.positions s.risk_engine;
        equity_curve = s.equity_curve ++ equity ∷ [];
        equity_timestamps = s.equity_timestamps ++ bar.ts ∷ [];
      })

module _ {F : Type 0} ⦃f : Float F⦄ ⦃g : FloatMath F⦄ (p : MarketImpactParams F) (c : Costs F)
    (out : Outside F) where
  -- The broker's bar, with the fills that it puts into its queue.
  unfoldable pub simulate : BarEvent F → BacktestEngine F → Result (Unit {0}) × BacktestEngine F
  simulate bar s =
      let (result, broker) = process_bar p c bar s.broker in
      let fills = drop (length s.broker.account.fills) broker.account.fills in
      (result, record s { broker = broker; broker_events = s.broker_events ++ executions fills })

  -- What follows the fills of a bar: the strategies hear of it, then the account is settled.
  abbrev pub react :
      List (SignalEvent F)
      → BarEvent F
      → Result (Unit {0}) × BacktestEngine F
      → Result (Unit {0}) × BacktestEngine F
  unfolding drain on_signals settle
  react signals bar (err e, s) = (err e, s)
  react signals bar (ok u, s) =
      settle bar (join_bus (on_signals out signals (drain (out.now s.signals_seen) s)))

  -- The body of the loop, with what the strategies signal on the bar.
  unfoldable pub step :
      List (SignalEvent F) → BarEvent F → BacktestEngine F → Result (Unit {0}) × BacktestEngine F
  unfolding react simulate roll_session
  step signals bar s = react signals bar (simulate bar (note_bar bar (roll_session bar s)))

  abbrev pub continue :
      Result (Unit {0}) × BacktestEngine F
      → (BacktestEngine F → Result (Unit {0}) × BacktestEngine F)
      → Result (Unit {0}) × BacktestEngine F
  continue (err e, s) next = (err e, s)
  continue (ok u, s) next = if s.halted then (ok tt, s) else next s

  -- The loop, which ends at the first halt.
  unfoldable pub run_bars :
      (List (BarEvent F) → List (SignalEvent F))
      → List (BarEvent F)
      → List (BarEvent F)
      → BacktestEngine F
      → Result (Unit {0}) × BacktestEngine F
  unfolding step
  run_bars strategy seen [] s = (ok tt, s)
  run_bars strategy seen (bar ∷ bars) s =
      let seen' = seen ++ bar ∷ [] in
      continue (step (strategy seen') bar s) (λ s'. run_bars strategy seen' bars s')

  -- `run` up to its report: the first session begins with the first bar.
  abbrev pub begin : BarEvent F → BacktestEngine F → BacktestEngine F
  begin first s =
      let day = date first.ts in
      record s {
        equity_curve = s.broker.account.equity ∷ [];
        equity_timestamps = first.ts ∷ [];
        halted = false;
        halt_reason = nothing;
        current_session_date = day;
        risk_engine = record s.risk_engine {
          circuit_breaker =
              reset_session s.broker.account.equity (some day) first.ts
                s.risk_engine.circuit_breaker;
        };
      }

  abbrev pub run_sorted :
      (List (BarEvent F) → List (SignalEvent F))
      → List (BarEvent F)
      → BacktestEngine F
      → Result (Unit {0}) × BacktestEngine F
  unfolding run_bars
  run_sorted strategy [] s = (err (value_error "bars must be non-empty"), s)
  run_sorted strategy (first ∷ bars) s = run_bars strategy [] (first ∷ bars) (begin first s)

  unfoldable pub run :
      (List (BarEvent F) → List (SignalEvent F))
      → List (BarEvent F)
      → BacktestEngine F
      → Result (Unit {0}) × BacktestEngine F
  unfolding run_sorted sorted_bars
  run strategy bars s = run_sorted strategy (sorted_bars bars) s
