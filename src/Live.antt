-- ===== src/Live.antt =====
-- scripts/run_live_binance_scanner.py: the state of the running script and its handler of ticks. The objects are those
-- of the other modules; the risk engine is the one of the recovery service, and the bus the one of the order manager.
-- Rows that go to the store and lines that go to the dashboard and to Telegram are recorded in order.
pub mod Signals
pub mod Operator
pub mod Monitor
pub mod Turns
pub mod Halted
pub mod Killed
pub mod Stranded
pub mod Cancelling
use binbot.Base.{
  ℕ, Option, none, some, String, List, [], ◌∷◌, ◌++◌, pos, ltb, member, Result, ok, err,
  if◌then◌else◌,
}
use binbot.Float.{Float, ◌*F◌, ◌/F◌, lit}
use binbot.Dict.{Dict, put}
use binbot.Core.Events.{TickEvent, BarEvent, SignalEvent, on_bar, mid}
use binbot.Core.EventBus.{publish}
use binbot.Data.BarAggregator.{BarAggregator, on_tick as aggregate}
use binbot.Execution.Binance.{BinanceFuturesBroker, get_step_size}
use binbot.Execution.OrderManager.{OrderLifecycleManager}
use binbot.Recovery.{StateRecoveryService}
use binbot.Risk.Engine.{RiskEngine, RiskCheckResult, update_market_state}
use binbot.Risk.Margin.{set_requirement}
use binbot.Strategies.BaseStrategy.{BaseStrategy}

-- The settings that the handlers read, and the universe.
pub record Settings : Type 0 where
  pub universe : List String
  pub leverage : ℕ
  pub margin_type : String

-- The calls of `push_audit`, and of `notifier.send`.
pub data Note (F : Type 0) : Type 0 where
  order_rejected : RiskCheckResult F → Note F
  checks_passed : Note F
  nothing_to_flatten : Note F
  flattening : ℕ → Note F
  kill_switch_engaged : Note F
  kill_switch_reset : Note F
  new_trading_day : Note F
  new_trading_day_sent : Note F

-- A signal that has passed the checks and waits for the exchange: for its symbol's settings, or to be submitted.
pub data Flight (F : Type 0) : Type 0 where
  checked : SignalEvent F → Flight F
  ready : SignalEvent F → Flight F

pub record LiveScanner (W F : Type 0) : Type 0 where
  pub service : StateRecoveryService F
  pub broker : BinanceFuturesBroker F
  pub order_manager : OrderLifecycleManager W F
  pub bar_aggregator : BarAggregator F
  pub last_price : Dict F
  pub strategy : BaseStrategy
  -- the handler of signals at its awaits; the bus dispatches one event at a time
  pub flight : Option (Flight F)
  pub bars_written : List (BarEvent F)
  pub notes : List (Note F)

module _ {W F : Type 0} where
  abbrev pub set_risk_engine : RiskEngine F → LiveScanner W F → LiveScanner W F
  set_risk_engine e s = record s { service = record s.service { risk_engine = e } }

  abbrev pub note : Note F → LiveScanner W F → LiveScanner W F
  note n s = record s { notes = s.notes ++ n ∷ [] }

  -- A bar that the aggregator completes is stored and published.
  abbrev pub keep_bar :
      Result (Option (BarEvent F)) → LiveScanner W F → Result (Unit {0}) × LiveScanner W F
  keep_bar (err e) s = (err e, s)
  keep_bar (ok none) s = (ok tt, s)
  keep_bar (ok (some bar)) s = (
    ok tt,
    record s {
      bars_written = s.bars_written ++ bar ∷ [];
      order_manager = record s.order_manager {
        event_bus = publish s.order_manager.event_bus (on_bar bar);
      };
    },
  )

module _ {W F : Type 0} ⦃f : Float F⦄ where
  abbrev pub note_price : String → F → LiveScanner W F → LiveScanner W F
  note_price symbol price s =
      set_risk_engine (update_market_state symbol price s.service.risk_engine)
        (record s { last_price = put s.last_price symbol price })

  -- `refresh_margin_schedule` by the step size found.
  unfoldable pub refresh_margin_schedule :
      Settings → String → F → Result F → LiveScanner W F → Result (Unit {0}) × LiveScanner W F
  refresh_margin_schedule c symbol price (err e) s = (err e, s)
  refresh_margin_schedule c symbol price (ok step_size) s =
      let per_lot_margin =
        price *F step_size /F f.of_int (pos (if ltb c.leverage 1 then 1 else c.leverage)) in
      let e = s.service.risk_engine in
      (
        ok tt,
        set_risk_engine
            (record e {
              margin_calculator =
                  set_requirement
                    (record {
                      symbol = symbol;
                      initial_margin_per_contract = per_lot_margin;
                      maintenance_margin_per_contract = per_lot_margin *F (lit 8 /F lit 10);
                    })
                    e.margin_calculator;
            })
            s,
      )

  -- `on_tick` after the margin schedule.
  unfoldable pub bar_tick :
      TickEvent F → Result (Unit {0}) × LiveScanner W F → Result (Unit {0}) × LiveScanner W F
  bar_tick tick (err e, s) = (err e, s)
  bar_tick tick (ok u, s) =
      let (completed_bar, a) = aggregate tick s.bar_aggregator in
      keep_bar completed_bar (record s { bar_aggregator = a })

  unfoldable pub on_tick :
      Settings → TickEvent F → LiveScanner W F → Result (Unit {0}) × LiveScanner W F
  unfolding refresh_margin_schedule bar_tick
  on_tick c tick s =
      let price = mid tick in
      if member tick.symbol c.universe
      then bar_tick tick (
          refresh_margin_schedule c tick.symbol price (get_step_size tick.symbol s.broker)
            (note_price tick.symbol price s))
      else (ok tt, s)
