-- ===== src/Live/Turns.antt =====
-- Runs of scripts/run_live_binance_scanner.py, in pieces between awaits: whatever the bus, the monitor loop, the position
-- monitor and the dashboard's clients do, in any order. A piece of a task may come here also where the one before it has
-- not, so the runs cover those of the script. What an exception leaves undone does not come.
use binbot.Base.{
  ℕ, String, Option, List, [], ◌∷◌, Result, ok, err, none, some, refl, ◌≡◌, member, if-cases,
}
use binbot.Float.{Float, FloatMath}
use binbot.Core.Events.{DateTime, TickEvent, BarEvent, SignalEvent, mid}
use binbot.Data.BarAggregator.{on_tick as aggregate}
use binbot.Execution.Orders.{BrokerCall}
use binbot.Execution.Binance.{BinanceFuturesBroker, get_step_size}
use binbot.Recovery.{Disk}
use binbot.Risk.CircuitBreaker.{DrawdownCircuitBreaker}
use binbot.Risk.Engine.{update_market_state}
use binbot.Live.{
  Settings, LiveScanner, Flight, on_tick, bar_tick, keep_bar, refresh_margin_schedule, note_price,
}
use binbot.Execution.Binance.Symbols.{Answers}
use binbot.Live.Signals.{Replies, begin_signal, ready_signal, submit_signal, submit_order}
use binbot.Live.Operator.{
  do_pause, do_resume, begin_kill, finish_kill, reset_kill_switch, persist_state,
}
use binbot.Live.Monitor.{monitor_update, note_new_day}

pub data Turn (F : Type 0) : Type 0 where
  ticking : TickEvent F → Turn F
  -- the three pieces of a signal
  checking : Replies F → SignalEvent F → Turn F
  readying : Answers F → Turn F
  submitting : DateTime → Option String → Turn F
  -- an order that closes a position, by the position monitor or by the operator
  closing : DateTime → Option String → SignalEvent F → Option F → Turn F
  -- the three pieces of a round of the monitor
  updating : Replies F → Turn F
  rolling : Turn F
  persisting : Turn F
  pausing : Turn F
  resuming : Turn F
  -- the two pieces of the kill switch
  kill_begins : Turn F
  kill_ends : Turn F
  resetting : Result F → DateTime → Turn F

-- What stays the same for the whole run.
pub record Script (F : Type 0) : Type 0 where
  pub settings : Settings
  pub show : F → String
  pub uuid : ℕ → String

module _ {W F : Type 0} ⦃f : Float F⦄ ⦃m : FloatMath F⦄ (x : Script F) where
  unfoldable pub turn : Turn F → LiveScanner W F → LiveScanner W F
  unfolding on_tick begin_signal ready_signal submit_signal submit_order monitor_update note_new_day
      begin_kill finish_kill reset_kill_switch
  turn (ticking tick) s = (on_tick x.settings tick s).1
  turn (checking r event) s = (begin_signal r event s).1
  turn (readying answers) s = (ready_signal x.settings answers s).1
  turn (submitting now answer) s = (submit_signal x.show x.uuid now answer s).1
  turn (closing now answer event price) s = (submit_order x.show x.uuid now answer event price s).1
  turn (updating r) s = monitor_update r s
  turn rolling s = note_new_day s
  turn persisting s = persist_state s
  turn pausing s = do_pause s
  turn resuming s = do_resume s
  turn kill_begins s = begin_kill s
  turn kill_ends s = finish_kill s
  turn (resetting equity now) s = (reset_kill_switch equity now s).1

  unfoldable pub run : List (Turn F) → LiveScanner W F → LiveScanner W F
  unfolding turn
  run [] s = s
  run (t ∷ turns) s = run turns (turn t s)

module _ {W F : Type 0} where
  -- What decides on orders, and what has been asked of the broker and written to the disk.
  abbrev pub core :
      LiveScanner W F
      → DrawdownCircuitBreaker F
        × List (BrokerCall F)
        × BinanceFuturesBroker F
        × Disk F
        × Option (Flight F)
  core s = (
    s.service.risk_engine.circuit_breaker, s.order_manager.broker_calls, s.broker, s.service.disk,
    s.flight,
  )

  core-keep_bar :
      (r : Result (Option (BarEvent F))) (s : LiveScanner W F) → core (keep_bar r s).1 ≡ core s
  core-keep_bar (err e) s = refl
  core-keep_bar (ok none) s = refl
  core-keep_bar (ok (some bar)) s = refl

module _ {W F : Type 0} ⦃f : Float F⦄ where
  core-bar_tick :
      (tick : TickEvent F) (r : Result (Unit {0})) (s : LiveScanner W F)
      → core (bar_tick tick (r, s)).1 ≡ core s
  unfolding bar_tick
  core-bar_tick tick (err e) s = refl
  core-bar_tick tick (ok u) s =
      let (r, a) = aggregate tick s.bar_aggregator in
      core-keep_bar r (record s { bar_aggregator = a })

  core-refreshed :
      (c : Settings) (tick : TickEvent F) (price : F) (r : Result F) (s : LiveScanner W F)
      → core (bar_tick tick (refresh_margin_schedule c tick.symbol price r s)).1 ≡ core s
  unfolding refresh_margin_schedule
  core-refreshed c tick price (err e) s = core-bar_tick tick (err e) s
  core-refreshed c tick price (ok step_size) s = core-bar_tick tick (ok tt) _

  pub core-on_tick :
      (c : Settings) (tick : TickEvent F) (s : LiveScanner W F) → core (on_tick c tick s).1 ≡ core s
  unfolding on_tick update_market_state
  core-on_tick c tick s =
      if-cases (λ (y : Result (Unit {0}) × LiveScanner W F). core y.1 ≡ core s)
        (member tick.symbol c.universe) _ (ok tt, s)
        (λ t.
          core-refreshed c tick (mid tick) (get_step_size tick.symbol s.broker)
            (note_price tick.symbol (mid tick) s))
        (λ g. refl)
