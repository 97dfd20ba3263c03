-- ===== src/Execution/Ibkr/Heartbeat.antt =====
-- One turn of the heartbeat loop of execution/ibkr_broker.py, from the end of its sleep on, with the reconnection.
use binbot.Base.{Bool, true, false, not, Option, none, some, List, ℤ, if◌then◌else◌, ◌&&◌}
use binbot.Float.{Float, FloatMath, ◌-F◌, ◌≤F◌}
use binbot.Dict.{Dict}
use binbot.Execution.Binance.Backoff.{connect_loop}
use binbot.Execution.Ibkr.{IbkrBroker}
use binbot.Execution.Ibkr.Account.{IbPosition, reconcile_state}

-- What the turn meets: whether the library is connected and answers, the clock, and, where it reconnects, the attempts,
-- the clock after them, and the positions, `none` where the call raises.
pub record Beat (F : Type 0) : Type 0 where
  pub answers : Bool
  pub now : F
  pub attempts : List Bool
  pub connected_at : F
  pub positions : Option (List (IbPosition F))

-- Where the loop stands after the turn: it sleeps again, it still tries to connect, or an exception has ended it.
pub data Standing : Type 0 where
  beating : Standing
  connecting : Standing
  reconciled : Dict ℤ → Standing
  ended : Standing

module _ {F : Type 0} ⦃f : Float F⦄ ⦃m : FloatMath F⦄ where
  -- The `finally` clears the mark whether `reconcile_state` returns or raises.
  unfoldable pub after_connecting :
      Option (List (IbPosition F)) → IbkrBroker F → Standing × IbkrBroker F
  unfolding reconcile_state
  after_connecting none b = (ended, record b { reconnecting = false })
  after_connecting (some positions) b =
      (reconciled (reconcile_state positions), record b { reconnecting = false })

  unfoldable pub reconnect : Beat F → IbkrBroker F → Standing × IbkrBroker F
  unfolding connect_loop after_connecting
  reconnect t b =
      let p = connect_loop b.reconnect_backoff_max_s b.reconnect_backoff_s t.attempts in
      if p.connected
      then after_connecting t.positions (record b { last_heartbeat_ok = t.connected_at })
      else (connecting, record b { reconnecting = true })

  unfoldable pub beat : Beat F → IbkrBroker F → Standing × IbkrBroker F
  unfolding reconnect
  beat t b =
      let stale = b.heartbeat_timeout_s ≤F t.now -F b.last_heartbeat_ok in
      if t.answers
      then (beating, record b { last_heartbeat_ok = t.now })
      else (if stale && not b.reconnecting then reconnect t b else (beating, b))
