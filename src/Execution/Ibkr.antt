-- ===== src/Execution/Ibkr.antt =====
-- execution/ibkr_broker.py: the state of the adapter, its maps of words, and its queue of events. The client library
-- ib_async is input: what it returns and what it calls back with are arguments, and the calls of it are recorded in
-- order. `str` is Python's text of a whole number.
pub mod Sending
pub mod Callbacks
pub mod Account
pub mod Heartbeat
pub mod Names
pub mod Runs
pub mod Told
pub mod Unheard
use binbot.Base.{
  ℕ, Bool, String, Option, List, [], ◌∷◌, ◌++◌, ℤ, pos, neg, leb, length, Result, ok, err,
  queue_full, if◌then◌else◌,
}
use binbot.Float.{Float, FloatMath, ◌<F◌, lit}
use binbot.Dict.{Dict}
use binbot.Core.Enums.{
  OrderSide, buy, sell, OrderType, market, limit, stop, stop_limit, market_on_close, TimeInForce,
  day, gtc, ioc, fok, OrderStatus, pending_new, submitted, acknowledged, cancel_pending, cancelled,
  filled, rejected,
}
use binbot.Execution.Orders.{BrokerEvent}

-- The arguments of `Future`.
pub record Contract : Type 0 where
  pub symbol : String
  pub exchange : String
  pub currency : String

-- The attributes of `Order` that are set.
pub record IbOrder (F : Type 0) : Type 0 where
  pub action : String
  pub order_type : String
  pub total_quantity : ℕ
  pub tif : String
  pub lmt_price : Option F
  pub oca_group : Option String
  pub oca_type : Option ℕ

pub record Fill (F : Type 0) : Type 0 where
  pub shares : F
  pub price : F
  pub commission : Option F
  pub liquidity : ℤ

-- What is read of a `Trade`, of its order, its contract and its status.
pub record Trade (F : Type 0) : Type 0 where
  pub order_id : ℤ
  pub perm_id : ℤ
  pub action : String
  pub total_quantity : F
  pub symbol : String
  pub status : String
  pub fills : List (Fill F)

-- The calls of the client library that change its state; `watch_status` is the handler that is added to a trade's
-- `statusEvent`.
pub data IbCall (F : Type 0) : Type 0 where
  qualify_contracts : Contract → IbCall F
  ib_place_order : Contract → IbOrder F → IbCall F
  watch_status : Trade F → IbCall F
  ib_cancel_order : Trade F → IbCall F
  req_global_cancel : IbCall F

pub record IbkrBroker (F : Type 0) : Type 0 where
  pub futures_exchange : String
  pub futures_currency : String
  pub reconnect_backoff_s : F
  pub reconnect_backoff_max_s : F
  pub heartbeat_timeout_s : F
  pub event_queue : List (BrokerEvent F)
  pub trades_by_order_id : Dict (Trade F)
  pub correlation_by_order_id : Dict String
  pub contracts : Dict Contract
  pub last_heartbeat_ok : F
  pub reconnecting : Bool
  pub calls : List (IbCall F)

-- What a method does: it returns or raises, in the state that it leaves.
abbrev pub Outcome : Type 0 → Type 0 → Type 0
Outcome A F = Result A × IbkrBroker F

abbrev pub order_type_map : OrderType → String
order_type_map market = "MKT"
order_type_map limit = "LMT"
order_type_map stop = "STP"
order_type_map stop_limit = "STP LMT"
order_type_map market_on_close = "MOC"

abbrev pub tif_map : TimeInForce → String
tif_map day = "DAY"
tif_map gtc = "GTC"
tif_map ioc = "IOC"
tif_map fok = "FOK"

abbrev pub ib_status_map : Dict OrderStatus
ib_status_map =
    ("PendingSubmit", pending_new)
    ∷ ("PreSubmitted", submitted)
    ∷ ("Submitted", acknowledged)
    ∷ ("PendingCancel", cancel_pending)
    ∷ ("Cancelled", cancelled)
    ∷ ("ApiCancelled", cancelled)
    ∷ ("Filled", filled)
    ∷ ("Inactive", rejected)
    ∷ []

abbrev pub action_of : OrderSide → String
action_of buy = "BUY"
action_of sell = "SELL"

module _ {F : Type 0} where
  abbrev pub call : IbCall F → IbkrBroker F → IbkrBroker F
  call c b = record b { calls = b.calls ++ c ∷ [] }

  -- `put_nowait`, on a queue of at most 10 000 events.
  unfoldable pub put_nowait : BrokerEvent F → IbkrBroker F → Outcome (Unit {0}) F
  put_nowait e b =
      if leb 10000 (length b.event_queue)
      then (err queue_full, b)
      else (ok tt, record b { event_queue = b.event_queue ++ e ∷ [] })

module _ {F : Type 0} ⦃f : Float F⦄ ⦃m : FloatMath F⦄ where
  -- `int(x)`, towards 0
  unfoldable pub int : F → ℤ
  int x = if x <F lit 0 then m.ceil x else neg (m.ceil (f.minus x))
