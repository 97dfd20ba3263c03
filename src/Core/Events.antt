-- ===== src/Core/Events.antt =====
-- core/events.py: the immutable events. Times are microseconds since the epoch, UTC; `event_id`,
-- which is random and never read, is left out.
use binbot.Base.{Bool, List, ℕ, ◌/◌, Option, none, some, ℤ, String, if◌then◌else◌, ◌&&◌}
use binbot.Float.{Float, ◌+F◌, ◌-F◌, ◌*F◌, ◌/F◌, ◌<F◌, lit}
use binbot.Core.Enums.{OrderSide, OrderType, TimeInForce, OrderStatus, sign}

pub data EventType : Type 0 where
  tick bar order_book signal order_ack order_reject execution risk_halt heartbeat : EventType

abbrev pub DateTime : Type 0
DateTime = ℕ

-- A calendar day, counted from the epoch.
abbrev pub Date : Type 0
Date = ℕ

-- `ts.date()`
unfoldable pub date : DateTime → Date
date ts = ts / 86400000000

pub record TickEvent (F : Type 0) : Type 0 where
  pub ts : DateTime
  pub symbol : String
  pub bid : F
  pub ask : F
  pub bid_size : ℕ
  pub ask_size : ℕ
  pub last : F
  pub last_size : ℕ

pub record BarEvent (F : Type 0) : Type 0 where
  pub ts : DateTime
  pub symbol : String
  pub timeframe_s : ℕ
  pub open_price : F
  pub high : F
  pub low : F
  pub close : F
  pub volume : F
  pub vwap : F

pub record SignalEvent (F : Type 0) : Type 0 where
  pub ts : DateTime
  pub symbol : String
  pub strategy_id : String
  pub side : OrderSide
  pub strength : F
  pub target_quantity : ℤ
  pub order_type : OrderType
  pub limit_price : Option F
  pub time_in_force : TimeInForce
  pub correlation_id : String
  pub oca_group : Option String

pub record OrderAckEvent : Type 0 where
  pub ts : DateTime
  pub order_id : String
  pub correlation_id : String
  pub symbol : String
  pub status : OrderStatus
  pub broker_order_id : Option String

pub record OrderRejectEvent : Type 0 where
  pub ts : DateTime
  pub order_id : String
  pub correlation_id : String
  pub symbol : String
  pub reason : String

pub data Liquidity : Type 0 where
  maker taker unknown : Liquidity

pub record ExecutionEvent (F : Type 0) : Type 0 where
  pub ts : DateTime
  pub order_id : String
  pub correlation_id : String
  pub symbol : String
  pub side : OrderSide
  pub fill_quantity : ℕ
  pub fill_price : F
  pub cumulative_quantity : ℕ
  pub remaining_quantity : ℕ
  pub commission : F
  pub liquidity : Liquidity
  pub expected_price : Option F

pub record OrderBookLevel (F : Type 0) : Type 0 where
  pub price : F
  pub size : ℕ

pub record OrderBookEvent (F : Type 0) : Type 0 where
  pub ts : DateTime
  pub symbol : String
  pub bids : List (OrderBookLevel F)
  pub asks : List (OrderBookLevel F)

pub record RiskHaltEvent : Type 0 where
  pub ts : DateTime
  pub reason : String
  pub triggered_by : String

pub record HeartbeatEvent : Type 0 where
  pub ts : DateTime
  pub source : String
  pub healthy : Bool

-- The subclasses of `Event`.
pub data Event (F : Type 0) : Type 0 where
  on_tick : TickEvent F → Event F
  on_bar : BarEvent F → Event F
  on_order_book : OrderBookEvent F → Event F
  on_signal : SignalEvent F → Event F
  on_ack : OrderAckEvent → Event F
  on_reject : OrderRejectEvent → Event F
  on_execution : ExecutionEvent F → Event F
  on_halt : RiskHaltEvent → Event F
  on_heartbeat : HeartbeatEvent → Event F

-- The class attribute that each `__post_init__` sets.
abbrev pub event_type : {F : Type 0} → Event F → EventType
event_type (on_tick e) = tick
event_type (on_bar e) = bar
event_type (on_order_book e) = order_book
event_type (on_signal e) = signal
event_type (on_ack e) = order_ack
event_type (on_reject e) = order_reject
event_type (on_execution e) = execution
event_type (on_halt e) = risk_halt
event_type (on_heartbeat e) = heartbeat

module _ {F : Type 0} ⦃f : Float F⦄ where
  -- `TickEvent.mid`
  unfoldable pub mid : TickEvent F → F
  mid t = if (lit 0 <F t.bid) && (lit 0 <F t.ask) then (t.bid +F t.ask) /F lit 2 else t.last

  -- `ExecutionEvent.slippage`
  unfoldable pub slippage : ExecutionEvent F → Option F
  slippage e = elim e.expected_price [
    | none ↦ none
    | some p ↦ some ((e.fill_price -F p) *F f.of_int (sign e.side))
  ]
