-- ===== src/Execution/Orders.antt =====
-- The orders of execution/order_manager.py, and the broker's side of execution/broker_interface.py:
-- one order's creation and what each broker event does to it.
use binbot.Base.{
  ℕ, ◌≡◌, Bool, not, Option, String, List, [], ◌∷◌, ◌++◌, pos, nat_abs, ◌==◌, if◌then◌else◌,
}
use binbot.Float.{Float, ◌+F◌, ◌*F◌, ◌/F◌, lit}
use binbot.Core.Enums.{
  OrderSide, OrderType, TimeInForce, OrderStatus, submitted, rejected, filled, partially_filled,
  is_terminal,
}
use binbot.Core.Events.{
  DateTime, SignalEvent, OrderAckEvent, OrderRejectEvent, ExecutionEvent, Event, on_ack, on_reject,
  on_execution,
}
use binbot.Execution.Slippage.{SlippageTracker, record_fill}

pub record ManagedOrder (F : Type 0) : Type 0 where
  pub order_id : String
  pub correlation_id : String
  pub symbol : String
  pub side : OrderSide
  pub quantity : ℕ
  pub order_type : OrderType
  pub limit_price : Option F
  pub time_in_force : TimeInForce
  pub expected_price : Option F
  pub oca_group : Option String
  pub status : OrderStatus
  pub filled_quantity : ℕ
  pub remaining_quantity : ℕ
  pub avg_fill_price : F
  pub reject_reason : String
  pub created_ts : DateTime
  pub updated_ts : DateTime

-- `BrokerOrderRequest` of execution/broker_interface.py
pub record BrokerOrderRequest (F : Type 0) : Type 0 where
  pub order_id : String
  pub correlation_id : String
  pub symbol : String
  pub side : OrderSide
  pub quantity : ℕ
  pub order_type : OrderType
  pub limit_price : Option F
  pub time_in_force : TimeInForce
  pub oca_group : Option String
  pub oca_type : ℕ

-- The methods of `BrokerInterface` that change the state of orders.
pub data BrokerCall (F : Type 0) : Type 0 where
  place_order : BrokerOrderRequest F → BrokerCall F
  cancel_order : String → BrokerCall F
  cancel_all_orders : BrokerCall F

-- What `stream_events` yields.
pub data BrokerEvent (F : Type 0) : Type 0 where
  acked : OrderAckEvent → BrokerEvent F
  refused : OrderRejectEvent → BrokerEvent F
  executed : ExecutionEvent F → BrokerEvent F

abbrev pub event_order_id : {F : Type 0} → BrokerEvent F → String
event_order_id (acked e) = e.order_id
event_order_id (refused e) = e.order_id
event_order_id (executed e) = e.order_id

abbrev pub event_correlation_id : {F : Type 0} → BrokerEvent F → String
event_correlation_id (acked e) = e.correlation_id
event_correlation_id (refused e) = e.correlation_id
event_correlation_id (executed e) = e.correlation_id

-- One event of the order with these ids comes to a queue.
abbrev pub Says :
    {F : Type 0} → String → String → List (BrokerEvent F) → List (BrokerEvent F) → Type 0
Says order_id correlation_id queue queue' =
    (e : BrokerEvent _) × ((queue' ≡ queue ++ e ∷ [])
      × (event_order_id e ≡ order_id)
      × (event_correlation_id e ≡ correlation_id))

abbrev pub is_open : {F : Type 0} → ManagedOrder F → Bool
is_open o = not (is_terminal o.status)

module _ {F : Type 0} ⦃f : Float F⦄ where
  abbrev pub managed : String → DateTime → SignalEvent F → Option F → ManagedOrder F
  managed order_id now s expected_price = record {
    order_id = order_id;
    correlation_id = s.correlation_id;
    symbol = s.symbol;
    side = s.side;
    quantity = nat_abs s.target_quantity;
    order_type = s.order_type;
    limit_price = s.limit_price;
    time_in_force = s.time_in_force;
    expected_price = expected_price;
    oca_group = s.oca_group;
    status = submitted;
    filled_quantity = 0;
    remaining_quantity = nat_abs s.target_quantity;
    avg_fill_price = lit 0;
    reject_reason = "";
    created_ts = now;
    updated_ts = now;
  }

  abbrev pub request : String → SignalEvent F → BrokerOrderRequest F
  request order_id s = record {
    order_id = order_id;
    correlation_id = s.correlation_id;
    symbol = s.symbol;
    side = s.side;
    quantity = nat_abs s.target_quantity;
    order_type = s.order_type;
    limit_price = s.limit_price;
    time_in_force = s.time_in_force;
    oca_group = s.oca_group;
    oca_type = 1;
  }

  -- The order after an event, and the event that is published.
  unfoldable pub apply_event : DateTime → BrokerEvent F → ManagedOrder F → ManagedOrder F
  apply_event now (acked e) o = record o { updated_ts = now; status = e.status }
  apply_event now (refused e) o = record o {
    updated_ts = now;
    status = rejected;
    reject_reason = e.reason;
  }
  apply_event now (executed e) o =
      let prev_notional = o.avg_fill_price *F f.of_int (pos o.filled_quantity) in
      let new_notional = prev_notional +F e.fill_price *F f.of_int (pos e.fill_quantity) in
      record o {
        updated_ts = now;
        filled_quantity = e.cumulative_quantity;
        remaining_quantity = e.remaining_quantity;
        avg_fill_price =
            if e.cumulative_quantity == 0
            then lit 0
            else new_notional /F f.of_int (pos e.cumulative_quantity);
        status = if e.remaining_quantity == 0 then filled else partially_filled;
      }

  -- The execution with the order's decision-time price.
  abbrev pub enriched : ExecutionEvent F → ManagedOrder F → ExecutionEvent F
  enriched e o = record e { expected_price = o.expected_price }

  abbrev pub published : BrokerEvent F → ManagedOrder F → Event F
  published (acked e) o = on_ack e
  published (refused e) o = on_reject e
  published (executed e) o = on_execution (enriched e o)

  abbrev pub tracked : BrokerEvent F → ManagedOrder F → SlippageTracker F → SlippageTracker F
  tracked (acked e) o t = t
  tracked (refused e) o t = t
  tracked (executed e) o t = record_fill (enriched e o) t
