-- ===== src/Execution/OrderManager.antt =====
-- execution/order_manager.py: the life of every order in flight. Calls of the broker are recorded in
-- order; `uuid4` is a supply of texts, drawn in turn; times come in as arguments.
pub mod Fills
pub mod Book
pub mod Oco
use Prim.Native.String.append
use Prim.Native.String.{◌++◌ as str_append}
use binbot.Base.{
  ℕ, zero, suc, ◌+◌, Bool, true, false, not, Option, none, some, String, List, [], ◌∷◌, ◌++◌, ℤ,
  pos, nat_abs, ltb, ◌==◌, length, filter, Result, ok, err, value_error, if◌then◌else◌,
}
use binbot.Float.{Float, ◌+F◌, ◌*F◌, ◌/F◌, lit}
use binbot.Dict.{Dict, get, put, values}
use binbot.Core.Enums.{
  OrderSide, OrderType, TimeInForce, OrderStatus, submitted, cancel_pending, rejected, filled,
  partially_filled, is_terminal,
}
use binbot.Core.Events.{
  DateTime, SignalEvent, OrderAckEvent, OrderRejectEvent, ExecutionEvent, Event, on_ack, on_reject,
  on_execution,
}
use binbot.Core.EventBus.{EventBus, publish}
use binbot.Execution.Slippage.{SlippageTracker}
use binbot.Execution.Orders.{
  ManagedOrder, BrokerCall, place_order, cancel_order, cancel_all_orders, BrokerEvent,
  event_order_id, managed, request, is_open, apply_event, published, tracked,
}

pub record OrderLifecycleManager (W F : Type 0) : Type 0 where
  pub broker_calls : List (BrokerCall F)
  pub event_bus : EventBus W F
  pub slippage_tracker : SlippageTracker F
  pub orders : Dict (ManagedOrder F)
  pub uuids_drawn : ℕ

module _ {W F : Type 0} ⦃f : Float F⦄ (uuid : ℕ → String) where
  unfoldable pub submit :
      DateTime
      → SignalEvent F
      → Option F
      → OrderLifecycleManager W F
      → ManagedOrder F × OrderLifecycleManager W F
  submit now s expected_price m =
      let order_id = uuid m.uuids_drawn in
      let order = managed order_id now s expected_price in
      (
        order,
        record m {
          uuids_drawn = m.uuids_drawn + 1;
          orders = put m.orders order_id order;
          broker_calls = m.broker_calls ++ place_order (request order_id s) ∷ [];
        },
      )

  -- The loop at the end of `submit_oco`, with the group written into each signal.
  unfoldable pub submit_each :
      DateTime
      → String
      → List (SignalEvent F)
      → OrderLifecycleManager W F
      → List (ManagedOrder F) × OrderLifecycleManager W F
  submit_each now group [] m = ([], m)
  submit_each now group (s ∷ rest) m =
      let (order, m') = submit now (record s { oca_group = some group }) none m in
      let (orders, m'') = submit_each now group rest m' in (order ∷ orders, m'')

  unfoldable pub submit_oco :
      DateTime
      → List (SignalEvent F)
      → OrderLifecycleManager W F
      → Result (List (ManagedOrder F)) × OrderLifecycleManager W F
  submit_oco now signals m =
      if ltb (length signals) 2
      then (err (value_error "OCO group requires at least 2 signals"), m)
      else (let group = str_append "oca-" (uuid m.uuids_drawn) in
          let (orders, m') =
            submit_each now group signals (record m { uuids_drawn = m.uuids_drawn + 1 }) in
          (ok orders, m'))

module _ {W F : Type 0} where
  -- `cancel` by the order found.
  unfoldable pub cancel_found :
      String → Option (ManagedOrder F) → OrderLifecycleManager W F → OrderLifecycleManager W F
  cancel_found order_id none m = m
  cancel_found order_id (some order) m = record m {
    orders = put m.orders order_id (record order { status = cancel_pending });
    broker_calls = m.broker_calls ++ cancel_order order_id ∷ [];
  }

  unfoldable pub cancel : String → OrderLifecycleManager W F → OrderLifecycleManager W F
  unfolding cancel_found
  cancel order_id m = cancel_found order_id (get m.orders order_id) m

  unfoldable pub cancel_all : OrderLifecycleManager W F → OrderLifecycleManager W F
  cancel_all m = record m { broker_calls = m.broker_calls ++ cancel_all_orders ∷ [] }

  unfoldable pub open_orders : OrderLifecycleManager W F → List (ManagedOrder F)
  open_orders m = filter is_open (values m.orders)

module _ {W F : Type 0} ⦃f : Float F⦄ where
  unfoldable pub handle_found :
      DateTime
      → BrokerEvent F
      → Option (ManagedOrder F)
      → OrderLifecycleManager W F
      → OrderLifecycleManager W F
  unfolding apply_event
  handle_found now event none m = m
  handle_found now event (some order) m = record m {
    orders = put m.orders (event_order_id event) (apply_event now event order);
    slippage_tracker = tracked event order m.slippage_tracker;
    event_bus = publish m.event_bus (published event order);
  }

  unfoldable pub handle_broker_event :
      DateTime → BrokerEvent F → OrderLifecycleManager W F → OrderLifecycleManager W F
  unfolding handle_found
  handle_broker_event now event m = handle_found now event (get m.orders (event_order_id event)) m

  -- `_consume_broker_events` over a finite stream.
  unfoldable pub consume :
      List (DateTime × BrokerEvent F) → OrderLifecycleManager W F → OrderLifecycleManager W F
  consume [] m = m
  consume ((now, event) ∷ rest) m = consume rest (handle_broker_event now event m)
