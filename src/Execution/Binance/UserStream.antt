-- ===== src/Execution/Binance/UserStream.antt =====
-- The user data stream of execution/binance_broker.py: what an order's update makes of it, and the cancelling of
-- the siblings of a filled order.
use Prim.Native.String.{◌++◌ as str_append}
use binbot.Base.{
  ℕ, ◌-◌, ◌*◌, Bool, not, Option, none, some, String, List, [], ◌∷◌, filter, Result, ok, err,
  key_error, str_eq, if◌then◌else◌,
}
use binbot.Float.{Float, FloatMath, lit}
use binbot.Dict.{get, put, get_or}
use binbot.Core.Enums.{buy, sell, OrderStatus, rejected}
use binbot.Core.Events.{DateTime, ExecutionEvent, maker, taker}
use binbot.Execution.Orders.{BrokerEvent, acked, refused, executed}
use binbot.Execution.Binance.{
  BinanceFuturesBroker, SymbolFilters, put_event, order_status_map, quantity_to_lots,
}
use binbot.Execution.Binance.Sending.{cancel_order}

-- The object "o" of an ORDER_TRADE_UPDATE, by its keys; two keys of one letter differ by their case.
pub record OrderUpdate (F : Type 0) : Type 0 where
  pub c : String
  pub s : String
  pub side : String
  pub exec_type : String
  pub order_status : String
  pub l : F
  pub z : F
  pub q : F
  pub trade_time_ms : ℕ
  pub last_price : F
  pub n : Option F
  pub m : Bool
  pub i : String

pub data Message (F : Type 0) : Type 0 where
  order_trade_update : OrderUpdate F → Message F
  other_message : Message F

abbrev pub siblings_of : String → List String → List String
siblings_of order_id = filter (λ oid. not (str_eq oid order_id))

module _ {F : Type 0} where
  -- The loop over the siblings.
  unfoldable pub cancel_siblings : List String → BinanceFuturesBroker F → BinanceFuturesBroker F
  cancel_siblings [] b = b
  cancel_siblings (sibling_id ∷ siblings) b = cancel_siblings siblings (cancel_order sibling_id b)

  -- `_handle_oca_fill` by the group, and by its orders.
  unfoldable pub fill_in_group :
      String → String → Option (List String) → BinanceFuturesBroker F → BinanceFuturesBroker F
  unfolding cancel_siblings
  fill_in_group order_id group_name none b = b
  fill_in_group order_id group_name (some order_ids) b =
      let b' = cancel_siblings (siblings_of order_id order_ids) b in
      record b' { oca_groups = put b'.oca_groups group_name [] }

  unfoldable pub fill_in : String → Option String → BinanceFuturesBroker F → BinanceFuturesBroker F
  unfolding fill_in_group
  fill_in order_id none b = b
  fill_in order_id (some group_name) b =
      fill_in_group order_id group_name (get b.oca_groups group_name) b

  unfoldable pub handle_oca_fill : String → BinanceFuturesBroker F → BinanceFuturesBroker F
  unfolding fill_in
  handle_oca_fill order_id b = fill_in order_id (get b.order_to_oca_group order_id) b

  abbrev pub internal_order_id : OrderUpdate F → BinanceFuturesBroker F → String
  internal_order_id o b = get_or b.client_order_to_internal_id o.c o.c

  abbrev pub correlation_id : OrderUpdate F → BinanceFuturesBroker F → String
  correlation_id o b = get_or b.client_order_to_correlation o.c ""

  -- The event of an update that is no trade.
  unfoldable pub status_event :
      DateTime → OrderStatus → OrderUpdate F → BinanceFuturesBroker F → BrokerEvent F
  status_event now rejected o b = refused (record {
    ts = now;
    order_id = internal_order_id o b;
    correlation_id = correlation_id o b;
    symbol = o.s;
    reason = str_append "Binance order status=" o.order_status;
  })
  status_event now status o b = acked (record {
    ts = now;
    order_id = internal_order_id o b;
    correlation_id = correlation_id o b;
    symbol = o.s;
    status = status;
    broker_order_id = some o.i;
  })

  -- An update that is no trade; a status that the map lacks is dropped.
  unfoldable pub handle_status :
      DateTime
      → Option OrderStatus
      → OrderUpdate F
      → BinanceFuturesBroker F
      → Result (Unit {0}) × BinanceFuturesBroker F
  unfolding status_event
  handle_status now none o b = (ok tt, b)
  handle_status now (some status) o b = (ok tt, put_event (status_event now status o b) b)

module _ {F : Type 0} ⦃f : Float F⦄ ⦃m : FloatMath F⦄ where
  -- The commission is what `float` makes of the text, and 0 where there is none.
  unfoldable pub execution_of :
      SymbolFilters F → OrderUpdate F → BinanceFuturesBroker F → ExecutionEvent F
  execution_of filt o b =
      let cumulative_lots = quantity_to_lots filt o.z in
      record {
        ts = o.trade_time_ms * 1000;
        order_id = internal_order_id o b;
        correlation_id = correlation_id o b;
        symbol = o.s;
        side = if str_eq o.side "BUY" then buy else sell;
        fill_quantity = quantity_to_lots filt o.l;
        fill_price = o.last_price;
        cumulative_quantity = cumulative_lots;
        remaining_quantity = quantity_to_lots filt o.q - cumulative_lots;
        commission = elim o.n [ none ↦ lit 0 | some n ↦ n ];
        liquidity = if o.m then maker else taker;
        expected_price = none;
      }

  -- The branch of a TRADE, by the filters of its symbol; without filters it raises.
  unfoldable pub handle_trade :
      Option (SymbolFilters F)
      → OrderUpdate F
      → BinanceFuturesBroker F
      → Result (Unit {0}) × BinanceFuturesBroker F
  unfolding execution_of handle_oca_fill
  handle_trade none o b = (err key_error, b)
  handle_trade (some filt) o b =
      let b' = put_event (executed (execution_of filt o b)) b in
      (
        ok tt,
        (if str_eq o.order_status "FILLED" then handle_oca_fill (internal_order_id o b) b' else b'),
      )

  unfoldable pub handle_user_stream_message :
      DateTime → Message F → BinanceFuturesBroker F → Result (Unit {0}) × BinanceFuturesBroker F
  unfolding handle_trade handle_status
  handle_user_stream_message now other_message b = (ok tt, b)
  handle_user_stream_message now (order_trade_update o) b =
      if str_eq o.exec_type "TRADE"
      then handle_trade (get b.filters o.s) o b
      else handle_status now (get order_status_map o.order_status) o b
