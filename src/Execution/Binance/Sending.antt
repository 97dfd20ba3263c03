-- ===== src/Execution/Binance/Sending.antt =====
-- The orders that execution/binance_broker.py sends and cancels. The answer to an order is `none` where the call
-- returns, and the exception's text where it raises.
use Prim.Native.String.{◌++◌ as str_append}
use binbot.Base.{
  Bool, true, false, Option, none, some, String, List, [], ◌∷◌, ◌++◌, pos, Result, ok, err,
  value_error, str_eq, member, if◌then◌else◌,
}
use binbot.Float.{Float, FloatMath, ◌<F◌}
use binbot.Dict.{get, put, get_or}
use binbot.Core.Enums.{OrderType, limit}
use binbot.Core.Events.{DateTime}
use binbot.Execution.Orders.{BrokerOrderRequest, BrokerEvent, refused}
use binbot.Execution.Binance.{
  BinanceFuturesBroker, SymbolFilters, OrderParams, create_order, cancel_by_client_id,
  cancel_all_open_orders, request_of, put_event, side_value, order_type_map, tif_map, truncate,
  round_step, lots_to_quantity,
}

-- `set.add`
abbrev pub add_to_set : String → List String → List String
add_to_set x xs = if member x xs then xs else xs ++ x ∷ []

abbrev pub is_limit : OrderType → Bool
is_limit limit = true
is_limit _ = false

module _ {F : Type 0} where
  abbrev pub reject_of : DateTime → BrokerOrderRequest F → String → BrokerEvent F
  reject_of now r reason = refused (record {
    ts = now;
    order_id = r.order_id;
    correlation_id = r.correlation_id;
    symbol = r.symbol;
    reason = reason;
  })

  abbrev pub enter_group : String → String → BinanceFuturesBroker F → BinanceFuturesBroker F
  enter_group group order_id b = record b {
    order_to_oca_group = put b.order_to_oca_group order_id group;
    oca_groups = put b.oca_groups group (add_to_set order_id (get_or b.oca_groups group []));
  }

  abbrev pub join_group : Option String → String → BinanceFuturesBroker F → BinanceFuturesBroker F
  join_group none order_id b = b
  join_group (some group) order_id b = if str_eq group "" then b else enter_group group order_id b

  -- What `place_order` notes of an order before it is sent.
  unfoldable pub register : BrokerOrderRequest F → BinanceFuturesBroker F → BinanceFuturesBroker F
  register r b =
      let client_order_id = truncate 36 r.order_id in
      join_group r.oca_group r.order_id (record b {
        client_order_to_correlation =
            put b.client_order_to_correlation client_order_id r.correlation_id;
        client_order_to_internal_id = put b.client_order_to_internal_id client_order_id r.order_id;
        order_symbol = put b.order_symbol r.order_id r.symbol;
      })

  -- The call, and a rejection where it raises.
  unfoldable pub send :
      DateTime
      → Option String
      → BrokerOrderRequest F
      → OrderParams F
      → BinanceFuturesBroker F
      → BinanceFuturesBroker F
  send now none r params b = request_of (create_order params) b
  send now (some exc) r params b =
      put_event (reject_of now r exc) (request_of (create_order params) b)

module _ {F : Type 0} ⦃f : Float F⦄ ⦃m : FloatMath F⦄ where
  abbrev pub params_of : BrokerOrderRequest F → F → Option F → Option String → OrderParams F
  params_of r raw_quantity price time_in_force = record {
    symbol = r.symbol;
    side = side_value r.side;
    order_type = order_type_map r.order_type;
    quantity = raw_quantity;
    new_client_order_id = truncate 36 r.order_id;
    price = price;
    time_in_force = time_in_force;
  }

  -- A LIMIT order with its price, and without one.
  unfoldable pub send_limit :
      DateTime
      → Option String
      → BrokerOrderRequest F
      → SymbolFilters F
      → F
      → Option F
      → BinanceFuturesBroker F
      → Result (Unit {0}) × BinanceFuturesBroker F
  unfolding send
  send_limit now answer r filt raw_quantity none b =
      (err (value_error "LIMIT order requires limit_price"), b)
  send_limit now answer r filt raw_quantity (some price) b =
      let params =
        params_of r raw_quantity (some (round_step price filt.tick_size))
          (some (tif_map r.time_in_force)) in
      (ok tt, send now answer r params b)

  -- From the registration on.
  unfoldable pub send_registered :
      DateTime
      → Option String
      → BrokerOrderRequest F
      → SymbolFilters F
      → F
      → BinanceFuturesBroker F
      → Result (Unit {0}) × BinanceFuturesBroker F
  unfolding send_limit
  send_registered now answer r filt raw_quantity b =
      if is_limit r.order_type
      then send_limit now answer r filt raw_quantity r.limit_price b
      else (ok tt, send now answer r (params_of r raw_quantity none none) b)

  -- `place_order` by the filters found; a quantity below the minimum is rejected with `reason`.
  unfoldable pub place_found :
      DateTime
      → Option String
      → BrokerOrderRequest F
      → (F → F → String → String)
      → Option (SymbolFilters F)
      → BinanceFuturesBroker F
      → Result (Unit {0}) × BinanceFuturesBroker F
  unfolding send_registered register
  place_found now answer r reason none b = (
    err (
        value_error (
          str_append "no exchange filters loaded for symbol="
            (str_append r.symbol "; was connect() called?"))),
    b,
  )
  place_found now answer r reason (some filt) b =
      let raw_quantity = lots_to_quantity filt (pos r.quantity) in
      if raw_quantity <F filt.min_qty
      then (ok tt, put_event (reject_of now r (reason raw_quantity filt.min_qty r.symbol)) b)
      else send_registered now answer r filt raw_quantity (register r b)

-- The text of a float comes from `show`.
module _ {F : Type 0} ⦃f : Float F⦄ ⦃m : FloatMath F⦄ (show : F → String) where
  abbrev pub below_min_qty : F → F → String → String
  below_min_qty raw_quantity min_qty symbol = str_append "quantity " (
      str_append (show raw_quantity) (
        str_append " below exchange minimum "
          (str_append (show min_qty) (str_append " for " symbol))))

  unfoldable pub place_order :
      DateTime
      → Option String
      → BrokerOrderRequest F
      → BinanceFuturesBroker F
      → Result (Unit {0}) × BinanceFuturesBroker F
  unfolding place_found
  place_order now answer r b = place_found now answer r below_min_qty (get b.filters r.symbol) b

module _ {F : Type 0} where
  -- `cancel_order` by the order's symbol; an exception of the exchange is logged.
  unfoldable pub cancel_found :
      String → Option String → BinanceFuturesBroker F → BinanceFuturesBroker F
  cancel_found order_id none b = b
  cancel_found order_id (some symbol) b =
      request_of (cancel_by_client_id symbol (truncate 36 order_id)) b

  unfoldable pub cancel_order : String → BinanceFuturesBroker F → BinanceFuturesBroker F
  unfolding cancel_found
  cancel_order order_id b = cancel_found order_id (get b.order_symbol order_id) b

  -- The loop of `cancel_all`.
  unfoldable pub cancel_each : List String → BinanceFuturesBroker F → BinanceFuturesBroker F
  cancel_each [] b = b
  cancel_each (symbol ∷ symbols) b =
      cancel_each symbols (request_of (cancel_all_open_orders symbol) b)

  unfoldable pub cancel_all : BinanceFuturesBroker F → BinanceFuturesBroker F
  unfolding cancel_each
  cancel_all b = cancel_each b.symbols b
