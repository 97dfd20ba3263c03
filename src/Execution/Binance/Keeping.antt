-- ===== src/Execution/Binance/Keeping.antt =====
-- What holds of the adapter through its calls and its events holds after every order that it sends or cancels.
use binbot.Base.{
  ◌≡◌, false, Option, none, some, String, List, [], ◌∷◌, pos, arith, if-cases, Result, ok,
}
use binbot.Float.{Float, FloatMath, ◌<F◌}
use binbot.Dict.{get}
use binbot.Core.Events.{DateTime}
use binbot.Execution.Orders.{BrokerOrderRequest, BrokerEvent}
use binbot.Execution.Binance.{
  BinanceFuturesBroker, SymbolFilters, OrderParams, Call, create_order, cancel_by_client_id,
  truncate, lots_to_quantity, put_event, request_of,
}
use binbot.Execution.Binance.Sending.{
  place_found, send_limit, register, send, send_registered, cancel_order, cancel_found, is_limit,
  reject_of, params_of,
}
use binbot.Execution.Binance.UserStream.{cancel_siblings}

-- A call of `place_order` with the exchange's answer.
pub record Placement (F : Type 0) : Type 0 where
  pub now : DateTime
  pub answer : Option String
  pub request : BrokerOrderRequest F

module _ {F : Type 0} (P : BinanceFuturesBroker F → Type 0)
    (keeps_events : (e : BrokerEvent F) (b : BinanceFuturesBroker F) → P b → P (put_event e b))
    (keeps_calls : (c : Call F) (b : BinanceFuturesBroker F) → P b → P (request_of c b)) where
  send_keeps :
      (now : DateTime) (answer : Option String) (r : BrokerOrderRequest F) (params : OrderParams F)
      (b : BinanceFuturesBroker F)
      → P b
      → P (send now answer r params b)
  unfolding send
  send_keeps now none r params b h = keeps_calls (create_order params) b h
  send_keeps now (some exc) r params b h =
      keeps_events (reject_of now r exc) (request_of (create_order params) b)
        (keeps_calls (create_order params) b h)

  cancel_found_keeps :
      (order_id : String) (o : Option String) (b : BinanceFuturesBroker F)
      → P b
      → P (cancel_found order_id o b)
  unfolding cancel_found
  cancel_found_keeps order_id none b h = h
  cancel_found_keeps order_id (some symbol) b h =
      keeps_calls (cancel_by_client_id symbol (truncate 36 order_id)) b h

  pub cancel_siblings_keeps :
      (ids : List String) (b : BinanceFuturesBroker F) → P b → P (cancel_siblings ids b)
  unfolding cancel_siblings cancel_order
  cancel_siblings_keeps [] b h = h
  cancel_siblings_keeps (id ∷ ids) b h =
      cancel_siblings_keeps ids (cancel_order id b)
        (cancel_found_keeps id (get b.order_symbol id) b h)

module _ {F : Type 0} ⦃f : Float F⦄ ⦃m : FloatMath F⦄ (P : BinanceFuturesBroker F → Type 0)
    (keeps_events : (e : BrokerEvent F) (b : BinanceFuturesBroker F) → P b → P (put_event e b))
    (keeps_calls : (c : Call F) (b : BinanceFuturesBroker F) → P b → P (request_of c b)) where
  send_limit_keeps :
      (now : DateTime) (answer : Option String) (r : BrokerOrderRequest F) (filt : SymbolFilters F)
      (q : F) (price : Option F) (b : BinanceFuturesBroker F)
      → P b
      → P (send_limit now answer r filt q price b).1
  unfolding send_limit
  send_limit_keeps now answer r filt q none b h = h
  send_limit_keeps now answer r filt q (some price) b h =
      send_keeps P keeps_events keeps_calls now answer r _ b h

  pub send_registered_keeps :
      (now : DateTime) (answer : Option String) (r : BrokerOrderRequest F) (filt : SymbolFilters F)
      (q : F) (b : BinanceFuturesBroker F)
      → P b
      → P (send_registered now answer r filt q b).1
  unfolding send_registered
  send_registered_keeps now answer r filt q b h =
      if-cases (λ (x : Result (Unit {0}) × BinanceFuturesBroker F). P x.1) (is_limit r.order_type)
        (send_limit now answer r filt q r.limit_price b)
        (ok tt, send now answer r (params_of r q none none) b)
        (λ t. send_limit_keeps now answer r filt q r.limit_price b h)
        (λ e. send_keeps P keeps_events keeps_calls now answer r (params_of r q none none) b h)

  pub place_found_keeps :
      (now : DateTime) (answer : Option String) (r : BrokerOrderRequest F)
      (reason : F → F → String → String) (o : Option (SymbolFilters F)) (b : BinanceFuturesBroker F)
      → P b
      → P (register r b)
      → P (place_found now answer r reason o b).1
  unfolding place_found
  place_found_keeps now answer r reason none b h k = h
  place_found_keeps now answer r reason (some filt) b h k =
      let q = lots_to_quantity filt (pos r.quantity) in
      let e = reject_of now r (reason q filt.min_qty r.symbol) in
      if-cases (λ (x : Result (Unit {0}) × BinanceFuturesBroker F). P x.1) (q <F filt.min_qty)
        (ok tt, put_event e b) (send_registered now answer r filt q (register r b))
        (λ t. keeps_events e b h) (λ g. send_registered_keeps now answer r filt q (register r b) k)

  -- A quantity that is large enough is registered.
  pub place_found_sent :
      (now : DateTime) (answer : Option String) (r : BrokerOrderRequest F)
      (reason : F → F → String → String) (filt : SymbolFilters F) (b : BinanceFuturesBroker F)
      → (lots_to_quantity filt (pos r.quantity) <F filt.min_qty) ≡ false
      → P (register r b)
      → P (place_found now answer r reason (some filt) b).1
  unfolding place_found
  place_found_sent now answer r reason filt b g k =
      let q = lots_to_quantity filt (pos r.quantity) in
      if-cases (λ (x : Result (Unit {0}) × BinanceFuturesBroker F). P x.1) (q <F filt.min_qty)
        (ok tt, put_event (reject_of now r (reason q filt.min_qty r.symbol)) b)
        (send_registered now answer r filt q (register r b)) (λ t. ground (arith, t, g))
        (λ e. send_registered_keeps now answer r filt q (register r b) k)
