-- ===== src/Execution/Binance/Answered.antt =====
-- Every order that is placed is sent, rejected or refused by an exception.
use binbot.Base.{
  ◌≡◌, ◌⊎◌, inl, inr, refl, sym, ap, ◌∙◌, true, false, Option, none, some, String, List, [], ◌∷◌,
  ◌++◌, append-nil, pos, if-cases, Result, ok, err, Error, value_error, str_eq,
}
use binbot.Float.{Float, FloatMath, ◌<F◌}
use binbot.Dict.{get}
use binbot.Core.Events.{DateTime}
use binbot.Execution.Orders.{BrokerOrderRequest, BrokerEvent}
use binbot.Execution.Binance.{
  BinanceFuturesBroker, SymbolFilters, OrderParams, create_order, side_value, order_type_map,
  truncate, lots_to_quantity, put_event,
}
use binbot.Execution.Binance.Sending.{
  place_order, place_found, send, send_limit, send_registered, register, join_group, enter_group,
  is_limit, reject_of, below_min_qty, params_of,
}

abbrev pub IsRaised :
    {F : Type 0} → BinanceFuturesBroker F → Result (Unit {0}) × BinanceFuturesBroker F → Type 0
IsRaised b x =
    (e : Error) × ((x.0 ≡ err e) × (x.1.calls ≡ b.calls) × (x.1.event_queue ≡ b.event_queue))

module _ {F : Type 0} (now : DateTime) (answer : Option String) (r : BrokerOrderRequest F)
    (b : BinanceFuturesBroker F) where
  -- What the exchange's answer adds to the queue.
  abbrev pub replies : Option String → List (BrokerEvent F)
  replies none = []
  replies (some exc) = reject_of now r exc ∷ []

  -- One order goes out, by the order's symbol, side and type, under its client id.
  abbrev pub IsSent : F → Result (Unit {0}) × BinanceFuturesBroker F → Type 0
  IsSent quantity x =
      (params : OrderParams F) × ((x.0 ≡ ok tt)
        × (x.1.calls ≡ b.calls ++ create_order params ∷ [])
        × (x.1.event_queue ≡ b.event_queue ++ replies answer)
        × (params.symbol ≡ r.symbol)
        × (params.side ≡ side_value r.side)
        × (params.order_type ≡ order_type_map r.order_type)
        × (params.quantity ≡ quantity)
        × (params.new_client_order_id ≡ truncate 36 r.order_id))

-- The registration leaves the calls and the queue alone.
abbrev IsQuiet : {F : Type 0} → BinanceFuturesBroker F → BinanceFuturesBroker F → Type 0
IsQuiet b b' = (b'.calls ≡ b.calls) × (b'.event_queue ≡ b.event_queue)

module _ {F : Type 0} where
  join_group-IsQuiet :
      (group : Option String) (id : String) (b b' : BinanceFuturesBroker F)
      → IsQuiet b b'
      → IsQuiet b (join_group group id b')
  join_group-IsQuiet none id b b' h = h
  join_group-IsQuiet (some group) id b b' h =
      if-cases (IsQuiet b) (str_eq group "") b' (enter_group group id b') (λ t. h) (λ f. h)

  register-IsQuiet :
      (r : BrokerOrderRequest F) (b : BinanceFuturesBroker F) → IsQuiet b (register r b)
  unfolding register
  register-IsQuiet r b = join_group-IsQuiet r.oca_group r.order_id b _ (refl, refl)

module _ {F : Type 0} ⦃f : Float F⦄ ⦃m : FloatMath F⦄ (now : DateTime) (r : BrokerOrderRequest F)
    (b : BinanceFuturesBroker F) where
  IsSent-send :
      (answer : Option String) (q : F) (price : Option F) (tif : Option String)
      (b' : BinanceFuturesBroker F)
      → IsQuiet b b'
      → IsSent now answer r b q (ok tt, send now answer r (params_of r q price tif) b')
  unfolding send
  IsSent-send none q price tif b' h =
      let params = params_of r q price tif in
      (
        params,
        (
          refl,
          ap (λ calls. calls ++ create_order params ∷ []) h.0,
          h.1 ∙ sym (append-nil b.event_queue),
          refl,
          refl,
          refl,
          refl,
          refl,
        ),
      )
  IsSent-send (some exc) q price tif b' h =
      let params = params_of r q price tif in
      (
        params,
        (
          refl,
          ap (λ calls. calls ++ create_order params ∷ []) h.0,
          ap (λ queue. queue ++ reject_of now r exc ∷ []) h.1,
          refl,
          refl,
          refl,
          refl,
          refl,
        ),
      )

  -- Sent, or raised for want of a price, for a quantity that the exchange takes.
  abbrev pub IsSentOrRaised :
      Option String → F → Result (Unit {0}) × BinanceFuturesBroker F → Type 0
  IsSentOrRaised answer q x =
      IsSent now answer r b q x
      ⊎ ((is_limit r.order_type ≡ true) × (r.limit_price ≡ none) × IsRaised b x)

  IsSentOrRaised-send_limit :
      (answer : Option String) (filt : SymbolFilters F) (q : F) (price : Option F)
      (b' : BinanceFuturesBroker F)
      → IsQuiet b b'
      → is_limit r.order_type ≡ true
      → r.limit_price ≡ price
      → IsSentOrRaised answer q (send_limit now answer r filt q price b')
  unfolding send_limit
  IsSentOrRaised-send_limit answer filt q none b' h t e =
      inr (t, e, (value_error "LIMIT order requires limit_price", (refl, h.0, h.1)))
  IsSentOrRaised-send_limit answer filt q (some price) b' h t e =
      inl (IsSent-send answer q _ _ b' h)

  IsSentOrRaised-send_registered :
      (answer : Option String) (filt : SymbolFilters F) (q : F) (b' : BinanceFuturesBroker F)
      → IsQuiet b b'
      → IsSentOrRaised answer q (send_registered now answer r filt q b')
  unfolding send_registered
  IsSentOrRaised-send_registered answer filt q b' h =
      if-cases (IsSentOrRaised answer q) (is_limit r.order_type)
        (send_limit now answer r filt q r.limit_price b')
        (ok tt, send now answer r (params_of r q none none) b')
        (λ t. IsSentOrRaised-send_limit answer filt q r.limit_price b' h t refl)
        (λ e. inl (IsSent-send answer q none none b' h))

module _ {F : Type 0} ⦃f : Float F⦄ ⦃m : FloatMath F⦄ (show : F → String) (now : DateTime)
    (answer : Option String) (r : BrokerOrderRequest F) (b : BinanceFuturesBroker F) where
  -- Three ends, by the filters of the order's symbol and its quantity.
  abbrev pub IsAnswered :
      Option (SymbolFilters F) → Result (Unit {0}) × BinanceFuturesBroker F → Type 0
  IsAnswered none x = IsRaised b x
  IsAnswered (some filt) x =
      let q = lots_to_quantity filt (pos r.quantity) in
      ((q <F filt.min_qty ≡ true)
        × (x ≡ (ok tt, put_event (reject_of now r (below_min_qty show q filt.min_qty r.symbol)) b)))
      ⊎ ((q <F filt.min_qty ≡ false) × IsSentOrRaised now r b answer q x)

  IsAnswered-place_found :
      (o : Option (SymbolFilters F))
      → IsAnswered o (place_found now answer r (below_min_qty show) o b)
  unfolding place_found
  IsAnswered-place_found none = (_, (refl, refl, refl))
  IsAnswered-place_found (some filt) =
      let q = lots_to_quantity filt (pos r.quantity) in
      if-cases (IsAnswered (some filt)) (q <F filt.min_qty)
        (ok tt, put_event (reject_of now r (below_min_qty show q filt.min_qty r.symbol)) b)
        (send_registered now answer r filt q (register r b)) (λ t. inl (t, refl))
        (λ e. inr (
          e,
          IsSentOrRaised-send_registered now r b answer filt q (register r b)
              (register-IsQuiet r b),
        ))

  -- No order is lost: on a symbol without filters the call raises, and nothing is sent or queued. Below the exchange's
  -- minimum quantity nothing is sent, and exactly one rejection with the order's ids is queued. Otherwise exactly one order goes out, with
  -- the order's symbol, side, type, quantity and client id, and a rejection is queued if and only if the exchange
  -- raises; or the order is a LIMIT order without a price, the call raises and nothing is sent or queued.
  pub place_order-IsAnswered : IsAnswered (get b.filters r.symbol) (place_order show now answer r b)
  unfolding place_order
  place_order-IsAnswered = IsAnswered-place_found (get b.filters r.symbol)
