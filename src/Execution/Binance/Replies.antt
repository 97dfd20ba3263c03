-- ===== src/Execution/Binance/Replies.antt =====
-- What the user stream says of an order that the adapter placed.
use binbot.Base.{
  ◌≡◌, ◌≢◌, refl, sym, ap, ◌∙◌, subst, false, Option, none, some, String, List, [], ◌∷◌, ◌++◌, pos,
  All, arith, if-cases, str_eq, Result,
}
use binbot.Float.{Float, FloatMath, ◌<F◌}
use binbot.Dict.{Dict, get, get-put_self, get-put_ne}
use binbot.Core.Enums.{
  OrderStatus, pending_new, submitted, cancel_pending, acknowledged, partially_filled, filled,
  cancelled, expired, rejected,
}
use binbot.Core.Events.{DateTime}
use binbot.Execution.Orders.{
  BrokerOrderRequest, executed, event_order_id, event_correlation_id, Says,
}
use binbot.Execution.Binance.{
  BinanceFuturesBroker, SymbolFilters, truncate, lots_to_quantity, order_status_map, put_event,
}
use binbot.Execution.Binance.Sending.{
  place_order, place_found, register, join_group, enter_group, cancel_order, cancel_found,
  below_min_qty,
}
use binbot.Execution.Binance.Keeping.{Placement, place_found_keeps, place_found_sent}
use binbot.Execution.Binance.UserStream.{
  OrderUpdate, order_trade_update, handle_user_stream_message, handle_trade, handle_status,
  handle_oca_fill, fill_in, fill_in_group, internal_order_id, correlation_id, cancel_siblings,
  status_event, execution_of, siblings_of,
}

module _ {F : Type 0} where
  -- The exchange's name of an order leads back to its two ids, in a state with these filters.
  abbrev pub Knows :
      Dict (SymbolFilters F) → String → String → String → BinanceFuturesBroker F → Type 0
  Knows filters c order_id correlation_id b =
      (get b.client_order_to_internal_id c ≡ some order_id)
      × (get b.client_order_to_correlation c ≡ some correlation_id)
      × (b.filters ≡ filters)

  Knows-join_group :
      (filters : Dict (SymbolFilters F)) (c order_id correlation_id : String)
      (group : Option String) (id : String) (b : BinanceFuturesBroker F)
      → Knows filters c order_id correlation_id b
      → Knows filters c order_id correlation_id (join_group group id b)
  Knows-join_group filters c order_id correlation_id none id b h = h
  Knows-join_group filters c order_id correlation_id (some group) id b h =
      if-cases (Knows filters c order_id correlation_id) (str_eq group "") b
        (enter_group group id b) (λ t. h) (λ f. h)

  -- Another order's registration, and its sending, keep it.
  Knows-register :
      (filters : Dict (SymbolFilters F)) (c order_id correlation_id : String)
      (r : BrokerOrderRequest F) (b : BinanceFuturesBroker F)
      → truncate 36 r.order_id ≢ c
      → Knows filters c order_id correlation_id b
      → Knows filters c order_id correlation_id (register r b)
  unfolding register
  Knows-register filters c order_id correlation_id r b n h =
      Knows-join_group filters c order_id correlation_id r.oca_group r.order_id _ (
        get-put_ne b.client_order_to_internal_id (truncate 36 r.order_id) c r.order_id n ∙ h.0,
        get-put_ne b.client_order_to_correlation (truncate 36 r.order_id) c r.correlation_id n
            ∙ h.1,
        h.2,
      )

  Knows-register_self :
      (r : BrokerOrderRequest F) (b : BinanceFuturesBroker F)
      → Knows b.filters (truncate 36 r.order_id) r.order_id r.correlation_id (register r b)
  unfolding register
  Knows-register_self r b =
      Knows-join_group b.filters (truncate 36 r.order_id) r.order_id r.correlation_id r.oca_group
        r.order_id _
        (
          get-put_self b.client_order_to_internal_id (truncate 36 r.order_id) r.order_id,
          get-put_self b.client_order_to_correlation (truncate 36 r.order_id) r.correlation_id,
          refl,
        )

module _ {F : Type 0} where
  event_queue-cancel_siblings :
      (ids : List String) (b : BinanceFuturesBroker F)
      → (cancel_siblings ids b).event_queue ≡ b.event_queue
  unfolding cancel_siblings cancel_order cancel_found
  event_queue-cancel_siblings [] b = refl
  event_queue-cancel_siblings (id ∷ ids) b =
      event_queue-cancel_siblings ids (cancel_order id b) ∙ ground arith

  event_queue-fill_in_group :
      (id group : String) (ids : Option (List String)) (b : BinanceFuturesBroker F)
      → (fill_in_group id group ids b).event_queue ≡ b.event_queue
  unfolding fill_in_group
  event_queue-fill_in_group id group none b = refl
  event_queue-fill_in_group id group (some ids) b =
      event_queue-cancel_siblings (siblings_of id ids) b

  event_queue-fill_in :
      (id : String) (group : Option String) (b : BinanceFuturesBroker F)
      → (fill_in id group b).event_queue ≡ b.event_queue
  unfolding fill_in
  event_queue-fill_in id none b = refl
  event_queue-fill_in id (some group) b =
      event_queue-fill_in_group id group (get b.oca_groups group) b

  event_queue-handle_oca_fill :
      (id : String) (b : BinanceFuturesBroker F)
      → (handle_oca_fill id b).event_queue ≡ b.event_queue
  unfolding handle_oca_fill
  event_queue-handle_oca_fill id b = event_queue-fill_in id (get b.order_to_oca_group id) b

  ids-status_event :
      (now : DateTime) (status : OrderStatus) (o : OrderUpdate F) (b : BinanceFuturesBroker F)
      → (event_order_id (status_event now status o b) ≡ internal_order_id o b)
        × (event_correlation_id (status_event now status o b) ≡ correlation_id o b)
  unfolding status_event
  ids-status_event now pending_new o b = (refl, refl)
  ids-status_event now submitted o b = (refl, refl)
  ids-status_event now acknowledged o b = (refl, refl)
  ids-status_event now partially_filled o b = (refl, refl)
  ids-status_event now filled o b = (refl, refl)
  ids-status_event now cancel_pending o b = (refl, refl)
  ids-status_event now cancelled o b = (refl, refl)
  ids-status_event now rejected o b = (refl, refl)
  ids-status_event now expired o b = (refl, refl)

  internal_order_id_known :
      (filters : Dict (SymbolFilters F)) (order_id correlation : String) (o : OrderUpdate F)
      (b : BinanceFuturesBroker F)
      → Knows filters o.c order_id correlation b
      → (internal_order_id o b ≡ order_id) × (correlation_id o b ≡ correlation)
  internal_order_id_known filters order_id correlation o b h = ground (arith, h.0, h.1)

module _ {F : Type 0} ⦃f : Float F⦄ ⦃m : FloatMath F⦄ where
  Says-handle_trade :
      (filters : Dict (SymbolFilters F)) (order_id correlation : String) (filt : SymbolFilters F)
      (o : OrderUpdate F) (b : BinanceFuturesBroker F)
      → Knows filters o.c order_id correlation b
      → Says order_id correlation b.event_queue (handle_trade (some filt) o b).1.event_queue
  unfolding handle_trade execution_of
  Says-handle_trade filters order_id correlation filt o b h =
      let e = executed (execution_of filt o b) in
      let b' = put_event e b in
      let ids = internal_order_id_known filters order_id correlation o b h in
      (
        e,
        (
          if-cases (λ (x : BinanceFuturesBroker F). x.event_queue ≡ b.event_queue ++ e ∷ [])
              (str_eq o.order_status "FILLED") (handle_oca_fill (internal_order_id o b) b') b'
              (λ t. event_queue-handle_oca_fill (internal_order_id o b) b') (λ f. refl),
          ids.0,
          ids.1,
        ),
      )

  Says-message :
      (filters : Dict (SymbolFilters F)) (order_id correlation : String) (filt : SymbolFilters F)
      (status : OrderStatus) (now : DateTime) (o : OrderUpdate F) (b : BinanceFuturesBroker F)
      → Knows filters o.c order_id correlation b
      → get filters o.s ≡ some filt
      → get order_status_map o.order_status ≡ some status
      → Says order_id correlation b.event_queue
          (handle_user_stream_message now (order_trade_update o) b).1.event_queue
  unfolding handle_user_stream_message handle_status
  Says-message filters order_id correlation filt status now o b h k e =
      let ids = internal_order_id_known filters order_id correlation o b h in
      let same = ids-status_event now status o b in
      let found = ap (λ (d : Dict (SymbolFilters F)). get d o.s) h.2 ∙ k in
      if-cases
        (λ (x : Result (Unit {0}) × BinanceFuturesBroker F).
          Says order_id correlation b.event_queue x.1.event_queue)
        (str_eq o.exec_type "TRADE") (handle_trade (get b.filters o.s) o b)
        (handle_status now (get order_status_map o.order_status) o b)
        (λ t.
          subst (λ x. Says order_id correlation b.event_queue (handle_trade x o b).1.event_queue)
            (sym found) (Says-handle_trade filters order_id correlation filt o b h))
        (λ f.
          subst
            (λ x. Says order_id correlation b.event_queue (handle_status now x o b).1.event_queue)
            (sym e) (status_event now status o b, (refl, same.0 ∙ ids.0, same.1 ∙ ids.1)))

module _ {F : Type 0} ⦃f : Float F⦄ ⦃m : FloatMath F⦄ (show : F → String) where
  unfoldable pub place_all : List (Placement F) → BinanceFuturesBroker F → BinanceFuturesBroker F
  unfolding place_order
  place_all [] b = b
  place_all (p ∷ ps) b = place_all ps (place_order show p.now p.answer p.request b).1

  Knows-place_all :
      (filters : Dict (SymbolFilters F)) (c order_id correlation : String)
      (later : List (Placement F)) (b : BinanceFuturesBroker F)
      → All (λ p. truncate 36 p.request.order_id ≢ c) later
      → Knows filters c order_id correlation b
      → Knows filters c order_id correlation (place_all later b)
  unfolding place_all place_order
  Knows-place_all filters c order_id correlation [] b n h = h
  Knows-place_all filters c order_id correlation (p ∷ later) b n h =
      let reason = below_min_qty show in
      Knows-place_all filters c order_id correlation later
        (place_order show p.now p.answer p.request b).1 n.1
        (place_found_keeps (Knows filters c order_id correlation) (λ e b h. h) (λ c b h. h) p.now
          p.answer p.request reason (get b.filters p.request.symbol) b h
          (Knows-register filters c order_id correlation p.request b n.0 h))

  -- Once an order of at least the minimum quantity is placed on a symbol with filters, and whatever the exchange answers
  -- and other orders with other first 36 characters of their ids follow, an update that the user stream brings under the
  -- order's client id, with a status that the map has, puts exactly one event into the queue, with the order's own id and
  -- correlation id.
  pub place_order-message :
      (placed : Placement F) (later : List (Placement F)) (filt : SymbolFilters F)
      (status : OrderStatus) (now : DateTime) (o : OrderUpdate F) (b : BinanceFuturesBroker F)
      → get b.filters placed.request.symbol ≡ some filt
      → (lots_to_quantity filt (pos placed.request.quantity) <F filt.min_qty) ≡ false
      → All (λ p. truncate 36 p.request.order_id ≢ truncate 36 placed.request.order_id) later
      → o.c ≡ truncate 36 placed.request.order_id
      → o.s ≡ placed.request.symbol
      → get order_status_map o.order_status ≡ some status
      → let b' = place_all (placed ∷ later) b in
        Says placed.request.order_id placed.request.correlation_id b'.event_queue
          (handle_user_stream_message now (order_trade_update o) b').1.event_queue
  unfolding place_all place_order
  place_order-message placed later filt status now o b k q n c s e =
      let r = placed.request in
      let reason = below_min_qty show in
      let first =
        subst
          (λ x.
            Knows b.filters (truncate 36 r.order_id) r.order_id r.correlation_id
              (place_found placed.now placed.answer r reason x b).1)
          (sym k)
          (place_found_sent (Knows b.filters (truncate 36 r.order_id) r.order_id r.correlation_id)
            (λ e b h. h) (λ c b h. h) placed.now placed.answer r reason filt b q
            (Knows-register_self r b)) in
      let knows =
        Knows-place_all b.filters (truncate 36 r.order_id) r.order_id r.correlation_id later
          (place_order show placed.now placed.answer r b).1 n first in
      Says-message b.filters r.order_id r.correlation_id filt status now o
        (place_all (placed ∷ later) b)
        (subst (λ x. Knows b.filters x r.order_id r.correlation_id (place_all (placed ∷ later) b))
          (sym c) knows)
        (ap (get b.filters) s ∙ k) e
