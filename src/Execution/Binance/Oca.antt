-- ===== src/Execution/Binance/Oca.antt =====
-- The groups of which one order cancels the others, from the placing of the orders to the fill.
use binbot.Base.{
  ◌≡◌, refl, sym, ap, ◌∙◌, subst, Option, none, some, String, List, [], ◌∷◌, ◌++◌, map, All,
  All-filter, not, All-append, append-nil, append_assoc, arith, if-cases, str_eq, String_discrete,
  member, Result,
}
use binbot.Float.{Float, FloatMath}
use binbot.Dict.{Dict, get, put, get_or, get-put_self, get-put_ne}
use binbot.Core.Events.{DateTime}
use binbot.Execution.Orders.{BrokerOrderRequest, executed}
use binbot.Core.Enums.{OrderStatus}
use binbot.Execution.Binance.{
  BinanceFuturesBroker, SymbolFilters, Call, cancel_by_client_id, order_status_map, truncate,
  put_event, request_of,
}
use binbot.Execution.Binance.Sending.{
  place_order, register, join_group, enter_group, add_to_set, cancel_order, cancel_found,
  below_min_qty,
}
use binbot.Execution.Binance.Keeping.{Placement, place_found_keeps, cancel_siblings_keeps}
use binbot.Execution.Binance.UserStream.{
  OrderUpdate, Message, order_trade_update, other_message, handle_user_stream_message, handle_trade,
  handle_status, handle_oca_fill, fill_in, fill_in_group, cancel_siblings, siblings_of,
  execution_of, internal_order_id,
}

-- The adapter knows the symbol of an order, and of all orders of a group.
abbrev pub HasSymbol : Dict String → String → Type 0
HasSymbol order_symbol id = (symbol : String) × (get order_symbol id ≡ some symbol)

abbrev pub AllKnown : Dict String → Option (List String) → Type 0
AllKnown order_symbol none = Unit
AllKnown order_symbol (some ids) = All (HasSymbol order_symbol) ids

abbrev pub AllGroupsKnown : {F : Type 0} → BinanceFuturesBroker F → Type 0
AllGroupsKnown b = (group : String) → AllKnown b.order_symbol (get b.oca_groups group)

HasSymbol-put :
    (d : Dict String) (k symbol id : String) → HasSymbol d id → HasSymbol (put d k symbol) id
HasSymbol-put d k symbol id h = elim (String_discrete k id) [
  | yes e ↦ (symbol, subst (λ x. get (put d k symbol) x ≡ some symbol) e (get-put_self d k symbol))
  | no n ↦ (h.0, get-put_ne d k id symbol n ∙ h.1)
]

All-HasSymbol-put :
    (d : Dict String) (k symbol : String) (ids : List String)
    → All (HasSymbol d) ids
    → All (HasSymbol (put d k symbol)) ids
All-HasSymbol-put d k symbol [] h = h
All-HasSymbol-put d k symbol (id ∷ ids) h =
    (HasSymbol-put d k symbol id h.0, All-HasSymbol-put d k symbol ids h.1)

AllKnown-put :
    (d : Dict String) (k symbol : String) (o : Option (List String))
    → AllKnown d o
    → AllKnown (put d k symbol) o
AllKnown-put d k symbol none h = h
AllKnown-put d k symbol (some ids) h = All-HasSymbol-put d k symbol ids h

known_members :
    (d : Dict String) (o : Option (List String))
    → AllKnown d o
    → All (HasSymbol d) (elim o [ none ↦ [] | some ids ↦ ids ])
known_members d none h = tt
known_members d (some ids) h = h

All-add_to_set :
    (d : Dict String) (id : String) (ids : List String)
    → HasSymbol d id
    → All (HasSymbol d) ids
    → All (HasSymbol d) (add_to_set id ids)
All-add_to_set d id ids h k =
    if-cases (All (HasSymbol d)) (member id ids) ids (ids ++ id ∷ []) (λ t. k)
      (λ f. All-append (HasSymbol d) ids (id ∷ []) k (h, tt))

AllKnown-put_group :
    (d : Dict String) (groups : Dict (List String)) (name : String) (ids : List String)
    → ((group : String) → AllKnown d (get groups group))
    → All (HasSymbol d) ids
    → (group : String) → AllKnown d (get (put groups name ids) group)
AllKnown-put_group d groups name ids h k group = elim (String_discrete name group) [
  | yes e ↦
      subst (λ x. AllKnown d (get (put groups name ids) x)) e
        (subst (AllKnown d) (sym (get-put_self groups name ids)) k)
  | no n ↦ subst (AllKnown d) (sym (get-put_ne groups name group ids n)) (h group)
]

module _ {F : Type 0} where
  AllGroupsKnown-join_group :
      (group : Option String) (id : String) (b : BinanceFuturesBroker F)
      → HasSymbol b.order_symbol id
      → AllGroupsKnown b
      → AllGroupsKnown (join_group group id b)
  AllGroupsKnown-join_group none id b h k = k
  AllGroupsKnown-join_group (some group) id b h k =
      if-cases (λ (x : BinanceFuturesBroker F). AllGroupsKnown x) (str_eq group "") b
        (enter_group group id b) (λ t. k)
        (λ f. AllKnown-put_group b.order_symbol b.oca_groups group _ k (
          All-add_to_set b.order_symbol id (get_or b.oca_groups group []) h
            (known_members b.order_symbol (get b.oca_groups group) (k group))))

  AllGroupsKnown-register :
      (r : BrokerOrderRequest F) (b : BinanceFuturesBroker F)
      → AllGroupsKnown b
      → AllGroupsKnown (register r b)
  unfolding register
  AllGroupsKnown-register r b k =
      AllGroupsKnown-join_group r.oca_group r.order_id _
        (r.symbol, get-put_self b.order_symbol r.order_id r.symbol)
        (λ group.
          AllKnown-put b.order_symbol r.order_id r.symbol (get b.oca_groups group) (k group))

  AllGroupsKnown-fill_in_group :
      (id name : String) (o : Option (List String)) (b : BinanceFuturesBroker F)
      → AllGroupsKnown b
      → AllGroupsKnown (fill_in_group id name o b)
  unfolding fill_in_group
  AllGroupsKnown-fill_in_group id name none b k = k
  AllGroupsKnown-fill_in_group id name (some ids) b k =
      let b' = cancel_siblings (siblings_of id ids) b in
      AllKnown-put_group b'.order_symbol b'.oca_groups name []
        (cancel_siblings_keeps AllGroupsKnown (λ e c h. h) (λ e c h. h) (siblings_of id ids) b k) tt

  AllGroupsKnown-fill_in :
      (id : String) (group : Option String) (b : BinanceFuturesBroker F)
      → AllGroupsKnown b
      → AllGroupsKnown (fill_in id group b)
  unfolding fill_in
  AllGroupsKnown-fill_in id none b k = k
  AllGroupsKnown-fill_in id (some group) b k =
      AllGroupsKnown-fill_in_group id group (get b.oca_groups group) b k

-- What reaches the adapter: an order to place, an order to cancel, or a message of the user stream.
pub data Operation (F : Type 0) : Type 0 where
  places : Placement F → Operation F
  cancels : String → Operation F
  hears : DateTime → Message F → Operation F

module _ {F : Type 0} ⦃f : Float F⦄ ⦃m : FloatMath F⦄ (show : F → String) where
  abbrev pub step : Operation F → BinanceFuturesBroker F → BinanceFuturesBroker F
  step (places p) b = (place_order show p.now p.answer p.request b).1
  step (cancels id) b = cancel_order id b
  step (hears now message) b = (handle_user_stream_message now message b).1

  unfoldable pub run : List (Operation F) → BinanceFuturesBroker F → BinanceFuturesBroker F
  run [] b = b
  run (op ∷ ops) b = run ops (step op b)

  AllGroupsKnown-handle_trade :
      (o : Option (SymbolFilters F)) (u : OrderUpdate F) (b : BinanceFuturesBroker F)
      → AllGroupsKnown b
      → AllGroupsKnown (handle_trade o u b).1
  unfolding handle_trade handle_oca_fill
  AllGroupsKnown-handle_trade none u b k = k
  AllGroupsKnown-handle_trade (some filt) u b k =
      let b' = put_event (executed (execution_of filt u b)) b in
      let id = internal_order_id u b in
      if-cases (λ (x : BinanceFuturesBroker F). AllGroupsKnown x) (str_eq u.order_status "FILLED")
        (handle_oca_fill id b') b'
        (λ t. AllGroupsKnown-fill_in id (get b.order_to_oca_group id) b' k) (λ e. k)

  AllGroupsKnown-handle_status :
      (now : DateTime) (o : Option OrderStatus) (u : OrderUpdate F) (b : BinanceFuturesBroker F)
      → AllGroupsKnown b
      → AllGroupsKnown (handle_status now o u b).1
  unfolding handle_status
  AllGroupsKnown-handle_status now none u b k = k
  AllGroupsKnown-handle_status now (some status) u b k = k

  AllGroupsKnown-step :
      (op : Operation F) (b : BinanceFuturesBroker F)
      → AllGroupsKnown b
      → AllGroupsKnown (step op b)
  unfolding place_order cancel_order handle_user_stream_message
  AllGroupsKnown-step (places p) b k =
      place_found_keeps AllGroupsKnown (λ e c h. h) (λ e c h. h) p.now p.answer p.request
        (below_min_qty show) (get b.filters p.request.symbol) b k
        (AllGroupsKnown-register p.request b k)
  AllGroupsKnown-step (cancels id) b k =
      cancel_siblings_keeps AllGroupsKnown (λ e c h. h) (λ e c h. h) (id ∷ []) b k
  AllGroupsKnown-step (hears now other_message) b k = k
  AllGroupsKnown-step (hears now (order_trade_update u)) b k =
      if-cases (λ (x : Result (Unit {0}) × BinanceFuturesBroker F). AllGroupsKnown x.1)
        (str_eq u.exec_type "TRADE") (handle_trade (get b.filters u.s) u b)
        (handle_status now (get order_status_map u.order_status) u b)
        (λ t. AllGroupsKnown-handle_trade (get b.filters u.s) u b k)
        (λ e. AllGroupsKnown-handle_status now (get order_status_map u.order_status) u b k)

  pub AllGroupsKnown-run :
      (ops : List (Operation F)) (b : BinanceFuturesBroker F)
      → AllGroupsKnown b
      → AllGroupsKnown (run ops b)
  unfolding run
  AllGroupsKnown-run [] b k = k
  AllGroupsKnown-run (op ∷ ops) b k =
      AllGroupsKnown-run ops (step op b) (AllGroupsKnown-step op b k)

module _ {F : Type 0} where
  -- The cancellation of an order of which the symbol is known.
  abbrev pub cancel_call : Dict String → String → Call F
  cancel_call order_symbol id = cancel_by_client_id (get_or order_symbol id "") (truncate 36 id)

  cancel_found-eq :
      (id symbol : String) (o : Option String) (b : BinanceFuturesBroker F)
      → o ≡ some symbol
      → cancel_found id o b
        ≡ request_of (cancel_by_client_id (elim o [ none ↦ "" | some s ↦ s ]) (truncate 36 id)) b
  unfolding cancel_found
  cancel_found-eq id symbol none b h = ground (arith, h)
  cancel_found-eq id symbol (some s) b h = refl

  -- The cancelling of orders of which the symbol is known changes nothing but the calls.
  cancel_siblings-eq :
      (ids : List String) (b : BinanceFuturesBroker F)
      → All (HasSymbol b.order_symbol) ids
      → cancel_siblings ids b ≡ record b { calls = b.calls ++ map (cancel_call b.order_symbol) ids }
  unfolding cancel_siblings cancel_order
  cancel_siblings-eq [] b h = ap (λ calls. record b { calls = calls }) (sym (append-nil b.calls))
  cancel_siblings-eq (id ∷ ids) b h =
      let c = cancel_call b.order_symbol id in
      ap (cancel_siblings ids) (cancel_found-eq id h.0.0 (get b.order_symbol id) b h.0.1)
      ∙ cancel_siblings-eq ids (request_of c b) h.1
      ∙ ap (λ calls. record b { calls = calls })
          (append_assoc b.calls (c ∷ []) (map (cancel_call b.order_symbol) ids))

  -- What a fill leaves of the adapter.
  abbrev pub after_fill :
      String → String → List String → BinanceFuturesBroker F → BinanceFuturesBroker F
  after_fill id group ids b = record b {
    calls = b.calls ++ map (cancel_call b.order_symbol) (siblings_of id ids);
    oca_groups = put b.oca_groups group [];
  }

  handle_oca_fill-eq :
      (id group : String) (ids : List String) (b : BinanceFuturesBroker F)
      → get b.order_to_oca_group id ≡ some group
      → get b.oca_groups group ≡ some ids
      → All (HasSymbol b.order_symbol) ids
      → handle_oca_fill id b ≡ after_fill id group ids b
  unfolding handle_oca_fill fill_in fill_in_group
  handle_oca_fill-eq id group ids b g e h =
      ap (λ o. fill_in id o b) g
      ∙ ap (λ o. fill_in_group id group o b) e
      ∙ ap (λ (b' : BinanceFuturesBroker F). record b' { oca_groups = put b'.oca_groups group [] })
          (cancel_siblings-eq (siblings_of id ids) b
            (All-filter (HasSymbol b.order_symbol) (λ oid. not (str_eq oid id)) ids h))

module _ {F : Type 0} ⦃f : Float F⦄ ⦃m : FloatMath F⦄ (show : F → String) where
  -- After any operations on an adapter without groups, the fill of an order of a group sends one cancellation for each
  -- of the group's other orders, by its symbol and the first 36 characters of its id, and for nothing else; it empties the
  -- group and changes no other part of the adapter. A second fill in the group cancels nothing more.
  pub oca_fill_cancels_once :
      (ops : List (Operation F)) (b : BinanceFuturesBroker F) (id group : String)
      (ids : List String)
      → b.oca_groups ≡ []
      → get (run show ops b).order_to_oca_group id ≡ some group
      → get (run show ops b).oca_groups group ≡ some ids
      → let b' = handle_oca_fill id (run show ops b) in
        (b' ≡ after_fill id group ids (run show ops b))
        × ((later : String)
            → get b'.order_to_oca_group later ≡ some group
            → (handle_oca_fill later b').calls ≡ b'.calls)
  unfolding get
  oca_fill_cancels_once ops b id group ids fresh g e =
      let before = run show ops b in
      let known =
        AllGroupsKnown-run show ops b (λ group'.
          subst (λ groups. AllKnown b.order_symbol (get groups group')) (sym fresh) tt) in
      let all = subst (AllKnown before.order_symbol) e (known group) in
      let filled = handle_oca_fill-eq id group ids before g e all in
      let b' = handle_oca_fill id before in
      let empty : get b'.oca_groups group ≡ some [] =
        ap (λ (x : BinanceFuturesBroker F). get x.oca_groups group) filled
        ∙ get-put_self before.oca_groups group [] in
      (
        filled,
        λ later h.
            ap (λ (x : BinanceFuturesBroker F). x.calls)
              (handle_oca_fill-eq later group [] b' h empty tt)
            ∙ append-nil b'.calls,
      )
