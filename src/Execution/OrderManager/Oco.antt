-- ===== src/Execution/OrderManager/Oco.antt =====
-- One-cancels-other groups of execution/order_manager.py.
use Prim.Native.String.{◌++◌ as str_append}
use binbot.Base.{
  append_assoc, append-nil, ℕ, ◌+◌, ◌≤◌, ◌<◌, ◌≡◌, false, none, some, String, List, [], ◌∷◌, ◌++◌,
  map, arith, refl, sym, ◌∙◌, length, ok, err, Error, value_error, nat_abs, ltb,
}
use binbot.Float.{Float}
use binbot.Core.Enums.{submitted}
use binbot.Core.Events.{DateTime, SignalEvent}
use binbot.Execution.Orders.{ManagedOrder, BrokerOrderRequest, place_order}
use binbot.Execution.OrderManager.{OrderLifecycleManager, submit, submit_each, submit_oco}

module _ {F : Type 0} where
  -- The request that was sent for an order.
  abbrev pub request_of : ManagedOrder F → BrokerOrderRequest F
  request_of o = record {
    order_id = o.order_id;
    correlation_id = o.correlation_id;
    symbol = o.symbol;
    side = o.side;
    quantity = o.quantity;
    order_type = o.order_type;
    limit_price = o.limit_price;
    time_in_force = o.time_in_force;
    oca_group = o.oca_group;
    oca_type = 1;
  }

  -- The orders are the signals' in their order, all of one group and none filled.
  abbrev pub Legs : String → List (SignalEvent F) → List (ManagedOrder F) → Type 0
  Legs group [] [] = Unit
  Legs group [] (o ∷ os) = ⊥
  Legs group (s ∷ ss) [] = ⊥
  Legs group (s ∷ ss) (o ∷ os) =
      ((o.oca_group ≡ some group)
        × (o.symbol ≡ s.symbol)
        × (o.side ≡ s.side)
        × (o.quantity ≡ nat_abs s.target_quantity)
        × (o.remaining_quantity ≡ o.quantity)
        × (o.status ≡ submitted))
      × Legs group ss os

module _ {W F : Type 0} ⦃f : Float F⦄ (uuid : ℕ → String) (now : DateTime) where
  each-Legs :
      (group : String) (ss : List (SignalEvent F)) (m : OrderLifecycleManager W F)
      → let (os, m') = submit_each uuid now group ss m in
        Legs group ss os
        × (m'.broker_calls ≡ m.broker_calls ++ map (λ o. place_order (request_of o)) os)
  unfolding submit_each submit
  each-Legs group [] m = (tt, sym (append-nil m.broker_calls))
  each-Legs group (s ∷ ss) m =
      let (order, m') = submit uuid now (record s { oca_group = some group }) none m in
      let (legs, calls) = each-Legs group ss m' in
      (
        ((refl, refl, refl, refl, refl, refl), legs),
        calls
            ∙ append_assoc m.broker_calls (place_order (request_of order) ∷ [])
                (map (λ o. place_order (request_of o)) (submit_each uuid now group ss m').0),
      )

  -- Fewer than two signals are refused with nothing sent or stored. Otherwise every signal becomes one order, in the
  -- given order and all in one group, and exactly one request goes out for each.
  pub submit_oco_all_or_nothing :
      (ss : List (SignalEvent F)) (m : OrderLifecycleManager W F)
      → let (r, m') = submit_oco uuid now ss m in
        (length ss < 2 → (m' ≡ m) × ((e : Error) × (r ≡ err e)))
        × (2 ≤ length ss
            → (group : String) × (os : List (ManagedOrder F)) × (r ≡ ok os)
              × Legs group ss os
              × (m'.broker_calls ≡ m.broker_calls ++ map (λ o. place_order (request_of o)) os))
  unfolding submit_oco
  submit_oco_all_or_nothing ss m =
      let group = str_append "oca-" (uuid m.uuids_drawn) in
      let m₁ : OrderLifecycleManager W F = record m { uuids_drawn = m.uuids_drawn + 1 } in
      let (legs, calls) = each-Legs group ss m₁ in
      (
        λ few. (ground arith, (value_error "OCO group requires at least 2 signals", ground arith)),
        λ enough.
            let at_least : ltb (length ss) 2 ≡ false = ground arith in
            (
              group,
              (submit_each uuid now group ss m₁).0,
              rw at_least refl,
              legs,
              rw at_least calls,
            ),
      )
