-- ===== src/Execution/OrderManager/Book.antt =====
-- The book of orders of execution/order_manager.py: what each operation writes, and what it leaves.
use binbot.Base.{
  ℕ, ◌+◌, ◌<◌, ◌≡◌, ◌≢◌, Option, none, some, String, arith, refl, sym, ◌∙◌, String_discrete,
}
use binbot.Float.{Float}
use binbot.Dict.{get, put, get-put, get-put_self, get-put_ne}
use binbot.Core.Events.{DateTime, SignalEvent}
use binbot.Core.EventBus.{publish}
use binbot.Execution.Orders.{
  ManagedOrder, BrokerEvent, event_order_id, apply_event, published, managed,
}
use binbot.Execution.OrderManager.{OrderLifecycleManager, submit, handle_broker_event}

later_id : (n k : ℕ) → k < n → n ≡ k → ⊥
later_id n k h e = absurd (omega arith)

module _ {W F : Type 0} ⦃f : Float F⦄ where
  -- An event of an order that is not in the book changes nothing at all. Any other changes that order alone,
  -- calls no broker, and publishes one event.
  pub handle_touches_one :
      (now : DateTime) (event : BrokerEvent F) (m : OrderLifecycleManager W F)
      → (get m.orders (event_order_id event) ≡ none → handle_broker_event now event m ≡ m)
        × ((o : ManagedOrder F)
            → get m.orders (event_order_id event) ≡ some o
            → let m' = handle_broker_event now event m in
              (get m'.orders (event_order_id event) ≡ some (apply_event now event o))
              × ((j : String) → j ≢ event_order_id event → get m'.orders j ≡ get m.orders j)
              × (m'.broker_calls ≡ m.broker_calls)
              × (m'.event_bus ≡ publish m.event_bus (published event o)))
  unfolding handle_broker_event
  handle_touches_one now event m = (
    λ unknown. rw unknown refl,
    λ o known. rw known (
      get-put_self m.orders (event_order_id event) (apply_event now event o),
      λ j other.
          ground (arith, get-put m.orders (event_order_id event) j (apply_event now event o)),
      refl,
      refl,
    ),
  )

  module _ (uuid : ℕ → String) (distinct : (i j : ℕ) → uuid i ≡ uuid j → i ≡ j) where
    -- Every order is stored under its own id, which has been drawn.
    pub record IsIssued (m : OrderLifecycleManager W F) : Type 0 where
      pub drawn :
          (id : String) (o : ManagedOrder F)
          → get m.orders id ≡ some o
          → (o.order_id ≡ id) × ((k : ℕ) × (k < m.uuids_drawn) × (id ≡ uuid k))

    drawn_after :
        (n : ℕ) (id : String) (order : ManagedOrder F) (m : OrderLifecycleManager W F) (j : String)
        (o : ManagedOrder F)
        → Dec (id ≡ j)
        → id ≡ uuid n
        → order.order_id ≡ id
        → n ≡ m.uuids_drawn
        → IsIssued m
        → get (put m.orders id order) j ≡ some o
        → (o.order_id ≡ j) × ((k : ℕ) × (k < n + 1) × (j ≡ uuid k))
    drawn_after n id order m j o (yes same) e own count issued stored =
        let found : some order ≡ some o = ground (arith, get-put m.orders id j order) in
        (ground arith, (n, omega arith, sym same ∙ e))
    drawn_after n id order m j o (no other) e own count issued stored =
        let (own', (k, older, drawn)) =
          issued.drawn j o (sym (get-put_ne m.orders id j order other) ∙ stored) in
        (own', (k, omega arith, drawn))

    -- If the supply of ids repeats none, `submit` overwrites no order: each stored one is found as before, the new
    -- one under its own id, with all of its quantity remaining and one request sent for it, and the book is again well kept.
    pub submit_loses_nothing :
        (now : DateTime) (s : SignalEvent F) (price : Option F) (m : OrderLifecycleManager W F)
        → IsIssued m
        → let (order, m') = submit uuid now s price m in
          ((id : String) (o : ManagedOrder F)
            → get m.orders id ≡ some o
            → get m'.orders id ≡ some o)
          × (get m'.orders order.order_id ≡ some order)
          × (order.remaining_quantity ≡ order.quantity)
          × IsIssued m'
    unfolding submit
    submit_loses_nothing now s price m issued =
        let n = m.uuids_drawn in
        let id = uuid n in
        let order = managed id now s price in
        (
          λ j o stored.
              let (k, older, same) = (issued.drawn j o stored).1 in
              get-put_ne m.orders id j order (λ e. later_id n k older (distinct n k (e ∙ same)))
              ∙ stored,
          get-put_self m.orders id order,
          refl,
          record {
            drawn = λ j o stored.
                drawn_after n id order m j o (String_discrete id j) refl refl refl issued stored;
          },
        )
