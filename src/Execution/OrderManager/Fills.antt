-- ===== src/Execution/OrderManager/Fills.antt =====
-- One order of execution/order_manager.py under the events of its broker.
use binbot.Base.{ℕ, ◌+◌, ◌≡◌, ◌↔◌, true, false, some, String, List, [], ◌∷◌, arith, refl}
use binbot.Float.{Float}
use binbot.Dict.{get, get-put_self}
use binbot.Core.Enums.{filled, cancel_pending, is_terminal}
use binbot.Core.Events.{DateTime, OrderAckEvent, ExecutionEvent}
use binbot.Execution.Orders.{ManagedOrder, acked, executed, apply_event, is_open}
use binbot.Execution.OrderManager.{OrderLifecycleManager, cancel, handle_broker_event}

module _ {F : Type 0} where
  -- The broker's reports of one order: each adds its fill to what was filled, and the rest remains.
  pub record Continues (o : ManagedOrder F) (e : ExecutionEvent F) : Type 0 where
    pub adds : e.cumulative_quantity ≡ o.filled_quantity + e.fill_quantity
    pub rest : e.cumulative_quantity + e.remaining_quantity ≡ o.quantity

  abbrev pub fills_total : List (DateTime × ExecutionEvent F) → ℕ
  fills_total [] = 0
  fills_total ((now, e) ∷ es) = e.fill_quantity + fills_total es

module _ {F : Type 0} ⦃f : Float F⦄ where
  unfoldable pub apply_fills : List (DateTime × ExecutionEvent F) → ManagedOrder F → ManagedOrder F
  apply_fills [] o = o
  apply_fills ((now, e) ∷ es) o = apply_fills es (apply_event now (executed e) o)

  abbrev pub Stream : List (DateTime × ExecutionEvent F) → ManagedOrder F → Type 0
  Stream [] o = Unit
  Stream ((now, e) ∷ es) o = Continues o e × Stream es (apply_event now (executed e) o)

  fill_step :
      (now : DateTime) (e : ExecutionEvent F) (o : ManagedOrder F)
      → Continues o e
      → let o' = apply_event now (executed e) o in
        (o'.filled_quantity ≡ o.filled_quantity + e.fill_quantity)
        × (o'.quantity ≡ o.quantity)
        × (o'.filled_quantity + o'.remaining_quantity ≡ o'.quantity)
        × ((o'.status ≡ filled) ↔ (o'.filled_quantity ≡ o'.quantity))
  unfolding apply_event
  fill_step now e o c = (c.adds, refl, c.rest, (λ h. ground arith, λ h. ground arith))

  -- What holds of an order between fills.
  abbrev pub Balanced : ManagedOrder F → Type 0
  Balanced o =
      (o.filled_quantity + o.remaining_quantity ≡ o.quantity)
      × ((o.status ≡ filled) ↔ (o.filled_quantity ≡ o.quantity))

  -- Over every coherent stream of executions the filled quantity grows by exactly the fills, filled and remaining
  -- add up to the order's quantity, which stays, and the order is FILLED exactly when all of it is filled.
  pub fills_add_up :
      (es : List (DateTime × ExecutionEvent F)) (o : ManagedOrder F)
      → Balanced o
      → Stream es o
      → ((apply_fills es o).filled_quantity ≡ o.filled_quantity + fills_total es)
        × ((apply_fills es o).quantity ≡ o.quantity)
        × Balanced (apply_fills es o)
  unfolding apply_fills
  fills_add_up [] o b s = (omega arith, refl, b)
  fills_add_up ((now, e) ∷ es) o b (c, s) =
      let o' = apply_event now (executed e) o in
      let (grown, kept, balanced, status) = fill_step now e o c in
      let (total, same, last) = fills_add_up es o' (balanced, status) s in
      (omega arith, omega arith, last)

module _ {W F : Type 0} ⦃f : Float F⦄ where
  -- `cancel` does not look at the status: a stored order that is over, filled or rejected, is counted open again,
  -- as CANCEL_PENDING. After a late acknowledgement with a status that is not terminal it is open with that status.
  pub over_and_open_again :
      (order_id : String) (o : ManagedOrder F) (m : OrderLifecycleManager W F)
      → get m.orders order_id ≡ some o
      → is_terminal o.status ≡ true
      → ((o' : ManagedOrder F) × (get (cancel order_id m).orders order_id ≡ some o')
          × (o'.status ≡ cancel_pending)
          × (is_open o' ≡ true))
        × ((now : DateTime) (e : OrderAckEvent)
            → e.order_id ≡ order_id
            → is_terminal e.status ≡ false
            → (o' : ManagedOrder F) × (get (handle_broker_event now (acked e) m).orders order_id
                ≡ some o')
              × (o'.status ≡ e.status)
              × (is_open o' ≡ true))
  unfolding cancel handle_broker_event
  over_and_open_again order_id o m stored over = (
    (
      record o { status = cancel_pending },
      ground (arith, stored, get-put_self m.orders order_id (record o { status = cancel_pending })),
      refl,
      refl,
    ),
    λ now e same alive.
        let o' : ManagedOrder F = record o { updated_ts = now; status = e.status } in
        (o', rw (same, stored) (get-put_self m.orders order_id o'), refl, rw alive refl),
  )
