-- ===== src/Backtest/Simulator/Carried.antt =====
-- The orders that a bar of the simulated broker resolves: what it carries forward, and the market orders that it fills.
use binbot.Base.{
  ok, zero, suc, append_assoc, append-nil, ℕ, ◌-◌, ◌<◌, ◌≡◌, ◌≢◌, refl, subst, sym, ap, ◌∙◌, false,
  not, List, [], ◌∷◌, ◌++◌, arith, if-cases, ltb, All, All-append, ◌||◌,
}
use binbot.Float.{Float, FloatMath, lit, ◌*F◌}
use binbot.Dict.{Dict, get_or-put_self, get_or}
use binbot.Core.Enums.{OrderType, market, limit, stop, stop_limit, market_on_close}
use binbot.Core.Events.{BarEvent, ExecutionEvent}
use binbot.Backtest.Fills.{PendingOrder, Account, Costs, execution_of, fill_quantity, apply_fill}
use binbot.Backtest.Impact.{MarketImpactParams, compute_fill_price}
use binbot.Backtest.Simulator.Bars.{
  process_bar-ok, update_history-pending_orders, update_history-account,
}
use binbot.Backtest.Simulator.{
  resolve_bar, update_history, Simulator, resolve, resolve_all, process_bar, is_immediate,
}

module _ {F : Type 0} where
  -- What a bar leaves of an order: it waits, is not a market order, and still has lots to fill.
  abbrev pub IsCarried : PendingOrder F → Type 0
  IsCarried p =
      (0 < p.remaining_qty)
      × (p.request.order_type ≢ market)
      × (is_immediate p.request.time_in_force ≡ false)

  -- A fill of the order for all the lots that it had left.
  abbrev pub IsFilled : List (ExecutionEvent F) → PendingOrder F → Type 0
  IsFilled fills p =
      (before after : List (ExecutionEvent F)) × (e : ExecutionEvent F) × (fills
        ≡ before ++ e ∷ after)
      × (e.order_id ≡ p.request.order_id)
      × (e.fill_quantity ≡ p.remaining_qty)

  -- What becomes of an order by its type and the lots that it had left.
  abbrev pub Settled : List (ExecutionEvent F) → PendingOrder F → OrderType → ℕ → Type 0
  Settled fills p market (suc n) = IsFilled fills p
  Settled fills p _ _ = Unit {0}

  abbrev pub IsSettled : List (ExecutionEvent F) → PendingOrder F → Type 0
  IsSettled fills p = Settled fills p p.request.order_type p.remaining_qty

  IsFilled-append :
      (fills more : List (ExecutionEvent F)) (p : PendingOrder F)
      → IsFilled fills p
      → IsFilled (fills ++ more) p
  IsFilled-append fills more p (before, after, e, split, id, quantity) = (
    before,
    after ++ more,
    e,
    ap (λ xs. xs ++ more) split ∙ append_assoc before (e ∷ after) more,
    id,
    quantity,
  )

  Settled-append :
      (fills more : List (ExecutionEvent F)) (p : PendingOrder F) (t : OrderType) (n : ℕ)
      → Settled fills p t n
      → Settled (fills ++ more) p t n
  Settled-append fills more p market zero h = tt
  Settled-append fills more p market (suc n) h = IsFilled-append fills more p h
  Settled-append fills more p limit n h = tt
  Settled-append fills more p stop n h = tt
  Settled-append fills more p stop_limit n h = tt
  Settled-append fills more p market_on_close n h = tt

  Settled-prepend :
      (fills more : List (ExecutionEvent F)) (p : PendingOrder F) (t : OrderType) (n : ℕ)
      → Settled more p t n
      → Settled (fills ++ more) p t n
  Settled-prepend fills more p market zero h = tt
  Settled-prepend fills more p market (suc n) (before, after, e, split, id, quantity) = (
    fills ++ before,
    after,
    e,
    ap (λ xs. fills ++ xs) split ∙ sym (append_assoc fills before (e ∷ after)),
    id,
    quantity,
  )
  Settled-prepend fills more p limit n h = tt
  Settled-prepend fills more p stop n h = tt
  Settled-prepend fills more p stop_limit n h = tt
  Settled-prepend fills more p market_on_close n h = tt

  All-prepend :
      (fills more : List (ExecutionEvent F)) (orders : List (PendingOrder F))
      → All (IsSettled more) orders
      → All (IsSettled (fills ++ more)) orders
  All-prepend fills more [] h = tt
  All-prepend fills more (p ∷ orders) h = (
    Settled-prepend fills more p p.request.order_type p.remaining_qty h.0,
    All-prepend fills more orders h.1,
  )

  -- The account's fills with new ones, which settle these orders.
  abbrev pub HasSettled : List (PendingOrder F) → Account F → Account F → Type 0
  HasSettled orders a a' =
      (more : List (ExecutionEvent F)) × (a'.fills ≡ a.fills ++ more) × All (IsSettled more) orders

module _ {F : Type 0} ⦃f : Float F⦄ (c : Costs F)
    (price : PendingOrder F → BarEvent F → ℕ → F) where
  market-fills :
      (p : PendingOrder F) (bar : BarEvent F) (t : OrderType)
      → 0 < p.remaining_qty - fill_quantity c p bar t
      → t ≢ market
  unfolding fill_quantity
  market-fills p bar market h e = ground arith
  market-fills p bar limit h e = ground arith
  market-fills p bar stop h e = ground arith
  market-fills p bar stop_limit h e = ground arith
  market-fills p bar market_on_close h e = ground arith

  resolve-IsCarried :
      (p : PendingOrder F) (bar : BarEvent F) (a : Account F)
      → All IsCarried (resolve c price p bar a).0
  unfolding resolve
  resolve-IsCarried p bar a =
      let left = p.remaining_qty - fill_quantity c p bar p.request.order_type in
      let done = not (ltb 0 left) || is_immediate p.request.time_in_force in
      if-cases (All IsCarried) done [] _ (λ _. tt)
        (λ k.
          let pos : 0 < left = ground arith in
          ((pos, market-fills p bar p.request.order_type pos, ground arith), tt))

  resolve_all-IsCarried :
      (orders : List (PendingOrder F)) (bar : BarEvent F) (a : Account F)
      → All IsCarried (resolve_all c price orders bar a).0
  unfolding resolve_all
  resolve_all-IsCarried [] bar a = tt
  resolve_all-IsCarried (p ∷ orders) bar a =
      All-append IsCarried (resolve c price p bar a).0 _ (resolve-IsCarried p bar a)
        (resolve_all-IsCarried orders bar (resolve c price p bar a).1)

  market_quantity :
      (p : PendingOrder F) (bar : BarEvent F) → fill_quantity c p bar market ≡ p.remaining_qty
  unfolding fill_quantity
  market_quantity p bar = ground arith

  -- A fill of this quantity settles the order.
  filled-Settled :
      (p : PendingOrder F) (bar : BarEvent F) (e : ExecutionEvent F) (t : OrderType) (n : ℕ)
      → p.request.order_type ≡ t
      → e.order_id ≡ p.request.order_id
      → e.fill_quantity ≡ fill_quantity c p bar p.request.order_type
      → Settled (e ∷ []) p t n
  filled-Settled p bar e market zero k id h = tt
  filled-Settled p bar e market (suc n) k id h =
      ([], [], e, refl, id, h ∙ ap (fill_quantity c p bar) k ∙ market_quantity p bar)
  filled-Settled p bar e limit n k id h = tt
  filled-Settled p bar e stop n k id h = tt
  filled-Settled p bar e stop_limit n k id h = tt
  filled-Settled p bar e market_on_close n k id h = tt

  -- No fill settles an order for which the bar has no lots.
  unfilled-Settled :
      (p : PendingOrder F) (bar : BarEvent F) (t : OrderType) (n : ℕ)
      → p.request.order_type ≡ t
      → p.remaining_qty ≡ n
      → ltb 0 (fill_quantity c p bar p.request.order_type) ≡ false
      → Settled [] p t n
  unfilled-Settled p bar market zero k e h = tt
  unfilled-Settled p bar market (suc n) k e h =
      let all = ap (fill_quantity c p bar) k ∙ market_quantity p bar in
      absurd (ground (arith, h, all, e))
  unfilled-Settled p bar limit n k e h = tt
  unfilled-Settled p bar stop n k e h = tt
  unfilled-Settled p bar stop_limit n k e h = tt
  unfilled-Settled p bar market_on_close n k e h = tt

  resolve-HasSettled :
      (p : PendingOrder F) (bar : BarEvent F) (a : Account F)
      → HasSettled (p ∷ []) a (resolve c price p bar a).1
  unfolding resolve apply_fill
  resolve-HasSettled p bar a =
      let qty = fill_quantity c p bar p.request.order_type in
      let e = execution_of p qty (price p bar qty) (c.commission_per_contract *F lit qty) bar in
      if-cases (HasSettled (p ∷ []) a) (ltb 0 qty) (apply_fill c p qty (price p bar qty) bar a) a
        (λ t. (
          e ∷ [],
          refl,
          (filled-Settled p bar e p.request.order_type p.remaining_qty refl refl refl, tt),
        ))
        (λ g. (
          [],
          sym (append-nil a.fills),
          (unfilled-Settled p bar p.request.order_type p.remaining_qty refl refl g, tt),
        ))

  resolve_all-HasSettled :
      (orders : List (PendingOrder F)) (bar : BarEvent F) (a : Account F)
      → HasSettled orders a (resolve_all c price orders bar a).1
  unfolding resolve_all
  resolve_all-HasSettled [] bar a = ([], sym (append-nil a.fills), tt)
  resolve_all-HasSettled (p ∷ orders) bar a =
      let (xs, grown, settled) = resolve-HasSettled p bar a in
      let (ys, more, rest) = resolve_all-HasSettled orders bar (resolve c price p bar a).1 in
      (
        xs ++ ys,
        more ∙ ap (λ zs. zs ++ ys) grown ∙ append_assoc a.fills xs ys,
        (
          Settled-append xs ys p p.request.order_type p.remaining_qty settled.0,
          All-prepend xs ys orders rest,
        ),
      )

module _ {F : Type 0} ⦃f : Float F⦄ ⦃g : FloatMath F⦄ (p : MarketImpactParams F) (c : Costs F) where
  resolve_bar-IsCarried :
      (bar : BarEvent F) (s : Simulator F)
      → All IsCarried (get_or (resolve_bar p c bar s).pending_orders bar.symbol [])
  unfolding resolve_bar
  resolve_bar-IsCarried bar s =
      let price = compute_fill_price p (get_or s.return_history bar.symbol []) in
      let orders = resolve_all c price (get_or s.pending_orders bar.symbol []) bar s.account in
      subst (All IsCarried) (sym (get_or-put_self s.pending_orders bar.symbol orders.0 []))
        (resolve_all-IsCarried c price (get_or s.pending_orders bar.symbol []) bar s.account)

  resolve_bar-HasSettled :
      (bar : BarEvent F) (s : Simulator F)
      → HasSettled (get_or s.pending_orders bar.symbol []) s.account (resolve_bar p c bar s).account
  unfolding resolve_bar
  resolve_bar-HasSettled bar s =
      resolve_all-HasSettled c (compute_fill_price p (get_or s.return_history bar.symbol []))
        (get_or s.pending_orders bar.symbol []) bar s.account

  -- What a bar that returns carries forward still has lots to fill, is no market order and is neither IOC nor FOK; and
  -- of every market order that waited for the bar with lots to fill, whatever the bar's volume and the maximal
  -- participation rate, the fills that the bar adds have one for all of these lots.
  pub process_bar-IsCarried :
      (bar : BarEvent F) (s : Simulator F)
      → (process_bar p c bar s).0 ≡ ok tt
      → let s' = (process_bar p c bar s).1 in
        All IsCarried (get_or s'.pending_orders bar.symbol [])
        × HasSettled (get_or s.pending_orders bar.symbol []) s.account s'.account
  process_bar-IsCarried bar s h =
      let before = (update_history bar s).1 in
      let done = sym (process_bar-ok p c bar s h) in
      (
        subst (λ x. All IsCarried (get_or x.pending_orders bar.symbol [])) done
            (resolve_bar-IsCarried bar before),
        subst (λ x. HasSettled (get_or s.pending_orders bar.symbol []) s.account x.account) done
            (subst
              (λ (d : Dict (List (PendingOrder F))).
                HasSettled (get_or d bar.symbol []) s.account (resolve_bar p c bar before).account)
              (update_history-pending_orders bar s)
              (subst
                (λ (a : Account F).
                  HasSettled (get_or before.pending_orders bar.symbol []) a
                    (resolve_bar p c bar before).account)
                (update_history-account bar s) (resolve_bar-HasSettled bar before))),
      )
