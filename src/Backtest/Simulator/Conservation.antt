-- ===== src/Backtest/Simulator/Conservation.antt =====
-- The lots of the simulated broker: its fills against its positions and its orders.
use binbot.Base.{
  +ℤ_assoc, zero_add_ℤ, add_zero_ℤ, ℕ, ◌≡◌, ◌≢◌, refl, subst, sym, ap, ◌∙◌, String, List, [], ◌∷◌,
  ◌++◌, ℤ, pos, ◌+ℤ◌, arith, if◌then◌else◌, if-cases, str_eq, String_discrete, ltb,
}
use binbot.Float.{Float, FloatMath, lit, ◌*F◌}
use binbot.Dict.{get_or-put_self, get_or-put_ne}
use binbot.Core.Events.{BarEvent, ExecutionEvent}
use binbot.Backtest.Fills.{
  PendingOrder, Account, Costs, execution_of, signed, fill_quantity, apply_fill,
}
use binbot.Backtest.Impact.{MarketImpactParams}
use binbot.Backtest.Simulator.Bars.{process_bar-keeps}
use binbot.Backtest.Simulator.{Simulator, resolve, resolve_all, process_bar}
use binbot.Backtest.Simulator.Trades.{position}

module _ {F : Type 0} where
  -- The lots that fills bought, less those they sold.
  abbrev pub net : String → List (ExecutionEvent F) → ℤ
  net s [] = pos 0
  net s (e ∷ fills) =
      if str_eq e.symbol s then signed e.side e.fill_quantity +ℤ net s fills else net s fills

  net-append :
      (s : String) (xs ys : List (ExecutionEvent F)) → net s (xs ++ ys) ≡ net s xs +ℤ net s ys
  net-append s [] ys = sym (zero_add_ℤ (net s ys))
  net-append s (x ∷ xs) ys =
      let e = +ℤ_assoc (signed x.side x.fill_quantity) (net s xs) (net s ys) in
      ground (arith, net-append s xs ys)

  net-one :
      (s : String) (e : ExecutionEvent F)
      → e.symbol ≡ s
      → net s (e ∷ []) ≡ signed e.side e.fill_quantity
  net-one s e h = let z = add_zero_ℤ (signed e.side e.fill_quantity) in ground arith

  net-other : (s : String) (e : ExecutionEvent F) → e.symbol ≢ s → net s (e ∷ []) ≡ pos 0
  net-other s e h = ground arith

  -- What is held is what the fills have brought since a start.
  abbrev pub IsBalanced : (String → ℤ) → Account F → Type 0
  IsBalanced start a = (s : String) → position a s ≡ start s +ℤ net s a.fills

module _ {F : Type 0} ⦃f : Float F⦄ (c : Costs F)
    (price : PendingOrder F → BarEvent F → ℕ → F) where
  apply_fill-IsBalanced :
      (start : String → ℤ) (p : PendingOrder F) (qty : ℕ) (cost : F) (bar : BarEvent F)
      (a : Account F)
      → IsBalanced start a
      → IsBalanced start (apply_fill c p qty cost bar a)
  unfolding apply_fill
  apply_fill-IsBalanced start p qty cost bar a h j =
      let a' = apply_fill c p qty cost bar a in
      let q = signed p.request.side qty in
      let prev = position a bar.symbol in
      let fill = execution_of p qty cost (c.commission_per_contract *F lit qty) bar in
      elim (String_discrete bar.symbol j) [
        | yes e ↦
            subst (λ j. position a' j ≡ start j +ℤ net j a'.fills) e
              (get_or-put_self a.positions bar.symbol (prev +ℤ q) (pos 0)
                ∙ ap (λ x. x +ℤ q) (h bar.symbol)
                ∙ +ℤ_assoc (start bar.symbol) (net bar.symbol a.fills) q
                ∙ ap (λ x. start bar.symbol +ℤ (net bar.symbol a.fills +ℤ x))
                    (sym (net-one bar.symbol fill refl))
                ∙ ap (λ x. start bar.symbol +ℤ x) (sym (net-append bar.symbol a.fills (fill ∷ []))))
        | no e ↦
            get_or-put_ne a.positions bar.symbol j (prev +ℤ q) (pos 0) e
            ∙ h j
            ∙ ap (λ x. start j +ℤ x)
                (sym (add_zero_ℤ (net j a.fills))
                  ∙ ap (λ x. net j a.fills +ℤ x) (sym (net-other j fill e))
                  ∙ sym (net-append j a.fills (fill ∷ [])))
      ]

  resolve-IsBalanced :
      (start : String → ℤ) (p : PendingOrder F) (bar : BarEvent F) (a : Account F)
      → IsBalanced start a
      → IsBalanced start (resolve c price p bar a).1
  unfolding resolve
  resolve-IsBalanced start p bar a k =
      let qty = fill_quantity c p bar p.request.order_type in
      if-cases (IsBalanced start) (ltb 0 qty) (apply_fill c p qty (price p bar qty) bar a) a
        (λ _. apply_fill-IsBalanced start p qty (price p bar qty) bar a k) (λ _. k)

  resolve_all-IsBalanced :
      (start : String → ℤ) (orders : List (PendingOrder F)) (bar : BarEvent F) (a : Account F)
      → IsBalanced start a
      → IsBalanced start (resolve_all c price orders bar a).1
  unfolding resolve_all
  resolve_all-IsBalanced start [] bar a k = k
  resolve_all-IsBalanced start (p ∷ orders) bar a k =
      resolve_all-IsBalanced start orders bar (resolve c price p bar a).1
        (resolve-IsBalanced start p bar a k)

module _ {F : Type 0} ⦃f : Float F⦄ ⦃g : FloatMath F⦄ (p : MarketImpactParams F) (c : Costs F) where
  -- Over a bar, even one that raises, every position stays what it was at a start plus the signed lots of the fills
  -- that are recorded since.
  pub process_bar-IsBalanced :
      (start : String → ℤ) (bar : BarEvent F) (s : Simulator F)
      → IsBalanced start s.account
      → IsBalanced start (process_bar p c bar s).1.account
  process_bar-IsBalanced start bar s k =
      process_bar-keeps (IsBalanced start) p c bar s
        (λ price orders a. resolve_all-IsBalanced c price start orders bar a) k
