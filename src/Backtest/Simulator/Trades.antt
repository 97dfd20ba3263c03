-- ===== src/Backtest/Simulator/Trades.antt =====
-- The open trades of the simulated broker against its positions.
use binbot.Base.{
  if-cases, ◌&&◌, ℕ, ◌≤◌, ◌<◌, ◌≡◌, ◌≢◌, refl, Bool, false, not, Option, none, some, String, List,
  [], ◌∷◌, ℤ, pos, nat_abs, ◌+ℤ◌, arith, if◌then◌else◌, ltb, String_discrete, sym, subst,
}
use binbot.Float.{Float, FloatMath}
use binbot.Dict.{get_or-put_self, get_or-put_ne, Dict, get, get_or, get-put, get-remove}
use binbot.Core.Enums.{OrderSide, buy, sell}
use binbot.Core.Events.{BarEvent}
use binbot.Backtest.Impact.{MarketImpactParams}
use binbot.Backtest.Simulator.Bars.{process_bar-keeps}
use binbot.Backtest.Simulator.{Simulator, resolve, resolve_all, process_bar}
use binbot.Backtest.Fills.{
  fill_quantity, PendingOrder, OpenTrade, Account, Costs, signed, is_zero, is_positive, is_flip,
  is_closing, new_trade, current_trade, carried, trades_after, apply_fill,
}

signed_ne : (side : OrderSide) (n : ℕ) → 0 < n → signed side n ≢ pos 0
signed_ne buy n h e = ground arith
signed_ne sell n h e = ground arith

module _ {F : Type 0} where
  -- The trade of a position: none when flat, else on its side and at least of its size.
  abbrev pub Fits : ℤ → Option (OpenTrade F) → Type 0
  Fits q none = q ≡ pos 0
  Fits q (some trade) =
      (q ≢ pos 0)
      × (nat_abs q ≤ trade.peak_quantity)
      × (trade.side ≡ (if is_positive q then buy else sell))

  Fits-subst : (q q' : ℤ) (o o' : Option (OpenTrade F)) → q' ≡ q → o' ≡ o → Fits q o → Fits q' o'
  Fits-subst q q' o o' e g h = subst (λ x. Fits x o') (sym e) (subst (Fits q) (sym g) h)

  abbrev pub position : Account F → String → ℤ
  position a s = get_or a.positions s (pos 0)

  abbrev pub IsConsistent : Account F → Type 0
  IsConsistent a = (s : String) → Fits (position a s) (get a.open_trades s)

module _ {F : Type 0} ⦃f : Float F⦄ where
  -- The trade that a fill leaves on its symbol.
  abbrev trade_after : BarEvent F → ℤ → ℤ → Option (OpenTrade F) → Option (OpenTrade F)
  trade_after bar prev new t =
      if is_zero new && not (is_zero prev)
      then none
      else if is_flip prev new
      then some (new_trade bar new)
      else t

  get-trades_after :
      (trades : Dict (OpenTrade F)) (bar : BarEvent F) (prev new : ℤ) (t : Option (OpenTrade F))
      → (t ≡ none → get trades bar.symbol ≡ none)
      → get (trades_after trades bar prev new t).0 bar.symbol ≡ trade_after bar prev new t
  unfolding trades_after
  get-trades_after trades bar prev new none h = ground (
    arith,
    h refl,
    get-remove trades bar.symbol bar.symbol,
    get-put trades bar.symbol bar.symbol (new_trade bar new),
  )
  get-trades_after trades bar prev new (some t) h = ground (
    arith,
    get-remove trades bar.symbol bar.symbol,
    get-put trades bar.symbol bar.symbol (new_trade bar new),
    get-put trades bar.symbol bar.symbol t,
  )

  carried-Fits :
      (commission pnl : F) (closes : Bool) (new : ℤ) (t : OpenTrade F)
      → new ≢ pos 0
      → t.side ≡ (if is_positive new then buy else sell)
      → Fits new (some (carried commission closes pnl new t))
  carried-Fits commission pnl closes new t h e = (h, ground arith, e)

  opened-Fits :
      (bar : BarEvent F) (commission pnl : F) (closes : Bool) (prev new : ℤ)
      (held : Option (OpenTrade F))
      → Fits prev held
      → (is_zero new && not (is_zero prev)) ≡ false
      → is_flip prev new ≡ false
      → Fits new
          (elim (if is_zero prev && not (is_zero new) then some (new_trade bar new) else held) [
            | none ↦ none
            | some trade ↦ some (carried commission closes pnl new trade)
          ])
  opened-Fits bar commission pnl closes prev new none k z nf =
      if-cases
        (λ o. Fits new (elim o as (λ _. Option (OpenTrade F)) [
          | none ↦ none
          | some t ↦ some (carried commission closes pnl new t)
        ]))
        (is_zero prev && not (is_zero new)) (some (new_trade bar new)) none
        (λ b. carried-Fits commission pnl closes new (new_trade bar new) (λ e. ground arith) refl)
        (λ b. ground arith)
  opened-Fits bar commission pnl closes prev new (some t) k z nf =
      if-cases
        (λ o. Fits new (elim o as (λ _. Option (OpenTrade F)) [
          | none ↦ none
          | some t ↦ some (carried commission closes pnl new t)
        ]))
        (is_zero prev && not (is_zero new)) (some (new_trade bar new)) (some t)
        (λ b. carried-Fits commission pnl closes new (new_trade bar new) (λ e. ground arith) refl)
        (λ b. carried-Fits commission pnl closes new t (λ e. ground arith) (ground arith))

  trade_after-Fits :
      (bar : BarEvent F) (commission pnl : F) (prev q : ℤ) (held : Option (OpenTrade F))
      → q ≢ pos 0
      → Fits prev held
      → Fits (prev +ℤ q) (
          trade_after bar prev
            (prev +ℤ q)
            (current_trade bar commission pnl prev q (prev +ℤ q) held))
  unfolding current_trade
  trade_after-Fits bar commission pnl prev q held h k =
      let new = prev +ℤ q in
      if-cases (Fits new) (is_zero new && not (is_zero prev)) none _ (λ z. ground arith)
        (λ nz.
          if-cases (Fits new) (is_flip prev new) (some (new_trade bar new)) _
            (λ fl. (ground arith, omega arith, refl))
            (λ nf. opened-Fits bar commission pnl (is_closing prev q) prev new held k nz nf))

  current_trade-none :
      (bar : BarEvent F) (commission pnl : F) (prev q new : ℤ) (held : Option (OpenTrade F))
      → current_trade bar commission pnl prev q new held ≡ none
      → held ≡ none
  unfolding current_trade
  current_trade-none bar commission pnl prev q new none h = refl
  current_trade-none bar commission pnl prev q new (some t) h = ground arith

  -- Other symbols keep their trade.
  get-trades_after_ne :
      (trades : Dict (OpenTrade F)) (bar : BarEvent F) (prev new : ℤ) (t : Option (OpenTrade F))
      (j : String)
      → bar.symbol ≢ j
      → get (trades_after trades bar prev new t).0 j ≡ get trades j
  unfolding trades_after
  get-trades_after_ne trades bar prev new none j h =
      ground
        (arith, get-remove trades bar.symbol j, get-put trades bar.symbol j (new_trade bar new))
  get-trades_after_ne trades bar prev new (some t) j h = ground (
    arith,
    get-remove trades bar.symbol j,
    get-put trades bar.symbol j (new_trade bar new),
    get-put trades bar.symbol j t,
  )

  apply_fill-IsConsistent :
      (c : Costs F) (pending : PendingOrder F) (qty : ℕ) (price : F) (bar : BarEvent F)
      (a : Account F)
      → 0 < qty
      → IsConsistent a
      → IsConsistent (apply_fill c pending qty price bar a)
  unfolding apply_fill
  apply_fill-IsConsistent c pending qty price bar a h k j =
      let a' = apply_fill c pending qty price bar a in
      let prev = position a bar.symbol in
      let q = signed pending.request.side qty in
      let held = get a.open_trades bar.symbol in
      elim (String_discrete bar.symbol j) [
        | yes e ↦
            subst (λ j. Fits (position a' j) (get a'.open_trades j)) e
              (Fits-subst (prev +ℤ q) (position a' bar.symbol) _ _
                (get_or-put_self a.positions bar.symbol (prev +ℤ q) (pos 0))
                (get-trades_after a.open_trades bar prev (prev +ℤ q) _
                  (current_trade-none bar _ _ prev q (prev +ℤ q) held))
                (trade_after-Fits bar _ _ prev q held (signed_ne pending.request.side qty h)
                  (k bar.symbol)))
        | no e ↦
            Fits-subst (position a j) (position a' j) (get a.open_trades j) _
              (get_or-put_ne a.positions bar.symbol j (prev +ℤ q) (pos 0) e)
              (get-trades_after_ne a.open_trades bar prev (prev +ℤ q) _ j e) (k j)
      ]

module _ {F : Type 0} ⦃f : Float F⦄ (c : Costs F)
    (price : PendingOrder F → BarEvent F → ℕ → F) where
  resolve-IsConsistent :
      (p : PendingOrder F) (bar : BarEvent F) (a : Account F)
      → IsConsistent a
      → IsConsistent (resolve c price p bar a).1
  unfolding resolve
  resolve-IsConsistent p bar a k =
      let qty = fill_quantity c p bar p.request.order_type in
      if-cases IsConsistent (ltb 0 qty) (apply_fill c p qty (price p bar qty) bar a) a
        (λ h. apply_fill-IsConsistent c p qty (price p bar qty) bar a (ground arith) k) (λ _. k)

  resolve_all-IsConsistent :
      (orders : List (PendingOrder F)) (bar : BarEvent F) (a : Account F)
      → IsConsistent a
      → IsConsistent (resolve_all c price orders bar a).1
  unfolding resolve_all
  resolve_all-IsConsistent [] bar a k = k
  resolve_all-IsConsistent (p ∷ orders) bar a k =
      resolve_all-IsConsistent orders bar (resolve c price p bar a).1
        (resolve-IsConsistent p bar a k)

module _ {F : Type 0} ⦃f : Float F⦄ ⦃g : FloatMath F⦄ where
  -- A bar keeps the open trades in step with the positions, even one that raises: a flat symbol has none, another
  -- one that is on the side of its position and at least of its size.
  pub process_bar-IsConsistent :
      (p : MarketImpactParams F) (c : Costs F) (bar : BarEvent F) (s : Simulator F)
      → IsConsistent s.account
      → IsConsistent (process_bar p c bar s).1.account
  process_bar-IsConsistent p c bar s k =
      process_bar-keeps IsConsistent p c bar s
        (λ price orders a. resolve_all-IsConsistent c price orders bar a) k
