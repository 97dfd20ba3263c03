-- ===== src/Backtest/Simulator/Bars.antt =====
-- What a bar keeps when the resolution of the orders keeps it, whether the bar raises or not.
use binbot.Base.{ℕ, ◌≡◌, refl, sym, subst, Option, List, [], Result, ok, err, arith}
use binbot.Float.{Float, FloatMath}
use binbot.Dict.{get, get_or}
use binbot.Core.Events.{BarEvent}
use binbot.Backtest.Fills.{Account, Costs, PendingOrder}
use binbot.Backtest.Impact.{MarketImpactParams, compute_fill_price}
use binbot.Backtest.Simulator.{
  Simulator, resolve_all, log_return, with_return, update_history, resolve_bar, if_updated,
  process_bar,
}

module _ {F : Type 0} ⦃f : Float F⦄ ⦃g : FloatMath F⦄ where
  with_return-keeps :
      (bar : BarEvent F) (r : Result (Option F)) (s : Simulator F)
      → ((with_return bar r s).1.account ≡ s.account)
        × ((with_return bar r s).1.pending_orders ≡ s.pending_orders)
  with_return-keeps bar (err e) s = (refl, refl)
  with_return-keeps bar (ok r) s = (refl, refl)

  pub update_history-account :
      (bar : BarEvent F) (s : Simulator F) → (update_history bar s).1.account ≡ s.account
  unfolding update_history
  update_history-account bar s =
      (with_return-keeps bar (log_return bar (get s.last_bar bar.symbol)) _).0

  pub update_history-pending_orders :
      (bar : BarEvent F) (s : Simulator F)
      → (update_history bar s).1.pending_orders ≡ s.pending_orders
  unfolding update_history
  update_history-pending_orders bar s =
      (with_return-keeps bar (log_return bar (get s.last_bar bar.symbol)) _).1

  if_updated-keeps :
      (P : Account F → Type 0) (p : MarketImpactParams F) (c : Costs F) (bar : BarEvent F)
      (x : Result (Unit {0}) × Simulator F)
      → P x.1.account
      → ((s : Simulator F) → P s.account → P (resolve_bar p c bar s).account)
      → P (if_updated p c bar x).1.account
  if_updated-keeps P p c bar (err e, s) h k = h
  if_updated-keeps P p c bar (ok _, s) h k = k s h

  pub process_bar-keeps :
      (P : Account F → Type 0) (p : MarketImpactParams F) (c : Costs F) (bar : BarEvent F)
      (s : Simulator F)
      → ((price : PendingOrder F → BarEvent F → ℕ → F) (orders : List (PendingOrder F))
            (a : Account F)
          → P a
          → P (resolve_all c price orders bar a).1)
      → P s.account
      → P (process_bar p c bar s).1.account
  unfolding process_bar resolve_bar
  process_bar-keeps P p c bar s k h =
      if_updated-keeps P p c bar (update_history bar s)
        (subst P (sym (update_history-account bar s)) h)
        (λ s' h'.
          k (compute_fill_price p (get_or s'.return_history bar.symbol []))
            (get_or s'.pending_orders bar.symbol []) s'.account h')

  -- A bar that returns has resolved the orders of a state after `_update_history`.
  if_updated-ok :
      (p : MarketImpactParams F) (c : Costs F) (bar : BarEvent F)
      (x : Result (Unit {0}) × Simulator F)
      → (if_updated p c bar x).0 ≡ ok tt
      → (if_updated p c bar x).1 ≡ resolve_bar p c bar x.1
  if_updated-ok p c bar (err e, s) h = ground arith
  if_updated-ok p c bar (ok _, s) h = refl

  pub process_bar-ok :
      (p : MarketImpactParams F) (c : Costs F) (bar : BarEvent F) (s : Simulator F)
      → (process_bar p c bar s).0 ≡ ok tt
      → (process_bar p c bar s).1 ≡ resolve_bar p c bar (update_history bar s).1
  unfolding process_bar
  process_bar-ok p c bar s h = if_updated-ok p c bar (update_history bar s) h
