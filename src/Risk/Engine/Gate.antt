-- ===== src/Risk/Engine/Gate.antt =====
-- The gate of risk/risk_engine.py: which signals `check_order` lets through, and what it writes.
use binbot.Base.{
  ◌<◌, ◌≡◌, ◌↔◌, Bool, true, false, not, pos, arith, ◌≤ℤ◌, nat_abs, ◌+ℤ◌, ◌&&◌, leb, ltb_ℤ,
  if◌then◌else◌,
}
use binbot.Float.{Float, ◌+F◌, ◌/F◌, ◌<F◌, ◌≤F◌, lit}
use binbot.Dict.{get}
use binbot.Core.Events.{SignalEvent}
use binbot.Risk.RateLimiter.{try_acquire}
use binbot.Risk.Margin.{check_margin}
use binbot.Risk.Engine.{
  RiskEngine, Account, ok, circuit_breaker_halted, halted, check_order, notional, signed_quantity,
  current_position, margin_query, has_price,
}

module _ {F : Type 0} ⦃f : Float F⦄ (now : F) (s : SignalEvent F) (a : Account F)
    (e : RiskEngine F) where
  -- Every limit holds for the order.
  pub record Admissible : Type 0 where
    pub running : e.circuit_breaker.halted ≡ false
    pub some_quantity : 0 < nat_abs s.target_quantity
    pub order_size : pos (nat_abs s.target_quantity) ≤ℤ e.max_contracts_per_order
    pub in_rate : (try_acquire now e.rate_limiter).0.0 ≡ true
    pub position :
        pos (nat_abs (current_position e s.symbol +ℤ signed_quantity s))
        ≤ℤ e.max_contracts_per_symbol
    pub priced : has_price (get e.prices s.symbol) ≡ true
    pub order_notional : (e.max_position_notional_usd <F notional s e) ≡ false
    pub equity : (a.account_equity ≤F lit 0) ≡ false
    pub leverage :
        (e.max_gross_leverage <F (a.gross_exposure_usd +F notional s e) /F a.account_equity) ≡ false
    pub margin : (check_margin (margin_query s a e) e.margin_calculator).passed ≡ true

  -- `check_order` passes a signal exactly when every one of the limits holds for it.
  pub passes_iff_admissible : ((check_order now s a e).0.passed ≡ true) ↔ Admissible
  unfolding check_order
  passes_iff_admissible = (λ h. ground arith, λ h. ground arith)

  -- The two checks before the rate limiter.
  abbrev pub reaches_limiter : Bool
  reaches_limiter =
      not e.circuit_breaker.halted
      && (not (leb (nat_abs s.target_quantity) 0)
          && not (ltb_ℤ e.max_contracts_per_order (pos (nat_abs s.target_quantity))))

  -- Whatever the verdict, `check_order` changes nothing but the rate limiter, which has made one attempt at `now`
  -- if neither the circuit breaker nor the order's size refused, and is untouched otherwise.
  pub check_order_state : (check_order now s a e).1 ≡ record e {
    rate_limiter = if reaches_limiter then (try_acquire now e.rate_limiter).1 else e.rate_limiter;
  }
  unfolding check_order
  check_order_state = ground arith

  -- A halted engine refuses every order with the reason of its halt, approves no quantity and is left as it was.
  pub halted_refuses :
      e.circuit_breaker.halted ≡ true
      → check_order now s a e ≡ (
        record {
          passed = false;
          code = circuit_breaker_halted;
          message = halted e.circuit_breaker.halt_reason;
          approved_quantity = pos 0;
        },
        e,
      )
  unfolding check_order
  halted_refuses h = ground arith

  -- The approved quantity is the whole target of a passed order, and 0 of a refused one; the code is OK
  -- exactly when the order passes.
  pub approved_quantity :
      let r = (check_order now s a e).0 in
      (r.approved_quantity ≡ (if r.passed then s.target_quantity else pos 0))
      × ((r.code ≡ ok) ↔ (r.passed ≡ true))
  unfolding check_order
  approved_quantity = (ground arith, (λ h. ground arith, λ h. ground arith))
