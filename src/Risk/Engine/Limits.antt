-- ===== src/Risk/Engine/Limits.antt =====
-- What an order that passed risk/risk_engine.py can do to the positions.
use binbot.Base.{ℕ, ◌≤◌, ◌≡◌, true, String, ℤ, pos, arith, ◌≤ℤ◌, nat_abs, ◌+ℤ◌, ◌*ℤ◌}
use binbot.Float.{Float}
use binbot.Dict.{get-put}
use binbot.Core.Enums.{OrderSide, buy, sell, sign}
use binbot.Core.Events.{SignalEvent}
use binbot.Risk.Engine.{
  RiskEngine, Account, check_order, update_position, signed_quantity, current_position,
}
use binbot.Risk.Engine.Gate.{passes_iff_admissible, check_order_state}

-- The position after `k` contracts of an order on a side.
abbrev pub filled_position : ℤ → ℕ → OrderSide → ℤ
filled_position current k side = current +ℤ pos k *ℤ sign side

-- A part of an order takes the position no further from 0 than one of its ends.
partial_fill_bound :
    (current : ℤ) (k n : ℕ) (most : ℤ) (side : OrderSide)
    → k ≤ n
    → pos (nat_abs current) ≤ℤ most
    → pos (nat_abs (filled_position current n side)) ≤ℤ most
    → pos (nat_abs (filled_position current k side)) ≤ℤ most
unfolding ◌+ℤ◌ ◌*ℤ◌
partial_fill_bound current k n most buy h before after = ground arith
partial_fill_bound current k n most sell h before after = ground arith

module _ {F : Type 0} where
  -- No position is above the limit of a symbol.
  pub record WithinLimit (e : RiskEngine F) : Type 0 where
    pub at_symbol :
        (symbol : String) → pos (nat_abs (current_position e symbol)) ≤ℤ e.max_contracts_per_symbol

  update_position-WithinLimit :
      (symbol : String) (q : ℤ) (e : RiskEngine F)
      → pos (nat_abs q) ≤ℤ e.max_contracts_per_symbol
      → WithinLimit e
      → WithinLimit (update_position symbol q e)
  unfolding update_position
  update_position-WithinLimit symbol q e h w = record {
    at_symbol = λ j. ground (arith, get-put e.positions symbol j q, w.at_symbol j);
  }

module _ {F : Type 0} ⦃f : Float F⦄ where
  -- If all positions are within `max_contracts_per_symbol`, and an order whose target quantity is not negative passes,
  -- then they still are after any part of the order has been filled, on the side of its signal, and booked.
  pub fill_keeps_limit :
      (now : F) (s : SignalEvent F) (a : Account F) (e : RiskEngine F) (k n : ℕ)
      → s.target_quantity ≡ pos n
      → k ≤ n
      → WithinLimit e
      → let (r, e') = check_order now s a e in
        r.passed ≡ true
        → WithinLimit
            (update_position s.symbol (filled_position (current_position e s.symbol) k s.side) e')
  unfolding signed_quantity
  fill_keeps_limit now s a e k n target part w passed =
      let current = current_position e s.symbol in
      let full : pos (nat_abs (filled_position current n s.side)) ≤ℤ e.max_contracts_per_symbol =
        rw (← target) ((passes_iff_admissible now s a e).0 passed).position in
      rw (check_order_state now s a e) (
        update_position-WithinLimit s.symbol (filled_position current k s.side)
          (record e { rate_limiter = _ })
          (partial_fill_bound current k n e.max_contracts_per_symbol s.side part
            (w.at_symbol s.symbol) full)
          (record { at_symbol = w.at_symbol }))
