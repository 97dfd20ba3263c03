-- ===== src/Tests/Trades.antt =====
-- execution/trade_tracker.py at concrete inputs.
use binbot.Base.{
  ℕ, ◌+◌, ◌≤◌, ◌<◌, ◌≡◌, ◌≢◌, ◌⊎◌, none, some, String, [], ◌∷◌, ◌++◌, arith, refl, ℤ, pos, ◌+ℤ◌,
  ◌*ℤ◌, ◌-ℤ◌, ok, String_discrete,
}
use binbot.Float.Fixed.{fixed, units, fixed-IsMonotone}
use binbot.Dict.{get, put, remove}
use binbot.Core.Enums.{OrderSide, buy, sell}
use binbot.Core.Events.{ExecutionEvent, unknown}
use binbot.Execution.TradeTracker.{
  TradeTracker, OpenTrade, ClosedTrade, on_execution, on_execution_with, open_first, scale_in,
  close_part, closed_trade,
}
use binbot.Execution.TradeTracker.Positions.{
  IsValid, Oversized, position, signed_fill, on_execution_position,
}
use binbot.Execution.TradeTracker.Closing.{on_execution_closes}

abbrev fill : OrderSide → ℕ → ℤ → ExecutionEvent ℤ
fill side quantity price = record {
  ts = 5;
  order_id = "o1";
  correlation_id = "c1";
  symbol = "ES";
  side = side;
  fill_quantity = quantity;
  fill_price = price;
  cumulative_quantity = quantity;
  remaining_quantity = 0;
  commission = units 1;
  liquidity = unknown;
  expected_price = none;
}

-- Three held at 100, two already closed at 110.
abbrev trade : OpenTrade ℤ
trade = record {
  entry_ts = 1;
  side = buy;
  quantity = 3;
  avg_entry_price = units 100;
  exit_notional = units 220;
  exit_quantity = 2;
  realized_pnl = units 18;
}

abbrev tracker : TradeTracker ℤ
tracker = record { open_trades = ("ES", trade) ∷ []; closed_trades = [] }

abbrev multiplier : String → ℤ
multiplier symbol = units 1

tracker-IsValid : IsValid tracker
unfolding get
tracker-IsValid j = ground arith

-- Closing the other three at 115 nets 18 + 3 * 15 - 1 at an exit price of 113.
close_run :
    (on_execution multiplier (fill sell 3 (units 115)) tracker).0
    ≡ ok (
        some (record {
          symbol = "ES";
          side = buy;
          entry_ts = 1;
          exit_ts = 5;
          quantity = 5;
          entry_price = units 100;
          exit_price = units 113;
          pnl = units 62;
        }))
unfolding on_execution on_execution_with open_first scale_in close_part closed_trade get put remove
    String_discrete ◌+ℤ◌ ◌-ℤ◌ ◌*ℤ◌
close_run = refl

on_execution_position_example :
    let event = fill sell 9 (units 105) in
    let t' = (on_execution multiplier event tracker).1 in
    (¬ Oversized event (get tracker.open_trades "ES")
      → position t' "ES" ≡ position tracker "ES" +ℤ signed_fill event)
    × (Oversized event (get tracker.open_trades "ES") → position t' "ES" ≡ pos 0)
    × ((j : String) → j ≢ "ES" → get t'.open_trades j ≡ get tracker.open_trades j)
on_execution_position_example =
    on_execution_position fixed-IsMonotone multiplier (fill sell 9 (units 105)) tracker
      tracker-IsValid

on_execution_closes_example :
    let (r, t') = on_execution multiplier (fill sell 3 (units 115)) tracker in
    (sell ≢ buy
      → 3 ≤ 3
      → (c : ClosedTrade ℤ) × (r ≡ ok (some c))
        × (get t'.open_trades "ES" ≡ none)
        × (t'.closed_trades ≡ [] ++ c ∷ [])
        × (c.quantity ≡ 3 + 2)
        × (c.entry_price ≡ units 100)
        × (c.entry_ts ≡ 1)
        × (c.side ≡ buy))
    × ((sell ≡ buy) ⊎ (sell ≢ buy) × (3 < 3)
        → (r ≡ ok none) × (get t'.open_trades "ES" ≢ none) × (t'.closed_trades ≡ []))
unfolding get String_discrete
on_execution_closes_example =
    on_execution_closes fixed-IsMonotone multiplier (fill sell 3 (units 115)) tracker trade refl
      (omega arith)
