-- ===== src/Tests/Simulator.antt =====
-- backtest/market_simulator.py at concrete inputs.
use binbot.Base.{
  ℕ, ◌≡◌, refl, none, some, String, [], ◌∷◌, ℤ, pos, All, map, String_discrete, ◌+ℤ◌, ◌-ℤ◌, ◌*ℤ◌,
}
use binbot.Float.Fixed.{fixed_math, fixed, units}
use binbot.Dict.{get, put, remove, get_or}
use binbot.Core.Enums.{OrderSide, buy, sell, OrderType, market, limit, TimeInForce, day, fok}
use binbot.Core.Events.{BarEvent}
use binbot.Execution.Orders.{BrokerOrderRequest}
use binbot.Backtest.Fills.{
  Account, Costs, fill_quantity, apply_fill, current_trade, entry_price_after, trades_after,
}
use binbot.Backtest.Impact.{
  MarketImpactParams, compute_fill_price, sqrt_market_impact_bps, realized_vol_pct,
}
use binbot.Backtest.Simulator.{
  update_history, resolve_bar, Simulator, place_order, cancel_order, cancel_in, resolve,
  resolve_all, process_bar,
}
use binbot.Backtest.Simulator.Trades.{position, IsConsistent, process_bar-IsConsistent}
use binbot.Backtest.Simulator.Conservation.{IsBalanced, process_bar-IsBalanced}
use binbot.Backtest.Simulator.Carried.{IsCarried, HasSettled, process_bar-IsCarried}

abbrev order : String → OrderSide → ℕ → OrderType → TimeInForce → BrokerOrderRequest ℤ
order id side quantity kind time_in_force = record {
  order_id = id;
  correlation_id = "c1";
  symbol = "ES";
  side = side;
  quantity = quantity;
  order_type = kind;
  limit_price = some (units 100);
  time_in_force = time_in_force;
  oca_group = none;
  oca_type = 1;
}

abbrev costs : Costs ℤ
costs = record {
  contract_multipliers = [];
  commission_per_contract = units 2;
  max_participation_rate = pos 100;
}

abbrev account : Account ℤ
account = record {
  equity = units 1000;
  positions = [];
  avg_entry_price = [];
  open_trades = [];
  trades = [];
  fills = [];
}

abbrev empty : Simulator ℤ
empty = record {
  account = account;
  pending_orders = [];
  last_bar = [];
  volume_history = [];
  return_history = [];
}

-- A bar between 95 and 105 of fifty lots, of which a tenth may be consumed.
abbrev es_bar : BarEvent ℤ
es_bar = record {
  ts = 4;
  symbol = "ES";
  timeframe_s = 60;
  open_price = units 100;
  high = units 105;
  low = units 95;
  close = units 102;
  volume = units 50;
  vwap = units 101;
}

abbrev impact : MarketImpactParams ℤ
impact = record { impact_coefficient = units 1; spread_capture_fraction = pos 500 }

abbrev with_orders : Simulator ℤ
with_orders = record empty {
  pending_orders =
      (
        "ES",
        map
            (λ r. record {
              request = r;
              expected_price = units 102;
              remaining_qty = r.quantity;
              bars_alive = 0;
            })
            (order "o1" buy 30 market day
              ∷ order "o2" sell 40 limit day
              ∷ order "o3" sell 9 limit fok
              ∷ []),
      )
      ∷ [];
}

-- The market order takes all its thirty lots, the two limit orders five each; of the fill-or-kill order the rest
-- is dropped.
bar_run :
    let (r, s) = process_bar impact costs es_bar with_orders in
    (position s.account "ES" ≡ pos 20)
    × (map (λ p. p.remaining_qty) (get_or s.pending_orders "ES" []) ≡ 35 ∷ [])
    × (map (λ e. e.fill_quantity) s.account.fills ≡ 30 ∷ 5 ∷ 5 ∷ [])
    × (map (λ e. e.fill_price) s.account.fills ≡ pos 105700 ∷ pos 94700 ∷ pos 94700 ∷ [])
unfolding process_bar update_history resolve_bar compute_fill_price sqrt_market_impact_bps
    realized_vol_pct resolve_all resolve fill_quantity apply_fill current_trade entry_price_after
    trades_after get put remove String_discrete ◌+ℤ◌ ◌-ℤ◌ ◌*ℤ◌
bar_run = (refl, refl, refl, refl)

place_then_cancel :
    get_or
      (cancel_order "o1" (place_order 3 (order "o1" buy 30 market day) empty).1).pending_orders
      "ES"
      []
    ≡ []
unfolding cancel_order cancel_in place_order get put String_discrete
place_then_cancel = refl

process_bar-IsConsistent_example :
    IsConsistent (process_bar impact costs es_bar with_orders).1.account
unfolding get
process_bar-IsConsistent_example =
    process_bar-IsConsistent impact costs es_bar with_orders (λ s. refl)

process_bar-IsBalanced_example :
    IsBalanced (λ s. pos 0) (process_bar impact costs es_bar with_orders).1.account
unfolding get ◌+ℤ◌
process_bar-IsBalanced_example =
    process_bar-IsBalanced impact costs (λ s. pos 0) es_bar with_orders (λ s. refl)

process_bar-IsCarried_example :
    let s' = (process_bar impact costs es_bar with_orders).1 in
    All IsCarried (get_or s'.pending_orders "ES" [])
    × HasSettled (get_or with_orders.pending_orders "ES" []) with_orders.account s'.account
unfolding process_bar update_history get
process_bar-IsCarried_example = process_bar-IsCarried impact costs es_bar with_orders refl
