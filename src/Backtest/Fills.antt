-- ===== src/Backtest/Fills.antt =====
-- One fill of backtest/market_simulator.py: how many lots a bar fills, and `_apply_fill`, on the position, the
-- entry price, the trade and the equity.
use binbot.Base.{
  ℕ, ◌+◌, ◌-◌, Bool, not, Option, none, some, String, List, [], ◌∷◌, ◌++◌, ℤ, pos, pos_part,
  nat_abs, neg, ltb_ℤ, ◌+ℤ◌, ltb, leb, ◌&&◌, ◌||◌, differ, if◌then◌else◌,
}
use binbot.Float.{Float, ◌+F◌, ◌-F◌, ◌*F◌, ◌/F◌, ◌≤F◌, lit}
use binbot.Dict.{Dict, get, put, remove, get_or}
use binbot.Core.Enums.{
  OrderSide, buy, sell, is_buy, OrderType, market, limit, stop, stop_limit, market_on_close,
}
use binbot.Core.Events.{DateTime, BarEvent, ExecutionEvent, taker, maker}
use binbot.Execution.Orders.{BrokerOrderRequest}

pub record PendingOrder (F : Type 0) : Type 0 where
  pub request : BrokerOrderRequest F
  pub expected_price : F
  pub remaining_qty : ℕ
  pub bars_alive : ℕ

-- `_OpenTrade`, and `TradeRecord` of backtest/performance.py
pub record OpenTrade (F : Type 0) : Type 0 where
  pub entry_ts : DateTime
  pub side : OrderSide
  pub peak_quantity : ℕ
  pub pnl : F

pub record TradeRecord (F : Type 0) : Type 0 where
  pub symbol : String
  pub side : OrderSide
  pub entry_ts : DateTime
  pub exit_ts : DateTime
  pub quantity : ℕ
  pub pnl : F

-- What the fills change.
pub record Account (F : Type 0) : Type 0 where
  pub equity : F
  pub positions : Dict ℤ
  pub avg_entry_price : Dict F
  pub open_trades : Dict (OpenTrade F)
  pub trades : List (TradeRecord F)
  pub fills : List (ExecutionEvent F)

pub record Costs (F : Type 0) : Type 0 where
  pub contract_multipliers : Dict F
  pub commission_per_contract : F
  pub max_participation_rate : F

-- `min` and `max` of counts.
abbrev pub min_ℕ : ℕ → ℕ → ℕ
min_ℕ a b = if leb a b then a else b

abbrev pub max_ℕ : ℕ → ℕ → ℕ
max_ℕ a b = if leb b a then a else b

abbrev pub is_positive : ℤ → Bool
is_positive a = ltb_ℤ (pos 0) a

abbrev pub is_zero : ℤ → Bool
is_zero a = not (ltb_ℤ (pos 0) a) && not (ltb_ℤ a (pos 0))

abbrev pub signed : OrderSide → ℕ → ℤ
signed side quantity = if is_buy side then pos quantity else neg (pos quantity)

abbrev pub is_flip : ℤ → ℤ → Bool
is_flip prev new =
    not (is_zero prev) && not (is_zero new) && differ (is_positive prev) (is_positive new)

-- The fill closes existing exposure.
abbrev pub is_closing : ℤ → ℤ → Bool
is_closing prev signed_qty =
    not (is_zero prev) && differ (is_positive prev) (is_positive signed_qty)

module _ {F : Type 0} ⦃f : Float F⦄ where
  -- `int(x)` where only its positive part is used
  abbrev whole_part : F → ℕ
  whole_part x = pos_part (f.floor x)

  abbrev share : Costs F → BarEvent F → ℕ
  share c bar = whole_part (bar.volume *F c.max_participation_rate)

  -- The limit, 0.0 where there is none.
  abbrev limit_of : Option F → F
  limit_of none = lit 0
  limit_of (some price) = price

  abbrev limit_fill : Costs F → PendingOrder F → BarEvent F → ℕ
  limit_fill c pending bar =
      let price = limit_of pending.request.limit_price in
      if (bar.low ≤F price) && (price ≤F bar.high)
      then min_ℕ pending.remaining_qty (max_ℕ (share c bar) 1)
      else 0

  -- `_determine_fill_quantity`
  unfoldable pub fill_quantity : Costs F → PendingOrder F → BarEvent F → OrderType → ℕ
  fill_quantity c pending bar market =
      min_ℕ pending.remaining_qty (max_ℕ (share c bar) pending.remaining_qty)
  fill_quantity c pending bar limit = limit_fill c pending bar
  fill_quantity c pending bar stop_limit = limit_fill c pending bar
  fill_quantity c pending bar stop = pending.remaining_qty
  fill_quantity c pending bar market_on_close = pending.remaining_qty

  abbrev pub new_trade : BarEvent F → ℤ → OpenTrade F
  new_trade bar position = record {
    entry_ts = bar.ts;
    side = if is_positive position then buy else sell;
    peak_quantity = nat_abs position;
    pnl = lit 0;
  }

  -- The trade that the fill belongs to, a new one from flat, with its commission and the profit it realizes.
  abbrev pub carried : F → Bool → F → ℤ → OpenTrade F → OpenTrade F
  carried commission closes closing_pnl new trade =
      let drag = trade.pnl -F commission in
      record trade {
        peak_quantity = max_ℕ trade.peak_quantity (nat_abs new);
        pnl = if closes then drag +F closing_pnl else drag;
      }

  unfoldable pub current_trade :
      BarEvent F → F → F → ℤ → ℤ → ℤ → Option (OpenTrade F) → Option (OpenTrade F)
  current_trade bar commission closing_pnl prev signed_qty new held =
      let opened = if is_zero prev && not (is_zero new) then some (new_trade bar new) else held in
      elim opened [
        | none ↦ none
        | some trade ↦ some (carried commission (is_closing prev signed_qty) closing_pnl new trade)
      ]

  unfoldable pub entry_price_after : F → F → ℤ → ℤ → ℤ → F
  entry_price_after avg fill_price prev signed_qty new =
      let total_qty = nat_abs prev + nat_abs signed_qty in
      if is_flip prev new
      then fill_price
      else if is_zero new
      then lit 0
      else if (not (ltb_ℤ prev (pos 0)) && is_positive signed_qty)
          || (not (is_positive prev) && ltb_ℤ signed_qty (pos 0))
      then (if ltb 0 total_qty
          then (avg *F lit (nat_abs prev) +F fill_price *F lit (nat_abs signed_qty))
            /F lit total_qty
          else fill_price)
      else avg

  -- `_finalize_trade`
  abbrev pub record_of : String → DateTime → Option (OpenTrade F) → List (TradeRecord F)
  record_of symbol exit_ts none = []
  record_of symbol exit_ts (some trade) =
      record {
        symbol = symbol;
        side = trade.side;
        entry_ts = trade.entry_ts;
        exit_ts = exit_ts;
        quantity = trade.peak_quantity;
        pnl = trade.pnl;
      }
      ∷ []

  abbrev pub keep_trade : Dict (OpenTrade F) → String → Option (OpenTrade F) → Dict (OpenTrade F)
  keep_trade trades symbol none = trades
  keep_trade trades symbol (some trade) = put trades symbol trade

  unfoldable pub trades_after :
      Dict (OpenTrade F)
      → BarEvent F
      → ℤ
      → ℤ
      → Option (OpenTrade F)
      → Dict (OpenTrade F) × List (TradeRecord F)
  trades_after trades bar prev new trade =
      if is_zero new && not (is_zero prev)
      then (remove trades bar.symbol, record_of bar.symbol bar.ts trade)
      else if is_flip prev new
      then (put trades bar.symbol (new_trade bar new), record_of bar.symbol bar.ts trade)
      else (keep_trade trades bar.symbol trade, [])

  abbrev pub execution_of : PendingOrder F → ℕ → F → F → BarEvent F → ExecutionEvent F
  execution_of pending fill_qty fill_price commission bar = record {
    ts = bar.ts;
    order_id = pending.request.order_id;
    correlation_id = pending.request.correlation_id;
    symbol = bar.symbol;
    side = pending.request.side;
    fill_quantity = fill_qty;
    fill_price = fill_price;
    cumulative_quantity = pending.request.quantity - pending.remaining_qty + fill_qty;
    remaining_quantity = pending.remaining_qty - fill_qty;
    commission = commission;
    liquidity = elim pending.request.order_type [ market ↦ taker | _ ↦ maker ];
    expected_price = some pending.expected_price;
  }

  -- `_apply_fill`; `_realized_pnl` is 0.0 before it and after it.
  unfoldable pub apply_fill : Costs F → PendingOrder F → ℕ → F → BarEvent F → Account F → Account F
  unfolding current_trade entry_price_after trades_after
  apply_fill c pending fill_qty fill_price bar a =
      let signed_qty = signed pending.request.side fill_qty in
      let multiplier = get_or c.contract_multipliers bar.symbol (lit 1) in
      let commission = c.commission_per_contract *F lit fill_qty in
      let prev = get_or a.positions bar.symbol (pos 0) in
      let new = prev +ℤ signed_qty in
      let avg = get_or a.avg_entry_price bar.symbol (lit 0) in
      let pnl_sign = f.of_int (if is_positive prev then pos 1 else neg (pos 1)) in
      let closing_qty = min_ℕ (nat_abs signed_qty) (nat_abs prev) in
      let closing_pnl = pnl_sign *F (fill_price -F avg) *F lit closing_qty *F multiplier in
      let realized = if is_closing prev signed_qty then lit 0 +F closing_pnl else lit 0 in
      let trade =
        current_trade bar commission closing_pnl prev signed_qty new
          (get a.open_trades bar.symbol) in
      let (open_trades, closed) = trades_after a.open_trades bar prev new trade in
      record {
        equity = a.equity +F (realized -F commission);
        positions = put a.positions bar.symbol new;
        avg_entry_price =
            put a.avg_entry_price bar.symbol (entry_price_after avg fill_price prev signed_qty new);
        open_trades = open_trades;
        trades = a.trades ++ closed;
        fills = a.fills ++ execution_of pending fill_qty fill_price commission bar ∷ [];
      }
