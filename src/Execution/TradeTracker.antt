-- ===== src/Execution/TradeTracker.antt =====
-- execution/trade_tracker.py: round trips from the stream of fills. `exit_quantity`, a float in the source,
-- only ever holds a whole number and is one here. The order of assignments within a branch is that of the source.
pub mod Positions
pub mod Closing
use Prim.Native.Nat.{min}
use binbot.Base.{
  differ, ℕ, ◌+◌, ◌-◌, Bool, true, false, Option, none, some, String, List, [], ◌∷◌, ◌++◌, ℤ, pos,
  ltb, ◌==◌, ◌&&◌, Result, ok, err, if◌then◌else◌,
}
use binbot.Float.{Float, ◌+F◌, ◌-F◌, ◌*F◌, ◌/F◌, divide, lit}
use binbot.Dict.{Dict, get, put, remove}
use binbot.Core.Enums.{OrderSide, buy, sell, sign, is_buy}
use binbot.Core.Events.{DateTime, ExecutionEvent}

pub record ClosedTrade (F : Type 0) : Type 0 where
  pub symbol : String
  pub side : OrderSide
  pub entry_ts : DateTime
  pub exit_ts : DateTime
  pub quantity : ℕ
  pub entry_price : F
  pub exit_price : F
  pub pnl : F

pub record OpenTrade (F : Type 0) : Type 0 where
  pub entry_ts : DateTime
  pub side : OrderSide
  pub quantity : ℕ
  pub avg_entry_price : F
  pub exit_notional : F
  pub exit_quantity : ℕ
  pub realized_pnl : F

pub record TradeTracker (F : Type 0) : Type 0 where
  pub open_trades : Dict (OpenTrade F)
  pub closed_trades : List (ClosedTrade F)

module _ {F : Type 0} ⦃f : Float F⦄ where
  abbrev whole : ℕ → F
  whole n = f.of_int (pos n)

  -- `signed_fill > 0` and `prev_signed > 0`
  abbrev fill_positive : ExecutionEvent F → Bool
  fill_positive event = is_buy event.side && ltb 0 event.fill_quantity

  abbrev held_positive : OpenTrade F → Bool
  held_positive trade = is_buy trade.side && ltb 0 trade.quantity

  abbrev pub is_closing_direction : ExecutionEvent F → OpenTrade F → Bool
  is_closing_direction event trade = differ (fill_positive event) (held_positive trade)

  unfoldable pub open_first : ExecutionEvent F → OpenTrade F
  open_first event = record {
    entry_ts = event.ts;
    side = if fill_positive event then buy else sell;
    quantity = event.fill_quantity;
    avg_entry_price = event.fill_price;
    exit_notional = lit 0;
    exit_quantity = 0;
    realized_pnl = f.minus event.commission;
  }

  -- Scaling into the same side.
  unfoldable pub scale_in : ExecutionEvent F → OpenTrade F → Result (OpenTrade F)
  scale_in event trade =
      let total_qty = trade.quantity + event.fill_quantity in
      elim (divide
        (trade.avg_entry_price *F whole trade.quantity
          +F event.fill_price *F whole event.fill_quantity)
        (whole total_qty)) [
          | err e ↦ err e
          | ok avg ↦ ok (record trade {
            avg_entry_price = avg;
            quantity = total_qty;
            realized_pnl = trade.realized_pnl -F event.commission;
          })
        ]

  -- A closing fill, full or partial.
  unfoldable pub close_part : F → ExecutionEvent F → OpenTrade F → OpenTrade F
  close_part multiplier event trade =
      let closing_qty = min event.fill_quantity trade.quantity in
      record trade {
        realized_pnl =
            trade.realized_pnl
            +F f.of_int (sign trade.side)
              *F (event.fill_price -F trade.avg_entry_price)
              *F whole closing_qty
              *F multiplier
            -F event.commission;
        exit_notional = trade.exit_notional +F event.fill_price *F whole closing_qty;
        exit_quantity = trade.exit_quantity + closing_qty;
        quantity = trade.quantity - closing_qty;
      }

  unfoldable pub closed_trade : ExecutionEvent F → OpenTrade F → ClosedTrade F
  closed_trade event trade = record {
    symbol = event.symbol;
    side = trade.side;
    entry_ts = trade.entry_ts;
    exit_ts = event.ts;
    quantity = trade.exit_quantity;
    entry_price = trade.avg_entry_price;
    exit_price =
        if trade.exit_quantity == 0
        then event.fill_price
        else trade.exit_notional /F whole trade.exit_quantity;
    pnl = trade.realized_pnl;
  }

  -- `on_execution` by the trade that is open for the event's symbol.
  unfoldable pub on_execution_with :
      F
      → ExecutionEvent F
      → Option (OpenTrade F)
      → TradeTracker F
      → Result (Option (ClosedTrade F)) × TradeTracker F
  on_execution_with multiplier event none t =
      if event.fill_quantity == 0
      then (ok none, t)
      else (ok none, record t { open_trades = put t.open_trades event.symbol (open_first event) })
  on_execution_with multiplier event (some trade) t =
      if is_closing_direction event trade
      then (let trade' = close_part multiplier event trade in
          if ltb 0 trade'.quantity
          then (ok none, record t { open_trades = put t.open_trades event.symbol trade' })
          else (
            ok (some (closed_trade event trade')),
            record t {
              open_trades = remove t.open_trades event.symbol;
              closed_trades = t.closed_trades ++ closed_trade event trade' ∷ [];
            },
          ))
      else elim (scale_in event trade) [
        | err e ↦ (err e, t)
        | ok trade' ↦ (ok none, record t { open_trades = put t.open_trades event.symbol trade' })
      ]

  -- `multiplier_lookup` is taken to find the symbol, whose filters are loaded.
  unfoldable pub on_execution :
      (String → F)
      → ExecutionEvent F
      → TradeTracker F
      → Result (Option (ClosedTrade F)) × TradeTracker F
  unfolding on_execution_with
  on_execution multiplier_lookup event t =
      on_execution_with (multiplier_lookup event.symbol) event (get t.open_trades event.symbol) t
