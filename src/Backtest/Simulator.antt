-- ===== src/Backtest/Simulator.antt =====
-- The simulated broker of backtest/market_simulator.py: its pending orders, and what a bar makes of them.
pub mod Bars
pub mod Trades
pub mod Conservation
pub mod Carried
use binbot.Base.{
  Result, ok, err, value_error, keep_last, ℕ, suc, ◌-◌, Bool, true, false, not, Option, none, some,
  String, List, [], ◌∷◌, ◌++◌, map, filter, ltb, if◌then◌else◌, str_eq, ◌||◌,
}
use binbot.Float.{Float, FloatMath, ◌<F◌, ◌/F◌, lit}
use binbot.Dict.{Dict, get, put, get_or}
use binbot.Core.Enums.{TimeInForce, day, gtc, ioc, fok, acknowledged}
use binbot.Core.Events.{DateTime, BarEvent, OrderAckEvent}
use binbot.Execution.Orders.{BrokerOrderRequest, BrokerEvent, acked, executed}
use binbot.Backtest.Impact.{MarketImpactParams, compute_fill_price}
use binbot.Backtest.Fills.{PendingOrder, Account, Costs, fill_quantity, apply_fill}

pub record Simulator (F : Type 0) : Type 0 where
  pub account : Account F
  pub pending_orders : Dict (List (PendingOrder F))
  pub last_bar : Dict (BarEvent F)
  -- the last twenty volumes, which nothing reads, and log returns
  pub volume_history : Dict (List F)
  pub return_history : Dict (List F)

-- An order whose remainder is not carried forward.
abbrev pub is_immediate : TimeInForce → Bool
is_immediate day = false
is_immediate gtc = false
is_immediate ioc = true
is_immediate fok = true

module _ {F : Type 0} ⦃f : Float F⦄ where
  -- `place_order`; the acknowledgement goes to the queue of events.
  unfoldable pub place_order :
      DateTime → BrokerOrderRequest F → Simulator F → OrderAckEvent × Simulator F
  place_order now request s =
      let expected : F = elim (get s.last_bar request.symbol) [
        | none ↦ lit 0
        | some bar ↦ bar.close
      ] in
      let pending : PendingOrder F = record {
        request = request;
        expected_price = expected;
        remaining_qty = request.quantity;
        bars_alive = 0;
      } in
      (
        record {
          ts = now;
          order_id = request.order_id;
          correlation_id = request.correlation_id;
          symbol = request.symbol;
          status = acknowledged;
          broker_order_id = none;
        },
        record s {
          pending_orders =
              put s.pending_orders request.symbol
                (get_or s.pending_orders request.symbol [] ++ pending ∷ []);
        },
      )

module _ {F : Type 0} where
  unfoldable pub cancel_in : String → Dict (List (PendingOrder F)) → Dict (List (PendingOrder F))
  cancel_in order_id [] = []
  cancel_in order_id ((symbol, orders) ∷ rest) =
      (symbol, filter (λ o. not (str_eq o.request.order_id order_id)) orders)
      ∷ cancel_in order_id rest

  unfoldable pub cancel_order : String → Simulator F → Simulator F
  cancel_order order_id s = record s { pending_orders = cancel_in order_id s.pending_orders }

  abbrev pub cancel_all : Simulator F → Simulator F
  cancel_all s = record s { pending_orders = [] }

module _ {F : Type 0} ⦃f : Float F⦄ (c : Costs F)
    (fill_price : PendingOrder F → BarEvent F → ℕ → F) where
  -- One pending order in `_resolve_pending_orders`: what is carried forward of it, and the account.
  unfoldable pub resolve :
      PendingOrder F → BarEvent F → Account F → List (PendingOrder F) × Account F
  resolve pending bar a =
      let fill_qty = fill_quantity c pending bar pending.request.order_type in
      let aged = record pending {
        remaining_qty = pending.remaining_qty - fill_qty;
        bars_alive = suc pending.bars_alive;
      } in
      let a' =
        if ltb 0 fill_qty
        then apply_fill c pending fill_qty (fill_price pending bar fill_qty) bar a
        else a in
      (
        if not (ltb 0 aged.remaining_qty) || is_immediate pending.request.time_in_force
            then []
            else aged ∷ [],
        a',
      )

  unfoldable pub resolve_all :
      List (PendingOrder F) → BarEvent F → Account F → List (PendingOrder F) × Account F
  resolve_all [] bar a = ([], a)
  resolve_all (pending ∷ orders) bar a =
      let (kept, a₁) = resolve pending bar a in
      let (rest, a₂) = resolve_all orders bar a₁ in (kept ++ rest, a₂)

module _ {F : Type 0} ⦃f : Float F⦄ ⦃g : FloatMath F⦄ where
  -- `deque.append` with a maxlen of 20
  abbrev pub append_20 : List F → F → List F
  append_20 xs x = keep_last 20 (xs ++ x ∷ [])

  -- The log return from the previous bar; `math.log` raises on a number that is not positive.
  abbrev pub log_return : BarEvent F → Option (BarEvent F) → Result (Option F)
  log_return bar none = ok none
  log_return bar (some prev) =
      if lit 0 <F prev.close
      then (if lit 0 <F bar.close /F prev.close
          then ok (some (g.log (bar.close /F prev.close)))
          else err (value_error "math domain error"))
      else ok none

  abbrev pub add_return : String → Option F → Dict (List F) → Dict (List F)
  add_return symbol none d = d
  add_return symbol (some r) d = put d symbol (append_20 (get_or d symbol []) r)

  abbrev pub with_return :
      BarEvent F → Result (Option F) → Simulator F → Result (Unit {0}) × Simulator F
  with_return bar (err e) s = (err e, s)
  with_return bar (ok r) s =
      (ok tt, record s { return_history = add_return bar.symbol r s.return_history })

  -- `_update_history`
  unfoldable pub update_history : BarEvent F → Simulator F → Result (Unit {0}) × Simulator F
  update_history bar s = with_return bar (log_return bar (get s.last_bar bar.symbol)) (record s {
    volume_history =
        put s.volume_history bar.symbol
          (append_20 (get_or s.volume_history bar.symbol []) bar.volume);
  })

  -- The rest of `process_bar`, once the histories are up to date.
  unfoldable pub resolve_bar :
      MarketImpactParams F → Costs F → BarEvent F → Simulator F → Simulator F
  resolve_bar p c bar s =
      let price = compute_fill_price p (get_or s.return_history bar.symbol []) in
      let (orders, a) = resolve_all c price (get_or s.pending_orders bar.symbol []) bar s.account in
      record s {
        account = a;
        pending_orders = put s.pending_orders bar.symbol orders;
        last_bar = put s.last_bar bar.symbol bar;
      }

  abbrev pub if_updated :
      MarketImpactParams F
      → Costs F
      → BarEvent F
      → Result (Unit {0}) × Simulator F
      → Result (Unit {0}) × Simulator F
  if_updated p c bar (err e, s) = (err e, s)
  if_updated p c bar (ok _, s) = (ok tt, resolve_bar p c bar s)

  unfoldable pub process_bar :
      MarketImpactParams F → Costs F → BarEvent F → Simulator F → Result (Unit {0}) × Simulator F
  process_bar p c bar s = if_updated p c bar (update_history bar s)
