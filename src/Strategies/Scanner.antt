-- ===== src/Strategies/Scanner.antt =====
-- strategies/funding_momentum_scanner.py. What a bar finds in the universe feed, in the position monitor, at the
-- broker and on the clocks comes in as `Market`; the signals that are published are recorded in order.
pub mod Entry
pub mod Pending
use binbot.Base.{
  member, ℕ, Bool, true, false, not, Option, none, some, String, List, [], ◌∷◌, ◌++◌, ℤ, pos, leb_ℤ,
  length, filter, any, Result, ok, err, ◌>>=◌, ◌||◌, ◌&&◌, str_eq, if◌then◌else◌,
}
use binbot.Float.{or_else, Float, ◌-F◌, ◌*F◌, ◌/F◌, ◌<F◌, ◌≤F◌, ◌==F◌, lit, divide}
use binbot.Dict.{Dict, put, keys}
use binbot.Core.Enums.{OrderSide, buy, sell, market, day}
use binbot.Core.Events.{BarEvent, SignalEvent, DateTime}
use binbot.Strategies.BaseStrategy.{BaseStrategy, is_wanted}

pub record ScannerParams (F : Type 0) : Type 0 where
  pub max_open_positions : ℤ
  pub margin_equity_pct : F
  pub leverage : F
  pub price_jump_pct : F

pub record Scanner (F : Type 0) : Type 0 where
  pub base : BaseStrategy
  pub params : ScannerParams F
  pub pending_entries : Dict F
  pub signals : List (SignalEvent F)

pub record Market (F : Type 0) : Type 0 where
  -- `open_symbols`, a set
  pub open_symbols : List String
  pub price_change_pct : Option F
  pub funding_trend : Option (F × F)
  pub latest_price : Option F
  pub step_size : F
  pub equity : Result F
  -- `time.monotonic()` at the pruning and at the entry, `datetime.now` and the new correlation id
  pub monotonic : F
  pub monotonic_at_entry : F
  pub utc_now : DateTime
  pub correlation_id : String

module _ {F : Type 0} where
  -- The set of open and pending symbols.
  abbrev pub occupied : List String → Dict F → List String
  occupied held pending = held ++ filter (λ s. not (member s held)) (keys pending)

module _ {F : Type 0} ⦃f : Float F⦄ where
  unfoldable pub compute_lots : F → F → F → Result ℤ
  compute_lots notional_usdt price step_size =
      if (price ≤F lit 0) || (step_size ≤F lit 0)
      then ok (pos 0)
      else (do lots ← divide notional_usdt (price *F step_size); ok (f.floor lots))

  unfoldable pub evaluate_entry : Option F → Option (F × F) → F → Option OrderSide
  evaluate_entry none funding jump = none
  evaluate_entry (some change) none jump = none
  evaluate_entry (some change) (some (now, start)) jump =
      if jump ≤F change
      then (if now <F start then some buy else none)
      else if change ≤F f.minus jump
      then (if (start <F lit 0) && (start <F now) then some sell else none)
      else none

  abbrev pub is_stale : List String → F → String → F → Bool
  is_stale held now symbol ts = member symbol held || (lit 10 <F now -F ts)

  -- `_prune_pending_entries`
  unfoldable pub prune : List String → F → Dict F → Dict F
  prune held now [] = []
  prune held now ((symbol, ts) ∷ pending) =
      let rest = prune held now pending in
      if is_stale held now symbol ts then rest else (symbol, ts) ∷ rest

  unfoldable pub order_lots : Market F → ScannerParams F → F → Result ℤ
  unfolding compute_lots
  order_lots w p close = do
    equity ← w.equity
    compute_lots (equity *F p.margin_equity_pct /F lit 100 *F p.leverage)
        (or_else w.latest_price close) w.step_size

  abbrev pub signal : Scanner F → Market F → String → OrderSide → ℤ → SignalEvent F
  signal s w symbol side lots = record {
    ts = w.utc_now;
    symbol = symbol;
    strategy_id = s.base.strategy_id;
    side = side;
    strength = lit 1;
    target_quantity = lots;
    order_type = market;
    limit_price = none;
    time_in_force = day;
    correlation_id = w.correlation_id;
    oca_group = none;
  }

  abbrev pub enter :
      Market F
      → BarEvent F
      → Option OrderSide
      → Result ℤ
      → Scanner F
      → Result (Unit {0}) × Scanner F
  enter w bar none lots s = (ok tt, s)
  enter w bar (some side) (err e) s = (err e, s)
  enter w bar (some side) (ok lots) s = if leb_ℤ lots (pos 0) then (ok tt, s) else (
    ok tt,
    record s {
      pending_entries = put s.pending_entries bar.symbol w.monotonic_at_entry;
      signals = s.signals ++ signal s w bar.symbol side lots ∷ [];
    },
  )

  unfoldable pub on_bar : Market F → BarEvent F → Scanner F → Result (Unit {0}) × Scanner F
  on_bar w bar s =
      let pending = prune w.open_symbols w.monotonic s.pending_entries in
      let s₁ = record s { pending_entries = pending } in
      let open_symbols = occupied w.open_symbols pending in
      if member bar.symbol open_symbols
      then (ok tt, s₁)
      else if leb_ℤ s.params.max_open_positions (pos (length open_symbols))
      then (ok tt, s₁)
      else enter w bar (evaluate_entry w.price_change_pct w.funding_trend s.params.price_jump_pct)
          (order_lots w s.params bar.close) s₁

  -- `_dispatch_bar`
  unfoldable pub dispatch_bar : Market F → BarEvent F → Scanner F → Result (Unit {0}) × Scanner F
  dispatch_bar w bar s = if is_wanted s.base bar.symbol then on_bar w bar s else (ok tt, s)

  -- A run of bars, each with what it finds; an exception goes to the event bus.
  unfoldable pub dispatch_bars : List (Market F × BarEvent F) → Scanner F → Scanner F
  dispatch_bars [] s = s
  dispatch_bars ((w, bar) ∷ bars) s = dispatch_bars bars (dispatch_bar w bar s).1
