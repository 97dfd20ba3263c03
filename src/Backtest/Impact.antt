-- ===== src/Backtest/Impact.antt =====
-- The price of a fill of backtest/market_simulator.py: the spread and the square-root market impact.
use binbot.Base.{ℕ, ◌-◌, Option, List, pos, neg, ltb, length, map, if◌then◌else◌}
use binbot.Float.{Float, FloatMath, ◌+F◌, ◌-F◌, ◌*F◌, ◌/F◌, ◌≤F◌, lit, max, sum, or_else}
use binbot.Core.Enums.{is_buy, OrderType, market, limit, stop, stop_limit, market_on_close}
use binbot.Core.Events.{BarEvent}
use binbot.Backtest.Fills.{PendingOrder}

-- `max_participation_rate` is among the `Costs`.
pub record MarketImpactParams (F : Type 0) : Type 0 where
  pub impact_coefficient : F
  pub spread_capture_fraction : F

module _ {F : Type 0} ⦃f : Float F⦄ ⦃g : FloatMath F⦄ where
  unfoldable pub sqrt_market_impact_bps : F → F → F → F → F
  sqrt_market_impact_bps quantity bar_volume realized_vol_pct impact_coefficient =
      if bar_volume ≤F lit 0
      then lit 0
      else impact_coefficient
        *F (realized_vol_pct /F lit 100)
        *F g.sqrt (max (quantity /F bar_volume) (lit 0))

  -- 0.5 and 1e-9, which the quotients round to
  abbrev half : F
  half = lit 1 /F lit 2

  abbrev nano : F
  nano = lit 1 /F lit 1000000000

  -- `_realized_vol_pct`, on the returns of the symbol
  unfoldable pub realized_vol_pct : List F → F
  realized_vol_pct returns =
      if ltb (length returns) 2
      then lit 1
      else (let mean = sum returns /F lit (length returns) in
          let variance =
            sum (map (λ r. g.power (r -F mean) (lit 2)) returns) /F lit (length returns - 1) in
          g.power variance half *F g.power (lit 252) half *F lit 100)

  -- The limit of a limit order, the open of the bar for any other.
  abbrev pub reference_price : OrderType → Option F → BarEvent F → F
  reference_price limit price bar = or_else price bar.close
  reference_price market price bar = bar.open_price
  reference_price stop price bar = bar.open_price
  reference_price stop_limit price bar = bar.open_price
  reference_price market_on_close price bar = bar.open_price

  -- `_compute_fill_price`
  unfoldable pub compute_fill_price :
      MarketImpactParams F → List F → PendingOrder F → BarEvent F → ℕ → F
  unfolding sqrt_market_impact_bps realized_vol_pct
  compute_fill_price p returns pending bar fill_qty =
      let sign = f.of_int (if is_buy pending.request.side then pos 1 else neg (pos 1)) in
      let reference = reference_price pending.request.order_type pending.request.limit_price bar in
      let spread_cost = max (bar.high -F bar.low) nano *F p.spread_capture_fraction *F sign in
      let impact_bps =
        sqrt_market_impact_bps (lit fill_qty) (max bar.volume (lit 1)) (realized_vol_pct returns)
          p.impact_coefficient in
      reference +F spread_cost +F reference *F impact_bps *F sign
