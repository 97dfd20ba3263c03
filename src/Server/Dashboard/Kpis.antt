-- ===== src/Server/Dashboard/Kpis.antt =====
-- The snapshot of the account that server/dashboard_bridge.py pushes in each turn of `_kpi_loop`.
use binbot.Base.{
  ℕ, ℤ, nat_abs, ◌+◌, ◌/◌, Bool, Option, none, some, String, List, [], ◌∷◌, map, foldl,
  if◌then◌else◌,
}
use binbot.Float.{Float, ◌+F◌, ◌-F◌, ◌*F◌, ◌/F◌, ◌==F◌, lit, max, sum}
use binbot.Dict.{Dict, get}
use binbot.Core.Events.{DateTime}
use binbot.Execution.Trailing.{PositionDetail}
use binbot.Execution.TradeTracker.{OpenTrade, TradeTracker}
use binbot.Server.Dashboard.{
  DashboardBridge, OpenTradePayload, RiskPayload, Message, open_trades, status, kpis, equity_point,
  risk, broadcast, broadcast_all,
}

-- What the broker and the strategy answer in a turn; the details are `none` where there is no provider of them.
pub record Readings (F : Type 0) : Type 0 where
  pub equity : F
  pub initial_margin : F
  pub details : Option (List (PositionDetail F))
  pub positions : Dict ℤ
  pub is_connected : Bool
  pub is_paused : Bool
  pub is_halted : Bool
  pub halt_reason : Option String

module _ {F : Type 0} where
  abbrev pub open_starts : Option (TradeTracker F) → Dict (OpenTrade F)
  open_starts none = []
  open_starts (some t) = t.open_trades

  abbrev pub opened_at : Option (OpenTrade F) → Option ℕ
  opened_at none = none
  opened_at (some t) = some (t.entry_ts / 1000)

  abbrev pub open_trade_payload : Dict (OpenTrade F) → PositionDetail F → OpenTradePayload F
  open_trade_payload starts d = record {
    symbol = d.symbol;
    side = d.side;
    quantity = d.quantity;
    entry_price = d.entry_price;
    mark_price = d.mark_price;
    unrealized_pnl = d.unrealized_pnl;
    opened_at = opened_at (get starts d.symbol);
  }

  unfoldable pub push_details :
      (String → Bool) → Option (List (PositionDetail F)) → DashboardBridge F → DashboardBridge F
  unfolding broadcast
  push_details alive none b = b
  push_details alive (some details) b =
      broadcast alive (open_trades (map (open_trade_payload (open_starts b.trade_tracker)) details))
        b

  unfoldable pub push_open_trades :
      (String → Bool) → Readings F → DashboardBridge F → DashboardBridge F
  unfolding push_details
  push_open_trades alive r b = push_details alive r.details b

  -- The equity of the first turn stays.
  abbrev pub first_equity : Option F → F → F
  first_equity none equity = equity
  first_equity (some starting) equity = starting

  -- The quantities of the details, or else those of the broker's positions.
  abbrev pub contracts_used : Option (List (PositionDetail F)) → Dict ℤ → ℕ
  contracts_used none positions = foldl (λ n p. n + nat_abs p.1) 0 positions
  contracts_used (some details) positions = foldl (λ n d. n + d.quantity) 0 details

module _ {F : Type 0} ⦃f : Float F⦄ where
  abbrev pub drawdown_of : F → F → F
  drawdown_of equity peak = if peak ==F lit 0 then lit 0 else (equity -F peak) /F peak *F lit 100

  abbrev pub risk_payload : Readings F → F → DashboardBridge F → RiskPayload F
  risk_payload r total_pnl b = record {
    max_daily_loss_usd = b.max_daily_loss_usd;
    daily_loss_used_usd = max (lit 0) (f.minus total_pnl);
    max_position_contracts = b.max_position_contracts;
    position_contracts_used = contracts_used r.details r.positions;
    strategy_paused = r.is_paused;
    circuit_breaker_halted = r.is_halted;
    halt_reason = r.halt_reason;
  }

  abbrev pub unrealized_of : Option (List (PositionDetail F)) → F
  unrealized_of none = lit 0
  unrealized_of (some details) = sum (map (λ d. d.unrealized_pnl) details)

  -- The four messages of a turn, in their order.
  abbrev pub kpi_messages : DateTime → Readings F → F → DashboardBridge F → List (Message F)
  kpi_messages now r starting b =
      let unrealized_pnl = unrealized_of r.details in
      let realized_pnl = sum (map (λ t. t.pnl) b.closed_trades_recent) in
      let peak = max r.equity starting in
      status r.is_connected
      ∷ kpis r.equity realized_pnl unrealized_pnl r.initial_margin
      ∷ equity_point (now / 1000000) r.equity (drawdown_of r.equity peak)
      ∷ risk (risk_payload r (realized_pnl +F unrealized_pnl) b)
      ∷ []

  unfoldable pub push_status_and_kpis :
      DateTime → (String → Bool) → Readings F → DashboardBridge F → DashboardBridge F
  unfolding broadcast_all
  push_status_and_kpis now alive r b =
      let starting = first_equity b.starting_equity r.equity in
      broadcast_all alive (kpi_messages now r starting b)
        (record b { starting_equity = some starting })

  -- One turn of `_kpi_loop`.
  unfoldable pub kpi_turn :
      DateTime → (String → Bool) → Readings F → DashboardBridge F → DashboardBridge F
  unfolding push_status_and_kpis push_open_trades
  kpi_turn now alive r b = push_open_trades alive r (push_status_and_kpis now alive r b)
