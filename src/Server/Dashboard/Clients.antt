-- ===== src/Server/Dashboard/Clients.antt =====
-- The connections of server/dashboard_bridge.py: the start, a client that comes, and one that goes.
use binbot.Base.{Bool, not, String, List, [], ◌∷◌, ◌++◌, filter, member, str_eq, if◌then◌else◌}
use binbot.Dict.{Dict}
use binbot.Execution.TradeTracker.{ClosedTrade}
use binbot.Execution.Binance.Account.{Candle}
use binbot.Server.Dashboard.{
  DashboardBridge, Audit, Message, closed_trades_backfill, audit_backfill, candles_backfill, sent,
  act,
}

module _ {F : Type 0} where
  -- What `start` reads back from the logs that are there.
  unfoldable pub start :
      List (ClosedTrade F) → List (Audit F) → DashboardBridge F → DashboardBridge F
  start trades audits b = record b {
    closed_trades_recent = if b.has_closed_trades_log then trades else b.closed_trades_recent;
    audit_recent = if b.has_audit_log then audits else b.audit_recent;
  }

  abbrev pub trades_backfill : List (ClosedTrade F) → List (Message F)
  trades_backfill [] = []
  trades_backfill (t ∷ trades) = closed_trades_backfill (t ∷ trades) ∷ []

  abbrev pub audits_backfill : List (Audit F) → List (Message F)
  audits_backfill [] = []
  audits_backfill (a ∷ audits) = audit_backfill (a ∷ audits) ∷ []

  abbrev pub charts_backfill : Dict (List (Candle F)) → List (Message F)
  charts_backfill [] = []
  charts_backfill ((symbol, []) ∷ charts) = charts_backfill charts
  charts_backfill ((symbol, c ∷ candles) ∷ charts) =
      candles_backfill symbol (c ∷ candles) ∷ charts_backfill charts

  abbrev pub backfill_messages : DashboardBridge F → List (Message F)
  backfill_messages b =
      trades_backfill b.closed_trades_recent
      ++ (audits_backfill b.audit_recent ++ charts_backfill b.candles_by_symbol)

  abbrev pub send_all : String → List (Message F) → DashboardBridge F → DashboardBridge F
  send_all client [] b = b
  send_all client (m ∷ messages) b = send_all client messages (act (sent client m) b)

  -- `_send_backfill`, which ends at the first send that raises.
  unfoldable pub send_backfill : Bool → String → DashboardBridge F → DashboardBridge F
  send_backfill alive client b = if alive then send_all client (backfill_messages b) b else b

  -- The beginning and the end of `_handle_client`.
  unfoldable pub connect_client : Bool → String → DashboardBridge F → DashboardBridge F
  unfolding send_backfill
  connect_client alive client b = send_backfill alive client (record b {
    clients = if member client b.clients then b.clients else b.clients ++ client ∷ [];
  })

  unfoldable pub disconnect_client : String → DashboardBridge F → DashboardBridge F
  disconnect_client client b = record b { clients = filter (λ c. not (str_eq c client)) b.clients }
