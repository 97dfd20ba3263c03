-- ===== src/Server.antt =====
-- server/: the bridge between the trading loop and the dashboard.
pub mod Dashboard
