-- ===== src/Execution.antt =====
-- execution/: orders, fills and trades.
pub mod Binance
pub mod Ibkr
pub mod Slippage
pub mod Orders
pub mod OrderManager
pub mod TradeTracker
pub mod Trailing
pub mod PositionMonitor
