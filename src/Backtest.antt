-- ===== src/Backtest.antt =====
-- The backtest folder: the simulated broker.
pub mod Fills
pub mod Impact
pub mod Simulator
pub mod Engine
