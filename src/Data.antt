-- ===== src/Data.antt =====
-- The data folder: from ticks to bars.
pub mod BarAggregator
pub mod UniverseFeed
