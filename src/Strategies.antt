-- ===== src/Strategies.antt =====
-- The strategies folder.
pub mod BaseStrategy
pub mod Scanner
