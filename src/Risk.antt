-- ===== src/Risk.antt =====
-- risk/: what stands between a signal and the broker.
pub mod CircuitBreaker
pub mod RateLimiter
pub mod Margin
pub mod PositionSizing
pub mod Engine
