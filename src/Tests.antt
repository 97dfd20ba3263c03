-- ===== src/Tests.antt =====
-- Runs of the definitions at concrete inputs, and each theorem at an input that meets its hypotheses. The
-- floats are whole numbers (Float/Fixed.antt).
mod CircuitBreaker
mod RateLimiter
mod Engine
mod Orders
mod Trades
mod Bus
mod Monitor
mod Bars
mod Scanner
mod Simulator
mod Restarts
mod Sizing
mod Universe
mod Binance
mod Ibkr
mod Live
mod Logs
mod Bridge
mod Backtest
