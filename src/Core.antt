-- ===== src/Core.antt =====
-- core/: the enumerations and events that every other part exchanges.
pub mod Enums
pub mod Events
pub mod EventBus
