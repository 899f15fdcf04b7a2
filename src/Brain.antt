-- ===== src/Brain.antt =====
-- internal/agent/consumer/brain: the placement decision of a consumer in local mode.
pub mod Types
pub mod Reservations
pub mod Full
pub mod Derived
pub mod Bound
pub mod Groups
pub mod Pooled
pub mod Bounded
pub mod Deciding
