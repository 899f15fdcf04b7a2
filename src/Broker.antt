-- ===== src/Broker.antt =====
-- internal/broker/api: the HTTP handlers of the Broker that change Reservations and instructions.
pub mod Server
pub mod Reservations
pub mod Results
pub mod Replay
pub mod Late
pub mod Staging
pub mod Merging
pub mod Delivery
pub mod Opened
pub mod Addressed
pub mod Applied
pub mod Unwritten
pub mod Heartbeats
pub mod Registry
