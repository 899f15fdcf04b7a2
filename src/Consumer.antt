-- ===== src/Consumer.antt =====
-- What the consumer's side reads and decides: the types of api/autoscaling/v1alpha1 and
-- internal/broker/api/types.go, the client of the agent, and the controller of ResourceRequests.
pub mod Types
pub mod Sizing
pub mod Picking
pub mod Rounding
pub mod Port
pub mod Holding
pub mod Requests
pub mod Migration
pub mod Orderly
pub mod Stranded
