-- ===== src/Controller.antt =====
-- internal/controller/broker/reservation_controller.go: the phase machine of a Reservation.
pub mod Config
pub mod Names
pub mod Emit
pub mod Guards
pub mod Handlers
pub mod Reconcile
pub mod Quiet
pub mod Phases
pub mod Wakeups
pub mod LastChunk
pub mod Naming
pub mod Credit
pub mod Teardown
pub mod Watches
