-- ===== src/Controller/Phases.antt =====
-- The phase diagram of a Reservation, and the proof that Reconcile follows it.
pub mod Diagram
pub mod Handlers
pub mod Guards
pub mod Reconcile
