-- ===== src/Instructions.antt =====
-- internal/controller/autoscaling: the housekeeping of instructions.
pub mod Wakeup
pub mod Housekeeping
pub mod Expiry
