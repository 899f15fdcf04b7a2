-- ===== src/Advertisements.antt =====
-- internal/controller/broker/clusteradvertisement_controller.go: whether a provider still reports.
pub mod Publishing
pub mod Staleness
pub mod Refresh
pub mod Accepting
