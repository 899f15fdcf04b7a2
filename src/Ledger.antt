-- ===== src/Ledger.antt =====
-- The chunk ledger of a ClusterAdvertisement: the arithmetic on its status that
-- internal/broker/api/reservation.go (adjustReservedChunks, reserveChunks) and
-- internal/controller/broker/reservation_controller.go (releaseChunks) repeat.
pub mod Arithmetic
pub mod Capacity
pub mod Release
pub mod Requests
pub mod Reserving
pub mod Releasing
pub mod Adjusting
pub mod Progress
pub mod Concurrent
