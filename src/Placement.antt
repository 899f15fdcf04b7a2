-- ===== src/Placement.antt =====
-- internal/broker/api/nodegroups.go and placement.go: which providers a consumer is offered to grow.
pub mod Masking
pub mod Build
pub mod Sorting
pub mod Narrowing
pub mod Types
pub mod Best
pub mod Offers
pub mod Answers
