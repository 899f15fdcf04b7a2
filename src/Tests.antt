-- ===== src/Tests.antt =====
-- Runs of the handlers on a small server with one Reservation and one advertisement.
mod Server
mod Ledgers
mod Phases
mod Brokers
mod Housekeepers
mod Sites
mod Consumers
mod Placements
mod Deliveries
mod Heartbeats
mod Clusters
mod Agents
mod Brains
