-- ===== src/Provider.antt =====
-- internal/grpcserver/rpc_mutating.go: the calls by which the Cluster Autoscaler grows and shrinks a
-- node group.
pub mod Calls
pub mod Growing
pub mod Shrinking
