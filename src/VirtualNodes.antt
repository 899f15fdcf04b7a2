-- ===== src/VirtualNodes.antt =====
-- internal/controller/autoscaling/virtualnodestate_controller.go: the controller that shows the nodes
-- of Liqo in the status of each VirtualNodeState.
pub mod Status
pub mod Reconcile
pub mod Conditions
pub mod Equality
pub mod Settled
pub mod Passes
pub mod Quiet
pub mod Faithful
pub mod Shown
