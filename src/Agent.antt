-- ===== src/Agent.antt =====
-- internal/agent: the poll loop of both agents, and the handlers of the instructions of each.
pub mod Types
pub mod Calls
pub mod Polling
pub mod Reports
pub mod Liqo
pub mod Handlers
pub mod Files
pub mod Teardown
pub mod Released
pub mod Peered
pub mod Providing
pub mod Roles
