-- ===== src/Kube.antt =====
-- The Kubernetes API server as the source calls it through sigs.k8s.io/controller-runtime's
-- client.Client, and the clock. The server is not part of the repository: it is the parameter
-- `Client`, whose every call may answer anything and move the world on. A handler is an action over
-- that world; each request it sends is entered in a log, newest first, with the server's verdict.
pub mod Core
pub mod Retry
pub mod Loud
pub mod Bind
pub mod Keeps
