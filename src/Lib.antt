-- ===== src/Lib.antt =====
-- The federation autoscaler: the Broker with its chunk ledger, the phase machine of a Reservation and
-- the API by which consumers and agents drive it, and in a consumer cluster the controllers of a
-- ResourceRequest and of a VirtualNodeState and the cloud provider that the Cluster Autoscaler calls;
-- and in both the agent that carries out the Broker's instructions.
--
-- A consumer cluster borrows chunks of a provider cluster. The provider's ClusterAdvertisement counts
-- its chunks; a Reservation holds some of them and moves through the phases Pending,
-- GeneratingKubeconfig, KubeconfigReady, Peering, Peered, Unpeering and Released, or ends as Expired
-- or Failed. The Broker's API server takes requests and results, the reconciler advances the phase,
-- and both write the ledger. They meet only in the objects that the Kubernetes API server stores. A
-- consumer's controller and cloud provider see the node groups that the Broker's placement leaves
-- them, and reserve and release chunks through their agent.
--
--   Api         api/broker/v1alpha1, api/autoscaling/v1alpha1: the custom resources
--   Kube        the API server as a parameter `Client`, actions over it, and the log of requests
--   Ledger      the reserved and available chunks: adjustReservedChunks, reserveChunks and
--               markChunksReleased of internal/broker/api/reservation.go, and releaseChunks and
--               stampChunksReleased of internal/controller/broker/reservation_controller.go;
--               Concurrent runs the writes of all processes on one advertisement, in any order, each
--               accepted only while its read is current, as the server's resourceVersion makes it;
--               Concurrent/Steps relates the code to it
--   Controller  internal/controller/broker/reservation_controller.go: Config (settings), Names
--               (deterministic names), Emit (instructions and advancePhase), Guards (ensureExpiry,
--               checkExpired, checkProviderAvailable), Handlers (one function per handler),
--               Reconcile (Reconcile and requestsForAdvertisement); Phases (the phase diagram),
--               Credit, Teardown, LastChunk, Wakeups, Watches and Naming hold theorems
--   Advertisements, Instructions
--               internal/controller/broker/clusteradvertisement_controller.go, the upsert of
--               internal/broker/api/advertisement.go (Publishing; Accepting holds its theorem), and
--               internal/controller/autoscaling: staleness of a provider, expiry of an instruction
--   Broker      internal/broker/api: Reservations (reservation.go), Results and Delivery (the result
--               and the delivery side of instructions.go), Heartbeats (heartbeat.go, registry.go);
--               Replay, Staging, Merging, Late, Applied, Opened, Addressed, Unwritten and Registry
--               hold theorems
--   Chunks      internal/broker/chunk/chunk.go: how many chunks an advertisement holds
--   Placement   internal/broker/api: Masking (the policies of nodegroups.go), Build (BuildNodeGroups
--               of placement.go); Sorting, Narrowing, Types, Best, Offers and Answers hold theorems
--   Consumer    internal/controller/autoscaling/resourcerequest_controller.go: Sizing (chunksFor,
--               pickProviderAndSize), Port (the agent and its requests), Holding (phase writes and
--               node protection), Migration, Requests (Reconcile); Picking, Rounding, Orderly and
--               Stranded hold theorems
--   Provider    internal/grpcserver/rpc_mutating.go: Calls; Growing and Shrinking hold theorems
--   Agent       internal/agent: Polling (poller), Liqo and Handlers (consumer/instructions), Providing
--               (provider/instructions, provider/snapshot), Roles (which handlers each role
--               registers), Types and Calls (what an agent asks of its cluster, of liqoctl and of the
--               Broker); Files, Teardown, Released, Peered and Reports hold theorems
--   VirtualNodes
--               internal/controller/autoscaling/virtualnodestate_controller.go: Status, Reconcile;
--               Conditions, Equality, Settled, Passes, Quiet, Faithful and Shown hold
--               theorems
--   Brain       internal/agent/consumer/brain: Reservations (with the list that the Broker serves),
--               Full, Bound, Groups, Deciding; Derived, Pooled and Bounded hold theorems
--   Tests       small servers on which the theorems are run
--
-- A function of the source has the same name in snake case; a part of a long function has a name of
-- its own, and the function calls it. A handler is an action: a function from a run (a world and a log
-- of requests, newest first) to a result and a run. The world and the answers of the server are
-- arbitrary: any request may fail in any way, and another client may change any object between two
-- requests. A theorem about what is written is therefore one about the log. What the code relies on in
-- the server's answers is a hypothesis with a name (EchoesPhase, KeepsSpec).
--
-- A conflict loop of the source makes three attempts; `retry` takes that bound and fails with
-- `exhausted` after it, as the source does. No other fuel is used. Counts are int32 with wrap-around
-- (Base/Int); times are nanoseconds since the epoch and durations signed nanoseconds without bounds.
--
-- In Consumer, Chunks and Placement a resource.Quantity is its milli-value and its value, and float64
-- is a parameter with the tests that the source makes; where a theorem needs an order of it, that is
-- the hypothesis IsOrder. What a policy measures (price, carbon, latency) is a parameter too. In
-- Ledger/Concurrent a step writes what reserveChunks, releaseChunks, adjustReservedChunks, the
-- heartbeat reconciler or the upsert makes of the object that its process has read. A credit need
-- match no reservation. The accepted writes of the counters are recorded as a history, on which no
-- step depends.
--
-- Not modelled: log messages, Conditions and status messages of a Reservation, labels, the namespace
-- (there is one), the decoding of JSON and the authentication in front of a handler; the formulas of
-- the metrics, the agents' console, local API, publisher, prober and HTTP client, the catalog, the
-- read-only calls of the gRPC server and the dashboard. A command's timeout is a failure of it, and
-- Quantity.Add and Quantity.Cmp are parameters.
-- In Reservations the registry's lookup, the name validation of apimachinery and the new UUID are
-- settings.
pub mod Base
pub mod Api
pub mod Kube
pub mod Ledger
pub mod Consumer
pub mod Agent
pub mod Brain
pub mod VirtualNodes
pub mod Chunks
pub mod Placement
pub mod Provider
pub mod Controller
pub mod Broker
pub mod Instructions
pub mod Advertisements
pub mod Tests
