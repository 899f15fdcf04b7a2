-- ===== src/Agent/Types.antt =====
-- What the agents exchange with the Broker and make in their own cluster: the results of
-- internal/broker/api/types.go, VirtualNodeState of api/autoscaling/v1alpha1, and the objects that
-- Liqo acts on. Labels are left out.
use federation_autoscaler.Base.{ℕ, String, Bool, true, Option, List, ◌==◌, arith, ◌≡◌}
use federation_autoscaler.Base.Int.{ℤ}
use federation_autoscaler.Api.{Time}
use federation_autoscaler.Consumer.Types.{ResourceList}

-- VirtualNodeStatePhase. `unset` is the empty string of an object with no status yet.
pub data VirtualNodePhase : Type 0 where
  unset creating running deleting failed : VirtualNodePhase

abbrev node_phase_index : VirtualNodePhase → ℕ
node_phase_index unset = 0
node_phase_index creating = 1
node_phase_index running = 2
node_phase_index deleting = 3
node_phase_index failed = 4

-- Go's `==` on phases.
abbrev pub node_phase_eq : VirtualNodePhase → VirtualNodePhase → Bool
node_phase_eq p q = node_phase_index p == node_phase_index q

pub node_phase_eq_lem : (p q : VirtualNodePhase) → node_phase_eq p q ≡ true → p ≡ q
node_phase_eq_lem p q h = ground arith

pub record VirtualNodeSpec : Type 0 where
  pub provider_cluster_id : String
  pub provider_liqo_cluster_id : String
  pub resource_slice_name : String
  pub node_group_id : String
  pub chunk_index : ℤ
  pub reservation_id : String
  pub resources : ResourceList

-- metav1.Condition.
pub record Condition : Type 0 where
  pub condition_type : String
  pub status : Bool
  pub reason : String
  pub message : String
  pub last_transition_time : Time

pub record VirtualNodeStatus : Type 0 where
  pub observed_generation : ℕ
  pub phase : VirtualNodePhase
  pub virtual_node_name : String
  pub provider_id : String
  pub resource_slice_name : String
  pub allocatable : ResourceList
  pub last_transition_time : Option Time
  pub message : String
  pub conditions : List Condition

pub record VirtualNodeState : Type 0 where
  pub name : String
  pub generation : ℕ
  -- DeletionTimestamp is set.
  pub deleting : Bool
  pub spec : VirtualNodeSpec
  pub status : VirtualNodeStatus

-- The unstructured ResourceSlice that ensureResourceSlice forges.
pub record ResourceSlice : Type 0 where
  pub name : String
  pub namespace : String
  pub provider_cluster_id : String
  pub resources : ResourceList

-- ReconcileVirtualNodeStateView.
pub record StateView : Type 0 where
  pub reservation_id : String
  pub chunk_index : ℤ
  pub node_group_id : String
  pub virtual_node_name : String
  pub resource_slice : String
  pub phase : VirtualNodePhase
  pub last_transition : Option Time

-- ResultPayload, a constructor for each kind with the fields that the agents fill.
pub data ResultPayload : Type 0 where
  kubeconfig_payload : String → ResultPayload
  peer_payload : List String → ResultPayload
  unpeer_payload : ℤ → Bool → ResultPayload
  advertisement_payload : String → String → ResourceList → ResultPayload
  states_payload : List StateView → ResultPayload

-- The codes of ErrorEnvelope that the poller uses.
pub data ErrorCode : Type 0 where
  invalid_request internal_error : ErrorCode

-- InstructionResultRequest; the text of an error is left out.
pub data ResultRequest : Type 0 where
  reported : Option ResultPayload → ResultRequest
  reported_failure : ErrorCode → ResultRequest

-- What an agent asked for, and whether it was granted. A deletion that finds nothing and a creation
-- that finds the object count as granted.
pub data AgentEvent : Type 0 where
  polled : Bool → AgentEvent
  handler_active : Bool → AgentEvent
  posted_result : Bool → String → ResultRequest → AgentEvent
  staged_secret : Bool → String → AgentEvent
  dropped_secret : Bool → String → AgentEvent
  staged_file : String → AgentEvent
  removed_file : String → AgentEvent
  ran_liqoctl : Bool → List String → AgentEvent
  made_slice : Bool → ResourceSlice → AgentEvent
  dropped_slice : Bool → String → String → AgentEvent
  made_state : Bool → VirtualNodeState → AgentEvent
  dropped_state : Bool → String → AgentEvent
  wrote_state_status : Bool → VirtualNodeState → AgentEvent
  dropped_foreign_cluster : Bool → String → AgentEvent
