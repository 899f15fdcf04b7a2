-- ===== src/Consumer/Types.antt =====
-- ResourceRequest and ConsumerPolicy of api/autoscaling/v1alpha1, and the views of node groups of
-- internal/broker/api/types.go. A metric is a float64: its type is a parameter. Fields that are
-- only displayed are left out.
use federation_autoscaler.Base.{
  ℕ, String, Bool, true, false, ◌≡◌, arith, Option, List, [], ◌∷◌, str_eq, if◌then◌else◌, ◌==◌,
}
use federation_autoscaler.Base.Int.{ℤ, pos}
use federation_autoscaler.Api.{Time}

-- What the code reads of a resource.Quantity, both int64.
pub record Quantity : Type 0 where
  pub milli_value : ℤ
  pub value : ℤ

-- corev1.ResourceList. Go reads a missing key as the zero quantity.
abbrev pub ResourceList : Type 0
ResourceList = List (String × Quantity)

abbrev pub zero_quantity : Quantity
zero_quantity = record { milli_value = pos 0; value = pos 0 }

unfoldable pub quantity_of : String → ResourceList → Quantity
quantity_of name [] = zero_quantity
quantity_of name ((key, q) ∷ list) = if str_eq key name then q else quantity_of name list

unfoldable pub has_resource : String → ResourceList → Bool
has_resource name [] = false
has_resource name ((key, q) ∷ list) = if str_eq key name then true else has_resource name list

abbrev pub gpu_resource_name : String
gpu_resource_name = "nvidia.com/gpu"

-- PlacementStrategy. `unset` is the empty string of a consumer with no policy.
pub data PlacementStrategy : Type 0 where
  unset standard price eco latency consumer_choice random : PlacementStrategy

pub record LatencyBound : Type 0 where
  pub max_latency_ms : ℤ

-- What the code uses of float64: `<`, `==`, `-`, `*` and the constant 1e-6.
pub record Float64 (F : Type 0) : Type 0 where
  pub lt : F → F → Bool
  pub eq : F → F → Bool
  pub sub : F → F → F
  pub mul : F → F → F
  pub micro : F

pub record NodeGroupView (F : Type 0) : Type 0 where
  pub id : String
  pub provider_cluster_id : String
  pub provider_liqo_cluster_id : String
  pub chunk_type : String
  pub min_size : ℤ
  pub max_size : ℤ
  pub current_reserved : ℤ
  pub chunk_resources : ResourceList
  pub placement_metric : F
  pub has_metric : Bool

pub record NodeGroupListResponse (F : Type 0) : Type 0 where
  pub node_groups : List (NodeGroupView F)
  pub latency_shortlist : Bool
  pub applied_placement : PlacementStrategy

pub data ResourceRequestPhase : Type 0 where
  unset pending reserved active migrating failed : ResourceRequestPhase

abbrev request_phase_index : ResourceRequestPhase → ℕ
request_phase_index unset = 0
request_phase_index pending = 1
request_phase_index reserved = 2
request_phase_index active = 3
request_phase_index migrating = 4
request_phase_index failed = 5

-- Go's `==` on phases.
abbrev pub request_phase_eq : ResourceRequestPhase → ResourceRequestPhase → Bool
request_phase_eq p q = request_phase_index p == request_phase_index q

pub request_phase_eq_lem : (p q : ResourceRequestPhase) → request_phase_eq p q ≡ true → p ≡ q
request_phase_eq_lem p q h = ground arith

pub record ResourceRequestSpec : Type 0 where
  pub resources : ResourceList
  pub latency_bound : Option LatencyBound

pub record ResourceRequestStatus : Type 0 where
  pub phase : ResourceRequestPhase
  pub reservation_id : String
  pub provider_cluster_id : String
  pub chunk_count : ℤ
  pub migration_count : ℤ
  pub message : String
  pub last_transition_time : Option Time

pub record ResourceRequest : Type 0 where
  pub name : String
  pub uid : String
  -- DeletionTimestamp is set.
  pub deleting : Bool
  -- The finalizers contain resourceRequestFinalizer.
  pub finalizer : Bool
  pub spec : ResourceRequestSpec
  pub status : ResourceRequestStatus

-- The annotations of a Node.
pub record Node : Type 0 where
  pub name : String
  pub annotations : List (String × String)

-- What was asked of the consumer's own API server and of its agent, and whether it was granted. A
-- release that finds nothing to release counts as granted.
pub data ConsumerEvent : Type 0 where
  posted_reservation : Bool → String → ℤ → ConsumerEvent
  freed_reservation : Bool → String → ConsumerEvent
  wrote_request : Bool → ResourceRequest → ConsumerEvent
  wrote_request_status : Bool → ResourceRequest → ConsumerEvent
  patched_node : Bool → String → ConsumerEvent
