-- ===== src/Api.antt =====
-- The custom resources of api/broker/v1alpha1 and api/autoscaling/v1alpha1, field by field. The
-- human-readable `Message` and `Conditions`, the Kubernetes type metadata and the resource
-- quantities are left out: no code path modelled here branches on them.
use federation_autoscaler.Base.{
  ℕ, String, Bool, true, Option, List, [], ◌∷◌, ◌≡◌, refl, str_eq, if◌then◌else◌, arith, ◌==◌, ◌↔◌,
}
use federation_autoscaler.Base.Int.{ℤ}

-- metav1.Time in nanoseconds since the epoch.
abbrev pub Time : Type 0
Time = ℕ

-- ReservationPhase. `unset` is the empty string of a Reservation with no status yet.
pub data ReservationPhase : Type 0 where
  unset pending generating_kubeconfig kubeconfig_ready peering peered : ReservationPhase
  unpeering released expired failed : ReservationPhase

abbrev phase_index : ReservationPhase → ℕ
phase_index unset = 0
phase_index pending = 1
phase_index generating_kubeconfig = 2
phase_index kubeconfig_ready = 3
phase_index peering = 4
phase_index peered = 5
phase_index unpeering = 6
phase_index released = 7
phase_index expired = 8
phase_index failed = 9

-- Go's `==` on phases.
abbrev pub phase_eq : ReservationPhase → ReservationPhase → Bool
phase_eq p q = phase_index p == phase_index q

pub phase_eq_iff : (p q : ReservationPhase) → (phase_eq p q ≡ true) ↔ (p ≡ q)
phase_eq_iff p q = ground arith

pub record ObjectMeta : Type 0 where
  pub name : String
  pub generation : ℕ
  pub creation_timestamp : Time
  -- DeletionTimestamp is set.
  pub deleting : Bool
  -- Finalizers contains ReservationFinalizer.
  pub finalizer : Bool
  pub annotations : List (String × String)

pub record ReservationSpec : Type 0 where
  pub consumer_cluster_id : String
  pub consumer_liqo_cluster_id : String
  pub provider_cluster_id : String
  pub provider_liqo_cluster_id : String
  pub chunk_count : ℤ
  pub chunk_type : String
  pub namespaces : List String

pub record ReservationStatus : Type 0 where
  pub observed_generation : ℕ
  pub phase : ReservationPhase
  pub created_at : Option Time
  pub expires_at : Option Time
  pub virtual_node_names : List String
  pub terminated_at : Option Time

pub record Reservation : Type 0 where
  pub metadata : ObjectMeta
  pub spec : ReservationSpec
  pub status : ReservationStatus

pub record AdvertisementStatus : Type 0 where
  pub observed_generation : ℕ
  pub last_seen : Option Time
  pub available : Bool
  pub total_chunks : ℤ
  pub reserved_chunks : ℤ
  pub available_chunks : ℤ

pub record AdvertisementSpec : Type 0 where
  pub cluster_id : String
  pub liqo_cluster_id : String
  pub cluster_type : String

pub record ClusterAdvertisement : Type 0 where
  pub metadata : ObjectMeta
  pub spec : AdvertisementSpec
  pub status : AdvertisementStatus

pub data ProviderInstructionKind : Type 0 where
  generate_kubeconfig cleanup reconcile : ProviderInstructionKind

pub data ReservationInstructionKind : Type 0 where
  peer unpeer cleanup reconcile : ReservationInstructionKind

-- The status of either instruction.
pub record InstructionStatus : Type 0 where
  pub observed_generation : ℕ
  pub enforced : Bool
  pub issued_at : Option Time
  pub last_delivered_at : Option Time
  pub last_update_time : Option Time
  pub attempts : ℤ

pub record ProviderInstructionSpec : Type 0 where
  pub reservation_id : String
  pub kind : ProviderInstructionKind
  pub target_cluster_id : String
  pub consumer_cluster_id : String
  pub consumer_liqo_cluster_id : String
  pub chunk_count : ℤ
  pub last_chunk : Bool
  pub expires_at : Option Time

pub record ProviderInstruction : Type 0 where
  pub name : String
  pub generation : ℕ
  pub spec : ProviderInstructionSpec
  pub status : InstructionStatus

pub record ReservationInstructionSpec : Type 0 where
  pub reservation_id : String
  pub kind : ReservationInstructionKind
  pub target_cluster_id : String
  pub provider_cluster_id : String
  pub provider_liqo_cluster_id : String
  pub chunk_count : ℤ
  pub last_chunk : Bool
  pub kubeconfig_ref : String
  pub expires_at : Option Time

pub record ReservationInstruction : Type 0 where
  pub name : String
  pub generation : ℕ
  -- The Reservation that is the controller owner.
  pub owner : Option String
  pub spec : ReservationInstructionSpec
  pub status : InstructionStatus

-- An entry of a string map; a missing key reads as the empty string.
unfoldable pub annotation : String → List (String × String) → String
annotation k [] = ""
annotation k ((j, v) ∷ m) = if str_eq j k then v else annotation k m

abbrev chunks_released_annotation : String
chunks_released_annotation = "federation-autoscaler.io/chunks-released"

-- IsChunksReleased.
unfoldable pub is_chunks_released : Reservation → Bool
unfolding annotation
is_chunks_released resv =
    str_eq (annotation chunks_released_annotation resv.metadata.annotations) "true"

-- MarkChunksReleased: the newest entry of a key is the one that is read.
unfoldable pub mark_chunks_released : Reservation → Reservation
mark_chunks_released resv = record resv {
  metadata = record resv.metadata {
    annotations = (chunks_released_annotation, "true") ∷ resv.metadata.annotations;
  };
}

-- A marked Reservation reads as released, whatever it carried before.
pub is_chunks_released-mark :
    (resv : Reservation) → is_chunks_released (mark_chunks_released resv) ≡ true
unfolding is_chunks_released mark_chunks_released
is_chunks_released-mark resv = refl

abbrev pub chunk_type_standard : String
chunk_type_standard = "standard"

abbrev pub chunk_type_gpu : String
chunk_type_gpu = "gpu"
