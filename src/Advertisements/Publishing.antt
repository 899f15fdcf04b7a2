-- ===== src/Advertisements/Publishing.antt =====
-- internal/broker/api/advertisement.go: what an accepted advertisement writes to the object of its
-- cluster.
use federation_autoscaler.Base.{
  ℕ, String, Bool, true, false, not, ◌&&◌, List, [], ◌∷◌, some, ◌≡◌, str_eq, if◌then◌else◌,
}
use federation_autoscaler.Base.Int.{ℤ, sub32, floor_zero}
use federation_autoscaler.Api.{Time, ClusterAdvertisement, AdvertisementSpec}
use federation_autoscaler.Kube.Core
use federation_autoscaler.Kube.Core.{Client, M, Run, Result, ok, err, pure, attempt, ◌>>=◌, ◌>>◌}
use federation_autoscaler.Consumer.Types.{ResourceList}
use federation_autoscaler.Chunks.{ChunkResult}
use federation_autoscaler.Broker.Delivery.{InstructionView, collect_instructions_for_caller}

-- The object that touchClusterAdvertisementStatus sends.
unfoldable pub touched : ℤ → Time → ClusterAdvertisement → ClusterAdvertisement
touched count now cadv = record cadv {
  status = record cadv.status {
    observed_generation = cadv.metadata.generation;
    last_seen = some now;
    available = true;
    total_chunks = count;
    available_chunks = floor_zero (sub32 count cadv.status.reserved_chunks);
  };
}

-- The write that publishes a chunk count.
abbrev pub Publishes : ℤ → ClusterAdvertisement → ClusterAdvertisement → Type 0
Publishes count old new = (now : Time) × (new ≡ touched count now old)

-- AdvertisementRequest, as far as the handler branches on it.
pub record AdvertisementRequest : Type 0 where
  pub cluster_id : String
  pub liqo_cluster_id : String
  pub resources : ResourceList
  -- CarbonIntensity is given and below zero.
  pub negative_carbon : Bool

-- The accepted answer with its chunk count and instructions, or the status of an error.
pub data AdvertisementAnswer : Type 0 where
  accepted_with : ℤ → List InstructionView → AdvertisementAnswer
  declined : ℕ → AdvertisementAnswer

abbrev no_resources : ResourceList → Bool
no_resources [] = true
no_resources (x ∷ list) = false

unfoldable pub validate_advertisement_request : AdvertisementRequest → Bool
validate_advertisement_request req =
    not (str_eq req.cluster_id "")
    && (not (str_eq req.liqo_cluster_id "")
        && (not (no_resources req.resources) && not req.negative_carbon))

abbrev pub spec_of : AdvertisementRequest → ChunkResult → AdvertisementSpec
spec_of req result = record {
  cluster_id = req.cluster_id;
  liqo_cluster_id = req.liqo_cluster_id;
  cluster_type = result.chunk_type;
}

-- `sizer` is Size of the server's Sizer.
module _ {W : Type 0} (c : Client W) (sizer : ResourceList → List ChunkResult) where
  unfoldable pub touch_cluster_advertisement_status : ClusterAdvertisement → ℤ → M W (Unit {0})
  touch_cluster_advertisement_status cadv count = do
    now ← Core.now c
    Core.update_advertisement_status c (touched count now cadv)
    pure tt

  abbrev pub instructions_of : Result (List InstructionView) → List InstructionView
  instructions_of (err e) = []
  instructions_of (ok views) = views

  -- The write of the status and the instructions of the caller are best effort.
  unfoldable pub published :
      String → ChunkResult → Result ClusterAdvertisement → M W AdvertisementAnswer
  published caller result (err e) = pure (declined 500)
  published caller result (ok cadv) = do
    attempt (touch_cluster_advertisement_status cadv result.count)
    instr ← attempt (collect_instructions_for_caller c caller)
    pure (accepted_with result.count (instructions_of instr))

  unfoldable pub upsert_cluster_advertisement :
      String → AdvertisementRequest → List ChunkResult → M W AdvertisementAnswer
  upsert_cluster_advertisement caller req [] = pure (declined 400)
  upsert_cluster_advertisement caller req (result ∷ results) = do
    got ← attempt (Core.upsert_advertisement c (spec_of req result))
    published caller result got

  -- For an authenticated caller and a decoded body.
  unfoldable pub handle_advertisement_upsert :
      String → AdvertisementRequest → M W AdvertisementAnswer
  handle_advertisement_upsert caller req =
      if not (validate_advertisement_request req)
      then pure (declined 400)
      else if not (str_eq req.cluster_id caller)
      then pure (declined 403)
      else upsert_cluster_advertisement caller req (sizer req.resources)
