-- ===== src/Brain/Types.antt =====
-- internal/agent/consumer/brain: Offer and Location of the catalog contract, and what one decision
-- needs. Prices, carbon intensities and labels of an offer are left out: the metrics that read them
-- are parameters of the placement.
use federation_autoscaler.Base.{String, Bool, Option, List}
use federation_autoscaler.Base.Int.{ℤ}
use federation_autoscaler.Api.{ReservationPhase}
use federation_autoscaler.Consumer.Types.{ResourceList, PlacementStrategy, LatencyBound}

pub record Location (F : Type 0) : Type 0 where
  pub latitude : Option F
  pub longitude : Option F

pub record Offer (F : Type 0) : Type 0 where
  pub provider_id : String
  pub liqo_cluster_id : String
  pub site_id : String
  pub location : Location F
  pub available : ResourceList
  pub probe_endpoint : String

-- ReservationResponse, as far as the brain reads it.
pub record ReservationResponse : Type 0 where
  pub reservation_id : String
  pub status : ReservationPhase
  pub provider_cluster_id : String
  pub chunk_count : ℤ

-- ConsumerEntry.
pub record LocatedConsumer (F : Type 0) : Type 0 where
  pub placement : PlacementStrategy
  pub latitude : F
  pub longitude : F
  pub has_location : Bool

-- Input; its maps are functions, with Go's zero value on a missing key.
pub record Input (F : Type 0) : Type 0 where
  pub offers : List (Offer F)
  pub own_reserved : String → ℤ
  pub in_flight : String → Bool
  pub consumer : LocatedConsumer F
  pub latency_bound : Option LatencyBound
  pub measured_latency_ms : String → Option F
  pub full : String → Bool
