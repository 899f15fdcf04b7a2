-- ===== src/Placement/Build.antt =====
-- placement.go: BuildNodeGroups; and of nodegroups.go: nodeGroupView, setPlacementMetric,
-- ownByProvider, ReservationHoldsChunk and ReservationInFlight. The metrics are floating-point
-- formulas over fields that the advertisements here leave out: they are parameters, as is the sizer.
use federation_autoscaler.Base.{
  ℕ, suc, String, Bool, true, false, ◌&&◌, Option, none, some, List, [], ◌∷◌, map, any, str_eq,
  if◌then◌else◌,
}
use federation_autoscaler.Base.Int.{ℤ, pos, leb_ℤ, add32, sub32, floor_zero}
use federation_autoscaler.Api.{
  ClusterAdvertisement, Reservation, ReservationPhase, unset, pending, generating_kubeconfig,
  kubeconfig_ready, peering, peered,
}
use federation_autoscaler.Broker.Server.{node_group_id}
use federation_autoscaler.Consumer.Types.{
  Float64, ResourceList, NodeGroupView, NodeGroupListResponse, PlacementStrategy, price, eco,
  latency, consumer_choice, random,
}
use federation_autoscaler.Placement.Masking.{
  Row, string_lt, apply_metric_preference, apply_latency_top_n, apply_random_preference,
}

-- A metric of each advertisement, none where it has none; the zero of float64; rand.Intn; and the
-- shape of the chunks of an advertisement.
pub record Metrics (F : Type 0) : Type 0 where
  pub float : Float64 F
  pub zero : F
  pub per_chunk_cost : ClusterAdvertisement → Option F
  pub weighted_carbon : ClusterAdvertisement → Option F
  pub distance : ClusterAdvertisement → Option F
  pub standard_score : ClusterAdvertisement → Option F
  pub draw : List ℕ → ℕ
  pub per_chunk_resources : ClusterAdvertisement → ResourceList

pub record PlacementInput : Type 0 where
  pub advertisements : List ClusterAdvertisement
  pub placement : PlacementStrategy
  pub in_flight : String → Bool
  pub own_reserved : Option (String → ℤ)

unfoldable pub reservation_holds_chunk : ReservationPhase → Bool
reservation_holds_chunk unset = true
reservation_holds_chunk pending = true
reservation_holds_chunk generating_kubeconfig = true
reservation_holds_chunk kubeconfig_ready = true
reservation_holds_chunk peering = true
reservation_holds_chunk peered = true
reservation_holds_chunk _ = false

unfoldable pub reservation_in_flight : ReservationPhase → Bool
reservation_in_flight peered = false
reservation_in_flight phase = reservation_holds_chunk phase

-- The chunks that a consumer holds on a provider: `own[provider]`.
unfoldable pub own_chunks : String → String → List Reservation → ℤ
own_chunks consumer provider [] = pos 0
own_chunks consumer provider (r ∷ resvs) =
    let rest = own_chunks consumer provider resvs in
    let n = if leb_ℤ r.spec.chunk_count (pos 0) then pos 1 else r.spec.chunk_count in
    if str_eq r.spec.consumer_cluster_id consumer
      && (reservation_holds_chunk r.status.phase && str_eq r.spec.provider_cluster_id provider)
    then add32 rest n
    else rest

-- `inFlight[provider]`.
unfoldable pub in_flight_on : String → List Reservation → String → Bool
in_flight_on consumer resvs provider =
    any
      (λ r.
        str_eq r.spec.consumer_cluster_id consumer
        && (reservation_in_flight r.status.phase && str_eq r.spec.provider_cluster_id provider))
      resvs

module _ {F : Type 0} (ms : Metrics F) where
  unfoldable pub node_group_view : ClusterAdvertisement → NodeGroupView F
  node_group_view cadv = record {
    id = node_group_id cadv.spec.cluster_id cadv.spec.cluster_type;
    provider_cluster_id = cadv.spec.cluster_id;
    provider_liqo_cluster_id = cadv.spec.liqo_cluster_id;
    chunk_type = cadv.spec.cluster_type;
    min_size = pos 0;
    max_size = cadv.status.total_chunks;
    current_reserved = cadv.status.reserved_chunks;
    chunk_resources = ms.per_chunk_resources cadv;
    placement_metric = ms.zero;
    has_metric = false;
  }

  -- The view before any masking: with the consumer's own chunks, where they are given.
  unfoldable pub project : Option (String → ℤ) → ClusterAdvertisement → NodeGroupView F
  project none cadv = node_group_view cadv
  project (some own) cadv =
      let mine = own cadv.spec.cluster_id in
      let free = floor_zero (sub32 cadv.status.total_chunks cadv.status.reserved_chunks) in
      record (node_group_view cadv) { current_reserved = mine; max_size = add32 mine free }

  unfoldable pub available_only : List ClusterAdvertisement → List ClusterAdvertisement
  available_only [] = []
  available_only (cadv ∷ list) =
      let rest = available_only list in if cadv.status.available then cadv ∷ rest else rest

  abbrev pub metric_or_zero : Option F → F
  metric_or_zero none = ms.zero
  metric_or_zero (some m) = m

  abbrev pub is_some : Option F → Bool
  is_some none = false
  is_some (some m) = true

  -- The views with the metric that the policy ranks on, numbered from `i`.
  unfoldable pub rows_of :
      (ClusterAdvertisement → Option F)
      → Option (String → ℤ)
      → ℕ
      → List ClusterAdvertisement
      → List (Row F)
  rows_of metric own i [] = []
  rows_of metric own i (cadv ∷ list) =
      record {
        index = i;
        view = project own cadv;
        metric = metric_or_zero (metric cadv);
        has = is_some (metric cadv);
      }
      ∷ rows_of metric own (suc i) list

  -- setPlacementMetric.
  unfoldable pub set_placement_metric : Row F → NodeGroupView F
  set_placement_metric row =
      if row.has
      then record row.view { placement_metric = row.metric; has_metric = true }
      else row.view

  abbrev pub bare_view : Row F → NodeGroupView F
  bare_view row = row.view

  -- The final sort.
  abbrev pub view_less : NodeGroupView F → NodeGroupView F → Bool
  view_less a b =
      if str_eq a.provider_cluster_id b.provider_cluster_id
      then string_lt a.chunk_type b.chunk_type
      else string_lt a.provider_cluster_id b.provider_cluster_id

  unfoldable pub insert_view : NodeGroupView F → List (NodeGroupView F) → List (NodeGroupView F)
  insert_view a [] = a ∷ []
  insert_view a (b ∷ views) =
      let rest = insert_view a views in if view_less b a then b ∷ rest else a ∷ b ∷ views

  unfoldable pub sort_views : List (NodeGroupView F) → List (NodeGroupView F)
  sort_views [] = []
  sort_views (v ∷ views) = insert_view v (sort_views views)

  abbrev pub no_metric : ClusterAdvertisement → Option F
  no_metric cadv = none

  module _ (input : PlacementInput) (avail : List ClusterAdvertisement) where
    abbrev pub rows : (ClusterAdvertisement → Option F) → List (Row F)
    rows metric = rows_of metric input.own_reserved 0 avail

    abbrev pub ranked : (ClusterAdvertisement → Option F) → List (Row F)
    ranked metric = apply_metric_preference ms.float input.in_flight (rows metric)

    -- latencyShortlistSize is 3.
    abbrev pub shortlisted : List (Row F) × Bool
    shortlisted = apply_latency_top_n ms.float 3 input.in_flight (rows ms.distance)

    abbrev pub drawn : List (Row F)
    drawn = apply_random_preference ms.draw input.in_flight (rows no_metric)

    -- What a policy makes of the rows, with whether it is a shortlist to be probed.
    unfoldable pub masked_views : PlacementStrategy → List (NodeGroupView F) × Bool
    masked_views price = (map set_placement_metric (ranked ms.per_chunk_cost), false)
    masked_views eco = (map set_placement_metric (ranked ms.weighted_carbon), false)
    masked_views random = (map bare_view drawn, false)
    masked_views latency = (map set_placement_metric shortlisted.0, shortlisted.1)
    masked_views consumer_choice = (map bare_view (rows no_metric), false)
    masked_views _ = (map bare_view (ranked ms.standard_score), false)

  unfoldable pub build_node_groups : PlacementInput → NodeGroupListResponse F
  build_node_groups input =
      let out = masked_views input (available_only input.advertisements) input.placement in
      record {
        node_groups = sort_views out.0;
        latency_shortlist = out.1;
        applied_placement = input.placement;
      }

  -- What handleNodeGroupsList answers to a consumer with the given policy, from the lists that it
  -- reads.
  unfoldable pub node_groups_list :
      String
      → PlacementStrategy
      → List ClusterAdvertisement
      → List Reservation
      → NodeGroupListResponse F
  node_groups_list consumer placement advs resvs = build_node_groups (record {
    advertisements = advs;
    placement = placement;
    in_flight = in_flight_on consumer resvs;
    own_reserved = some (λ provider. own_chunks consumer provider resvs);
  })
