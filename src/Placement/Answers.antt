-- ===== src/Placement/Answers.antt =====
-- Every policy only takes away what a consumer could grow.
use federation_autoscaler.Base.{
  map, Bool, true, false, Option, List, All, All₂, any, if◌then◌else◌, [],
}
use federation_autoscaler.Api.{ClusterAdvertisement}
use federation_autoscaler.Consumer.Types.{
  PlacementStrategy, price, eco, latency, consumer_choice, random, standard, unset, NodeGroupView,
}
use federation_autoscaler.Placement.Masking.{
  Row, apply_metric_preference, apply_latency_top_n, apply_random_preference, shortlist, ranking,
  types_of, narrow_all,
}
use federation_autoscaler.Placement.Narrowing.{IsNarrowed, narrow_all-IsNarrowed}
use federation_autoscaler.Placement.Build.{
  Metrics, PlacementInput, available_only, set_placement_metric, bare_view, no_metric, rows, ranked,
  shortlisted, drawn, masked_views, build_node_groups,
}
use federation_autoscaler.Placement.Offers.{
  IsOffer, available_only-IsListed, rows-IsOffer, All-narrowed-IsOffer, map-IsOffer,
  set_placement_metric-IsOffer, sort_views-IsOffer,
}

module _ {F : Type 0} (ms : Metrics F) (input : PlacementInput) where
  abbrev avail : List ClusterAdvertisement
  avail = available_only ms input.advertisements

  abbrev AreOffers : List (Row F) → Type 0
  AreOffers list = All (λ row. IsOffer ms input.own_reserved input.advertisements row.view) list

  rows-AreOffers :
      (metric : ClusterAdvertisement → Option F) → AreOffers (rows ms input avail metric)
  rows-AreOffers metric =
      rows-IsOffer ms input.own_reserved input.advertisements metric 0 avail
        (available_only-IsListed ms input.advertisements input.advertisements (λ x m. m))

  narrowed-AreOffers :
      (metric : ClusterAdvertisement → Option F) (new : List (Row F))
      → All₂ IsNarrowed (rows ms input avail metric) new
      → AreOffers new
  narrowed-AreOffers metric new h =
      All-narrowed-IsOffer ms input.own_reserved input.advertisements (rows ms input avail metric)
        new h (rows-AreOffers metric)

  ranked-AreOffers :
      (metric : ClusterAdvertisement → Option F) → AreOffers (ranked ms input avail metric)
  unfolding apply_metric_preference
  ranked-AreOffers metric = narrowed-AreOffers metric _ (narrow_all-IsNarrowed _ _ _)

  drawn-AreOffers : AreOffers (drawn ms input avail)
  unfolding apply_random_preference
  drawn-AreOffers = narrowed-AreOffers (no_metric ms) _ (narrow_all-IsNarrowed _ _ _)

  shortlisted-AreOffers : AreOffers (shortlisted ms input avail).0
  unfolding apply_latency_top_n
  shortlisted-AreOffers = by_test (any (λ row. row.has) old)
    where
      old : List (Row F)
      old = rows ms input avail ms.distance

      new : List (Row F)
      new =
          narrow_all (λ idxs. shortlist 3 input.in_flight [] (ranking ms.float idxs)) (types_of old)
            old

      by_test :
          (b : Bool)
          → (let out : List (Row F) × Bool = if b then (new, true) else (old, false) in
              AreOffers out.0)
      by_test true = narrowed-AreOffers ms.distance new (narrow_all-IsNarrowed _ _ _)
      by_test false = rows-AreOffers ms.distance

  AreViews : List (NodeGroupView F) → Type 0
  AreViews views = All (IsOffer ms input.own_reserved input.advertisements) views

  with_metric-AreViews :
      (list : List (Row F)) → AreOffers list → AreViews (map (set_placement_metric ms) list)
  unfolding AreViews
  with_metric-AreViews list h =
      map-IsOffer ms input.own_reserved input.advertisements (set_placement_metric ms) list
        (set_placement_metric-IsOffer ms input.own_reserved input.advertisements) h

  bare-AreViews : (list : List (Row F)) → AreOffers list → AreViews (map (bare_view ms) list)
  unfolding AreViews
  bare-AreViews list h =
      map-IsOffer ms input.own_reserved input.advertisements (bare_view ms) list (λ row k. k) h

  masked-AreViews : (p : PlacementStrategy) → AreViews (masked_views ms input avail p).0
  unfolding masked_views
  masked-AreViews price = with_metric-AreViews _ (ranked-AreOffers ms.per_chunk_cost)
  masked-AreViews eco = with_metric-AreViews _ (ranked-AreOffers ms.weighted_carbon)
  masked-AreViews random = bare-AreViews _ drawn-AreOffers
  masked-AreViews latency = with_metric-AreViews _ shortlisted-AreOffers
  masked-AreViews consumer_choice = bare-AreViews _ (rows-AreOffers (no_metric ms))
  masked-AreViews standard = bare-AreViews _ (ranked-AreOffers ms.standard_score)
  masked-AreViews unset = bare-AreViews _ (ranked-AreOffers ms.standard_score)

  pub build_node_groups-AreOffers :
      All
        (IsOffer ms input.own_reserved input.advertisements)
        (build_node_groups ms input).node_groups
  unfolding build_node_groups AreViews
  build_node_groups-AreOffers =
      sort_views-IsOffer ms input.own_reserved input.advertisements _
        (masked-AreViews input.placement)
