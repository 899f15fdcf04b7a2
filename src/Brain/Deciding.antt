-- ===== src/Brain/Deciding.antt =====
-- internal/agent/consumer/brain/brain.go: one decision, and the choice that it left. The catalog, the
-- Broker's list, the policies, the location and the prober are parameters.
use federation_autoscaler.Base.{
  ℕ, String, Bool, true, false, ◌&&◌, ◌||◌, Option, none, some, All, List, [], ◌∷◌, ◌≡◌, refl, ◌⊎◌,
  inl, inr, arith, if◌then◌else◌,
}
use federation_autoscaler.Base.Int.{ltb_ℤ}
use federation_autoscaler.Kube.Core.{Call, ok, M, pure, query, ◌>>=◌}
use federation_autoscaler.Consumer.Types.{
  Quantity, ResourceList, PlacementStrategy, unset, LatencyBound, NodeGroupView,
  NodeGroupListResponse,
}
use federation_autoscaler.Chunks.{ChunkResult}
use federation_autoscaler.Placement.Masking.{string_lt}
use federation_autoscaler.Placement.Build.{Metrics}
use federation_autoscaler.Brain.Types.{Offer, Input, LocatedConsumer, ReservationResponse}
use federation_autoscaler.Brain.Reservations.{from_reservations}
use federation_autoscaler.Brain.Full.{FullProviders, snapshot}
use federation_autoscaler.Brain.Bound.{Distance, effective_bound, probe_endpoints}
use federation_autoscaler.Brain.Groups.{node_groups}
use federation_autoscaler.Brain.Bounded.{eq_ℤ, may_grow, is_bounded, node_groups-bounded}

-- ConsumerPolicy, as far as a decision reads it.
pub record ConsumerPolicy : Type 0 where
  pub name : String
  pub placement : PlacementStrategy
  pub latency_bound : Option LatencyBound

-- Options. `locate` is none where the location is not known, `has_prober` whether Prober is set.
pub record Sources (W F : Type 0) : Type 0 where
  pub list_offers : Call W (List (Offer F))
  pub list_reservations : Call W (List ReservationResponse)
  pub list_policies : Call W (List ConsumerPolicy)
  pub locate : W → Option (F × F) × W
  pub has_prober : Bool
  pub measure : List String → W → (String → Option F) × W
  pub now : W → ℕ × W

abbrev pub zero_policy : ConsumerPolicy
zero_policy = record { name = ""; placement = unset; latency_bound = none }

-- The loop over the policies: the first of the lowest-named.
abbrev pub lowest_named : ConsumerPolicy → List ConsumerPolicy → ConsumerPolicy
lowest_named chosen [] = chosen
lowest_named chosen (p ∷ policies) =
    lowest_named (if string_lt p.name chosen.name then p else chosen) policies

unfoldable pub current_policy : List ConsumerPolicy → ConsumerPolicy
current_policy [] = zero_policy
current_policy (p ∷ policies) = lowest_named p (p ∷ policies)

module _ {F : Type 0} where
  -- The first view, in list order, that can grow.
  unfoldable pub record_choice : List (NodeGroupView F) → String
  record_choice [] = ""
  record_choice (v ∷ views) =
      let rest = record_choice views in
      if ltb_ℤ v.current_reserved v.max_size then v.provider_cluster_id else rest

module _ {W F : Type 0} (io : Sources W F) where
  -- Nothing is measured without a bound or a prober.
  abbrev pub measure_for : Bool → List (Offer F) → M W (String → Option F)
  measure_for true offers = query (λ w.
      (ok (io.measure (probe_endpoints offers) w).0, (io.measure (probe_endpoints offers) w).1))
  measure_for false offers = pure (λ endpoint. none)

  abbrev pub is_bound : Option LatencyBound → Bool
  is_bound none = false
  is_bound (some bound) = true

  module _ (zero : F) (add : Quantity → Quantity → Quantity)
      (sizer : ResourceList → List ChunkResult) (ms : Metrics F) (f : Distance F) where
    abbrev pub entry_for : PlacementStrategy → Option (F × F) → LocatedConsumer F
    entry_for placement none = record {
      placement = placement;
      latitude = zero;
      longitude = zero;
      has_location = false;
    }
    entry_for placement (some (lat, lon)) = record {
      placement = placement;
      latitude = lat;
      longitude = lon;
      has_location = true;
    }

    -- NodeGroupsWithin, with the table of the full providers after it.
    unfoldable pub node_groups_within :
        Option LatencyBound → FullProviders → M W (NodeGroupListResponse F × FullProviders)
    node_groups_within request_bound full = do
      offers ← query io.list_offers
      resvs ← query io.list_reservations
      policies ← query io.list_policies
      place ← query (λ w. (ok (io.locate w).0, (io.locate w).1))
      measured ←
          measure_for
            (is_bound (effective_bound (current_policy policies).latency_bound request_bound)
              && io.has_prober)
            offers
      t ← query (λ w. (ok (io.now w).0, (io.now w).1))
      pure (
        node_groups add sizer ms f (record {
          offers = offers;
          own_reserved = (from_reservations resvs).0;
          in_flight = (from_reservations resvs).1;
          consumer = entry_for (current_policy policies).placement place;
          latency_bound = effective_bound (current_policy policies).latency_bound request_bound;
          measured_latency_ms = measured;
          full = (snapshot t full).0;
        }),
        (snapshot t full).1,
      )

module _ {F : Type 0} (f : Distance F) (input : Input F) where
  record_choice-may_grow :
      (views : List (NodeGroupView F))
      → All (λ v. is_bounded f input v ≡ true) views
      → (record_choice views ≡ "") ⊎ (may_grow f input (record_choice views) ≡ true)
  unfolding record_choice
  record_choice-may_grow [] h = inl refl
  record_choice-may_grow (v ∷ views) (h, hs) =
      by_room (ltb_ℤ v.current_reserved v.max_size) refl (record_choice-may_grow views hs)
    where
      full_up :
          ltb_ℤ v.current_reserved v.max_size ≡ true → eq_ℤ v.max_size v.current_reserved ≡ false
      full_up e = ground arith

      room : (mine same may : Bool) → same ≡ false → (mine && (same || may)) ≡ true → may ≡ true
      room true false may e k = k
      room true true may e k = absurd (cc)
      room false same may e k = absurd (cc)

      by_room :
          (b : Bool)
          → ltb_ℤ v.current_reserved v.max_size ≡ b
          → (record_choice views ≡ "") ⊎ (may_grow f input (record_choice views) ≡ true)
          → (let id = if b then v.provider_cluster_id else record_choice views in
              (id ≡ "") ⊎ (may_grow f input id ≡ true))
      by_room true e rest = inr (
          room (eq_ℤ v.current_reserved (input.own_reserved v.provider_cluster_id))
            (eq_ℤ v.max_size v.current_reserved) (may_grow f input v.provider_cluster_id)
            (full_up e) h)
      by_room false e rest = rest

  -- The provider that is recorded as the choice of a decision, if any, is one that the Broker did not
  -- refuse of late and that has a site within the bound of the decision.
  pub record_choice-node_groups :
      (add : Quantity → Quantity → Quantity) (sizer : ResourceList → List ChunkResult)
      (ms : Metrics F)
      → (record_choice (node_groups add sizer ms f input).node_groups ≡ "")
        ⊎ (may_grow f input (record_choice (node_groups add sizer ms f input).node_groups) ≡ true)
  record_choice-node_groups add sizer ms =
      record_choice-may_grow (node_groups add sizer ms f input).node_groups
        (node_groups-bounded f input add sizer ms)
