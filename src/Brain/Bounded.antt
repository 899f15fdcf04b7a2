-- ===== src/Brain/Bounded.antt =====
-- What the Cluster Autoscaler can grow after a decision.
use federation_autoscaler.Base.{
  and_true, and_left, or_left, or_right, any, eq_refl, arith, String, Bool, true, false, not, ◌&&◌,
  ◌||◌, ◌⊎◌, inl, inr, Option, none, some, All, All-imp, List, [], ◌∷◌, ◌++◌, map, ◌≡◌, refl, sym,
  ap, subst, str_eq, if◌then◌else◌,
}
use federation_autoscaler.Base.Int.{ℤ, pos, leb_ℤ}
use federation_autoscaler.Api.{ClusterAdvertisement}
use federation_autoscaler.Consumer.Types.{Quantity, ResourceList, LatencyBound, NodeGroupView}
use federation_autoscaler.Chunks.{ChunkResult}
use federation_autoscaler.Placement.Build.{Metrics, node_group_view, project}
use federation_autoscaler.Placement.Offers.{IsOffer}
use federation_autoscaler.Placement.Answers.{build_node_groups-AreOffers}
use federation_autoscaler.Brain.Types.{Offer, Input}
use federation_autoscaler.Brain.Bound.{
  Distance, site_verdict, sites_kept, within_bound, held_outside_bound,
}
use federation_autoscaler.Brain.Groups.{
  providers_of, advertisements, close_adv, offers_held, bounded_offers, node_groups,
}
use mathlib.Core.Bool.{Bool-set}
use federation_autoscaler.Brain.Pooled.{
  All-map, All-append, if-All, All-Mem, IsAdvertised, advertise_all-IsAdvertised,
}

-- Equal integers, as a test.
abbrev pub eq_ℤ : ℤ → ℤ → Bool
eq_ℤ a b = leb_ℤ a b && leb_ℤ b a

eq_ℤ_refl : (a : ℤ) → eq_ℤ a a ≡ true
eq_ℤ_refl a = ground arith

module _ {F : Type 0} (f : Distance F) (input : Input F) where
  -- Within the bound of the decision, if it has one.
  abbrev pub is_within : Option LatencyBound → Offer F → Bool
  is_within none o = true
  is_within (some bound) o =
      (site_verdict f input.consumer input.measured_latency_ms (f.of_int bound.max_latency_ms)
        o).kept

  -- The provider has a site in the catalog that is within the bound.
  abbrev pub has_site : String → List (Offer F) → Bool
  has_site provider offers =
      any (λ o. str_eq o.provider_id provider && is_within input.latency_bound o) offers

  -- The provider was not refused of late, and has such a site.
  abbrev pub may_grow : String → Bool
  may_grow provider = not (input.full provider) && has_site provider input.offers

  -- Whether a view shows the consumer's own chunks, and room for more only where there may be.
  abbrev pub is_bounded : NodeGroupView F → Bool
  is_bounded v =
      eq_ℤ v.current_reserved (input.own_reserved v.provider_cluster_id)
      && (eq_ℤ v.max_size v.current_reserved || may_grow v.provider_cluster_id)

  abbrev adv_bounded : ClusterAdvertisement → Bool
  adv_bounded a =
      eq_ℤ a.status.reserved_chunks (input.own_reserved a.spec.cluster_id)
      && (eq_ℤ a.status.total_chunks a.status.reserved_chunks || may_grow a.spec.cluster_id)

  -- Each offer is of a provider that is held, or that has a site within the bound.
  abbrev IsPooled : (String → Bool) → Offer F → Type 0
  IsPooled held o = (held o.provider_id ≡ true) ⊎ (has_site o.provider_id input.offers ≡ true)

  within-IsPooled :
      (held : String → Bool) (offers : List (Offer F))
      → ((p : String) → has_site p offers ≡ true → has_site p input.offers ≡ true)
      → All (λ o. is_within input.latency_bound o ≡ true → IsPooled held o) offers
  within-IsPooled held [] h = tt
  within-IsPooled held (o ∷ offers) h = (
    λ e. inr (
        h o.provider_id
          (or_left _ (has_site o.provider_id offers) (and_true (eq_refl o.provider_id) e))),
    within-IsPooled held offers
        (λ p e. h p (or_right (str_eq o.provider_id p && is_within input.latency_bound o) _ e)),
  )

  sites_kept-All :
      (P : Offer F → Type 0) (limit : F) (offers : List (Offer F))
      → All
          (λ o. (site_verdict f input.consumer input.measured_latency_ms limit o).kept ≡ true → P o)
          offers
      → All P (sites_kept f input.consumer input.measured_latency_ms limit offers)
  sites_kept-All P limit [] h = tt
  sites_kept-All P limit (o ∷ offers) (h, hs) =
      if-All P (site_verdict f input.consumer input.measured_latency_ms limit o).kept o _ h
        (sites_kept-All P limit offers hs)

  module _ (add : Quantity → Quantity → Quantity) (sizer : ResourceList → List ChunkResult)
      (ms : Metrics F) where
    offers_held-All :
        (held : String → Bool) (offers : List (Offer F))
        → All (IsPooled held) (offers_held add sizer ms f held offers)
    offers_held-All held [] = tt
    offers_held-All held (o ∷ offers) =
        if-All (IsPooled held) (held o.provider_id) o (offers_held add sizer ms f held offers)
          (λ e. inl e) (offers_held-All held offers)

    bounded_offers-IsPooled :
        All
          (IsPooled (bounded_offers add sizer ms f input).0)
          (bounded_offers add sizer ms f input).1
    unfolding bounded_offers within_bound
    bounded_offers-IsPooled = by_bound input.latency_bound refl
      where
        by_bound :
            (b : Option LatencyBound)
            → input.latency_bound ≡ b
            → (let out : (String → Bool) × List (Offer F) = elim b [
              | none ↦ (λ provider. false, input.offers)
              | some bound ↦
                  let kept =
                    sites_kept f input.consumer input.measured_latency_ms
                      (f.of_int bound.max_latency_ms)
                      input.offers in
                  let held = held_outside_bound input.offers kept input.own_reserved in
                  (held, kept ++ offers_held add sizer ms f held input.offers)
            ] in
                All (IsPooled out.0) out.1)
        by_bound none e =
            All-imp input.offers (λ o k. k (subst (λ b. is_within b o ≡ true) (sym e) refl))
              (within-IsPooled (λ provider. false) input.offers (λ p k. k))
        by_bound (some bound) e =
            let limit = f.of_int bound.max_latency_ms in
            let kept = sites_kept f input.consumer input.measured_latency_ms limit input.offers in
            let held = held_outside_bound input.offers kept input.own_reserved in
            All-append (IsPooled held) kept (offers_held add sizer ms f held input.offers)
              (sites_kept-All (IsPooled held) limit input.offers (
                All-imp input.offers (λ o k g. k (subst (λ b. is_within b o ≡ true) (sym e) g))
                  (within-IsPooled held input.offers (λ p k. k))))
              (offers_held-All held input.offers)

    -- The pooled advertisements, those of closed providers with no room.
    closed_advs : List ClusterAdvertisement
    closed_advs =
        let bounded = bounded_offers add sizer ms f input in
        map (close_adv add sizer ms f (λ p. bounded.0 p || input.full p))
          (advertisements add sizer bounded.1 input.own_reserved)

    close_adv-bounded :
        (held : String → Bool) (a : ClusterAdvertisement)
        → IsAdvertised add sizer (IsPooled held) input.own_reserved a
        → adv_bounded (close_adv add sizer ms f (λ p. held p || input.full p) a) ≡ true
    unfolding close_adv
    close_adv-bounded held a (own, (o, pooled, named)) =
        by_closed (held a.spec.cluster_id) (input.full a.spec.cluster_id) refl
          (subst IsOpen named pooled)
      where
        IsOpen : String → Type 0
        IsOpen p = (held p ≡ true) ⊎ (has_site p input.offers ≡ true)

        mine : eq_ℤ a.status.reserved_chunks (input.own_reserved a.spec.cluster_id) ≡ true
        mine =
            subst (λ n. eq_ℤ a.status.reserved_chunks n ≡ true) own
              (eq_ℤ_refl a.status.reserved_chunks)

        by_closed :
            (h g : Bool)
            → input.full a.spec.cluster_id ≡ g
            → (h ≡ true) ⊎ (has_site a.spec.cluster_id input.offers ≡ true)
            → (let b : ClusterAdvertisement =
                  if h || g
                  then record a {
                    status = record a.status {
                      total_chunks = a.status.reserved_chunks;
                      available_chunks = pos 0;
                    };
                  }
                  else a in
                adv_bounded b ≡ true)
        by_closed true g k e = and_true mine (or_left _ _ (eq_ℤ_refl a.status.reserved_chunks))
        by_closed false true k e = and_true mine (or_left _ _ (eq_ℤ_refl a.status.reserved_chunks))
        by_closed false false k (inl e) = absurd (cc)
        by_closed false false k (inr e) = and_true mine (or_right _ _ (and_true (ap not k) e))

    closed_advs-bounded : All (λ a. adv_bounded a ≡ true) closed_advs
    unfolding closed_advs advertisements
    closed_advs-bounded =
        let bounded = bounded_offers add sizer ms f input in
        All-map (λ a. adv_bounded a ≡ true) _
          (IsAdvertised add sizer (IsPooled bounded.0) input.own_reserved)
          (advertisements add sizer bounded.1 input.own_reserved) (close_adv-bounded bounded.0)
          (advertise_all-IsAdvertised add sizer (IsPooled bounded.0) input.own_reserved bounded.1
            (providers_of bounded.1) bounded_offers-IsPooled)

    offer-bounded : (v : NodeGroupView F) → IsOffer ms none closed_advs v → is_bounded v ≡ true
    unfolding project node_group_view
    offer-bounded v (a, m, available, p, t, current, max) =
        let there =
          All-Mem (λ a. adv_bounded a ≡ true) (λ x. Bool-set (adv_bounded x) true) a closed_advs
            closed_advs-bounded m in
        let here : bounded_of (project ms none a).max_size v.current_reserved v.provider_cluster_id
            ≡ true =
          subst (λ n. bounded_of (project ms none a).max_size n v.provider_cluster_id ≡ true)
            (sym current)
            (subst
              (λ id.
                bounded_of (project ms none a).max_size (project ms none a).current_reserved id
                ≡ true)
              (sym p) there) in
        by_max max here
      where
        bounded_of : ℤ → ℤ → String → Bool
        bounded_of most mine id =
            eq_ℤ mine (input.own_reserved id) && (eq_ℤ most mine || may_grow id)

        by_max :
            {most : ℤ}
            → (v.max_size ≡ most) ⊎ (v.max_size ≡ v.current_reserved)
            → bounded_of most v.current_reserved v.provider_cluster_id ≡ true
            → bounded_of v.max_size v.current_reserved v.provider_cluster_id ≡ true
        by_max (inl e) h =
            subst (λ n. bounded_of n v.current_reserved v.provider_cluster_id ≡ true) (sym e) h
        by_max (inr e) h = and_true (and_left _ _ h) (
            or_left _ _ (
              subst (λ n. eq_ℤ n v.current_reserved ≡ true) (sym e) (eq_ℤ_refl v.current_reserved)))

    -- Whatever the policy, the metrics and the measured latencies, every node group that a local
    -- decision shows counts the consumer's own chunks on its provider, and has room for more only
    -- where the Broker did not refuse the provider of late and the catalog has a site of the provider
    -- within the bound of the decision, if it has one.
    pub node_groups-bounded :
        All (λ v. is_bounded v ≡ true) (node_groups add sizer ms f input).node_groups
    unfolding node_groups closed_advs
    node_groups-bounded =
        All-imp (node_groups add sizer ms f input).node_groups (λ v h. offer-bounded v h)
          (build_node_groups-AreOffers ms (record {
            advertisements = closed_advs;
            placement = input.consumer.placement;
            in_flight = input.in_flight;
            own_reserved = none;
          }))
