-- ===== src/Brain/Groups.antt =====
-- internal/agent/consumer/brain/nodegroups.go: the advertisements that the offers are pooled into,
-- and the node groups of a decision. The sizer and Quantity.Add are parameters.
use federation_autoscaler.Base.{
  String, Bool, true, false, ◌||◌, none, some, List, [], ◌∷◌, ◌++◌, map, str_eq, if◌then◌else◌,
}
use federation_autoscaler.Base.Int.{ℤ, pos, negsuc, ltb_ℤ, add32}
use federation_autoscaler.Api.{ClusterAdvertisement, chunk_type_standard}
use federation_autoscaler.Consumer.Types.{Quantity, ResourceList, NodeGroupListResponse}
use federation_autoscaler.Chunks.{ChunkResult}
use federation_autoscaler.Agent.Providing.{add_resources}
use federation_autoscaler.Placement.Masking.{string_lt}
use federation_autoscaler.Placement.Build.{Metrics, build_node_groups}
use federation_autoscaler.Brain.Types.{Offer, Input}
use federation_autoscaler.Brain.Bound.{Distance, within_bound, held_outside_bound}

module _ (sizer : ResourceList → List ChunkResult) where
  abbrev pub first_size : List ChunkResult → String × ℤ
  first_size [] = (chunk_type_standard, pos 0)
  first_size (r ∷ list) = (r.chunk_type, r.count)

  unfoldable pub sized_chunks : ResourceList → String × ℤ
  sized_chunks capacity = first_size (sizer capacity)

-- The sum of the free chunks, the lead site and how many chunks it has.
pub record Pooled (F : Type 0) : Type 0 where
  pub free : ℤ
  pub lead : Offer F
  pub lead_chunks : ℤ

-- The keys of byProvider, sorted.
unfoldable pub insert_provider : String → List String → List String
insert_provider p [] = p ∷ []
insert_provider p (x ∷ list) =
    let rest = insert_provider p list in
    if string_lt x p then x ∷ rest else if str_eq x p then x ∷ list else p ∷ x ∷ list

module _ {F : Type 0} where
  abbrev pub providers_of : List (Offer F) → List String
  providers_of [] = []
  providers_of (o ∷ offers) =
      let rest = providers_of offers in
      if str_eq o.provider_id "" then rest else insert_provider o.provider_id rest

module _ {F : Type 0} (add : Quantity → Quantity → Quantity)
    (sizer : ResourceList → List ChunkResult) where
  abbrev pub pool : ResourceList → List (Offer F) → ResourceList
  pool sum [] = sum
  pool sum (o ∷ sites) = pool (add_resources add sum o.available) sites

  abbrev pub chunks_at : String → Offer F → ℤ
  chunks_at chunk_type o =
      let sized = sized_chunks sizer o.available in
      if str_eq sized.0 chunk_type then sized.1 else pos 0

  abbrev pub count_sites : String → Pooled F → List (Offer F) → Pooled F
  count_sites chunk_type p [] = p
  count_sites chunk_type p (o ∷ sites) =
      let n = chunks_at chunk_type o in
      let next : Pooled F =
        if ltb_ℤ p.lead_chunks n
        then record { free = add32 p.free n; lead = o; lead_chunks = n }
        else record p { free = add32 p.free n } in
      count_sites chunk_type next sites

  -- From the sorted sites on: the first of them and the others.
  unfoldable pub provider_advertisement :
      String → Offer F → List (Offer F) → ℤ → ClusterAdvertisement
  provider_advertisement provider site sites own =
      let chunk_type = (sized_chunks sizer (pool [] (site ∷ sites))).0 in
      let start : Pooled F = record { free = pos 0; lead = site; lead_chunks = negsuc 0 } in
      let counted = count_sites chunk_type start (site ∷ sites) in
      record {
        metadata = record {
          name = provider;
          generation = 0;
          creation_timestamp = 0;
          deleting = false;
          finalizer = false;
          annotations = [];
        };
        spec = record {
          cluster_id = provider;
          liqo_cluster_id = counted.lead.liqo_cluster_id;
          cluster_type = chunk_type;
        };
        status = record {
          observed_generation = 0;
          last_seen = none;
          available = true;
          total_chunks = add32 own counted.free;
          reserved_chunks = own;
          available_chunks = counted.free;
        };
      }

  -- sort.Slice by the site, which tells the offers of one provider apart.
  unfoldable pub insert_site : Offer F → List (Offer F) → List (Offer F)
  insert_site o [] = o ∷ []
  insert_site o (x ∷ sites) =
      let rest = insert_site o sites in
      if string_lt x.site_id o.site_id then x ∷ rest else o ∷ x ∷ sites

  abbrev pub sites_of : String → List (Offer F) → List (Offer F)
  sites_of provider [] = []
  sites_of provider (o ∷ offers) =
      let rest = sites_of provider offers in
      if str_eq o.provider_id provider then insert_site o rest else rest

  abbrev pub pooled_into :
      String → ℤ → List (Offer F) → List ClusterAdvertisement → List ClusterAdvertisement
  pooled_into provider own [] rest = rest
  pooled_into provider own (site ∷ sites) rest =
      provider_advertisement provider site sites own ∷ rest

  abbrev pub advertise_all : List (Offer F) → (String → ℤ) → List String → List ClusterAdvertisement
  advertise_all offers own [] = []
  advertise_all offers own (p ∷ providers) =
      pooled_into p (own p) (sites_of p offers) (advertise_all offers own providers)

  unfoldable pub advertisements : List (Offer F) → (String → ℤ) → List ClusterAdvertisement
  advertisements offers own = advertise_all offers own (providers_of offers)

  module _ (ms : Metrics F) (f : Distance F) where
    -- Listed, not growable.
    unfoldable pub close_adv : (String → Bool) → ClusterAdvertisement → ClusterAdvertisement
    close_adv closed a =
        if closed a.spec.cluster_id
        then record a {
          status = record a.status {
            total_chunks = a.status.reserved_chunks;
            available_chunks = pos 0;
          };
        }
        else a

    abbrev pub offers_held : (String → Bool) → List (Offer F) → List (Offer F)
    offers_held held [] = []
    offers_held held (o ∷ offers) =
        let rest = offers_held held offers in if held o.provider_id then o ∷ rest else rest

    -- The providers that are held outside the bound, and the offers that are pooled.
    unfoldable pub bounded_offers : Input F → (String → Bool) × List (Offer F)
    bounded_offers input = elim input.latency_bound [
      | none ↦ (λ provider. false, input.offers)
      | some bound ↦
          let kept =
            (within_bound f input.offers (some bound) input.consumer input.measured_latency_ms).0 in
          let held = held_outside_bound input.offers kept input.own_reserved in
          (held, kept ++ offers_held held input.offers)
    ]

    -- nodeGroups, without the list of the estimated sites.
    unfoldable pub node_groups : Input F → NodeGroupListResponse F
    node_groups input =
        let bounded = bounded_offers input in
        let closed : String → Bool = λ p. bounded.0 p || input.full p in
        build_node_groups ms (record {
          advertisements = map (close_adv closed) (advertisements bounded.1 input.own_reserved);
          placement = input.consumer.placement;
          in_flight = input.in_flight;
          own_reserved = none;
        })
