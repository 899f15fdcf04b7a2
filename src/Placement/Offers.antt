-- ===== src/Placement/Offers.antt =====
-- What a consumer is offered, whatever its policy.
use federation_autoscaler.Base.{
  ℕ, suc, String, Bool, true, false, ◌≡◌, refl, sym, subst, ◌⊎◌, inl, inr, Option, none, some, List,
  [], ◌∷◌, map, All, All₂, if◌then◌else◌,
}
use federation_autoscaler.Base.Int.{ℤ}
use federation_autoscaler.Api.{ClusterAdvertisement}
use federation_autoscaler.Consumer.Types.{NodeGroupView}
use federation_autoscaler.Placement.Masking.{Row, mask}
use federation_autoscaler.Placement.Narrowing.{IsNarrowed}
use federation_autoscaler.Placement.Build.{
  Metrics, node_group_view, project, available_only, rows_of, set_placement_metric, insert_view,
  sort_views, view_less,
}
use mathlib.Core.List.{Mem, mem-cons_self, mem-cons_of_mem}

module _ {F : Type 0} (ms : Metrics F) where
  -- The view is that of an available advertisement of the list; its maximum is the one before any
  -- masking, or leaves no head-room.
  abbrev pub IsOffer : Option (String → ℤ) → List ClusterAdvertisement → NodeGroupView F → Type 0
  IsOffer own advs v =
      (cadv : ClusterAdvertisement) × Mem cadv advs
      × (cadv.status.available ≡ true)
      × (v.provider_cluster_id ≡ cadv.spec.cluster_id)
      × (v.chunk_type ≡ cadv.spec.cluster_type)
      × (v.current_reserved ≡ (project ms own cadv).current_reserved)
      × ((v.max_size ≡ (project ms own cadv).max_size) ⊎ (v.max_size ≡ v.current_reserved))

  projected :
      (own : Option (String → ℤ)) (cadv : ClusterAdvertisement)
      → ((project ms own cadv).provider_cluster_id ≡ cadv.spec.cluster_id)
        × ((project ms own cadv).chunk_type ≡ cadv.spec.cluster_type)
  unfolding project node_group_view
  projected none cadv = (refl, refl)
  projected (some own) cadv = (refl, refl)

  abbrev pub IsListed : List ClusterAdvertisement → ClusterAdvertisement → Type 0
  IsListed advs cadv = Mem cadv advs × (cadv.status.available ≡ true)

  pub available_only-IsListed :
      (all advs : List ClusterAdvertisement)
      → ((cadv : ClusterAdvertisement) → Mem cadv advs → Mem cadv all)
      → All (IsListed all) (available_only ms advs)
  unfolding available_only
  available_only-IsListed all [] h = tt
  available_only-IsListed all (cadv ∷ advs) h =
      by_test cadv.status.available refl
        (available_only-IsListed all advs (λ x m. h x (mem-cons_of_mem cadv m)))
    where
      by_test :
          (b : Bool)
          → cadv.status.available ≡ b
          → All (IsListed all) (available_only ms advs)
          → All (IsListed all) (if b then cadv ∷ available_only ms advs else available_only ms advs)
      by_test true e rest = ((h cadv mem-cons_self, e), rest)
      by_test false e rest = rest

  module _ (own : Option (String → ℤ)) (all : List ClusterAdvertisement) where
    pub rows-IsOffer :
        (metric : ClusterAdvertisement → Option F) (i : ℕ) (advs : List ClusterAdvertisement)
        → All (IsListed all) advs
        → All (λ row. IsOffer own all row.view) (rows_of ms metric own i advs)
    unfolding rows_of
    rows-IsOffer metric i [] h = tt
    rows-IsOffer metric i (cadv ∷ advs) ((m, e), h) =
        let p = projected own cadv in
        ((cadv, m, e, p.0, p.1, refl, inl refl), rows-IsOffer metric (suc i) advs h)

    narrowed-IsOffer :
        (old new : Row F) → IsNarrowed old new → IsOffer own all old.view → IsOffer own all new.view
    unfolding mask
    narrowed-IsOffer old new (inl e) h = subst (λ row. IsOffer own all row.view) (sym e) h
    narrowed-IsOffer old new (inr e) (cadv, m, a, p, t, c, d) =
        subst (λ row. IsOffer own all row.view) (sym e) (cadv, m, a, p, t, c, inr refl)

    pub All-narrowed-IsOffer :
        (old new : List (Row F))
        → All₂ IsNarrowed old new
        → All (λ row. IsOffer own all row.view) old
        → All (λ row. IsOffer own all row.view) new
    All-narrowed-IsOffer [] [] n h = tt
    All-narrowed-IsOffer [] (y ∷ ys) n h = absurd n
    All-narrowed-IsOffer (x ∷ xs) [] n h = absurd n
    All-narrowed-IsOffer (x ∷ xs) (y ∷ ys) (n, ns) (h, hs) =
        (narrowed-IsOffer x y n h, All-narrowed-IsOffer xs ys ns hs)

    pub map-IsOffer :
        (g : Row F → NodeGroupView F) (list : List (Row F))
        → ((row : Row F) → IsOffer own all row.view → IsOffer own all (g row))
        → All (λ row. IsOffer own all row.view) list
        → All (IsOffer own all) (map g list)
    map-IsOffer g [] k h = tt
    map-IsOffer g (row ∷ list) k (h, hs) = (k row h, map-IsOffer g list k hs)

    pub set_placement_metric-IsOffer :
        (row : Row F) → IsOffer own all row.view → IsOffer own all (set_placement_metric ms row)
    unfolding set_placement_metric
    set_placement_metric-IsOffer row h = by_test row.has
      where
        by_test :
            (b : Bool)
            → IsOffer own all (
                if b
                then record row.view { placement_metric = row.metric; has_metric = true }
                else row.view)
        by_test true = h
        by_test false = h

    insert_view-IsOffer :
        (v : NodeGroupView F) (views : List (NodeGroupView F))
        → IsOffer own all v
        → All (IsOffer own all) views
        → All (IsOffer own all) (insert_view ms v views)
    unfolding insert_view
    insert_view-IsOffer v [] h hs = (h, tt)
    insert_view-IsOffer v (x ∷ views) h (k, ks) =
        by_test (view_less ms x v) (insert_view-IsOffer v views h ks)
      where
        by_test :
            (b : Bool)
            → All (IsOffer own all) (insert_view ms v views)
            → All (IsOffer own all) (if b then x ∷ insert_view ms v views else v ∷ x ∷ views)
        by_test true rest = (k, rest)
        by_test false rest = (h, (k, ks))

    pub sort_views-IsOffer :
        (views : List (NodeGroupView F))
        → All (IsOffer own all) views
        → All (IsOffer own all) (sort_views ms views)
    unfolding sort_views
    sort_views-IsOffer [] h = tt
    sort_views-IsOffer (v ∷ views) (h, hs) =
        insert_view-IsOffer v (sort_views ms views) h (sort_views-IsOffer views hs)
