-- ===== src/Brain/Pooled.antt =====
-- The advertisements that the offers of a provider are pooled into, and lemmas on all members of a list.
use federation_autoscaler.Base.{
  String, Bool, true, false, All, List, [], ◌∷◌, ◌++◌, map, ◌≡◌, refl, str_eq, eq_iff,
  if◌then◌else◌,
}
use federation_autoscaler.Base.Int.{ℤ}
use federation_autoscaler.Api.{ClusterAdvertisement}
use federation_autoscaler.Consumer.Types.{Quantity, ResourceList}
use federation_autoscaler.Chunks.{ChunkResult}
use federation_autoscaler.Placement.Masking.{string_lt}
use federation_autoscaler.Brain.Types.{Offer}
use federation_autoscaler.Brain.Groups.{
  insert_site, sites_of, provider_advertisement, pooled_into, advertise_all,
}
use mathlib.Core.List.{Mem, not-mem-nil, forall_mem-cons}

module _ {A : Type 0} (P : A → Type 0) where
  pub All-map :
      {B : Type 0} (g : B → A) (Q : B → Type 0) (xs : List B)
      → ((x : B) → Q x → P (g x))
      → All Q xs
      → All P (map g xs)
  All-map g Q [] k h = tt
  All-map g Q (x ∷ xs) k (h, hs) = (k x h, All-map g Q xs k hs)

  pub All-append : (xs ys : List A) → All P xs → All P ys → All P (xs ++ ys)
  All-append [] ys h k = k
  All-append (x ∷ xs) ys (h, hs) k = (h, All-append xs ys hs k)

  pub if-All :
      (b : Bool) (x : A) (xs : List A)
      → (b ≡ true → P x)
      → All P xs
      → All P (if b then x ∷ xs else xs)
  if-All true x xs h hs = (h refl, hs)
  if-All false x xs h hs = hs

  pub All-Mem : ((x : A) → IsProp (P x)) → (x : A) (xs : List A) → All P xs → Mem x xs → P x
  All-Mem q x [] h m = absurd (not-mem-nil m)
  All-Mem q x (y ∷ ys) (h, hs) m = (forall_mem-cons q).1 (h, λ z n. All-Mem q z ys hs n) x m

module _ {F : Type 0} (add : Quantity → Quantity → Quantity)
    (sizer : ResourceList → List ChunkResult) where
  insert_site-All :
      (P : Offer F → Type 0) (o : Offer F) (sites : List (Offer F))
      → P o
      → All P sites
      → All P (insert_site add sizer o sites)
  unfolding insert_site
  insert_site-All P o [] h hs = (h, tt)
  insert_site-All P o (x ∷ sites) h (k, ks) =
      by_order (string_lt x.site_id o.site_id) (insert_site-All P o sites h ks)
    where
      by_order :
          (b : Bool)
          → All P (insert_site add sizer o sites)
          → All P (if b then x ∷ insert_site add sizer o sites else o ∷ x ∷ sites)
      by_order true rest = (k, rest)
      by_order false rest = (h, (k, ks))

  -- An offer of the provider.
  abbrev Offers : (Offer F → Type 0) → String → Type 0
  Offers P provider = (o : Offer F) × P o × (o.provider_id ≡ provider)

  sites_of-All :
      (P : Offer F → Type 0) (p : String) (offers : List (Offer F))
      → All P offers
      → All (λ o. P o × (o.provider_id ≡ p)) (sites_of add sizer p offers)
  sites_of-All P p [] h = tt
  sites_of-All P p (o ∷ offers) (h, hs) =
      by_name (str_eq o.provider_id p) (λ e. (eq_iff o.provider_id p).0 e)
        (sites_of-All P p offers hs)
    where
      by_name :
          (b : Bool)
          → (b ≡ true → o.provider_id ≡ p)
          → All (λ x. P x × (x.provider_id ≡ p)) (sites_of add sizer p offers)
          → All
              (λ x. P x × (x.provider_id ≡ p))
              (if b
                then insert_site add sizer o (sites_of add sizer p offers)
                else sites_of add sizer p offers)
      by_name true e rest =
          insert_site-All (λ x. P x × (x.provider_id ≡ p)) o (sites_of add sizer p offers)
            (h, e refl) rest
      by_name false e rest = rest

  -- With the consumer's own chunks, and of a provider that has an offer.
  abbrev pub IsAdvertised : (Offer F → Type 0) → (String → ℤ) → ClusterAdvertisement → Type 0
  IsAdvertised P own a =
      (a.status.reserved_chunks ≡ own a.spec.cluster_id) × Offers P a.spec.cluster_id

  pub advertise_all-IsAdvertised :
      (P : Offer F → Type 0) (own : String → ℤ) (offers : List (Offer F)) (providers : List String)
      → All P offers
      → All (IsAdvertised P own) (advertise_all add sizer offers own providers)
  unfolding provider_advertisement
  advertise_all-IsAdvertised P own offers [] h = tt
  advertise_all-IsAdvertised P own offers (p ∷ providers) h =
      by_sites (sites_of add sizer p offers) (sites_of-All P p offers h)
        (advertise_all-IsAdvertised P own offers providers h)
    where
      by_sites :
          (sites : List (Offer F))
          → All (λ o. P o × (o.provider_id ≡ p)) sites
          → All (IsAdvertised P own) (advertise_all add sizer offers own providers)
          → All
              (IsAdvertised P own)
              (pooled_into add sizer p (own p) sites (advertise_all add sizer offers own providers))
      by_sites [] k rest = rest
      by_sites (site ∷ sites) (k, ks) rest = ((refl, (site, k.0, k.1)), rest)
