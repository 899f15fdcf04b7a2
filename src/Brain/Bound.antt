-- ===== src/Brain/Bound.antt =====
-- internal/agent/consumer/brain/latency.go: the sites within a latency bound.
use federation_autoscaler.Base.{
  String, Bool, true, false, not, ◌&&◌, Option, none, some, List, [], ◌∷◌, any, str_eq,
  if◌then◌else◌,
}
use federation_autoscaler.Base.Int.{ℤ, pos, ltb_ℤ}
use federation_autoscaler.Consumer.Types.{LatencyBound}
use federation_autoscaler.Brain.Types.{Offer, LocatedConsumer}

-- What latency.go uses of float64: `<=`, the conversion of an integer, whether a number is finite,
-- the division by fibreKmPerMs, and HaversineKm.
pub record Distance (F : Type 0) : Type 0 where
  pub at_most : F → F → Bool
  pub of_int : ℤ → F
  pub is_finite : F → Bool
  pub estimate_latency_ms : F → F
  pub haversine_km : F → F → F → F → F

-- EffectiveBound.
unfoldable pub effective_bound : Option LatencyBound → Option LatencyBound → Option LatencyBound
effective_bound policy none = policy
effective_bound policy (some bound) = some bound

-- What one site is found to be: kept or not, and on an estimate or not.
pub record SiteVerdict : Type 0 where
  pub kept : Bool
  pub estimated : Bool

module _ {F : Type 0} (f : Distance F) where
  module _ (consumer : LocatedConsumer F) (measured : String → Option F) (limit : F) where
    abbrev pub on_estimate : Offer F → Option F → Option F → SiteVerdict
    on_estimate o (some lat) (some lon) =
        if consumer.has_location
        then record {
          kept =
              f.at_most
                (f.estimate_latency_ms
                  (f.haversine_km consumer.latitude consumer.longitude lat lon))
                limit;
          estimated = true;
        }
        else record { kept = false; estimated = false }
    on_estimate o _ _ = record { kept = false; estimated = false }

    abbrev pub on_measure : Offer F → Option F → SiteVerdict
    on_measure o none = on_estimate o o.location.latitude o.location.longitude
    on_measure o (some rtt) =
        if not (str_eq o.probe_endpoint "") && f.is_finite rtt
        then record { kept = f.at_most rtt limit; estimated = false }
        else on_estimate o o.location.latitude o.location.longitude

    -- The body of the loop of withinBound.
    unfoldable pub site_verdict : Offer F → SiteVerdict
    site_verdict o = on_measure o (measured o.probe_endpoint)

    abbrev pub sites_kept : List (Offer F) → List (Offer F)
    sites_kept [] = []
    sites_kept (o ∷ offers) =
        let rest = sites_kept offers in if (site_verdict o).kept then o ∷ rest else rest

    abbrev pub sites_estimated : List (Offer F) → List (String × String)
    sites_estimated [] = []
    sites_estimated (o ∷ offers) =
        let rest = sites_estimated offers in
        if (site_verdict o).estimated then (o.provider_id, o.site_id) ∷ rest else rest

  unfoldable pub within_bound :
      List (Offer F)
      → Option LatencyBound
      → LocatedConsumer F
      → (String → Option F)
      → List (Offer F) × List (String × String)
  within_bound offers none consumer measured = (offers, [])
  within_bound offers (some bound) consumer measured =
      let limit = f.of_int bound.max_latency_ms in
      (sites_kept consumer measured limit offers, sites_estimated consumer measured limit offers)

module _ {F : Type 0} where
  abbrev probes_from : List String → List (Offer F) → List String
  probes_from seen [] = []
  probes_from seen (o ∷ offers) =
      let skipped = probes_from seen offers in
      let taken = probes_from (o.probe_endpoint ∷ seen) offers in
      if not (str_eq o.probe_endpoint "") && not (any (λ e. str_eq e o.probe_endpoint) seen)
      then o.probe_endpoint ∷ taken
      else skipped

  unfoldable pub probe_endpoints : List (Offer F) → List String
  probe_endpoints offers = probes_from [] offers

  -- `stillListed`.
  abbrev pub lists_provider : String → List (Offer F) → Bool
  lists_provider provider offers = any (λ o. str_eq o.provider_id provider) offers

  unfoldable pub held_outside_bound : List (Offer F) → List (Offer F) → (String → ℤ) → String → Bool
  held_outside_bound all kept own provider =
      any
        (λ o.
          str_eq o.provider_id provider
          && (not (lists_provider o.provider_id kept) && ltb_ℤ (pos 0) (own o.provider_id)))
        all
