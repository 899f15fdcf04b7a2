-- ===== src/Advertisements/Staleness.antt =====
-- The reconciler of ClusterAdvertisements.
use federation_autoscaler.Base.{
  String, ◌/◌, Bool, true, false, not, ◌&&◌, ◌||◌, Option, none, some, if◌then◌else◌, ◌==◌, suc,
}
use federation_autoscaler.Base.Int.{ℤ, pos, negsuc, neg, ltb_ℤ}
use federation_autoscaler.Api.{Time, ClusterAdvertisement}
use federation_autoscaler.Kube.Core
use federation_autoscaler.Kube.Core.{
  Client, M, Result, ok, err, not_found, pure, throw, attempt, ◌>>=◌, ◌>>◌,
}
use federation_autoscaler.Controller.Config.{Duration, since}

-- 90 seconds.
abbrev default_advertisement_stale_after : Duration
default_advertisement_stale_after = pos 90_000_000_000

unfoldable pub stale_after : Duration → Duration
stale_after setting = if ltb_ℤ (pos 0) setting then setting else default_advertisement_stale_after

-- Go's division of a duration by three, which truncates.
abbrev third : Duration → Duration
third (pos n) = pos (n / 3)
third (negsuc n) = neg (pos (suc n / 3))

-- The status that a pass writes.
unfoldable pub refreshed : Bool → ClusterAdvertisement → ClusterAdvertisement
refreshed stale cadv = record cadv {
  status = record cadv.status {
    observed_generation = cadv.metadata.generation;
    available = not stale;
    available_chunks = if stale then pos 0 else cadv.status.available_chunks;
  };
}

-- Go's `!=` on Booleans and on numbers.
abbrev differ : Bool → Bool → Bool
differ true b = not b
differ false b = b

abbrev is_zero : ℤ → Bool
is_zero (pos n) = n == 0
is_zero (negsuc n) = false

unfoldable pub needs_update : Bool → ClusterAdvertisement → Bool
needs_update stale cadv =
    differ (not stale) cadv.status.available
    || (not (cadv.metadata.generation == cadv.status.observed_generation)
        || (stale && not (is_zero cadv.status.available_chunks)))

module _ {W : Type 0} (c : Client W) (setting : Duration) where
  -- isAdvertisementStale; without a last sighting the clock is not read.
  unfoldable pub is_advertisement_stale : Option Time → M W Bool
  is_advertisement_stale last_seen = elim last_seen [
    | none ↦ pure true
    | some seen ↦ (do now ← Core.now c; pure (ltb_ℤ (stale_after setting) (since now seen)))
  ]

  -- The write, where the pass would change something.
  unfoldable pub settle : ClusterAdvertisement → Bool → M W Duration
  settle cadv stale = do
    let write : M W (Unit {0}) = do
      Core.update_advertisement_status c (refreshed stale cadv)
      pure tt
    if needs_update stale cadv then write else pure tt
    pure (third (stale_after setting))

  unfoldable pub refresh : ClusterAdvertisement → M W Duration
  refresh cadv = do stale ← is_advertisement_stale cadv.status.last_seen; settle cadv stale

  verdict : Result ClusterAdvertisement → M W Duration
  verdict (err not_found) = pure (pos 0)
  verdict (err refused) = throw refused
  verdict (ok cadv) = refresh cadv

  -- Reconcile of the ClusterAdvertisementReconciler.
  unfoldable pub reconcile_advertisement : String → M W Duration
  unfolding verdict
  reconcile_advertisement name = do got ← attempt (Core.get_advertisement c name); verdict got
