-- ===== src/Ledger/Release.antt =====
-- internal/controller/broker/reservation_controller.go: releaseChunks and stampChunksReleased.
use federation_autoscaler.Base.{String, Option, some}
use federation_autoscaler.Api.{Reservation, ClusterAdvertisement}
use federation_autoscaler.Kube.Core
use federation_autoscaler.Kube.Core.{
  Client, M, Result, ok, err, not_found, pure, throw, attempt, ◌>>=◌, ◌>>◌,
}
use federation_autoscaler.Kube.Retry.{retry, unless_conflict}
use federation_autoscaler.Ledger.Arithmetic.{credited}
use federation_autoscaler.Ledger.Capacity.{mark_once}

module _ {W : Type 0} (c : Client W) where
  -- The same attempt as in the API server's markChunksReleased.
  unfoldable pub stamp_chunks_released : String → M W (Unit {0})
  stamp_chunks_released name = retry 3 (mark_once c name)

  -- A provider that is gone has nothing to be credited.
  credit : Reservation → Result ClusterAdvertisement → M W (Option (Unit {0}))
  credit resv (err not_found) = pure (some tt)
  credit resv (err refused) = throw refused
  credit resv (ok cadv) = unless_conflict (do
    Core.update_advertisement_status c
        (record cadv { status = credited resv.spec.chunk_count cadv.status })
    pure tt)

  unfoldable pub credit_once : Reservation → M W (Option (Unit {0}))
  unfolding credit
  credit_once resv = do
    got ← attempt (Core.get_advertisement c resv.spec.provider_cluster_id)
    credit resv got

  unfoldable pub release_chunks : Reservation → M W (Unit {0})
  release_chunks resv = do retry 3 (credit_once resv); stamp_chunks_released resv.metadata.name
