-- ===== src/Ledger/Progress.antt =====
-- That the ledger operations succeed where the server accepts their requests.
use federation_autoscaler.Base.{◌+◌, false, ◌≡◌, arith}
use federation_autoscaler.Api.{
  Reservation, ClusterAdvertisement, is_chunks_released, mark_chunks_released,
}
use federation_autoscaler.Kube.Core.{Client, Run, ok}
use federation_autoscaler.Kube.Retry.{retry}
use federation_autoscaler.Ledger.Arithmetic.{credited}
use federation_autoscaler.Ledger.Capacity.{mark_once}
use federation_autoscaler.Ledger.Release.{credit_once, release_chunks, stamp_chunks_released}
use federation_autoscaler.Ledger.Requests.{commits}

module _ {W : Type 0} (c : Client W) where
  -- Where the provider can be read, the Reservation can be read and is not marked, and the server
  -- accepts both writes, releaseChunks succeeds with exactly one commit to the ledger.
  pub release_chunks_succeeds :
      (resv fresh marked : Reservation) (s : Run W) (cadv written : ClusterAdvertisement)
      (w1 w2 w3 w4 : W)
      → c.get_advertisement resv.spec.provider_cluster_id s.world ≡ (ok cadv, w1)
      → c.update_advertisement_status
          (record cadv { status = credited resv.spec.chunk_count cadv.status })
          w1
        ≡ (ok written, w2)
      → c.get_reservation resv.metadata.name w2 ≡ (ok fresh, w3)
      → is_chunks_released fresh ≡ false
      → c.update_reservation (mark_chunks_released fresh) w3 ≡ (ok marked, w4)
      → ((release_chunks c resv s).0 ≡ ok tt)
        × (commits (release_chunks c resv s).1.log ≡ commits s.log + 1)
  unfolding release_chunks stamp_chunks_released credit_once mark_once retry
  release_chunks_succeeds resv fresh marked s cadv written w1 w2 w3 w4 h1 h2 h3 k h4 = ground arith
