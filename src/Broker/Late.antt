-- ===== src/Broker/Late.antt =====
-- internal/broker/api/instructions.go and reservation.go: a release of a Reservation whose chunks were given back before.
use federation_autoscaler.Base.{suc, String, true, ◌≡◌, some, arith, ◌∷◌, eq_refl}
use federation_autoscaler.Base.Int.{pos, neg}
use federation_autoscaler.Api.{Reservation, ClusterAdvertisement, peered, is_chunks_released}
use federation_autoscaler.Kube.Core.{
  Client, Run, Event, Result, ok, err, wrote_reservation_status, read_reservation,
}
use federation_autoscaler.Ledger.Arithmetic.{adjusted}
use federation_autoscaler.Ledger.Capacity.{adjust_reserved_chunks}
use federation_autoscaler.Ledger.Requests.{commits}
use federation_autoscaler.Kube.Core
use federation_autoscaler.Ledger.Adjusting.{
  adjust_reserved_chunks-commits, adjust_reserved_chunks-ok, set_chunks_released-commits,
}
use federation_autoscaler.Broker.Server.{Server}
use federation_autoscaler.Broker.Reservations.{
  handle_reservation_release, release_of, release_is_noop, wind_down, winding_down, credit_release,
}

module _ {W : Type 0} (c : Client W) (server : Server W) where
  wind_down_twice :
      (resv fresh : Reservation) (s : Run W) (cadv written : ClusterAdvertisement) (w1 w2 w3 : W)
      → c.update_reservation_status (winding_down c server resv) s.world ≡ (ok fresh, w1)
      → c.get_advertisement resv.spec.provider_cluster_id w1 ≡ (ok cadv, w2)
      → c.update_advertisement_status
          (record cadv { status = adjusted (neg resv.spec.chunk_count) cadv.status })
          w2
        ≡ (ok written, w3)
      → commits (wind_down c server resv s).1.log ≡ suc (commits s.log)
  unfolding wind_down credit_release
  wind_down_twice resv fresh s cadv written w1 w2 w3 h1 h2 h3 =
      let provider = resv.spec.provider_cluster_id in
      let delta = neg resv.spec.chunk_count in
      let t = (Core.update_reservation_status c (winding_down c server resv) s).1 in
      let u = (adjust_reserved_chunks c provider delta t).1 in
      ground (
        arith,
        h1,
        adjust_reserved_chunks-commits c provider delta t,
        adjust_reserved_chunks-ok c provider delta t cadv written w2 w3,
        set_chunks_released-commits c resv.metadata.name u,
        h2,
        h3,
      )

  -- The release of a Reservation that is read Peered with the chunks-released marker set credits
  -- its chunks again, where the server accepts the phase and the credit.
  pub handle_reservation_release_twice :
      (name caller : String) (resv fresh : Reservation) (s : Run W)
      (cadv written : ClusterAdvertisement) (w0 w1 w2 w3 : W)
      → c.get_reservation name s.world ≡ (ok resv, w0)
      → resv.status.phase ≡ peered
      → is_chunks_released resv ≡ true
      → caller ≡ resv.spec.consumer_cluster_id
      → c.update_reservation_status (winding_down c server resv) w0 ≡ (ok fresh, w1)
      → c.get_advertisement resv.spec.provider_cluster_id w1 ≡ (ok cadv, w2)
      → c.update_advertisement_status
          (record cadv { status = adjusted (neg resv.spec.chunk_count) cadv.status })
          w2
        ≡ (ok written, w3)
      → commits (handle_reservation_release c server caller name (some (pos 0)) s).1.log
        ≡ suc (commits s.log)
  unfolding handle_reservation_release release_of release_is_noop
  handle_reservation_release_twice name caller resv fresh s cadv written w0 w1 w2 w3 h0 e m k h1 h2
        h3 =
      let t : Run W = record { world = w0; log = read_reservation name (ok resv) ∷ s.log } in
      let own = eq_refl resv.spec.consumer_cluster_id in
      ground (arith, h0, e, k, own, wind_down_twice resv fresh t cadv written w1 w2 w3 h1 h2 h3)
