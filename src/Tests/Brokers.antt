-- ===== src/Tests/Brokers.antt =====
-- The handlers of the Broker's API on the small server.
use federation_autoscaler.Base.{◌≡◌, refl, true, false, none, some, [], ◌∷◌}
use federation_autoscaler.Base.Int.{pos, negsuc}
use federation_autoscaler.Api.{
  Reservation, ClusterAdvertisement, unpeering, released, peered, generating_kubeconfig,
  is_chunks_released, annotation,
}
use federation_autoscaler.Ledger.Requests.{commits}
use federation_autoscaler.Ledger.Arithmetic.{adjusted}
use federation_autoscaler.Broker.Reservations.{handle_reservation_release, winding_down}
use federation_autoscaler.Broker.Applied.{IsApplied, apply_reservation_result-IsApplied}
use federation_autoscaler.Broker.Results.{
  apply_reservation_result, succeeded, apply_provider_result, Payload,
}
use federation_autoscaler.Broker.Replay.{Credited, handle_reservation_release-Credited}
use federation_autoscaler.Broker.Staging.{StagedFirst, secret_of, apply_provider_result-StagedFirst}
use federation_autoscaler.Broker.Late.{handle_reservation_release_twice}
use federation_autoscaler.Tests.Server.{
  World, small_client, server, resv_in, advert, world_of, start, order_for_b, order_for_a,
}

abbrev w : World
w = world_of (resv_in generating_kubeconfig []) false true

handle_reservation_release-Credited_example :
    Credited
      (handle_reservation_release small_client server "a" "res-1" (some (pos 0)) (start w)).0
      0
      (commits
        (handle_reservation_release small_client server "a" "res-1" (some (pos 0)) (start w)).1.log)
handle_reservation_release-Credited_example =
    handle_reservation_release-Credited small_client server "a" "res-1" (some (pos 0)) (start w)

abbrev payload : Payload
payload = record { kubeconfig = "config"; virtual_node_names = [] }

apply_provider_result-StagedFirst_example :
    StagedFirst
      (secret_of order_for_b)
      (apply_provider_result small_client order_for_b
        (succeeded (some payload))
        "b"
        (start w)).1.log
apply_provider_result-StagedFirst_example =
    apply_provider_result-StagedFirst small_client order_for_b (succeeded (some payload)) "b"
      (start w) tt

-- The Reservation of the Peer was released in the meantime.
abbrev over : World
over = world_of (resv_in released []) true true

apply_reservation_result-IsApplied_example :
    IsApplied "a" order_for_a
      (succeeded none)
      []
      (apply_reservation_result small_client order_for_a (succeeded none) "a" (start over)).0
      (apply_reservation_result small_client order_for_a (succeeded none) "a" (start over)).1.log
apply_reservation_result-IsApplied_example =
    apply_reservation_result-IsApplied small_client order_for_a (succeeded none) "a" (start over)

abbrev winding : World
winding = world_of (resv_in unpeering []) true true

abbrev marked : Reservation
marked = resv_in peered (("federation-autoscaler.io/chunks-released", "true") ∷ [])

abbrev before : World
before = world_of marked true true

abbrev between : World
between = record before { reservation = winding_down small_client server marked }

abbrev credited_advert : ClusterAdvertisement
credited_advert = record advert { status = adjusted (negsuc 0) advert.status }

handle_reservation_release_twice_example :
    commits
      (handle_reservation_release small_client server "a" "res-1"
        (some (pos 0))
        (start before)).1.log
    ≡ 1
unfolding is_chunks_released annotation
handle_reservation_release_twice_example =
    handle_reservation_release_twice small_client server "res-1" "a" marked
      (winding_down small_client server marked) (start before) advert credited_advert before between
      between (record between { advertisement = credited_advert }) refl refl refl refl refl refl
      refl
