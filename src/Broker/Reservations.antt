-- ===== src/Broker/Reservations.antt =====
-- internal/broker/api/reservation.go: creating, reading and releasing a Reservation.
use federation_autoscaler.Base.{
  ℕ, String, Bool, true, false, not, ◌||◌, ◌&&◌, Option, none, some, [], str_eq, if◌then◌else◌, ◌⊎◌,
  inl, inr,
}
use federation_autoscaler.Base.Int.{ℤ, pos, neg, ltb_ℤ}
use federation_autoscaler.Api.{
  Reservation, ReservationPhase, ClusterAdvertisement, unset, pending, unpeering, released, expired,
  failed,
}
use federation_autoscaler.Kube.Core
use federation_autoscaler.Kube.Core.{
  Client, M, Result, ok, err, not_found, pure, attempt, ◌>>=◌, ◌>>◌,
}
use federation_autoscaler.Ledger.Capacity.{
  adjust_reserved_chunks, reserve_chunks, set_chunks_released,
}
use federation_autoscaler.Controller.Config.{later}
use federation_autoscaler.Broker.Server.{
  Answer, answered, rejected, ReservationRequest, Server, validate_reservation_request,
  same_reservation_request,
}

-- The Reservation that a request asks for; the API server fills in the metadata.
unfoldable pub build_reservation :
    String → ReservationRequest → String → String → String → Reservation
build_reservation name req consumer consumer_liqo provider_liqo = record {
  metadata = record {
    name = name;
    generation = 0;
    creation_timestamp = 0;
    deleting = false;
    finalizer = false;
    annotations = [];
  };
  spec = record {
    consumer_cluster_id = consumer;
    consumer_liqo_cluster_id = consumer_liqo;
    provider_cluster_id = req.provider_cluster_id;
    provider_liqo_cluster_id = provider_liqo;
    chunk_count = req.chunk_count;
    chunk_type = req.chunk_type;
    namespaces = req.namespaces;
  };
  status = record {
    observed_generation = 0;
    phase = unset;
    created_at = none;
    expires_at = none;
    virtual_node_names = [];
    terminated_at = none;
  };
}

-- Phases in which a release is a no-op.
unfoldable pub release_is_noop : ReservationPhase → Bool
release_is_noop unpeering = true
release_is_noop released = true
release_is_noop expired = true
release_is_noop failed = true
release_is_noop _ = false

unfoldable pub is_reservation_participant : String → Reservation → Bool
is_reservation_participant cluster resv =
    str_eq cluster resv.spec.consumer_cluster_id || str_eq cluster resv.spec.provider_cluster_id

module _ {W : Type 0} (c : Client W) (server : Server W) where
  -- The advertisement, or the status of the error.
  unfoldable pub find_advertisement : String → String → M W (ℕ ⊎ ClusterAdvertisement)
  find_advertisement provider chunk_type = do
    got ← attempt (Core.get_advertisement c provider)
    elim got [
      | err e ↦ elim e [ not_found ↦ pure (inl 404) | _ ↦ pure (inl 500) ]
      | ok cadv ↦ pure (
          if not (str_eq cadv.spec.cluster_type chunk_type)
          then inl 404
          else if cadv.status.available
          then inr cadv
          else inl 503)
    ]

  -- initReservationStatus: what the server answered, or the local copy if the write failed.
  unfoldable pub init_reservation_status : Reservation → M W Reservation
  init_reservation_status resv = do
    now ← Core.now c
    let stamped : Reservation = record resv {
      status = record {
        observed_generation = resv.metadata.generation;
        phase = pending;
        created_at = some now;
        expires_at = some (later now server.reservation_timeout);
        virtual_node_names = [];
        terminated_at = none;
      };
    }
    written ← attempt (Core.update_reservation_status c stamped)
    elim written [ ok stored ↦ pure stored | err _ ↦ pure stamped ]

  -- From the reserved chunks on: a failed Create gives them back.
  unfoldable pub persist : Reservation → String → M W Answer
  persist resv provider = do
    created ← attempt (Core.create_reservation c resv)
    elim created [
      | ok stored ↦ (do initial ← init_reservation_status stored; pure (answered 201 initial))
      | err _ ↦ (do
        attempt (adjust_reserved_chunks c provider (neg resv.spec.chunk_count))
        pure (rejected 500))
    ]

  -- The capacity gate.
  unfoldable pub admit : Reservation → String → M W Answer
  admit resv provider = do
    outcome ← attempt (reserve_chunks c provider resv.spec.chunk_count)
    elim outcome [
      | err _ ↦ pure (rejected 500)
      | ok (done, available) ↦ if done then persist resv provider else pure (rejected 409)
    ]

  -- The idempotency key: a Reservation of this name answers for the request that made it.
  unfoldable pub admit_once :
      ReservationRequest → String → String → ClusterAdvertisement → String → M W Answer
  admit_once req consumer consumer_liqo cadv name = do
    existing ← attempt (Core.get_reservation c name)
    elim existing [
      | ok resv ↦ pure (
          if same_reservation_request resv.spec req consumer consumer_liqo cadv.spec.liqo_cluster_id
          then answered 200 resv
          else rejected 409)
      | err e ↦ elim e [
        | not_found ↦
            admit (build_reservation name req consumer consumer_liqo cadv.spec.liqo_cluster_id)
              cadv.metadata.name
        | _ ↦ pure (rejected 500)
      ]
    ]

  -- The header's name if it is valid, a new one if there is no header.
  unfoldable pub reservation_name : String → M W (Option String)
  reservation_name header s =
      if str_eq header ""
      then (
        ok (some (server.new_reservation_name s.world).0),
        record s { world = (server.new_reservation_name s.world).1 },
      )
      else (ok (if server.is_dns1123_subdomain header then some header else none), s)

  unfoldable pub create_on :
      ReservationRequest → String → String → String → ClusterAdvertisement → M W Answer
  create_on req consumer header consumer_liqo cadv = do
    name ← reservation_name header
    elim name [ none ↦ pure (rejected 400) | some n ↦ admit_once req consumer consumer_liqo cadv n ]

  unfoldable pub create_for : ReservationRequest → String → String → String → M W Answer
  create_for req consumer header consumer_liqo = do
    found ← find_advertisement req.provider_cluster_id req.chunk_type
    elim found [
      | inl status ↦ pure (rejected status)
      | inr cadv ↦ create_on req consumer header consumer_liqo cadv
    ]

  -- handleReservationCreate, for the consumer and the header X-Reservation-Id.
  unfoldable pub handle_reservation_create : ReservationRequest → String → String → M W Answer
  handle_reservation_create req consumer header =
      if not (validate_reservation_request req)
      then pure (rejected 400)
      else elim (server.consumer_liqo_id consumer) [
        | none ↦ pure (rejected 412)
        | some consumer_liqo ↦ create_for req consumer header consumer_liqo
      ]

  -- handleReservationGet.
  unfoldable pub handle_reservation_get : String → String → M W Answer
  handle_reservation_get caller name = if str_eq name "" then pure (rejected 400) else (do
    got ← attempt (Core.get_reservation c name)
    elim got [
      | err e ↦ elim e [ not_found ↦ pure (rejected 404) | _ ↦ pure (rejected 500) ]
      | ok resv ↦
          pure (if is_reservation_participant caller resv then answered 200 resv else rejected 403)
    ])

  -- The Reservation as it is written on release.
  abbrev pub winding_down : Reservation → Reservation
  winding_down resv = record resv { status = record resv.status { phase = unpeering } }

  -- The credit of a release, and the marker if the credit was accepted. Neither changes the answer.
  unfoldable pub credit_release : Reservation → M W (Unit {0})
  credit_release resv = do
    credited ←
        attempt (adjust_reserved_chunks c resv.spec.provider_cluster_id (neg resv.spec.chunk_count))
    elim credited [
      | err _ ↦ pure tt
      | ok _ ↦ (do attempt (set_chunks_released c resv.metadata.name); pure tt)
    ]

  unfoldable pub wind_down : Reservation → M W Answer
  wind_down resv = do
    written ← attempt (Core.update_reservation_status c (winding_down resv))
    elim written [
      | err _ ↦ pure (rejected 500)
      | ok _ ↦ (do credit_release resv; pure (answered 202 (winding_down resv)))
    ]

  -- handleReservationRelease; `chunks` is the parsed query parameter.
  unfoldable pub release_of : String → Option ℤ → Reservation → M W Answer
  release_of caller chunks resv =
      if not (str_eq caller resv.spec.consumer_cluster_id)
      then pure (rejected 403)
      else elim chunks [
        | none ↦ pure (rejected 400)
        | some n ↦
            if (ltb_ℤ n (pos 0) || ltb_ℤ (pos 0) n)
              && (ltb_ℤ n resv.spec.chunk_count || ltb_ℤ resv.spec.chunk_count n)
            then pure (rejected 501)
            else if release_is_noop resv.status.phase
            then pure (answered 202 resv)
            else wind_down resv
      ]

  unfoldable pub handle_reservation_release : String → String → Option ℤ → M W Answer
  handle_reservation_release caller name chunks = do
    got ← attempt (Core.get_reservation c name)
    elim got [
      | err e ↦ elim e [ not_found ↦ pure (rejected 404) | _ ↦ pure (rejected 500) ]
      | ok resv ↦ release_of caller chunks resv
    ]
