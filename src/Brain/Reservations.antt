-- ===== src/Brain/Reservations.antt =====
-- internal/agent/consumer/brain/reservations.go, and the list that it reads: handleReservationList of
-- internal/broker/api/reservation.go.
use federation_autoscaler.Base.{
  String, Bool, true, false, ◌&&◌, List, [], ◌∷◌, str_eq, if◌then◌else◌,
}
use federation_autoscaler.Base.Int.{ℤ, pos, leb_ℤ, add32}
use federation_autoscaler.Api.{Reservation}
use federation_autoscaler.Placement.Masking.{string_lt}
use federation_autoscaler.Placement.Build.{reservation_holds_chunk, reservation_in_flight}
use federation_autoscaler.Brain.Types.{ReservationResponse}

-- One reservation is one chunk at least.
abbrev pub chunks_of : ReservationResponse → ℤ
chunks_of r = if leb_ℤ r.chunk_count (pos 0) then pos 1 else r.chunk_count

-- `own[provider]`, over the list from its end: the sum wraps around in any order.
unfoldable pub own_of : List ReservationResponse → String → ℤ
own_of [] provider = pos 0
own_of (r ∷ list) provider =
    let rest = own_of list provider in
    if str_eq r.provider_cluster_id ""
    then rest
    else if reservation_holds_chunk r.status && str_eq r.provider_cluster_id provider
    then add32 rest (chunks_of r)
    else rest

-- `inFlight[provider]`.
unfoldable pub in_flight_of : List ReservationResponse → String → Bool
in_flight_of [] provider = false
in_flight_of (r ∷ list) provider =
    let rest = in_flight_of list provider in
    if str_eq r.provider_cluster_id ""
    then rest
    else if reservation_in_flight r.status && str_eq r.provider_cluster_id provider
    then true
    else rest

-- FromReservations.
unfoldable pub from_reservations : List ReservationResponse → (String → ℤ) × (String → Bool)
from_reservations list = (own_of list, in_flight_of list)

-- reservationResponseFromCR.
unfoldable pub reservation_response_from_cr : Reservation → ReservationResponse
reservation_response_from_cr r = record {
  reservation_id = r.metadata.name;
  status = r.status.phase;
  provider_cluster_id = r.spec.provider_cluster_id;
  chunk_count = r.spec.chunk_count;
}

-- sort.Slice by the id, which is the object's name and so differs between any two.
unfoldable pub insert_by_id :
    ReservationResponse → List ReservationResponse → List ReservationResponse
insert_by_id r [] = r ∷ []
insert_by_id r (x ∷ list) =
    let rest = insert_by_id r list in
    if string_lt x.reservation_id r.reservation_id then x ∷ rest else r ∷ x ∷ list

unfoldable pub sort_by_id : List ReservationResponse → List ReservationResponse
sort_by_id [] = []
sort_by_id (r ∷ list) = insert_by_id r (sort_by_id list)

abbrev pub held_by : String → List Reservation → List ReservationResponse
held_by caller [] = []
held_by caller (r ∷ list) =
    let rest = held_by caller list in
    if str_eq r.spec.consumer_cluster_id caller then reservation_response_from_cr r ∷ rest else rest

-- What handleReservationList answers a caller, from the list that it reads.
unfoldable pub reservation_list : String → List Reservation → List ReservationResponse
reservation_list caller list = sort_by_id (held_by caller list)
