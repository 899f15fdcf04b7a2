-- ===== src/Tests/Brains.antt =====
-- Local decisions on two small offers.
use federation_autoscaler.Base.{
  ℕ, String, true, false, ◌≡◌, refl, none, some, List, [], ◌∷◌, All, arith, leb, str_eq,
  if◌then◌else◌,
}
use federation_autoscaler.Base.Int.{pos, pos_part}
use federation_autoscaler.Api.{Reservation, peering}
use federation_autoscaler.Consumer.Types.{Quantity, price}
use federation_autoscaler.Placement.Build.{own_chunks, in_flight_on}
use federation_autoscaler.Chunks.{size}
use federation_autoscaler.Brain.Types.{Offer, Input}
use federation_autoscaler.Brain.Reservations.{from_reservations, reservation_list}
use federation_autoscaler.Brain.Full.{
  Step, attempted, decided, snapshot, after_steps, is_recent, last_refusal, snapshot_lem,
}
use federation_autoscaler.Brain.Derived.{from_reservations_lem}
use federation_autoscaler.Brain.Bound.{Distance}
use federation_autoscaler.Brain.Groups.{node_groups}
use federation_autoscaler.Brain.Bounded.{is_bounded, node_groups-bounded}
use federation_autoscaler.Tests.Server.{resv_in}
use federation_autoscaler.Tests.Sites.{new_quantity, two_cores, metrics}

abbrev resvs : List Reservation
resvs = resv_in peering [] ∷ []

from_reservations_lem_example :
    ((from_reservations (reservation_list "a" resvs)).0 "b" ≡ own_chunks "a" "b" resvs)
    × ((from_reservations (reservation_list "a" resvs)).1 "b" ≡ in_flight_on "a" resvs "b")
from_reservations_lem_example = from_reservations_lem "a" "b" refl resvs

-- Refused at 1, decided at 2, refused elsewhere at 3.
abbrev steps : List Step
steps = attempted 3 "d" true ∷ decided 2 ∷ attempted 1 "b" true ∷ []

snapshot_lem_example : (snapshot 9 (after_steps steps)).0 "b" ≡ is_recent 9 (last_refusal "b" steps)
snapshot_lem_example = snapshot_lem "b" 9 steps (omega arith, (omega arith, (omega arith, tt)))

abbrev offer_of : String → Offer ℕ
offer_of provider = record {
  provider_id = provider;
  liqo_cluster_id = "liqo";
  site_id = "default";
  location = record { latitude = none; longitude = none };
  available = two_cores;
  probe_endpoint = provider;
}

-- Both measured; `d` is out of the bound, and the consumer holds a chunk there.
abbrev input : Input ℕ
input = record {
  offers = offer_of "b" ∷ offer_of "d" ∷ [];
  own_reserved = λ provider. pos 1;
  in_flight = λ provider. false;
  consumer = record { placement = price; latitude = 0; longitude = 0; has_location = false };
  latency_bound = some (record { max_latency_ms = pos 20 });
  measured_latency_ms = λ endpoint. some (if str_eq endpoint "b" then 5 else 30);
  full = λ provider. false;
}

abbrev distance : Distance ℕ
distance = record {
  at_most = leb;
  of_int = pos_part;
  is_finite = λ x. true;
  estimate_latency_ms = λ km. km;
  haversine_km = λ a b c d. 0;
}

abbrev first_quantity : Quantity → Quantity → Quantity
first_quantity p q = p

node_groups-bounded_example :
    All
      (λ v. is_bounded distance input v ≡ true)
      (node_groups first_quantity (size new_quantity) metrics distance input).node_groups
node_groups-bounded_example =
    node_groups-bounded distance input first_quantity (size new_quantity) metrics
