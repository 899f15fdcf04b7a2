-- ===== src/Tests/Deliveries.antt =====
-- Advertisements, deliveries and the concurrent ledger on the small server.
use federation_autoscaler.Kube.Core.{Client, ok, wrote_reservation, read_reservation}
use federation_autoscaler.Kube.Retry.{retry}
use federation_autoscaler.Ledger.Capacity.{reserve_once, reserve_chunks, mark_once}
use federation_autoscaler.Ledger.Release.{release_chunks, credit_once, stamp_chunks_released}
use federation_autoscaler.Ledger.Concurrent.Steps.{reserve_chunks-Step, release_chunks-Step}
use federation_autoscaler.Base.{ℕ, ◌∷◌, true, false, refl, none, some, [], arith}
use federation_autoscaler.Base.Int.{pos}
use federation_autoscaler.Api.{
  is_chunks_released, mark_chunks_released, ClusterAdvertisement, Reservation, ProviderInstruction,
  ReservationInstruction, failed,
}
use federation_autoscaler.Chunks.{size}
use federation_autoscaler.Kube.Bind.{Post}
use federation_autoscaler.Broker.Delivery.{collect_instructions_for_caller}
use federation_autoscaler.Broker.Addressed.{
  IsCollected, collect_instructions_for_caller-IsCollected,
}
use federation_autoscaler.Advertisements.Publishing.{
  AdvertisementRequest, handle_advertisement_upsert,
}
use federation_autoscaler.Advertisements.Accepting.{
  Published, handle_advertisement_upsert-Published,
}
use federation_autoscaler.Ledger.Arithmetic.{reserved, credited}
use federation_autoscaler.Ledger.Concurrent.{
  System, update, commit, charged, returned, Step, read, reserve, credit, refuse, IsStart, Reach,
}
use federation_autoscaler.Ledger.Concurrent.Invariant.{Inv, Reach-Inv}
use federation_autoscaler.Tests.Server.{
  World, small_client, resv_in, advert, world_of, start, order_for_a, order_for_b,
}
use federation_autoscaler.Tests.Sites.{new_quantity, two_cores}

abbrev w : World
w = world_of (resv_in failed []) true true

abbrev done_for_b : ProviderInstruction
done_for_b = record order_for_b { status = record order_for_b.status { enforced = true } }

abbrev peer_for_b : ReservationInstruction
peer_for_b = record order_for_a { spec = record order_for_a.spec { target_cluster_id = "b" } }

-- The server lists two instructions of either kind, one of each open for "b".
abbrev busy_client : Client World
busy_client = record small_client {
  list_provider_instructions = λ x. (ok (done_for_b ∷ order_for_b ∷ []), x);
  list_reservation_instructions = λ x. (ok (order_for_a ∷ peer_for_b ∷ []), x);
}

collect_instructions_for_caller-IsCollected_example :
    Post
      (IsCollected busy_client "b" (start w))
      (collect_instructions_for_caller busy_client "b" (start w)).0
collect_instructions_for_caller-IsCollected_example =
    collect_instructions_for_caller-IsCollected busy_client "b" (start w)

abbrev request : AdvertisementRequest
request = record {
  cluster_id = "b";
  liqo_cluster_id = "liqo-b";
  resources = two_cores;
  negative_carbon = false;
}

handle_advertisement_upsert-Published_example :
    Published busy_client
      (size new_quantity)
      "b"
      (start w)
      (handle_advertisement_upsert busy_client (size new_quantity) "b" request (start w)).1.log
      (handle_advertisement_upsert busy_client (size new_quantity) "b" request (start w)).0
handle_advertisement_upsert-Published_example =
    handle_advertisement_upsert-Published busy_client (size new_quantity) "b" request (start w)

-- Version 7 of four chunks of which one is charged, read by nobody.
abbrev quiet : System
quiet = record { stored = advert; version = 7; entries = charged 1 ∷ []; seen = λ i. none }

quiet-IsStart : IsStart quiet
quiet-IsStart = record {
  balanced = record {
    total_in_range = omega arith;
    reserved_in_range = omega arith;
    available_exact = refl;
  };
  accounted = refl;
  unread = λ i. refl;
}

abbrev seen_by : ℕ → System → System
seen_by i s = record s { seen = update s.seen i (some (s.version, s.stored)) }

abbrev both_read : System
both_read = seen_by 1 (seen_by 0 quiet)

abbrev two_taken : ClusterAdvertisement
two_taken = record advert { status = reserved (pos 2) advert.status }

-- Two processes read, and the first reserves two chunks.
abbrev raced : System
raced = commit two_taken (charged 2 ∷ both_read.entries) both_read

reserves : Step both_read raced
reserves = reserve 0 2 advert two_taken refl (omega arith) (omega arith, refl)

-- The write of the second is refused.
refused : Step raced raced
refused = refuse 1 7 advert refl (λ e. omega arith)

-- A third process reads and credits five chunks, more than are charged.
abbrev five : Reservation
five = record (resv_in failed []) { spec = record (resv_in failed []).spec { chunk_count = pos 5 } }

abbrev none_taken : ClusterAdvertisement
none_taken = record two_taken { status = credited (pos 5) two_taken.status }

abbrev third_read : System
third_read = seen_by 2 raced

abbrev settled : System
settled = commit none_taken (returned 5 ∷ third_read.entries) third_read

credits : Step third_read settled
credits = credit 2 5 five two_taken none_taken refl (omega arith) refl refl

reaches : Reach quiet settled
reaches =
    Reach.later
      (Reach.later
        (Reach.later
          (Reach.later (Reach.later (Reach.later Reach.start (read 0)) (read 1)) reserves) refused)
        (read 2))
      credits

Reach-Inv_example : Inv settled
Reach-Inv_example = Reach-Inv quiet-IsStart reaches

reserve_chunks-Step_example : Step both_read raced
unfolding reserve_chunks reserve_once retry
reserve_chunks-Step_example =
    reserve_chunks-Step small_client both_read 0 2 advert two_taken "b" w (omega arith) refl
      ([], "b", [], refl)

abbrev later_world : World
later_world = record w { reservation = five; advertisement = two_taken }

release_chunks-Step_example : Step third_read settled
unfolding release_chunks credit_once stamp_chunks_released mark_once retry is_chunks_released
    mark_chunks_released
release_chunks-Step_example =
    release_chunks-Step small_client third_read 2 5 two_taken none_taken five later_world
      (omega arith) refl refl
      (
        wrote_reservation true (mark_chunks_released five)
            ∷ read_reservation "res-1" (ok five)
            ∷ [],
        "b",
        [],
        refl,
      )
