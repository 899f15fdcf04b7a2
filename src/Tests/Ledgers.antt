-- ===== src/Tests/Ledgers.antt =====
-- The chunk ledger at concrete counters: four chunks, of which one is reserved.
use federation_autoscaler.Base.{◌≤◌, ◌≡◌, refl, arith, [], true, false}
use federation_autoscaler.Base.Int.{pos, ◌+ℤ◌, ◌≤ℤ◌}
use federation_autoscaler.Api.{
  AdvertisementStatus, is_chunks_released, annotation, mark_chunks_released, Reservation, failed,
  ClusterAdvertisement,
}
use federation_autoscaler.Kube.Core.{ok, other, err}
use federation_autoscaler.Ledger.Arithmetic.{
  IsBalanced, reserved, credited, reserved-IsBalanced, credited-reserved,
}
use federation_autoscaler.Ledger.Capacity.{reserve_once, reserve_chunks, mark_once}
use federation_autoscaler.Ledger.Release.{release_chunks, stamp_chunks_released, credit_once}
use federation_autoscaler.Kube.Retry.{retry}
use federation_autoscaler.Ledger.Requests.{commits, EndsMarked}
use federation_autoscaler.Ledger.Reserving.{reserve_chunks-commits}
use federation_autoscaler.Ledger.Releasing.{
  release_chunks-commits, release_chunks-EndsMarked, release_chunks_unmarked,
}
use federation_autoscaler.Tests.Server.{World, small_client, resv_in, advert, world_of, start}

abbrev status : AdvertisementStatus
status = advert.status

status-IsBalanced : IsBalanced status
status-IsBalanced = record {
  total_in_range = omega arith;
  reserved_in_range = omega arith;
  available_exact = refl;
}

reserved-IsBalanced_example :
    IsBalanced (reserved (pos 2) status)
    × ((reserved (pos 2) status).reserved_chunks ≡ pos 3)
    × ((reserved (pos 2) status).reserved_chunks ≤ℤ pos 4)
    × ((reserved (pos 2) status).available_chunks +ℤ pos 2 ≡ pos 3)
reserved-IsBalanced_example =
    reserved-IsBalanced 2 status status-IsBalanced (omega arith) (omega arith)

credited-reserved_example : credited (pos 3) (reserved (pos 3) status) ≡ status
credited-reserved_example = credited-reserved 3 status status-IsBalanced (omega arith) (omega arith)

abbrev w : World
w = world_of (resv_in failed []) true true

reserve_chunks-commits_example :
    commits (reserve_chunks small_client "b" (pos 1) (start w)).1.log ≡ 1
unfolding reserve_chunks reserve_once retry reserved
reserve_chunks-commits_example = reserve_chunks-commits small_client "b" (pos 1) (start w)

release_chunks-commits_example :
    commits (release_chunks small_client (resv_in failed []) (start w)).1.log ≤ 1
release_chunks-commits_example = release_chunks-commits small_client (resv_in failed []) (start w)

releases : (release_chunks small_client (resv_in failed []) (start w)).0 ≡ ok tt
unfolding release_chunks stamp_chunks_released credit_once mark_once retry is_chunks_released
    annotation
releases = refl

release_chunks-EndsMarked_example :
    EndsMarked (release_chunks small_client (resv_in failed []) (start w)).1.log
release_chunks-EndsMarked_example =
    release_chunks-EndsMarked small_client (resv_in failed []) (start w) releases

abbrev unreadable : World
unreadable = world_of (resv_in failed []) true false

abbrev credited_advert : ClusterAdvertisement
credited_advert = record advert { status = credited (pos 1) status }

abbrev after : World
after = record unreadable { advertisement = credited_advert }

release_chunks_unmarked_example :
    ((release_chunks small_client (resv_in failed []) (start unreadable)).0 ≡ err other)
    × (commits (release_chunks small_client (resv_in failed []) (start unreadable)).1.log ≡ 1)
release_chunks_unmarked_example =
    release_chunks_unmarked small_client (resv_in failed []) (start unreadable) advert
      credited_advert other unreadable after after refl refl refl

abbrev credited_world : World
credited_world = record w { advertisement = credited_advert }

abbrev marked : Reservation
marked = mark_chunks_released (resv_in failed [])
