-- ===== src/Ledger/Requests.antt =====
-- Reading the log of requests: the commits to the ledger of an advertisement, and what each write
-- rests on.
use federation_autoscaler.Base.{ℕ, suc, true, ◌≡◌, List, [], ◌∷◌}
use federation_autoscaler.Api.{ClusterAdvertisement, is_chunks_released}
use federation_autoscaler.Kube.Core.{
  ok, Event, wrote_advertisement_status, read_advertisement, wrote_reservation, read_reservation,
}

-- Each write of an advertisement's status comes directly after a read of it, and stands in the
-- given relation to the object that was read.
abbrev pub FollowsRead :
    (ClusterAdvertisement → ClusterAdvertisement → Type 0) → List Event → Type 0
FollowsRead R [] = Unit
FollowsRead R (wrote_advertisement_status b new ∷ read_advertisement k (ok old) ∷ log) =
    R old new × FollowsRead R log
FollowsRead R (wrote_advertisement_status b new ∷ log) = ⊥
FollowsRead R (_ ∷ log) = FollowsRead R log

-- How many writes of an advertisement's status the server accepted.
abbrev pub commits : List Event → ℕ
commits [] = 0
commits (wrote_advertisement_status true a ∷ log) = suc (commits log)
commits (_ ∷ log) = commits log

-- The last request found or left the Reservation marked as released.
abbrev pub EndsMarked : List Event → Type 0
EndsMarked (wrote_reservation true r ∷ log) = is_chunks_released r ≡ true
EndsMarked (read_reservation k (ok r) ∷ log) = is_chunks_released r ≡ true
EndsMarked _ = ⊥
