-- ===== src/Ledger/Concurrent/Steps.antt =====
-- What the code writes, as steps of the concurrent ledger.
use federation_autoscaler.Base.{ℕ, ◌<◌, ◌≡◌, List, [], ◌∷◌, ◌++◌, String, true, subst}
use federation_autoscaler.Base.Int.{pos, int32_half}
use federation_autoscaler.Api.{ClusterAdvertisement, Reservation}
use federation_autoscaler.Kube.Core.{
  Client, Event, ok, wrote_advertisement_status, read_advertisement,
}
use federation_autoscaler.Ledger.Requests.{FollowsRead}
use federation_autoscaler.Ledger.Capacity.{reserve_chunks}
use federation_autoscaler.Ledger.Release.{release_chunks}
use federation_autoscaler.Ledger.Reserving.{ReservesIn, reserve_chunks-FollowsRead}
use federation_autoscaler.Ledger.Releasing.{Credits, release_chunks-FollowsRead}
use federation_autoscaler.Ledger.Concurrent.{
  System, commit, IsCurrent, Step, reserve, credit, charged, returned,
}

-- The log holds an accepted write of the one object directly behind a read of the other.
abbrev pub Wrote : List Event → ClusterAdvertisement → ClusterAdvertisement → Type 0
Wrote log old new =
    (later : List Event) × (id : String) × (before : List Event) × (log
      ≡ later ++ (wrote_advertisement_status true new ∷ read_advertisement id (ok old) ∷ before))

FollowsRead-tail :
    (R : ClusterAdvertisement → ClusterAdvertisement → Type 0) (e : Event) (log : List Event)
    → FollowsRead R (e ∷ log)
    → FollowsRead R log
FollowsRead-tail R (wrote_advertisement_status b new) [] h = absurd h
FollowsRead-tail R (wrote_advertisement_status b new) (read_advertisement k (ok old) ∷ log) h = h.1
FollowsRead-tail R (wrote_advertisement_status b new) (_ ∷ log) h = absurd h
FollowsRead-tail R _ log h = h

FollowsRead-++ :
    (R : ClusterAdvertisement → ClusterAdvertisement → Type 0) (later log : List Event)
    → FollowsRead R (later ++ log)
    → FollowsRead R log
FollowsRead-++ R [] log h = h
FollowsRead-++ R (e ∷ later) log h =
    FollowsRead-++ R later log (FollowsRead-tail R e (later ++ log) h)

pub Wrote-FollowsRead :
    (R : ClusterAdvertisement → ClusterAdvertisement → Type 0) (log : List Event)
    (old new : ClusterAdvertisement)
    → FollowsRead R log
    → Wrote log old new
    → R old new
Wrote-FollowsRead R log old new h (later, id, before, e) =
    (FollowsRead-++ R later _ (subst (FollowsRead R) e h)).0

module _ {W : Type 0} (c : Client W) (s : System) (i n : ℕ) (old new : ClusterAdvertisement) where
  -- Every accepted write in a run of reserveChunks, if it comes from the object that some process
  -- has read as current, is the reservation of that process in the concurrent ledger. The count is
  -- positive.
  pub reserve_chunks-Step :
      (cluster_id : String) (w : W)
      → 0 < n
      → IsCurrent s i old
      → Wrote (reserve_chunks c cluster_id (pos n) (record { world = w; log = [] })).1.log old new
      → Step s (commit new (charged n ∷ s.entries) s)
  reserve_chunks-Step cluster_id w k q h = reserve i n old new q k (
      Wrote-FollowsRead (ReservesIn (pos n)) _ old new
        (reserve_chunks-FollowsRead c cluster_id (pos n) (record { world = w; log = [] }) tt) h)

  -- Every accepted write in a run of releaseChunks, if it comes from the object that some process has
  -- read as current, is a credit of that process in the concurrent ledger. The Reservation's count is
  -- an int32 that is not negative.
  pub release_chunks-Step :
      (resv : Reservation) (w : W)
      → n < int32_half
      → resv.spec.chunk_count ≡ pos n
      → IsCurrent s i old
      → Wrote (release_chunks c resv (record { world = w; log = [] })).1.log old new
      → Step s (commit new (returned n ∷ s.entries) s)
  release_chunks-Step resv w k e q h = credit i n resv old new q k e (
      Wrote-FollowsRead (Credits resv) _ old new
        (release_chunks-FollowsRead c resv (record { world = w; log = [] }) tt) h)
