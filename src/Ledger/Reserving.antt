-- ===== src/Ledger/Reserving.antt =====
-- What reserveChunks writes, whatever the server answers.
use federation_autoscaler.Base.{ℕ, zero, suc, ◌+◌, String, Bool, true, ◌≡◌, Option, some, arith}
use federation_autoscaler.Base.Int.{ℤ, ◌≤ℤ◌}
use federation_autoscaler.Api.{ClusterAdvertisement}
use federation_autoscaler.Kube.Core.{Client, Result, ok, Run}
use federation_autoscaler.Kube.Retry.{retry}
use federation_autoscaler.Ledger.Arithmetic.{reserved}
use federation_autoscaler.Ledger.Capacity.{reserve_once, reserve_chunks}
use federation_autoscaler.Ledger.Requests.{FollowsRead, commits}

-- The write that reserves: its count was available in the object read.
abbrev pub ReservesIn : ℤ → ClusterAdvertisement → ClusterAdvertisement → Type 0
ReservesIn count old new =
    (count ≤ℤ old.status.available_chunks)
    × (new ≡ record old { status = reserved count old.status })

-- One commit where the answer says that the chunks are reserved, none where it says anything else.
abbrev pub commits_of : Result (Bool × ℤ) → ℕ
commits_of (ok (true, available)) = 1
commits_of _ = 0

abbrev commits_of_once : Result (Option (Bool × ℤ)) → ℕ
commits_of_once (ok (some (true, available))) = 1
commits_of_once _ = 0

module _ {W : Type 0} (c : Client W) where
  reserve_once-commits :
      (cluster_id : String) (count : ℤ) (s : Run W)
      → commits (reserve_once c cluster_id count s).1.log
        ≡ commits s.log + commits_of_once (reserve_once c cluster_id count s).0
  unfolding reserve_once
  reserve_once-commits cluster_id count s = ground arith

  retry_reserve-commits :
      (cluster_id : String) (count : ℤ) (left : ℕ) (s : Run W)
      → commits (retry left (reserve_once c cluster_id count) s).1.log
        ≡ commits s.log + commits_of (retry left (reserve_once c cluster_id count) s).0
  unfolding retry
  retry_reserve-commits cluster_id count zero s = omega arith
  retry_reserve-commits cluster_id count (suc left) s =
      let t = (reserve_once c cluster_id count s).1 in
      ground (
        arith,
        reserve_once-commits cluster_id count s,
        retry_reserve-commits cluster_id count left t,
      )

  -- Whatever the server answers, reserveChunks commits exactly one write where it reports that the
  -- chunks are reserved, and none where it reports too little capacity or an error.
  pub reserve_chunks-commits :
      (cluster_id : String) (count : ℤ) (s : Run W)
      → commits (reserve_chunks c cluster_id count s).1.log
        ≡ commits s.log + commits_of (reserve_chunks c cluster_id count s).0
  unfolding reserve_chunks
  reserve_chunks-commits cluster_id count s = retry_reserve-commits cluster_id count 3 s

  reserve_once-FollowsRead :
      (cluster_id : String) (count : ℤ) (s : Run W)
      → FollowsRead (ReservesIn count) s.log
      → FollowsRead (ReservesIn count) (reserve_once c cluster_id count s).1.log
  unfolding reserve_once
  reserve_once-FollowsRead cluster_id count s h = ground arith

  retry_reserve-FollowsRead :
      (cluster_id : String) (count : ℤ) (left : ℕ) (s : Run W)
      → FollowsRead (ReservesIn count) s.log
      → FollowsRead (ReservesIn count) (retry left (reserve_once c cluster_id count) s).1.log
  unfolding retry
  retry_reserve-FollowsRead cluster_id count zero s h = h
  retry_reserve-FollowsRead cluster_id count (suc left) s h =
      let t = (reserve_once c cluster_id count s).1 in
      let h' = reserve_once-FollowsRead cluster_id count s h in
      ground (arith, retry_reserve-FollowsRead cluster_id count left t h')

  -- Every status that reserveChunks writes is the one it has just read with the count added, and
  -- it writes only if that read had the count available.
  -- The log before is assumed to have this property.
  pub reserve_chunks-FollowsRead :
      (cluster_id : String) (count : ℤ) (s : Run W)
      → FollowsRead (ReservesIn count) s.log
      → FollowsRead (ReservesIn count) (reserve_chunks c cluster_id count s).1.log
  unfolding reserve_chunks
  reserve_chunks-FollowsRead cluster_id count s h = retry_reserve-FollowsRead cluster_id count 3 s h
