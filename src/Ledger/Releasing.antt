-- ===== src/Ledger/Releasing.antt =====
-- What releaseChunks writes, whatever the server answers.
use federation_autoscaler.Base.{ℕ, zero, suc, ◌+◌, ◌≤◌, String, ◌≡◌, Option, some, arith}
use federation_autoscaler.Api.{ClusterAdvertisement, Reservation, is_chunks_released-mark}
use federation_autoscaler.Kube.Core.{Client, Result, ok, err, ApiError, Run}
use federation_autoscaler.Kube.Retry.{retry}
use federation_autoscaler.Ledger.Arithmetic.{credited}
use federation_autoscaler.Ledger.Capacity.{mark_once}
use federation_autoscaler.Ledger.Release.{stamp_chunks_released, credit_once, release_chunks}
use federation_autoscaler.Ledger.Requests.{FollowsRead, EndsMarked, commits}

-- The write that credits the chunks of a Reservation back to the object just read.
abbrev pub Credits : Reservation → ClusterAdvertisement → ClusterAdvertisement → Type 0
Credits resv old new = new ≡ record old { status = credited resv.spec.chunk_count old.status }

abbrev pub committed_once : Result (Option (Unit {0})) → ℕ
committed_once (ok (some _)) = 1
committed_once _ = 0

abbrev pub committed : Result (Unit {0}) → ℕ
committed (ok _) = 1
committed (err _) = 0

module _ {W : Type 0} (c : Client W) where
  mark_once-commits :
      (name : String) (s : Run W) → commits (mark_once c name s).1.log ≡ commits s.log
  unfolding mark_once
  mark_once-commits name s = ground arith

  pub retry_mark-commits :
      (name : String) (left : ℕ) (s : Run W)
      → commits (retry left (mark_once c name) s).1.log ≡ commits s.log
  unfolding retry
  retry_mark-commits name zero s = omega arith
  retry_mark-commits name (suc left) s =
      ground (arith, mark_once-commits name s, retry_mark-commits name left (mark_once c name s).1)

  stamp-commits :
      (name : String) (s : Run W) → commits (stamp_chunks_released c name s).1.log ≡ commits s.log
  unfolding stamp_chunks_released
  stamp-commits name s = retry_mark-commits name 3 s

  mark_once-FollowsRead :
      (R : ClusterAdvertisement → ClusterAdvertisement → Type 0) (name : String) (s : Run W)
      → FollowsRead R s.log
      → FollowsRead R (mark_once c name s).1.log
  unfolding mark_once
  mark_once-FollowsRead R name s h = ground arith

  retry_mark-FollowsRead :
      (R : ClusterAdvertisement → ClusterAdvertisement → Type 0) (name : String) (left : ℕ)
      (s : Run W)
      → FollowsRead R s.log
      → FollowsRead R (retry left (mark_once c name) s).1.log
  unfolding retry
  retry_mark-FollowsRead R name zero s h = h
  retry_mark-FollowsRead R name (suc left) s h =
      let h' = mark_once-FollowsRead R name s h in
      ground (arith, retry_mark-FollowsRead R name left (mark_once c name s).1 h')

  credit_once-commits :
      (resv : Reservation) (s : Run W)
      → commits (credit_once c resv s).1.log
        ≤ commits s.log + committed_once (credit_once c resv s).0
  unfolding credit_once
  credit_once-commits resv s = ground arith

  retry_credit-commits :
      (resv : Reservation) (left : ℕ) (s : Run W)
      → commits (retry left (credit_once c resv) s).1.log
        ≤ commits s.log + committed (retry left (credit_once c resv) s).0
  unfolding retry
  retry_credit-commits resv zero s = omega arith
  retry_credit-commits resv (suc left) s =
      ground
        (arith, credit_once-commits resv s, retry_credit-commits resv left (credit_once c resv s).1)

  -- Whatever the server answers, releaseChunks commits at most one write to the ledger.
  pub release_chunks-commits :
      (resv : Reservation) (s : Run W) → commits (release_chunks c resv s).1.log ≤ commits s.log + 1
  unfolding release_chunks
  release_chunks-commits resv s =
      let t = (retry 3 (credit_once c resv) s).1 in
      ground (arith, retry_credit-commits resv 3 s, stamp-commits resv.metadata.name t)

  credit_once-FollowsRead :
      (resv : Reservation) (s : Run W)
      → FollowsRead (Credits resv) s.log
      → FollowsRead (Credits resv) (credit_once c resv s).1.log
  unfolding credit_once
  credit_once-FollowsRead resv s h = ground arith

  retry_credit-FollowsRead :
      (resv : Reservation) (left : ℕ) (s : Run W)
      → FollowsRead (Credits resv) s.log
      → FollowsRead (Credits resv) (retry left (credit_once c resv) s).1.log
  unfolding retry
  retry_credit-FollowsRead resv zero s h = h
  retry_credit-FollowsRead resv (suc left) s h =
      let h' = credit_once-FollowsRead resv s h in
      ground (arith, retry_credit-FollowsRead resv left (credit_once c resv s).1 h')

  -- Every status that releaseChunks writes is the one it has just read with the Reservation's
  -- chunks credited back.
  -- The log before is assumed to have this property.
  pub release_chunks-FollowsRead :
      (resv : Reservation) (s : Run W)
      → FollowsRead (Credits resv) s.log
      → FollowsRead (Credits resv) (release_chunks c resv s).1.log
  unfolding release_chunks stamp_chunks_released
  release_chunks-FollowsRead resv s h =
      let h' = retry_credit-FollowsRead resv 3 s h in
      let t = (retry 3 (credit_once c resv) s).1 in
      ground (arith, retry_mark-FollowsRead (Credits resv) resv.metadata.name 3 t h')

  mark_once-EndsMarked :
      (name : String) (s : Run W)
      → (mark_once c name s).0 ≡ ok (some tt)
      → EndsMarked (mark_once c name s).1.log
  unfolding mark_once
  mark_once-EndsMarked name s h = grind (arith, is_chunks_released-mark)

  retry_mark-EndsMarked :
      (name : String) (left : ℕ) (s : Run W)
      → (retry left (mark_once c name) s).0 ≡ ok tt
      → EndsMarked (retry left (mark_once c name) s).1.log
  unfolding retry
  retry_mark-EndsMarked name zero s h = absurd (cc)
  retry_mark-EndsMarked name (suc left) s h =
      let t = (mark_once c name s).1 in
      ground (arith, mark_once-EndsMarked name s, retry_mark-EndsMarked name left t)

  -- When releaseChunks succeeds, its last request found or left the Reservation marked as
  -- released.
  pub release_chunks-EndsMarked :
      (resv : Reservation) (s : Run W)
      → (release_chunks c resv s).0 ≡ ok tt
      → EndsMarked (release_chunks c resv s).1.log
  unfolding release_chunks stamp_chunks_released
  release_chunks-EndsMarked resv s h =
      let t = (retry 3 (credit_once c resv) s).1 in
      ground (arith, retry_mark-EndsMarked resv.metadata.name 3 t)

  -- Where the credit is accepted and the Reservation can then not be read, releaseChunks fails
  -- with its chunks credited once.
  pub release_chunks_unmarked :
      (resv : Reservation) (s : Run W) (cadv written : ClusterAdvertisement) (e : ApiError)
      (w1 w2 w3 : W)
      → c.get_advertisement resv.spec.provider_cluster_id s.world ≡ (ok cadv, w1)
      → c.update_advertisement_status
          (record cadv { status = credited resv.spec.chunk_count cadv.status })
          w1
        ≡ (ok written, w2)
      → c.get_reservation resv.metadata.name w2 ≡ (err e, w3)
      → ((release_chunks c resv s).0 ≡ err e)
        × (commits (release_chunks c resv s).1.log ≡ commits s.log + 1)
  unfolding release_chunks stamp_chunks_released credit_once mark_once retry
  release_chunks_unmarked resv s cadv written e w1 w2 w3 h1 h2 h3 = ground arith
