-- ===== src/Ledger/Adjusting.antt =====
-- What adjustReservedChunks and markChunksReleased write, whatever the server answers.
use federation_autoscaler.Base.{ℕ, zero, suc, ◌+◌, String, ◌≡◌, arith}
use federation_autoscaler.Base.Int.{ℤ}
use federation_autoscaler.Api.{ClusterAdvertisement}
use federation_autoscaler.Kube.Core.{Client, Run, ok}
use federation_autoscaler.Kube.Retry.{retry}
use federation_autoscaler.Ledger.Arithmetic.{adjusted}
use federation_autoscaler.Ledger.Capacity.{adjust_once, adjust_reserved_chunks, set_chunks_released}
use federation_autoscaler.Ledger.Requests.{commits}
use federation_autoscaler.Ledger.Releasing.{committed_once, committed, retry_mark-commits}

-- The write that adds a count, which may be negative, to the reserved chunks of the object read.
abbrev pub Adjusts : ℤ → ClusterAdvertisement → ClusterAdvertisement → Type 0
Adjusts delta old new = new ≡ record old { status = adjusted delta old.status }

module _ {W : Type 0} (c : Client W) where
  adjust_once-commits :
      (cluster_id : String) (delta : ℤ) (s : Run W)
      → commits (adjust_once c cluster_id delta s).1.log
        ≡ commits s.log + committed_once (adjust_once c cluster_id delta s).0
  unfolding adjust_once
  adjust_once-commits cluster_id delta s = ground arith

  retry_adjust-commits :
      (cluster_id : String) (delta : ℤ) (left : ℕ) (s : Run W)
      → commits (retry left (adjust_once c cluster_id delta) s).1.log
        ≡ commits s.log + committed (retry left (adjust_once c cluster_id delta) s).0
  unfolding retry
  retry_adjust-commits cluster_id delta zero s = omega arith
  retry_adjust-commits cluster_id delta (suc left) s =
      let t = (adjust_once c cluster_id delta s).1 in
      ground (
        arith,
        adjust_once-commits cluster_id delta s,
        retry_adjust-commits cluster_id delta left t,
      )

  -- Whatever the server answers, adjustReservedChunks commits exactly one write where it succeeds
  -- and none where it fails.
  pub adjust_reserved_chunks-commits :
      (cluster_id : String) (delta : ℤ) (s : Run W)
      → commits (adjust_reserved_chunks c cluster_id delta s).1.log
        ≡ commits s.log + committed (adjust_reserved_chunks c cluster_id delta s).0
  unfolding adjust_reserved_chunks
  adjust_reserved_chunks-commits cluster_id delta s = retry_adjust-commits cluster_id delta 3 s

  pub set_chunks_released-commits :
      (name : String) (s : Run W) → commits (set_chunks_released c name s).1.log ≡ commits s.log
  unfolding set_chunks_released
  set_chunks_released-commits name s = retry_mark-commits c name 3 s

  pub adjust_reserved_chunks-ok :
      (cluster_id : String) (delta : ℤ) (s : Run W) (cadv written : ClusterAdvertisement)
      (w2 w3 : W)
      → c.get_advertisement cluster_id s.world ≡ (ok cadv, w2)
      → c.update_advertisement_status (record cadv { status = adjusted delta cadv.status }) w2
        ≡ (ok written, w3)
      → (adjust_reserved_chunks c cluster_id delta s).0 ≡ ok tt
  unfolding adjust_reserved_chunks adjust_once retry
  adjust_reserved_chunks-ok cluster_id delta s cadv written w2 w3 h1 h2 = ground arith
