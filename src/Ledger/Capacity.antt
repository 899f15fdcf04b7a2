-- ===== src/Ledger/Capacity.antt =====
-- internal/broker/api/reservation.go: adjustReservedChunks, reserveChunks, markChunksReleased. Each
-- retries up to three times when the server answers Conflict; one attempt is a function of its own.
use federation_autoscaler.Base.{String, Bool, true, false, Option, none, some, if◌then◌else◌}
use federation_autoscaler.Base.Int.{ℤ, ltb_ℤ}
use federation_autoscaler.Api.{is_chunks_released, mark_chunks_released}
use federation_autoscaler.Kube.Core
use federation_autoscaler.Kube.Core.{Client, M, pure, ◌>>=◌}
use federation_autoscaler.Kube.Retry.{retry, unless_conflict}
use federation_autoscaler.Ledger.Arithmetic.{adjusted, reserved}

module _ {W : Type 0} (c : Client W) where
  unfoldable pub adjust_once : String → ℤ → M W (Option (Unit {0}))
  adjust_once cluster_id delta = do
    cadv ← Core.get_advertisement c cluster_id
    written ←
        unless_conflict
          (Core.update_advertisement_status c (record cadv { status = adjusted delta cadv.status }))
    elim written [ some _ ↦ pure (some tt) | none ↦ pure none ]

  unfoldable pub adjust_reserved_chunks : String → ℤ → M W (Unit {0})
  adjust_reserved_chunks cluster_id delta = retry 3 (adjust_once cluster_id delta)

  -- Whether the chunks were reserved, and how many are available.
  unfoldable pub reserve_once : String → ℤ → M W (Option (Bool × ℤ))
  reserve_once cluster_id count = do
    cadv ← Core.get_advertisement c cluster_id
    let status = reserved count cadv.status
    let write : M W (Option (Bool × ℤ)) = do
      written ←
          unless_conflict (Core.update_advertisement_status c (record cadv { status = status }))
      elim written [ some _ ↦ pure (some (true, status.available_chunks)) | none ↦ pure none ]
    if ltb_ℤ cadv.status.available_chunks count
        then pure (some (false, cadv.status.available_chunks))
        else write

  unfoldable pub reserve_chunks : String → ℤ → M W (Bool × ℤ)
  reserve_chunks cluster_id count = retry 3 (reserve_once cluster_id count)

  unfoldable pub mark_once : String → M W (Option (Unit {0}))
  mark_once name = do
    fresh ← Core.get_reservation c name
    let write : M W (Option (Unit {0})) = do
      written ← unless_conflict (Core.update_reservation c (mark_chunks_released fresh))
      elim written [ some _ ↦ pure (some tt) | none ↦ pure none ]
    if is_chunks_released fresh then pure (some tt) else write

  -- markChunksReleased.
  unfoldable pub set_chunks_released : String → M W (Unit {0})
  set_chunks_released name = retry 3 (mark_once name)
