-- ===== src/Tests/Housekeepers.antt =====
-- The housekeeping of advertisements and instructions on the small server.
use federation_autoscaler.Base.{◌≡◌, refl, arith, true, some, []}
use federation_autoscaler.Base.Int.{pos}
use federation_autoscaler.Api.{InstructionStatus, peering}
use federation_autoscaler.Kube.Core
use federation_autoscaler.Kube.Core.{ok}
use federation_autoscaler.Instructions.Wakeup.{wake_at}
use federation_autoscaler.Instructions.Housekeeping.{no_requeue, tend}
use federation_autoscaler.Instructions.Expiry.{tend_misses_deadline}
use federation_autoscaler.Tests.Server.{World, small_client, resv_in, world_of, start, order_for_a}

abbrev w : World
w = world_of (resv_in peering []) true true

abbrev open_status : InstructionStatus
open_status = order_for_a.status

wakes_at : wake_at (some 30) open_status (pos 5) ≡ some 30
unfolding wake_at
wakes_at = refl

tend_misses_deadline_example :
    (tend small_client
      (pos 5)
      (Core.delete_reservation_instruction small_client order_for_a)
      "res-1"
      (some 21)
      open_status
      (start w)).0
    ≡ ok no_requeue
tend_misses_deadline_example =
    tend_misses_deadline small_client (pos 5)
      (Core.delete_reservation_instruction small_client order_for_a) "res-1" open_status 21 20 21
      (record w { clock = 21 }) (record w { clock = 22 }) (start w) refl refl (omega arith) refl
      (omega arith)
