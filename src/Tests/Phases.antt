-- ===== src/Tests/Phases.antt =====
-- The reconciler on the small server.
use federation_autoscaler.Base.{List, ◌≡◌, refl, arith, true, [], ◌∷◌}
use federation_autoscaler.Base.Int.{pos}
use federation_autoscaler.Api.{
  Reservation, pending, unpeering, peered, failed, is_chunks_released, annotation,
  mark_chunks_released,
}
use federation_autoscaler.Kube.Core.{ok}
use federation_autoscaler.Kube.Retry.{retry}
use federation_autoscaler.Ledger.Release.{release_chunks, stamp_chunks_released, credit_once}
use federation_autoscaler.Ledger.Capacity.{mark_once}
use federation_autoscaler.Controller.Config.{gk_resync, ttl, is_reservation_terminal}
use federation_autoscaler.Controller.Emit.{
  emit_consumer_cleanup, kubeconfig_secret_exists, has_other_holding_reservation, any_other_sibling,
  has_other_active_reservation, ensure_shared_reservation_instruction,
  ensure_provider_cleanup_instruction, ensure_shared_provider_instruction, delete_kubeconfig_secret,
  is_sibling, is_active, is_holding,
}
use federation_autoscaler.Controller.Handlers.{
  tear_down, tear_down_stamped, release_if_held, gc_requeue, handle_unpeering,
  handle_just_terminated,
}
use federation_autoscaler.Controller.Reconcile.{reconcile}
use federation_autoscaler.Controller.Phases.Diagram.{Moves}
use federation_autoscaler.Controller.Phases.Reconcile.{EchoesPhase, reconcile-Moves}
use federation_autoscaler.Controller.Teardown.{DeletesGated, tear_down-DeletesGated}
use federation_autoscaler.Controller.LastChunk.{
  KeepsSpec, LastChunkSafe, handle_unpeering-LastChunkSafe,
}
use federation_autoscaler.Tests.Server.{World, small_client, reconciler, resv_in, world_of, start}

small_client-EchoesPhase : EchoesPhase small_client
small_client-EchoesPhase = record { on_update = λ resv w. refl; on_status = λ resv w. refl }

small_client-KeepsSpec : KeepsSpec small_client
small_client-KeepsSpec resv ri owned h = ground arith

abbrev w : Reservation → World
w resv = world_of resv true true

reconcile-Moves_example :
    Moves pending (reconcile small_client reconciler "res-1" (start (w (resv_in pending [])))).1.log
reconcile-Moves_example =
    reconcile-Moves small_client reconciler "res-1" (start (w (resv_in pending [])))
      (resv_in pending []) (w (resv_in pending [])) small_client-EchoesPhase refl tt

tear_down-DeletesGated_example :
    DeletesGated
      (resv_in failed [])
      (tear_down small_client reconciler
        (resv_in failed [])
        (pos 9)
        (start (w (resv_in failed [])))).1.log
tear_down-DeletesGated_example =
    tear_down-DeletesGated small_client reconciler (resv_in failed []) (pos 9)
      (start (w (resv_in failed []))) tt

handle_unpeering-LastChunkSafe_example :
    LastChunkSafe
      (resv_in unpeering [])
      (handle_unpeering small_client reconciler
        (resv_in unpeering [])
        (start (w (resv_in unpeering [])))).1.log
handle_unpeering-LastChunkSafe_example =
    handle_unpeering-LastChunkSafe small_client reconciler (resv_in unpeering [])
      (start (w (resv_in unpeering []))) small_client-KeepsSpec tt

just_terminated :
    (handle_just_terminated small_client reconciler
      (resv_in failed [])
      (start (w (resv_in failed [])))).0
    ≡ ok (pos 99)
unfolding handle_just_terminated tear_down_stamped tear_down release_if_held gc_requeue ttl
    gk_resync release_chunks stamp_chunks_released credit_once mark_once retry is_chunks_released
    annotation kubeconfig_secret_exists emit_consumer_cleanup has_other_holding_reservation
    any_other_sibling has_other_active_reservation ensure_shared_reservation_instruction
    ensure_provider_cleanup_instruction ensure_shared_provider_instruction delete_kubeconfig_secret
    is_sibling is_active is_holding is_reservation_terminal mark_chunks_released
just_terminated = refl

abbrev two : List Reservation
two = resv_in peered [] ∷ resv_in failed [] ∷ []
