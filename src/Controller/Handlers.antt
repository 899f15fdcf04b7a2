-- ===== src/Controller/Handlers.antt =====
-- The handlers of the phases, and of a Reservation that is being deleted. Each returns the delay
-- after which the controller looks again, zero for none.
use federation_autoscaler.Base.{false, not, Option, none, some, if◌then◌else◌}
use federation_autoscaler.Base.Int.{pos, ◌-ℤ◌, ltb_ℤ, leb_ℤ}
use federation_autoscaler.Api.{
  Time, Reservation, generating_kubeconfig, kubeconfig_ready, peering, ProviderInstructionKind,
  ReservationInstructionKind, is_chunks_released, ProviderInstruction, ReservationInstruction,
}
use federation_autoscaler.Kube.Core
use federation_autoscaler.Kube.Core.{
  Client, M, Result, ok, err, not_found, nil_pointer, pure, throw, attempt, ◌>>=◌, ◌>>◌,
}
use federation_autoscaler.Kube.Retry.{retry, unless_conflict}
use federation_autoscaler.Ledger.Release.{release_chunks}
use federation_autoscaler.Controller.Config.{Reconciler, Duration, ttl, gk_resync, since}
use federation_autoscaler.Controller.Names.{
  provider_instruction_gk_name, reservation_instruction_peer_name,
  reservation_instruction_unpeer_name, kubeconfig_secret_name,
}
use federation_autoscaler.Controller.Emit.{
  advance_phase, kubeconfig_secret_exists, provider_instruction, consumer_instruction,
  ensure_shared_provider_instruction, ensure_instruction, has_other_holding_reservation,
  has_other_active_reservation, emit_consumer_cleanup, ensure_provider_cleanup_instruction,
  delete_kubeconfig_secret,
}

-- The work order for the provider of a pending Reservation.
unfoldable pub gk_instruction : Reservation → ProviderInstruction
gk_instruction resv =
    let pi =
      provider_instruction resv
        (provider_instruction_gk_name resv.spec.consumer_cluster_id resv.spec.provider_cluster_id)
        ProviderInstructionKind.generate_kubeconfig in
    record pi { spec = record pi.spec { expires_at = resv.status.expires_at } }

-- The work order for the consumer of a Reservation whose kubeconfig is staged.
unfoldable pub peer_instruction : Reservation → ReservationInstruction
peer_instruction resv =
    let ri =
      consumer_instruction resv (reservation_instruction_peer_name resv.metadata.name)
        ReservationInstructionKind.peer false in
    record ri {
      spec = record ri.spec {
        kubeconfig_ref =
            kubeconfig_secret_name resv.spec.consumer_cluster_id resv.spec.provider_cluster_id;
        expires_at = resv.status.expires_at;
      };
    }

abbrev collected : {W : Type 0} → Result (Unit {0}) → M W Duration
collected (ok _) = pure (pos 0)
collected (err not_found) = pure (pos 0)
collected (err refused) = throw refused

module _ {W : Type 0} (c : Client W) (r : Reconciler) where
  unfoldable pub handle_pending : Reservation → M W Duration
  handle_pending resv = do
    exists ← kubeconfig_secret_exists c resv
    let reuse : M W Duration = do advance_phase c resv kubeconfig_ready; pure (pos 0)
    let order : M W Duration = do
      ensure_shared_provider_instruction c (gk_instruction resv)
      advance_phase c resv generating_kubeconfig
      pure (pos 0)
    if exists then reuse else order

  unfoldable pub handle_generating_kubeconfig : Reservation → M W Duration
  handle_generating_kubeconfig resv = do
    exists ← kubeconfig_secret_exists c resv
    let advance : M W Duration = do advance_phase c resv kubeconfig_ready; pure (pos 0)
    if exists then advance else pure (gk_resync r)

  unfoldable pub handle_kubeconfig_ready : Reservation → M W Duration
  handle_kubeconfig_ready resv = do
    ensure_instruction c resv (peer_instruction resv)
    advance_phase c resv peering
    pure (pos 0)

  unfoldable pub handle_unpeering : Reservation → M W Duration
  handle_unpeering resv = do
    last ← has_other_holding_reservation c resv
    ensure_instruction c resv (
        consumer_instruction resv (reservation_instruction_unpeer_name resv.metadata.name)
          ReservationInstructionKind.unpeer (not last))
    pure (pos 0)

  -- `if !IsChunksReleased(resv) { releaseChunks }`.
  unfoldable pub release_if_held : Reservation → M W (Unit {0})
  release_if_held resv = if is_chunks_released resv then pure tt else release_chunks c resv

  -- The tear-down of handleTerminal, after the garbage-collection clock.
  unfoldable pub tear_down : Reservation → Duration → M W Duration
  tear_down resv gc_requeue = do
    release_if_held resv
    exists ← kubeconfig_secret_exists c resv
    let last_one : M W Duration = do
      ensure_provider_cleanup_instruction c resv
      delete_kubeconfig_secret c resv
      pure gc_requeue
    let shared : M W Duration = do
      emit_consumer_cleanup c resv false
      others ← has_other_active_reservation c resv
      if others then pure (gk_resync r) else last_one
    if exists then shared else pure gc_requeue

  -- The delay to the collection, at least the resync interval.
  unfoldable pub gc_requeue : Time → Time → Duration
  gc_requeue now terminated =
      let rest = ttl r -ℤ since now terminated in
      if ltb_ℤ rest (gk_resync r) then gk_resync r else rest

  unfoldable pub collect : Reservation → M W Duration
  collect resv = do gone ← attempt (Core.delete_reservation c resv); collected gone

  -- A Reservation whose TerminatedAt was set before this pass.
  unfoldable pub handle_terminated : Reservation → Time → M W Duration
  handle_terminated resv terminated = do
    now ← Core.now c
    let keep : M W Duration = do now' ← Core.now c; tear_down resv (gc_requeue now' terminated)
    if leb_ℤ (ttl r) (since now terminated) then collect resv else keep

  -- The clock reads the TerminatedAt that the server answered with.
  unfoldable pub tear_down_stamped : Reservation → M W Duration
  tear_down_stamped stamped = do
    now ← Core.now c
    elim stamped.status.terminated_at [
      | none ↦ throw nil_pointer
      | some terminated ↦ tear_down stamped (gc_requeue now terminated)
    ]

  -- The first pass in a terminal phase stamps TerminatedAt, and never collects.
  unfoldable pub handle_just_terminated : Reservation → M W Duration
  handle_just_terminated resv = do
    now ← Core.now c
    stamped ←
        Core.update_reservation_status c
          (record resv { status = record resv.status { terminated_at = some now } })
    tear_down_stamped stamped

  unfoldable pub handle_terminal : Reservation → M W Duration
  handle_terminal resv = elim resv.status.terminated_at [
    | none ↦ handle_just_terminated resv
    | some terminated ↦ handle_terminated resv terminated
  ]

  finalize : Result Reservation → M W (Option Duration)
  finalize (err not_found) = pure (some (pos 0))
  finalize (err refused) = throw refused
  finalize (ok fresh) = do
    let remove : M W (Option Duration) = do
      written ← unless_conflict (
          Core.update_reservation c
            (record fresh { metadata = record fresh.metadata { finalizer = false } }))
      elim written [ some _ ↦ pure (some (pos 0)) | none ↦ pure none ]
    if fresh.metadata.finalizer then remove else pure (some (pos 0))

  unfoldable pub remove_finalizer_once : Reservation → M W (Option Duration)
  unfolding finalize
  remove_finalizer_once resv = do
    got ← attempt (Core.get_reservation c resv.metadata.name)
    finalize got

  unfoldable pub handle_deletion : Reservation → M W Duration
  handle_deletion resv = if not resv.metadata.finalizer then pure (pos 0) else (do
    release_if_held resv
    emit_consumer_cleanup c resv false
    retry 3 (remove_finalizer_once resv))
