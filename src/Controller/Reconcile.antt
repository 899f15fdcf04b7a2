-- ===== src/Controller/Reconcile.antt =====
-- Reconcile: finalizer, expiry, provider guard, and the dispatch on the phase; and the watch that
-- wakes the Reservations of an advertisement.
use federation_autoscaler.Base.{String, Bool, true, false, List, [], ◌∷◌, str_eq, if◌then◌else◌}
use federation_autoscaler.Base.Int.{pos}
use federation_autoscaler.Api.{
  Reservation, ClusterAdvertisement, ReservationPhase, unset, pending, generating_kubeconfig,
  kubeconfig_ready, unpeering, released, expired, failed,
}
use federation_autoscaler.Kube.Core
use federation_autoscaler.Kube.Core.{
  Client, M, Result, ok, err, not_found, pure, throw, attempt, ◌>>=◌,
}
use federation_autoscaler.Controller.Config.{Reconciler, Duration, is_reservation_terminal}
use federation_autoscaler.Controller.Guards.{ensure_expiry, check_expired, check_provider_available}
use federation_autoscaler.Controller.Handlers.{
  handle_pending, handle_generating_kubeconfig, handle_kubeconfig_ready, handle_unpeering,
  handle_terminal, handle_deletion,
}

-- requestsForAdvertisement: the names of the Reservations to look at again.
abbrev wakes : ClusterAdvertisement → Reservation → Bool
wakes cadv resv =
    if str_eq resv.spec.provider_cluster_id cadv.metadata.name
    then (if is_reservation_terminal resv.status.phase then false else true)
    else false

unfoldable pub requests_of : ClusterAdvertisement → List Reservation → List String
requests_of cadv [] = []
requests_of cadv (resv ∷ items) =
    let rest = requests_of cadv items in if wakes cadv resv then resv.metadata.name ∷ rest else rest

module _ {W : Type 0} (c : Client W) (r : Reconciler) where
  -- The `switch` on the phase.
  unfoldable pub dispatch : ReservationPhase → Reservation → M W Duration
  dispatch unset resv = handle_pending c r resv
  dispatch pending resv = handle_pending c r resv
  dispatch generating_kubeconfig resv = handle_generating_kubeconfig c r resv
  dispatch kubeconfig_ready resv = handle_kubeconfig_ready c r resv
  dispatch unpeering resv = handle_unpeering c r resv
  dispatch released resv = handle_terminal c r resv
  dispatch failed resv = handle_terminal c r resv
  dispatch expired resv = handle_terminal c r resv
  dispatch _ resv = pure (pos 0)

  -- The guards and the dispatch, for a Reservation that has its finalizer and its deadline.
  unfoldable pub reconcile_guarded : Reservation → M W Duration
  reconcile_guarded resv = do
    outcome ← check_expired c r resv
    let (gone, requeue) = outcome
    let provide : M W Duration = do
      abandoned ← check_provider_available c r resv
      if abandoned then pure (pos 0) else dispatch resv.status.phase resv
    if gone then pure requeue else provide

  -- AddFinalizer and the Update behind it, whose answer replaces the Reservation.
  unfoldable pub ensure_finalizer : Reservation → M W Reservation
  ensure_finalizer resv =
      if resv.metadata.finalizer
      then pure resv
      else (Core.update_reservation c
          (record resv { metadata = record resv.metadata { finalizer = true } }))

  unfoldable pub reconcile_live : Reservation → M W Duration
  reconcile_live resv = do
    kept ← ensure_finalizer resv
    dated ← ensure_expiry c r kept
    reconcile_guarded dated

  route : Result Reservation → M W Duration
  route (err not_found) = pure (pos 0)
  route (err refused) = throw refused
  route (ok resv) = if resv.metadata.deleting then handle_deletion c r resv else reconcile_live resv

  unfoldable pub reconcile : String → M W Duration
  unfolding route
  reconcile name = do got ← attempt (Core.get_reservation c name); route got
