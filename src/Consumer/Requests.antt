-- ===== src/Consumer/Requests.antt =====
-- resourcerequest_controller.go: Reconcile.
use Prim.Native.String.{◌++◌}
use federation_autoscaler.Base.{String, true, false, Option, none, some, str_eq, if◌then◌else◌}
use federation_autoscaler.Kube.Core.{
  not_found, other, Result, ok, err, M, pure, throw, attempt, ◌>>=◌, ◌>>◌,
}
use federation_autoscaler.Controller.Config.{Duration}
use federation_autoscaler.Consumer.Types.{
  NodeGroupListResponse, ResourceRequest, request_phase_eq, migrating,
}
use federation_autoscaler.Consumer.Sizing.{Choice, pick_provider_and_size, multi_chunk_unsupported}
use federation_autoscaler.Consumer.Holding.{set_pending, hold_reservation}
use federation_autoscaler.Consumer.Migration.{
  node_groups_for, multi_chunk_message, release_reservation, maybe_start_migration,
  complete_migration, place,
}
use federation_autoscaler.Consumer.Port
use federation_autoscaler.Consumer.Port.{Agent, RequestReconciler}

-- ctrl.Result.
pub data Requeue : Type 0 where
  done : Requeue
  at_once : Requeue
  after : Duration → Requeue

module _ {F W : Type 0} (r : RequestReconciler F) (c : Agent F W) where
  visit_after : M W Duration → M W Requeue
  visit_after m = do d ← m; pure (after d)

  abbrev pub reservation_id_of : ResourceRequest → String
  reservation_id_of rr = "mr-" ++ rr.uid

  -- The reservation that the status names is released, if it names one.
  unfoldable pub release_recorded : ResourceRequest → M W (Unit {0})
  release_recorded rr =
      if str_eq rr.status.reservation_id ""
      then pure tt
      else release_reservation r c rr.status.reservation_id

  unfoldable pub drop_finalizer : ResourceRequest → M W Requeue
  drop_finalizer rr = do Port.update_request c (record rr { finalizer = false }); pure done

  unfoldable pub finalize_request : ResourceRequest → M W Requeue
  finalize_request rr =
      if rr.finalizer then (do release_recorded rr; drop_finalizer rr) else pure done

  unfoldable pub add_finalizer : ResourceRequest → M W Requeue
  add_finalizer rr = do Port.update_request c (record rr { finalizer = true }); pure at_once

  -- A request with a reservation.
  abbrev pub held_unless : ResourceRequest → Option Duration → M W Duration
  held_unless rr none = hold_reservation r c rr
  held_unless rr (some d) = pure d

  unfoldable pub keep : ResourceRequest → M W Duration
  keep rr = do
    let hold : M W Duration = do moved ← maybe_start_migration r c rr; held_unless rr moved
    if request_phase_eq rr.status.phase migrating then complete_migration r c rr else hold

  -- From what pickProviderAndSize chose.
  abbrev pub chosen : ResourceRequest → Option (Choice F) → M W Duration
  chosen rr none = set_pending r c rr "no provider with enough free capacity yet"
  chosen rr (some best) =
      if multi_chunk_unsupported best.count
      then set_pending r c rr (multi_chunk_message r c best.count)
      else place r c rr (reservation_id_of rr) "reservation failed: " best

  abbrev pub offered : ResourceRequest → Result (NodeGroupListResponse F) → M W Duration
  offered rr (err e) = set_pending r c rr ("broker node groups unavailable: " ++ r.error_text e)
  offered rr (ok resp) = chosen rr (pick_provider_and_size resp.node_groups rr.spec.resources)

  -- A request without one.
  unfoldable pub reserve_first : ResourceRequest → M W Duration
  reserve_first rr = do got ← attempt (node_groups_for r c rr); offered rr got

  unfoldable pub serve : ResourceRequest → M W Requeue
  unfolding visit_after
  serve rr = visit_after (if str_eq rr.status.reservation_id "" then reserve_first rr else keep rr)

  unfoldable pub reconcile_live_request : ResourceRequest → M W Requeue
  reconcile_live_request rr =
      if rr.deleting
      then finalize_request rr
      else if rr.finalizer
      then serve rr
      else add_finalizer rr

  request_verdict : Result ResourceRequest → M W Requeue
  request_verdict (err not_found) = pure done
  request_verdict (err e) = throw e
  request_verdict (ok rr) = if r.has_agent then reconcile_live_request rr else throw other

  unfoldable pub reconcile_request : String → M W Requeue
  unfolding request_verdict
  reconcile_request name = do got ← attempt (Port.get_request c name); request_verdict got
