-- ===== src/Consumer/Holding.antt =====
-- resourcerequest_controller.go: the status writes, and the hold on the borrowed nodes.
use Prim.Native.String.{◌++◌}
use federation_autoscaler.Base.{
  ℕ, suc, String, Bool, true, false, not, ◌&&◌, ◌||◌, Option, some, List, [], ◌∷◌, str_eq,
  if◌then◌else◌, ◌==◌,
}
use federation_autoscaler.Base.Int.{ℤ, pos, negsuc, ltb_ℤ}
use federation_autoscaler.Api.{Time, annotation}
use federation_autoscaler.Kube.Core.{
  not_found, Result, ok, err, M, pure, throw, attempt, ◌>>=◌, ◌>>◌,
}
use federation_autoscaler.Controller.Config.{Duration}
use federation_autoscaler.Consumer.Types.{
  Node, ResourceRequest, ResourceRequestPhase, ResourceRequestStatus, request_phase_eq, pending,
  reserved, active, failed,
}
use federation_autoscaler.Consumer.Port
use federation_autoscaler.Consumer.Port.{Agent, RequestReconciler}

-- 15, 30 and 60 seconds.
abbrev pub pending_requeue : Duration
pending_requeue = pos 15_000_000_000

abbrev pub failed_requeue : Duration
failed_requeue = pos 30_000_000_000

abbrev pub hold_requeue : Duration
hold_requeue = pos 60_000_000_000

abbrev pub scale_down_disabled_annotation : String
scale_down_disabled_annotation = "cluster-autoscaler.kubernetes.io/scale-down-disabled"

abbrev is_zero_count : ℤ → Bool
is_zero_count (pos n) = n == 0
is_zero_count (negsuc n) = false

abbrev same_ℤ : ℤ → ℤ → Bool
same_ℤ a b = not (ltb_ℤ a b) && not (ltb_ℤ b a)

-- What a status write puts in: the phase, the message, and the reservation where it is not empty.
pub record Change : Type 0 where
  pub phase : ResourceRequestPhase
  pub message : String
  pub reservation_id : String
  pub provider : String
  pub count : ℤ

-- `changed` of writePhase.
unfoldable pub is_changed : ResourceRequestStatus → Change → Bool
is_changed st new =
    not (request_phase_eq st.phase new.phase)
    || (not (str_eq st.message new.message)
        || ((not (str_eq new.reservation_id "")
              && not (str_eq st.reservation_id new.reservation_id))
            || ((not (str_eq new.provider "") && not (str_eq st.provider_cluster_id new.provider))
                || (not (is_zero_count new.count) && not (same_ℤ st.chunk_count new.count)))))

-- The fields that writePhase assigns but the time of the transition.
unfoldable pub changed : Change → ResourceRequestStatus → ResourceRequestStatus
changed new st = record st {
  phase = new.phase;
  message = new.message;
  reservation_id = if str_eq new.reservation_id "" then st.reservation_id else new.reservation_id;
  provider_cluster_id = if str_eq new.provider "" then st.provider_cluster_id else new.provider;
  chunk_count = if is_zero_count new.count then st.chunk_count else new.count;
}

-- A change of phase and message alone.
abbrev pub only_phase : ResourceRequestPhase → String → Change
only_phase phase message = record {
  phase = phase;
  message = message;
  reservation_id = "";
  provider = "";
  count = pos 0;
}

module _ {F W : Type 0} (r : RequestReconciler F) (c : Agent F W) where
  -- LastTransitionTime, where the phase changes.
  unfoldable pub transition_time : ResourceRequest → Change → M W (Option Time)
  transition_time rr new = do
    let stamp : M W (Option Time) = do now ← Port.now c; pure (some now)
    if request_phase_eq rr.status.phase new.phase
        then pure rr.status.last_transition_time
        else stamp

  unfoldable pub write_phase : ResourceRequest → Change → M W (Unit {0})
  write_phase rr new = do
    let write : M W (Unit {0}) = do
      time ← transition_time rr new
      Port.update_request_status c
          (record rr { status = record (changed new rr.status) { last_transition_time = time } })
      pure tt
    if is_changed rr.status new then write else pure tt

  unfoldable pub set_pending : ResourceRequest → String → M W Duration
  set_pending rr message = do write_phase rr (only_phase pending message); pure pending_requeue

  unfoldable pub set_failed : ResourceRequest → String → M W Duration
  set_failed rr message = do write_phase rr (only_phase failed message); pure failed_requeue

  abbrev pub reserved_change : String → String → ℤ → Change
  reserved_change id provider count = record {
    phase = reserved;
    message = "reserved " ++ (r.decimal count ++ (" chunk(s) on " ++ provider));
    reservation_id = id;
    provider = provider;
    count = count;
  }

  unfoldable pub set_phase_reserved : ResourceRequest → String → String → ℤ → M W Duration
  set_phase_reserved rr id provider count = do
    write_phase rr (reserved_change id provider count)
    pure pending_requeue

  -- disableScaleDown, from the answer of the read.
  protect : Result Node → M W Bool
  protect (err not_found) = pure false
  protect (err e) = throw e
  protect (ok node) = do
    let marked = record node {
      annotations = (scale_down_disabled_annotation, "true") ∷ node.annotations;
    }
    let patch : M W Bool = do Port.patch_node c marked; pure true
    if str_eq (annotation scale_down_disabled_annotation node.annotations) "true"
        then pure true
        else patch

  unfoldable pub disable_scale_down : String → M W Bool
  unfolding protect
  disable_scale_down name = do got ← attempt (Port.get_node c name); protect got

  -- The loop of protectReservationNodes over the names of the nodes.
  unfoldable pub protect_all : ℕ → List String → M W ℕ
  protect_all n [] = pure n
  protect_all n (name ∷ names) =
      if str_eq name ""
      then protect_all n names
      else (do ok? ← disable_scale_down name; protect_all (if ok? then suc n else n) names)

  unfoldable pub protect_reservation_nodes : String → M W ℕ
  protect_reservation_nodes id = do names ← Port.list_virtual_nodes c id; protect_all 0 names

  abbrev pub held_change : ResourceRequest → ℕ → Change
  held_change rr n =
      if n == 0
      then only_phase reserved
          ("reserved on " ++ (rr.status.provider_cluster_id ++ "; waiting for the virtual node"))
      else only_phase active (
          "held on "
          ++ (rr.status.provider_cluster_id
              ++ (" — " ++ (r.decimal (pos n) ++ " node(s) protected from autoscaler scale-down"))))

  unfoldable pub report_held : ResourceRequest → ℕ → M W Duration
  report_held rr n = do
    write_phase rr (held_change rr n)
    pure (if n == 0 then pending_requeue else hold_requeue)

  unfoldable pub hold_reservation : ResourceRequest → M W Duration
  hold_reservation rr = do
    protected ← protect_reservation_nodes rr.status.reservation_id
    report_held rr protected
