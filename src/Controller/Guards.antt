-- ===== src/Controller/Guards.antt =====
-- The guards that Reconcile applies to every live Reservation: expiry and provider availability.
use federation_autoscaler.Base.{Bool, true, false, none, some, leb, if◌then◌else◌, ◌==◌}
use federation_autoscaler.Base.Int.{pos}
use federation_autoscaler.Api.{
  Time, Reservation, ClusterAdvertisement, unpeering, expired, failed, phase_eq,
}
use federation_autoscaler.Kube.Core
use federation_autoscaler.Kube.Core.{
  Client, M, Result, ok, err, ApiError, not_found, pure, throw, attempt, ◌>>=◌, ◌>>◌,
}
use federation_autoscaler.Controller.Config.{
  Reconciler, Duration, timeout, later, since, is_reservation_terminal, needs_consumer_cleanup,
}
use federation_autoscaler.Controller.Emit.{advance_phase, emit_consumer_cleanup}

-- The creation time that the deadline counts from.
abbrev created_or_observed : Reservation → Time
created_or_observed resv = elim resv.status.created_at [
  | none ↦ resv.metadata.creation_timestamp
  | some t ↦ t
]

-- The status that ensureExpiry writes where there is no deadline yet.
unfoldable pub with_expiry : Reconciler → Reservation → Reservation
with_expiry r resv = record resv {
  status = record resv.status {
    created_at = some (created_or_observed resv);
    expires_at = some (later (created_or_observed resv) (timeout r));
    observed_generation =
        if resv.status.observed_generation == 0
        then resv.metadata.generation
        else resv.status.observed_generation;
  };
}

module _ {W : Type 0} (c : Client W) (r : Reconciler) where
  -- Status().Update writes the server's answer back into the Reservation.
  unfoldable pub ensure_expiry : Reservation → M W Reservation
  ensure_expiry resv = elim resv.status.expires_at [
    | some t ↦ pure resv
    | none ↦ Core.update_reservation_status c (with_expiry r resv)
  ]

  -- Whether the Reservation is expired, and the time to its deadline if it is not.
  unfoldable pub check_deadline : Reservation → Time → M W (Bool × Duration)
  check_deadline resv deadline =
      if is_reservation_terminal resv.status.phase then pure (false, pos 0) else (do
        now ← Core.now c
        let flip : M W (Bool × Duration) = do
          attempt (advance_phase c resv expired)
          pure (true, pos 0)
        let wait : M W (Bool × Duration) = do now' ← Core.now c; pure (false, since deadline now')
        if leb deadline now then flip else wait)

  unfoldable pub check_expired : Reservation → M W (Bool × Duration)
  unfolding check_deadline
  check_expired resv = elim resv.status.expires_at [
    | none ↦ pure (false, pos 0)
    | some deadline ↦ check_deadline resv deadline
  ]

  -- A provider that is gone or unavailable fails the Reservation.
  unfoldable pub abandon : Reservation → M W Bool
  abandon resv = do
    let cleaned : M W (Unit {0}) =
        if needs_consumer_cleanup resv.status.phase
        then emit_consumer_cleanup c resv true
        else pure tt
    cleaned
    advance_phase c resv failed
    pure true

  unfoldable pub provider_verdict : Reservation → Result ClusterAdvertisement → M W Bool
  provider_verdict resv (ok cadv) = if cadv.status.available then pure false else abandon resv
  provider_verdict resv (err not_found) = abandon resv
  provider_verdict resv (err refused) = throw refused

  unfoldable pub check_provider_available : Reservation → M W Bool
  unfolding provider_verdict abandon
  check_provider_available resv =
      if is_reservation_terminal resv.status.phase
      then pure false
      else if phase_eq resv.status.phase unpeering
      then pure false
      else (do
        got ← attempt (Core.get_advertisement c resv.spec.provider_cluster_id)
        provider_verdict resv got)
