-- ===== src/Instructions/Housekeeping.antt =====
-- failParentReservationOnExpiry of instruction.go, and Reconcile of providerinstruction_controller.go
-- and reservationinstruction_controller.go, which differ only in the kind of instruction.
use federation_autoscaler.Base.{
  zero, String, Bool, false, Option, none, some, leb, str_eq, if◌then◌else◌,
}
use federation_autoscaler.Base.Int.{pos, leb_ℤ}
use federation_autoscaler.Api.{
  Time, Reservation, failed, ProviderInstruction, ReservationInstruction, InstructionStatus,
}
use federation_autoscaler.Kube.Core
use federation_autoscaler.Kube.Core.{
  Client, M, Result, ok, err, not_found, pure, throw, attempt, ◌>>=◌, ◌>>◌,
}
use federation_autoscaler.Controller.Config.{Duration, since, is_reservation_terminal}
use federation_autoscaler.Instructions.Wakeup.{enforced_ttl, instruction_wakeup}

-- ctrl.Result: nothing, Requeue, or RequeueAfter.
pub data Visit : Type 0 where
  no_requeue requeue : Visit
  requeue_after : Duration → Visit

-- The result for a delay: none at all where it is zero.
abbrev pub visit_of : Duration → Visit
visit_of (pos zero) = no_requeue
visit_of d = requeue_after d

abbrev dropped : {W : Type 0} → Result (Unit {0}) → M W Visit
dropped (ok _) = pure no_requeue
dropped (err not_found) = pure no_requeue
dropped (err refused) = throw refused

module _ {W : Type 0} (c : Client W) where
  fail_parent : Result Reservation → M W (Unit {0})
  fail_parent (err not_found) = pure tt
  fail_parent (err refused) = throw refused
  fail_parent (ok resv) = do
    let write : M W (Unit {0}) = do
      Core.update_reservation_status c (record resv {
        status = record resv.status {
          phase = failed;
          observed_generation = resv.metadata.generation;
        };
      })
      pure tt
    if is_reservation_terminal resv.status.phase then pure tt else write

  unfoldable pub fail_parent_reservation_on_expiry : String → M W (Unit {0})
  unfolding fail_parent
  fail_parent_reservation_on_expiry reservation_id =
      if str_eq reservation_id ""
      then pure tt
      else (do got ← attempt (Core.get_reservation c reservation_id); fail_parent got)

  -- The parts of Reconcile that do not depend on the kind: `delete` is the Delete of the instruction.
  module _ (setting : Duration) (delete : M W (Unit {0})) where
    unfoldable pub drop_instruction : M W Visit
    drop_instruction = do gone ← attempt delete; dropped gone

    unfoldable pub enforced_expired : Option Time → M W Bool
    enforced_expired last_update = elim last_update [
      | none ↦ pure false
      | some t ↦ (do now ← Core.now c; pure (leb_ℤ (enforced_ttl setting) (since now t)))
    ]

    unfoldable pub schedule : Option Time → InstructionStatus → M W Visit
    schedule expires_at status = do
      now ← Core.now c
      pure (visit_of (instruction_wakeup now expires_at status (enforced_ttl setting)))

    unfoldable pub overdue : Option Time → M W Bool
    overdue expires_at = elim expires_at [
      | none ↦ pure false
      | some deadline ↦ (do now ← Core.now c; pure (leb deadline now))
    ]

    -- An instruction with its IssuedAt.
    unfoldable pub tend : String → Option Time → InstructionStatus → M W Visit
    tend reservation_id expires_at status = do
      let expire : M W Visit = do fail_parent_reservation_on_expiry reservation_id; drop_instruction
      let of_enforced : M W Visit = do
        over ← enforced_expired status.last_update_time
        if over then drop_instruction else schedule expires_at status
      let of_open : M W Visit = do
        late ← overdue expires_at
        if late then expire else schedule expires_at status
      if status.enforced then of_enforced else of_open

  -- IssuedAt is stamped on the first pass.
  stamp_provider : ProviderInstruction → M W Visit
  stamp_provider pi = do
    now ← Core.now c
    Core.update_provider_instruction_status c (record pi {
      status = record pi.status { issued_at = some now; observed_generation = pi.generation };
    })
    pure requeue

  stamp_reservation : ReservationInstruction → M W Visit
  stamp_reservation ri = do
    now ← Core.now c
    Core.update_reservation_instruction_status c (record ri {
      status = record ri.status { issued_at = some now; observed_generation = ri.generation };
    })
    pure requeue

  -- By whether IssuedAt is set.
  unfoldable pub visit_provider : Duration → ProviderInstruction → Option Time → M W Visit
  unfolding stamp_provider
  visit_provider setting pi none = stamp_provider pi
  visit_provider setting pi (some issued) =
      tend setting (Core.delete_provider_instruction c pi) pi.spec.reservation_id pi.spec.expires_at
        pi.status

  unfoldable pub on_provider : Duration → Result ProviderInstruction → M W Visit
  on_provider setting (err not_found) = pure no_requeue
  on_provider setting (err refused) = throw refused
  on_provider setting (ok pi) = visit_provider setting pi pi.status.issued_at

  -- By whether IssuedAt is set.
  unfoldable pub visit_reservation : Duration → ReservationInstruction → Option Time → M W Visit
  unfolding stamp_reservation
  visit_reservation setting ri none = stamp_reservation ri
  visit_reservation setting ri (some issued) =
      tend setting (Core.delete_reservation_instruction c ri) ri.spec.reservation_id
        ri.spec.expires_at ri.status

  unfoldable pub on_reservation : Duration → Result ReservationInstruction → M W Visit
  on_reservation setting (err not_found) = pure no_requeue
  on_reservation setting (err refused) = throw refused
  on_reservation setting (ok ri) = visit_reservation setting ri ri.status.issued_at

  unfoldable pub reconcile_provider_instruction : Duration → String → M W Visit
  reconcile_provider_instruction setting name = do
    got ← attempt (Core.get_provider_instruction c name)
    on_provider setting got

  unfoldable pub reconcile_reservation_instruction : Duration → String → M W Visit
  reconcile_reservation_instruction setting name = do
    got ← attempt (Core.get_reservation_instruction c name)
    on_reservation setting got
