-- ===== src/Instructions/Expiry.antt =====
-- What the housekeeping does to the Reservation behind an instruction, and when it comes back.
use federation_autoscaler.Base.{
  String, false, ◌≡◌, ◌<◌, ◌≤◌, arith, List, [], ◌∷◌, Option, none, some,
}
use federation_autoscaler.Api.{
  Time, failed, ProviderInstruction, ReservationInstruction, InstructionStatus,
}
use federation_autoscaler.Kube.Core
use federation_autoscaler.Kube.Core.{
  Client, M, Run, Event, Result, ok, err, wrote_reservation_status, read_reservation,
}
use federation_autoscaler.Controller.Config.{Duration, later, is_reservation_terminal}
use federation_autoscaler.Instructions.Wakeup.{wake_at, instruction_wakeup}
use federation_autoscaler.Instructions.Housekeeping.{
  no_requeue, fail_parent_reservation_on_expiry, drop_instruction, enforced_expired, schedule,
  overdue, tend, visit_provider, visit_reservation, on_provider, on_reservation,
  reconcile_provider_instruction, reconcile_reservation_instruction,
}

-- Each status of a Reservation that is sent asks for Failed, and comes directly after a read of the
-- Reservation in a phase that is not terminal.
abbrev pub FailsLive : List Event → Type 0
FailsLive [] = Unit
FailsLive (wrote_reservation_status b new ∷ read_reservation k (ok old) ∷ log) =
    (is_reservation_terminal old.status.phase ≡ false) × (new.status.phase ≡ failed) × FailsLive log
FailsLive (wrote_reservation_status b new ∷ log) = ⊥
FailsLive (_ ∷ log) = FailsLive log

-- A wake-up that is set for an instant in the future comes at exactly that instant.
pub instruction_wakeup_lem :
    (now wake : Time) (expires_at : Option Time) (status : InstructionStatus) (ttl : Duration)
    → wake_at expires_at status ttl ≡ some wake
    → now < wake
    → later now (instruction_wakeup now expires_at status ttl) ≡ wake
unfolding instruction_wakeup
instruction_wakeup_lem now wake expires_at status ttl h k = ground arith

module _ {W : Type 0} (c : Client W) where
  fail_parent-FailsLive :
      (id : String) (s : Run W)
      → FailsLive s.log
      → FailsLive (fail_parent_reservation_on_expiry c id s).1.log
  unfolding fail_parent_reservation_on_expiry
  fail_parent-FailsLive id s h = ground arith

  module _ (setting : Duration) (delete : M W (Unit {0})) where
    tend-FailsLive :
        ((s : Run W) → FailsLive s.log → FailsLive (delete s).1.log)
        → (id : String) (expires_at : Option Time) (status : InstructionStatus) (s : Run W)
        → FailsLive s.log
        → FailsLive (tend c setting delete id expires_at status s).1.log
    unfolding tend drop_instruction enforced_expired schedule overdue
    tend-FailsLive keep id expires_at status s h = grind (arith, keep, fail_parent-FailsLive)

    -- Where the deadline of an open instruction passes between the two looks at the clock, the
    -- pass asks for no further visit.
    pub tend_misses_deadline :
        (id : String) (status : InstructionStatus) (deadline now now' : Time) (w1 w2 : W)
        (s : Run W)
        → status.enforced ≡ false
        → c.now s.world ≡ (now, w1)
        → now < deadline
        → c.now w1 ≡ (now', w2)
        → deadline ≤ now'
        → (tend c setting delete id (some deadline) status s).0 ≡ ok no_requeue
    unfolding tend schedule overdue instruction_wakeup wake_at
    tend_misses_deadline id status deadline now now' w1 w2 s e h k h' k' = ground arith

module _ {W : Type 0} (c : Client W) (setting : Duration) where
  visit_provider-FailsLive :
      (pi : ProviderInstruction) (issued : Option Time) (s : Run W)
      → FailsLive s.log
      → FailsLive (visit_provider c setting pi issued s).1.log
  unfolding visit_provider
  visit_provider-FailsLive pi none s h = ground arith
  visit_provider-FailsLive pi (some issued) s h =
      tend-FailsLive c setting (Core.delete_provider_instruction c pi) (λ u k. k)
        pi.spec.reservation_id pi.spec.expires_at pi.status s h

  on_provider-FailsLive :
      (got : Result ProviderInstruction) (s : Run W)
      → FailsLive s.log
      → FailsLive (on_provider c setting got s).1.log
  unfolding on_provider
  on_provider-FailsLive (err e) s h = ground arith
  on_provider-FailsLive (ok pi) s h = visit_provider-FailsLive pi pi.status.issued_at s h

  -- Whatever the server answers, every Reservation status that a pass over a ProviderInstruction sends
  -- asks for Failed, directly after a read of the Reservation in a phase that is not terminal.
  -- The log before is assumed to have this property.
  pub reconcile_provider_instruction-FailsLive :
      (name : String) (s : Run W)
      → FailsLive s.log
      → FailsLive (reconcile_provider_instruction c setting name s).1.log
  unfolding reconcile_provider_instruction
  reconcile_provider_instruction-FailsLive name s h =
      on_provider-FailsLive (c.get_provider_instruction name s.world).0
        (record s { world = (c.get_provider_instruction name s.world).1 }) h

  visit_reservation-FailsLive :
      (ri : ReservationInstruction) (issued : Option Time) (s : Run W)
      → FailsLive s.log
      → FailsLive (visit_reservation c setting ri issued s).1.log
  unfolding visit_reservation
  visit_reservation-FailsLive ri none s h = ground arith
  visit_reservation-FailsLive ri (some issued) s h =
      tend-FailsLive c setting (Core.delete_reservation_instruction c ri) (λ u k. k)
        ri.spec.reservation_id ri.spec.expires_at ri.status s h

  on_reservation-FailsLive :
      (got : Result ReservationInstruction) (s : Run W)
      → FailsLive s.log
      → FailsLive (on_reservation c setting got s).1.log
  unfolding on_reservation
  on_reservation-FailsLive (err e) s h = ground arith
  on_reservation-FailsLive (ok ri) s h = visit_reservation-FailsLive ri ri.status.issued_at s h

  -- Whatever the server answers, every Reservation status that a pass over a ReservationInstruction
  -- sends asks for Failed, directly after a read of the Reservation in a phase that is not terminal.
  -- The log before is assumed to have this property.
  pub reconcile_reservation_instruction-FailsLive :
      (name : String) (s : Run W)
      → FailsLive s.log
      → FailsLive (reconcile_reservation_instruction c setting name s).1.log
  unfolding reconcile_reservation_instruction
  reconcile_reservation_instruction-FailsLive name s h =
      on_reservation-FailsLive (c.get_reservation_instruction name s.world).0
        (record s { world = (c.get_reservation_instruction name s.world).1 }) h
