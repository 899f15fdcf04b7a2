-- ===== src/Broker/Applied.antt =====
-- internal/broker/api/instructions.go, applyReservationResult: what a consumer's result does to the
-- Reservation and to the instruction.
use federation_autoscaler.Base.{
  String, Bool, true, false, not, ◌≡◌, ◌≢◌, refl, ◌⊎◌, inl, inr, List, ◌∷◌, Option, none, str_eq,
  arith, eq_iff, if◌then◌else◌,
}
use federation_autoscaler.Api.{
  ReservationInstruction, ReservationInstructionKind, peered, released, unpeering, failed,
  phase_eq_iff,
}
use federation_autoscaler.Kube.Core.{
  Client, M, Run, Event, Result, ok, err, attempt, pure, ◌>>=◌, wrote_reservation_status,
  read_reservation, wrote_reservation_instruction_status,
}
use federation_autoscaler.Broker.Opened.{IsOpen}
use federation_autoscaler.Broker.Server.{Answer, answered, rejected, taken}
use federation_autoscaler.Broker.Results.{
  Outcome, succeeded, failure, Payload, enforced_at, advance_from, apply_peer_payload,
  apply_unpeer_payload, mark_reservation_enforced, reservation_effect, apply_reservation_result,
}

-- The Reservation of the id was read and then its phase set to Peered, from any phase.
abbrev pub IsPeered : String → List Event → List Event → Type 0
IsPeered id before (wrote_reservation_status b new ∷ read_reservation k (ok old) ∷ log) =
    (b ≡ true) × (k ≡ id) × (new.status.phase ≡ peered) × (log ≡ before)
IsPeered id before _ = ⊥

-- It was read, and its phase was set to Released if it was Unpeering and only then.
abbrev pub IsWoundUp : String → List Event → List Event → Type 0
IsWoundUp id before (wrote_reservation_status b new ∷ read_reservation k (ok old) ∷ log) =
    (k ≡ id) × (old.status.phase ≡ unpeering) × (new.status.phase ≡ released) × (log ≡ before)
IsWoundUp id before (read_reservation k (ok old) ∷ log) =
    (k ≡ id) × (old.status.phase ≢ unpeering) × (log ≡ before)
IsWoundUp id before (read_reservation k (err e) ∷ log) = (k ≡ id) × (log ≡ before)
IsWoundUp id before _ = ⊥

-- It was read, and if that succeeded its phase was set to Failed, from any phase.
abbrev pub IsFailed : String → List Event → List Event → Type 0
IsFailed id before (wrote_reservation_status b new ∷ read_reservation k (ok old) ∷ log) =
    (k ≡ id) × (new.status.phase ≡ failed) × (log ≡ before)
IsFailed id before (read_reservation k (err e) ∷ log) = (k ≡ id) × (log ≡ before)
IsFailed id before _ = ⊥

abbrev pub IsEffect :
    ReservationInstructionKind → Outcome → String → List Event → List Event → Type 0
IsEffect ReservationInstructionKind.peer (succeeded p) id before log = IsPeered id before log
IsEffect ReservationInstructionKind.unpeer (succeeded p) id before log = IsWoundUp id before log
IsEffect ReservationInstructionKind.cleanup (succeeded p) id before log = log ≡ before
IsEffect ReservationInstructionKind.reconcile (succeeded p) id before log = log ≡ before
IsEffect kind (failure message) id before log = IsFailed id before log

-- The instruction was marked as enforced, after what is asked of the log before.
abbrev pub IsMarkedAfter : ReservationInstruction → (List Event → Type 0) → List Event → Type 0
IsMarkedAfter ri P (wrote_reservation_instruction_status b new ∷ log) =
    (b ≡ true) × (new.name ≡ ri.name) × (new.status.enforced ≡ true) × P log
IsMarkedAfter ri P _ = ⊥

-- The last request was not an accepted mark.
abbrev pub IsUnmarked : List Event → Type 0
IsUnmarked (wrote_reservation_instruction_status b new ∷ log) = b ≡ false
IsUnmarked _ = Unit

-- What an answer to a result says of the log before and after.
abbrev pub IsApplied :
    String → ReservationInstruction → Outcome → List Event → Result Answer → List Event → Type 0
IsApplied caller ri outcome before (ok taken) after =
    ((ri.spec.target_cluster_id ≡ caller) × (ri.status.enforced ≡ true) × (after ≡ before))
    ⊎ (IsOpen caller ri.spec.target_cluster_id ri.status.enforced
        × IsMarkedAfter ri (IsEffect ri.spec.kind outcome ri.spec.reservation_id before) after)
IsApplied caller ri outcome before (ok (rejected code)) after =
    ((code ≡ 403) × (ri.spec.target_cluster_id ≢ caller) × (after ≡ before))
    ⊎ ((code ≡ 500) × IsOpen caller ri.spec.target_cluster_id ri.status.enforced × IsUnmarked after)
IsApplied caller ri outcome before (ok (answered code resv)) after = ⊥
IsApplied caller ri outcome before (err e) after = ⊥

module _ {W : Type 0} (c : Client W) where
  unpeer-IsWoundUp :
      (ri : ReservationInstruction) (s : Run W)
      → IsWoundUp ri.spec.reservation_id s.log (apply_unpeer_payload c ri s).1.log
  unfolding apply_unpeer_payload advance_from
  unpeer-IsWoundUp ri s = grind (arith, phase_eq_iff)

  failure-IsFailed :
      (ri : ReservationInstruction) (s : Run W)
      → IsFailed ri.spec.reservation_id s.log
          (attempt (advance_from c none ri.spec.reservation_id failed) s).1.log
  unfolding advance_from
  failure-IsFailed ri s = ground arith

  -- What the effect of a result leaves in the log, as it succeeds or fails.
  abbrev Leaves :
      ReservationInstructionKind
      → Outcome
      → String
      → List Event
      → Result (Unit {0})
      → List Event
      → Type 0
  Leaves kind outcome id before (ok x) after = IsEffect kind outcome id before after
  Leaves kind outcome id before (err e) after = IsUnmarked after

  peer-Leaves :
      (ri : ReservationInstruction) (p : Option Payload) (s : Run W)
      → Leaves ReservationInstructionKind.peer
          (succeeded p)
          ri.spec.reservation_id
          s.log
          (apply_peer_payload c ri p s).0
          (apply_peer_payload c ri p s).1.log
  unfolding apply_peer_payload
  peer-Leaves ri p s = ground arith

  reservation_effect-Leaves :
      (kind : ReservationInstructionKind) (ri : ReservationInstruction) (outcome : Outcome)
      (s : Run W)
      → Leaves kind outcome ri.spec.reservation_id s.log
          (reservation_effect c kind ri outcome s).0
          (reservation_effect c kind ri outcome s).1.log
  unfolding reservation_effect apply_unpeer_payload
  reservation_effect-Leaves ReservationInstructionKind.peer ri (succeeded p) s = peer-Leaves ri p s
  reservation_effect-Leaves ReservationInstructionKind.unpeer ri (succeeded p) s =
      unpeer-IsWoundUp ri s
  reservation_effect-Leaves ReservationInstructionKind.cleanup ri (succeeded p) s = refl
  reservation_effect-Leaves ReservationInstructionKind.reconcile ri (succeeded p) s = refl
  reservation_effect-Leaves ReservationInstructionKind.peer ri (failure m) s = failure-IsFailed ri s
  reservation_effect-Leaves ReservationInstructionKind.unpeer ri (failure m) s =
      failure-IsFailed ri s
  reservation_effect-Leaves ReservationInstructionKind.cleanup ri (failure m) s =
      failure-IsFailed ri s
  reservation_effect-Leaves ReservationInstructionKind.reconcile ri (failure m) s =
      failure-IsFailed ri s

  -- The mark after the effect.
  marked-IsApplied :
      (caller : String) (ri : ReservationInstruction) (outcome : Outcome) (before : List Event)
      (a : Result (Unit {0})) (t : Run W)
      → IsOpen caller ri.spec.target_cluster_id ri.status.enforced
      → Leaves ri.spec.kind outcome ri.spec.reservation_id before a t.log
      → (let m : M W (Unit {0}) =
            λ u. elim a [ ok x ↦ mark_reservation_enforced c ri u | err e ↦ (err e, u) ] in
          let out : Result Answer × Run W =
            (attempt m >>= λ applied. elim applied [
              | err e ↦ pure (rejected 500)
              | ok x ↦ pure taken
            ])
              t in
          IsApplied caller ri outcome before out.0 out.1.log)
  unfolding mark_reservation_enforced enforced_at
  marked-IsApplied caller ri outcome before (err e) t o h = inr (refl, o, h)
  marked-IsApplied caller ri outcome before (ok x) t o h = ground arith

  -- Whatever the server answers, a consumer's result is taken or rejected. A rejection with 403 means
  -- that the instruction is not the caller's; nothing is sent then, nor for an instruction of the
  -- caller that is enforced already, whose result is taken. Otherwise the result is taken only after
  -- an accepted mark of the instruction as enforced, directly behind what its kind calls for. A
  -- success of a Peer brings the Reservation that is read to Peered, from any phase and with an
  -- accepted write; one of an Unpeer asks for Released if Unpeering was read, and else for nothing;
  -- one of another kind asks for nothing; a failure asks for Failed, from any phase. A rejection with
  -- 500 does not end with an accepted mark.
  pub apply_reservation_result-IsApplied :
      (ri : ReservationInstruction) (outcome : Outcome) (caller : String) (s : Run W)
      → IsApplied caller ri outcome s.log
          (apply_reservation_result c ri outcome caller s).0
          (apply_reservation_result c ri outcome caller s).1.log
  unfolding apply_reservation_result
  apply_reservation_result-IsApplied ri outcome caller s =
      by_tests (str_eq ri.spec.target_cluster_id caller) ri.status.enforced refl refl
    where
      act : M W Answer
      act =
          attempt
            (reservation_effect c ri.spec.kind ri outcome >>= λ _. mark_reservation_enforced c ri)
          >>= λ applied. elim applied [ err e ↦ pure (rejected 500) | ok x ↦ pure taken ]

      by_tests :
          (x y : Bool)
          → str_eq ri.spec.target_cluster_id caller ≡ x
          → ri.status.enforced ≡ y
          → (let m : M W Answer =
                if not x then pure (rejected 403) else if y then pure taken else act in
              IsApplied caller ri outcome s.log (m s).0 (m s).1.log)
      by_tests false y e g =
          inl (
            refl,
            (λ p. let h = (eq_iff ri.spec.target_cluster_id caller).1 p in ground arith),
            refl,
          )
      by_tests true true e g = inl ((eq_iff ri.spec.target_cluster_id caller).0 e, g, refl)
      by_tests true false e g =
          let out = reservation_effect c ri.spec.kind ri outcome s in
          marked-IsApplied caller ri outcome s.log out.0 out.1
            ((eq_iff ri.spec.target_cluster_id caller).0 e, g)
            (reservation_effect-Leaves ri.spec.kind ri outcome s)
