-- ===== src/Controller/LastChunk.antt =====
-- The LastChunk flag of the instructions that wind a peering down.
use federation_autoscaler.Base.{
  Bool, true, false, not, List, [], ◌∷◌, ◌≡◌, refl, arith, any, eq_iff, ◌≢◌, All,
}
use federation_autoscaler.Api.{
  Reservation, ReservationPhase, ReservationInstruction, ReservationInstructionKind, unpeering,
  released, expired, failed,
}
use federation_autoscaler.Kube.Core.{
  Client, Result, Run, Event, ok, err, listed_reservations, created_reservation_instruction,
}
use federation_autoscaler.Controller.Config.{Reconciler, is_reservation_terminal}
use federation_autoscaler.Controller.Emit.{
  is_sibling, is_holding, any_other_sibling, has_other_holding_reservation, ensure_instruction,
  ensure_shared_reservation_instruction, emit_consumer_cleanup, consumer_instruction,
}
use federation_autoscaler.Controller.Handlers.{handle_unpeering}
use federation_autoscaler.Controller.Names.{
  reservation_instruction_unpeer_name, reservation_instruction_cleanup_name,
}

-- A Reservation that still needs the peering of `resv`: another one of the same pair that is neither
-- being deleted, nor over, nor winding down itself.
pub record Holds (resv other : Reservation) : Type 0 where
  pub another : other.metadata.name ≢ resv.metadata.name
  pub same_consumer : other.spec.consumer_cluster_id ≡ resv.spec.consumer_cluster_id
  pub same_provider : other.spec.provider_cluster_id ≡ resv.spec.provider_cluster_id
  pub kept : other.metadata.deleting ≡ false
  pub not_released : other.status.phase ≢ released
  pub not_expired : other.status.phase ≢ expired
  pub not_failed : other.status.phase ≢ failed
  pub not_unpeering : other.status.phase ≢ unpeering

is_holding-true :
    (p : ReservationPhase)
    → p ≢ released
    → p ≢ expired
    → p ≢ failed
    → p ≢ unpeering
    → is_holding p ≡ true
unfolding is_holding is_reservation_terminal
is_holding-true p h1 h2 h3 h4 = ground (arith)

is_sibling_of_Holds :
    (resv other : Reservation) → Holds resv other → is_sibling is_holding resv other ≡ true
unfolding is_sibling
is_sibling_of_Holds resv other h = ground (
  arith,
  is_holding-true other.status.phase h.not_released h.not_expired h.not_failed h.not_unpeering,
  eq_iff other.metadata.name resv.metadata.name,
  eq_iff other.spec.consumer_cluster_id resv.spec.consumer_cluster_id,
  eq_iff other.spec.provider_cluster_id resv.spec.provider_cluster_id,
)

none-Holds :
    (resv : Reservation) (items : List Reservation)
    → any (is_sibling is_holding resv) items ≡ false
    → All (λ other. ¬ Holds resv other) items
none-Holds resv [] h = tt
none-Holds resv (x ∷ xs) h =
    ((λ k. cc (is_sibling_of_Holds resv x k, h)), none-Holds resv xs (ground arith))

-- The last list that was read holds nobody who needs the peering.
abbrev pub NobodyHolds : Reservation → List Event → Type 0
NobodyHolds resv [] = ⊥
NobodyHolds resv (listed_reservations (ok items) ∷ log) = All (λ other. ¬ Holds resv other) items
NobodyHolds resv (_ ∷ log) = NobodyHolds resv log

-- Each instruction that is created with LastChunk set comes after such a list.
abbrev pub LastChunkSafe : Reservation → List Event → Type 0
LastChunkSafe resv [] = Unit
LastChunkSafe resv (created_reservation_instruction b ri ∷ log) =
    (ri.spec.last_chunk ≡ true → NobodyHolds resv log) × LastChunkSafe resv log
LastChunkSafe resv (_ ∷ log) = LastChunkSafe resv log

-- controllerutil.SetControllerReference touches the owner references only.
abbrev pub KeepsSpec : {W : Type 0} → Client W → Type 0
KeepsSpec c =
    (resv : Reservation) (ri owned : ReservationInstruction)
    → c.set_controller_reference resv ri ≡ ok owned
    → owned.spec ≡ ri.spec

module _ {W : Type 0} (c : Client W) where
  holding-Nobody :
      (resv : Reservation) (s : Run W)
      → (has_other_holding_reservation c resv s).0 ≡ ok false
      → NobodyHolds resv (has_other_holding_reservation c resv s).1.log
  unfolding has_other_holding_reservation any_other_sibling
  holding-Nobody resv s h = grind (arith, none-Holds)

  holding-Safe :
      (resv : Reservation) (s : Run W)
      → LastChunkSafe resv s.log
      → LastChunkSafe resv (has_other_holding_reservation c resv s).1.log
  unfolding has_other_holding_reservation any_other_sibling
  holding-Safe resv s h = ground arith

  ensure_instruction-Safe :
      (resv : Reservation) (ri : ReservationInstruction) (s : Run W)
      → KeepsSpec c
      → (ri.spec.last_chunk ≡ true → NobodyHolds resv s.log)
      → LastChunkSafe resv s.log
      → LastChunkSafe resv (ensure_instruction c resv ri s).1.log
  unfolding ensure_instruction
  ensure_instruction-Safe resv ri s keeps safe h = go (c.set_controller_reference resv ri) refl
    where
      go :
          (o : Result ReservationInstruction)
          → c.set_controller_reference resv ri ≡ o
          → LastChunkSafe resv (ensure_instruction c resv ri s).1.log
      go (err e) q = ground (arith, q)
      go (ok owned) q =
          let same = keeps resv ri owned q in
          let safe' : owned.spec.last_chunk ≡ true → NobodyHolds resv s.log =
            λ last. safe (ground arith) in
          ground (arith, q, safe')

  shared-Safe :
      (resv : Reservation) (ri : ReservationInstruction) (s : Run W)
      → (ri.spec.last_chunk ≡ true → NobodyHolds resv s.log)
      → LastChunkSafe resv s.log
      → LastChunkSafe resv (ensure_shared_reservation_instruction c ri s).1.log
  unfolding ensure_shared_reservation_instruction
  shared-Safe resv ri s safe h = ground (arith, safe)

  -- The instruction made from the answer about the siblings.
  nobody :
      (resv : Reservation) (s : Run W) (last : Bool)
      → (has_other_holding_reservation c resv s).0 ≡ ok last
      → not last ≡ true
      → NobodyHolds resv (has_other_holding_reservation c resv s).1.log
  nobody resv s last q h = holding-Nobody resv s (ground (arith, q))

  -- An Unpeer that tells the consumer to take the shared peering down is created only after a list
  -- of Reservations in which nobody else needs that peering, where SetControllerReference leaves the
  -- spec alone.
  -- The log before is assumed to have this property.
  pub handle_unpeering-LastChunkSafe :
      (r : Reconciler) (resv : Reservation) (s : Run W)
      → KeepsSpec c
      → LastChunkSafe resv s.log
      → LastChunkSafe resv (handle_unpeering c r resv s).1.log
  unfolding handle_unpeering consumer_instruction
  handle_unpeering-LastChunkSafe r resv s keeps h =
      go (has_other_holding_reservation c resv s).0 refl
    where
      t : Run W
      t = (has_other_holding_reservation c resv s).1

      ri : Bool → ReservationInstruction
      ri last =
          consumer_instruction resv (reservation_instruction_unpeer_name resv.metadata.name)
            ReservationInstructionKind.unpeer (not last)

      go :
          (o : Result Bool)
          → (has_other_holding_reservation c resv s).0 ≡ o
          → LastChunkSafe resv (handle_unpeering c r resv s).1.log
      go (err e) q = ground (arith, q, holding-Safe resv s h)
      go (ok last) q = ground (
        arith,
        q,
        ensure_instruction-Safe resv (ri last) t keeps (nobody resv s last q)
            (holding-Safe resv s h),
      )

  -- A Cleanup that tells the consumer to take the shared peering down, owned by the Reservation or
  -- not, is created only after a list of Reservations in which nobody else needs that peering, where
  -- SetControllerReference leaves the spec alone.
  -- The log before is assumed to have this property.
  pub emit_consumer_cleanup-LastChunkSafe :
      (resv : Reservation) (owned : Bool) (s : Run W)
      → KeepsSpec c
      → LastChunkSafe resv s.log
      → LastChunkSafe resv (emit_consumer_cleanup c resv owned s).1.log
  unfolding emit_consumer_cleanup consumer_instruction
  emit_consumer_cleanup-LastChunkSafe resv owned s keeps h =
      go (has_other_holding_reservation c resv s).0 refl
    where
      t : Run W
      t = (has_other_holding_reservation c resv s).1

      ri : Bool → ReservationInstruction
      ri last =
          consumer_instruction resv (reservation_instruction_cleanup_name resv.metadata.name)
            ReservationInstructionKind.cleanup (not last)

      go :
          (o : Result Bool)
          → (has_other_holding_reservation c resv s).0 ≡ o
          → LastChunkSafe resv (emit_consumer_cleanup c resv owned s).1.log
      go (err e) q = ground (arith, q, holding-Safe resv s h)
      go (ok last) q = ground (
        arith,
        q,
        ensure_instruction-Safe resv (ri last) t keeps (nobody resv s last q)
            (holding-Safe resv s h),
        shared-Safe resv (ri last) t (nobody resv s last q) (holding-Safe resv s h),
      )
