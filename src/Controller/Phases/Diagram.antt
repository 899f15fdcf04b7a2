-- ===== src/Controller/Phases/Diagram.antt =====
-- Which phases Reconcile writes: the phase diagram of docs/design.md §5.3 as a relation, and the
-- proof that every status that is sent for the Reservation follows an edge of it.
use federation_autoscaler.Base.{String, List, [], ◌∷◌, ◌≡◌, sym, subst, arith}
use federation_autoscaler.Api.{
  Reservation, ReservationPhase, unset, pending, generating_kubeconfig, kubeconfig_ready, peering,
  peered, unpeering, expired, failed,
}
use federation_autoscaler.Kube.Core.{Client, Run, Event, wrote_reservation_status}
use federation_autoscaler.Kube.Loud.{loud}
use federation_autoscaler.Kube.Retry.{retry, retry_preserves}
use federation_autoscaler.Ledger.Capacity.{mark_once}
use federation_autoscaler.Ledger.Release.{credit_once, release_chunks, stamp_chunks_released}
use federation_autoscaler.Controller.Emit.{advance_phase}

-- The phases that can still be abandoned: neither winding down nor over.
pub data Abandonable : ReservationPhase → Type 0 where
  from_unset : Abandonable unset
  from_pending : Abandonable pending
  from_generating : Abandonable generating_kubeconfig
  from_ready : Abandonable kubeconfig_ready
  from_peering : Abandonable peering
  from_peered : Abandonable peered

-- The transitions that the reconciler may make.
pub data Edge : ReservationPhase → ReservationPhase → Type 0 where
  stay : {p : ReservationPhase} → Edge p p
  order_unset : Edge unset generating_kubeconfig
  order : Edge pending generating_kubeconfig
  reuse_unset : Edge unset kubeconfig_ready
  reuse : Edge pending kubeconfig_ready
  deliver : Edge generating_kubeconfig kubeconfig_ready
  connect : Edge kubeconfig_ready peering
  abandon : {p : ReservationPhase} → Abandonable p → Edge p failed
  expire : {p : ReservationPhase} → Abandonable p → Edge p expired
  expire_unpeering : Edge unpeering expired

-- Every status of a Reservation that is sent is reached from `p` by an edge.
abbrev pub Moves : ReservationPhase → List Event → Type 0
Moves p [] = Unit
Moves p (wrote_reservation_status b r ∷ log) = Edge p r.status.phase × Moves p log
Moves p (_ ∷ log) = Moves p log

Moves-loud : (p : ReservationPhase) (log : List Event) → Moves p log → Moves p (loud log)
Moves-loud p [] h = tt
Moves-loud p (wrote_reservation_status b r ∷ log) h = (h.0, Moves-loud p log h.1)
Moves-loud p (_ ∷ log) h = Moves-loud p log h

of_loud-Moves : (p : ReservationPhase) (log : List Event) → Moves p (loud log) → Moves p log
of_loud-Moves p [] h = tt
of_loud-Moves p (wrote_reservation_status b r ∷ log) h = (h.0, of_loud-Moves p log h.1)
of_loud-Moves p (_ ∷ log) h = of_loud-Moves p log h

pub quiet-Moves :
    (p : ReservationPhase) (log log' : List Event)
    → loud log' ≡ loud log
    → Moves p log
    → Moves p log'
quiet-Moves p log log' e h = of_loud-Moves p log' (subst (Moves p) (sym e) (Moves-loud p log h))

module _ {W : Type 0} (c : Client W) (p : ReservationPhase) where
  pub advance_phase-Moves :
      (resv : Reservation) (next : ReservationPhase) (s : Run W)
      → Edge p next
      → Moves p s.log
      → Moves p (advance_phase c resv next s).1.log
  unfolding advance_phase
  advance_phase-Moves resv next s e h = ground arith

  mark_once-Moves : (name : String) (s : Run W) → Moves p s.log → Moves p (mark_once c name s).1.log
  unfolding mark_once
  mark_once-Moves name s h = ground arith

  credit_once-Moves :
      (resv : Reservation) (s : Run W) → Moves p s.log → Moves p (credit_once c resv s).1.log
  unfolding credit_once
  credit_once-Moves resv s h = ground arith

  pub release_chunks-Moves :
      (resv : Reservation) (s : Run W) → Moves p s.log → Moves p (release_chunks c resv s).1.log
  unfolding release_chunks stamp_chunks_released
  release_chunks-Moves resv s h =
      let h' = retry_preserves (Moves p) (credit_once c resv) (credit_once-Moves resv) 3 s h in
      let t = (retry 3 (credit_once c resv) s).1 in
      let name = resv.metadata.name in
      ground (arith, retry_preserves (Moves p) (mark_once c name) (mark_once-Moves name) 3 t h')
