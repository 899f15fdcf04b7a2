-- ===== src/Controller/Phases/Guards.antt =====
-- The guards of Reconcile follow the phase diagram.
use federation_autoscaler.Base.{Bool-cases, true, false, ◌≡◌, subst, arith, Option-cases, inl, inr}
use federation_autoscaler.Api.{
  Time, Reservation, ClusterAdvertisement, ReservationPhase, unset, pending, generating_kubeconfig,
  kubeconfig_ready, peering, peered, unpeering, released, expired, failed, phase_eq,
}
use federation_autoscaler.Kube.Core.{Client, Run, Result}
use federation_autoscaler.Controller.Config.{Reconciler, is_reservation_terminal}
use federation_autoscaler.Controller.Emit.{emit_consumer_cleanup}
use federation_autoscaler.Controller.Guards.{
  check_deadline, check_expired, abandon, provider_verdict, check_provider_available,
}
use federation_autoscaler.Controller.Quiet.{loud-emit_consumer_cleanup}
use federation_autoscaler.Controller.Phases.Diagram
use federation_autoscaler.Controller.Phases.Diagram.{
  Edge, stay, Moves, quiet-Moves, advance_phase-Moves,
}

expire_edge : (p : ReservationPhase) → is_reservation_terminal p ≡ false → Edge p expired
unfolding is_reservation_terminal
expire_edge unset h = Edge.expire Diagram.from_unset
expire_edge pending h = Edge.expire Diagram.from_pending
expire_edge generating_kubeconfig h = Edge.expire Diagram.from_generating
expire_edge kubeconfig_ready h = Edge.expire Diagram.from_ready
expire_edge peering h = Edge.expire Diagram.from_peering
expire_edge peered h = Edge.expire Diagram.from_peered
expire_edge unpeering h = Edge.expire_unpeering
expire_edge released h = absurd (cc)
expire_edge expired h = absurd (cc)
expire_edge failed h = absurd (cc)

fail_edge :
    (p : ReservationPhase)
    → is_reservation_terminal p ≡ false
    → phase_eq p unpeering ≡ false
    → Edge p failed
unfolding is_reservation_terminal
fail_edge unset h k = Edge.abandon Diagram.from_unset
fail_edge pending h k = Edge.abandon Diagram.from_pending
fail_edge generating_kubeconfig h k = Edge.abandon Diagram.from_generating
fail_edge kubeconfig_ready h k = Edge.abandon Diagram.from_ready
fail_edge peering h k = Edge.abandon Diagram.from_peering
fail_edge peered h k = Edge.abandon Diagram.from_peered
fail_edge unpeering h k = absurd (cc)
fail_edge released h k = absurd (cc)
fail_edge expired h k = absurd (cc)
fail_edge failed h k = absurd (cc)

module _ {W : Type 0} (c : Client W) (r : Reconciler) (p : ReservationPhase) where
  check_deadline-Moves :
      (resv : Reservation) (deadline : Time) (s : Run W)
      → (is_reservation_terminal resv.status.phase ≡ false → Edge p expired)
      → Moves p s.log
      → Moves p (check_deadline c r resv deadline s).1.log
  unfolding check_deadline
  check_deadline-Moves resv deadline s e h =
      elim (Bool-cases (is_reservation_terminal resv.status.phase)) [
        | inl over ↦ rw (over, check_deadline) h
        | inr live ↦
            let t : Run W = record s { world = (c.now s.world).1 } in
            let h' = advance_phase-Moves c p resv expired t (e live) h in ground (arith, h')
      ]

  pub check_expired-Moves :
      (resv : Reservation) (s : Run W)
      → resv.status.phase ≡ p
      → Moves p s.log
      → Moves p (check_expired c r resv s).1.log
  unfolding check_expired
  check_expired-Moves resv s e h =
      let edge : is_reservation_terminal resv.status.phase ≡ false → Edge p expired =
        λ live. subst (λ q. Edge q expired) e (expire_edge resv.status.phase live) in
      elim (Option-cases resv.status.expires_at) [
        | inl q ↦ rw (q, check_expired) h
        | inr (d, q) ↦ rw (q, check_expired) (check_deadline-Moves resv d s edge h)
      ]

  abandon-Moves :
      (resv : Reservation) (s : Run W)
      → Edge p failed
      → Moves p s.log
      → Moves p (abandon c r resv s).1.log
  unfolding abandon
  abandon-Moves resv s e h =
      let t = (emit_consumer_cleanup c resv true s).1 in
      let h' = quiet-Moves p s.log t.log (loud-emit_consumer_cleanup c resv true s) h in
      ground (
        arith,
        advance_phase-Moves c p resv failed s e h,
        advance_phase-Moves c p resv failed t e h',
      )

  provider_verdict-Moves :
      (resv : Reservation) (got : Result ClusterAdvertisement) (s : Run W)
      → Edge p failed
      → Moves p s.log
      → Moves p (provider_verdict c r resv got s).1.log
  unfolding provider_verdict
  provider_verdict-Moves resv got s e h = ground (arith, abandon-Moves resv s e h)

  pub check_provider_available-Moves :
      (resv : Reservation) (s : Run W)
      → resv.status.phase ≡ p
      → Moves p s.log
      → Moves p (check_provider_available c r resv s).1.log
  unfolding check_provider_available
  check_provider_available-Moves resv s e h =
      elim (Bool-cases (is_reservation_terminal resv.status.phase)) [
        | inl over ↦ rw (over, check_provider_available) h
        | inr live ↦ elim (Bool-cases (phase_eq resv.status.phase unpeering)) [
          | inl over ↦ ground arith
          | inr here ↦
              let edge = subst (λ q. Edge q failed) e (fail_edge resv.status.phase live here) in
              grind (
                arith,
                λ (got : Result ClusterAdvertisement) (t : Run W).
                    provider_verdict-Moves resv got t edge,
              )
        ]
      ]
