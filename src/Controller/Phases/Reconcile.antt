-- ===== src/Controller/Phases/Reconcile.antt =====
-- Reconcile as a whole follows the phase diagram.
use federation_autoscaler.Base.{
  ◌∷◌, String, true, ◌≡◌, refl, sym, subst, arith, Option-cases, inl, inr,
}
use federation_autoscaler.Api.{
  Reservation, ReservationPhase, unset, pending, generating_kubeconfig, kubeconfig_ready, peering,
  peered, unpeering, released, expired, failed,
}
use federation_autoscaler.Kube.Core.{Client, Run, Result, ok, err, read_reservation, ◌>>=◌}
use federation_autoscaler.Kube.Bind.{bind_keeps}
use federation_autoscaler.Controller.Config.{Reconciler}
use federation_autoscaler.Controller.Guards.{
  with_expiry, ensure_expiry, check_expired, check_provider_available,
}
use federation_autoscaler.Controller.Reconcile.{
  dispatch, reconcile_guarded, ensure_finalizer, reconcile_live, reconcile,
}
use federation_autoscaler.Controller.Phases.Diagram
use federation_autoscaler.Controller.Phases.Diagram.{
  Edge, stay, Moves, quiet-Moves, advance_phase-Moves,
}
use federation_autoscaler.Controller.Phases.Handlers.{
  handle_pending-Moves, handle_generating_kubeconfig-Moves, handle_kubeconfig_ready-Moves,
  handle_unpeering-Moves, handle_terminal-Moves, handle_deletion-Moves,
}
use federation_autoscaler.Controller.Phases.Guards.{
  check_expired-Moves, check_provider_available-Moves,
}

-- The answer to a write carries the phase that was sent.
abbrev pub HasPhase : ReservationPhase → Result Reservation → Type 0
HasPhase p (ok resv) = resv.status.phase ≡ p
HasPhase p (err e) = Unit

-- What the API server documents of a write that it accepts: an update of the metadata leaves the
-- status alone, an update of the status stores the one that was sent, and the resource version
-- refuses either where the object was changed since it was read.
pub record EchoesPhase {W : Type 0} (c : Client W) : Type 0 where
  pub on_update :
      (resv : Reservation) (w : W) → HasPhase resv.status.phase (c.update_reservation resv w).0
  pub on_status :
      (resv : Reservation) (w : W)
      → HasPhase resv.status.phase (c.update_reservation_status resv w).0

module _ {W : Type 0} (c : Client W) (r : Reconciler) where
  dispatch-Moves :
      (p : ReservationPhase) (resv : Reservation) (s : Run W)
      → resv.status.phase ≡ p
      → Moves p s.log
      → Moves p (dispatch c r p resv s).1.log
  unfolding dispatch
  dispatch-Moves unset resv s e h =
      handle_pending-Moves c r unset resv s Diagram.reuse_unset Diagram.order_unset h
  dispatch-Moves pending resv s e h =
      handle_pending-Moves c r pending resv s Diagram.reuse Diagram.order h
  dispatch-Moves generating_kubeconfig resv s e h =
      handle_generating_kubeconfig-Moves c r generating_kubeconfig resv s Diagram.deliver h
  dispatch-Moves kubeconfig_ready resv s e h =
      handle_kubeconfig_ready-Moves c r kubeconfig_ready resv s Diagram.connect h
  dispatch-Moves peering resv s e h = h
  dispatch-Moves peered resv s e h = h
  dispatch-Moves unpeering resv s e h = handle_unpeering-Moves c r unpeering resv s h
  dispatch-Moves released resv s e h =
      handle_terminal-Moves c r released resv s (subst (Edge released) (sym e) stay) h
  dispatch-Moves expired resv s e h =
      handle_terminal-Moves c r expired resv s (subst (Edge expired) (sym e) stay) h
  dispatch-Moves failed resv s e h =
      handle_terminal-Moves c r failed resv s (subst (Edge failed) (sym e) stay) h

  reconcile_guarded-Moves :
      (p : ReservationPhase) (resv : Reservation) (s : Run W)
      → resv.status.phase ≡ p
      → Moves p s.log
      → Moves p (reconcile_guarded c r resv s).1.log
  unfolding reconcile_guarded
  reconcile_guarded-Moves p resv s e h =
      let t = (check_expired c r resv s).1 in
      let ht = check_expired-Moves c r p resv s e h in
      let u = (check_provider_available c r resv t).1 in
      let hu = check_provider_available-Moves c r p resv t e ht in
      rw e (ground (arith, dispatch-Moves p resv u e hu))

  ensure_finalizer-Moves :
      (p : ReservationPhase) (resv : Reservation) (s : Run W)
      → Moves p s.log
      → Moves p (ensure_finalizer c r resv s).1.log
  unfolding ensure_finalizer
  ensure_finalizer-Moves p resv s h = ground arith

  ensure_finalizer-HasPhase :
      (resv : Reservation) (s : Run W)
      → EchoesPhase c
      → HasPhase resv.status.phase (ensure_finalizer c r resv s).0
  unfolding ensure_finalizer
  ensure_finalizer-HasPhase resv s echo = ground (
    arith,
    echo.on_update (record resv { metadata = record resv.metadata { finalizer = true } }) s.world,
  )

  ensure_expiry-Moves :
      (resv : Reservation) (s : Run W)
      → Moves resv.status.phase s.log
      → Moves resv.status.phase (ensure_expiry c r resv s).1.log
  unfolding ensure_expiry with_expiry
  ensure_expiry-Moves resv s h = elim (Option-cases resv.status.expires_at) [
    | inl q ↦ rw (q, ensure_expiry) (stay, h)
    | inr (t, q) ↦ rw (q, ensure_expiry) h
  ]

  ensure_expiry-HasPhase :
      (resv : Reservation) (s : Run W)
      → EchoesPhase c
      → HasPhase resv.status.phase (ensure_expiry c r resv s).0
  unfolding ensure_expiry with_expiry
  ensure_expiry-HasPhase resv s echo = elim (Option-cases resv.status.expires_at) [
    | inl q ↦ rw (q, ensure_expiry) (echo.on_status (with_expiry r resv) s.world)
    | inr (t, q) ↦ rw (q, ensure_expiry) refl
  ]

  dated_keeps :
      (p : ReservationPhase) (resv : Reservation) (s : Run W)
      → EchoesPhase c
      → resv.status.phase ≡ p
      → Moves p s.log
      → Moves p ((ensure_expiry c r resv >>= reconcile_guarded c r) s).1.log
  dated_keeps p resv s echo e h =
      bind_keeps (λ t. Moves p t.log) (λ a. a.status.phase ≡ p) (reconcile_guarded c r)
        (ensure_expiry c r resv) s
        (subst (λ q. HasPhase q (ensure_expiry c r resv s).0) e
          (ensure_expiry-HasPhase resv s echo))
        (subst (λ q. Moves q (ensure_expiry c r resv s).1.log) e
          (ensure_expiry-Moves resv s (subst (λ q. Moves q s.log) (sym e) h)))
        (λ a u q i. reconcile_guarded-Moves p a u q i)

  reconcile_live-Moves :
      (resv : Reservation) (s : Run W)
      → EchoesPhase c
      → Moves resv.status.phase s.log
      → Moves resv.status.phase (reconcile_live c r resv s).1.log
  unfolding reconcile_live
  reconcile_live-Moves resv s echo h =
      let p = resv.status.phase in
      bind_keeps (λ t. Moves p t.log) (λ a. a.status.phase ≡ p)
        (λ kept. ensure_expiry c r kept >>= reconcile_guarded c r) (ensure_finalizer c r resv) s
        (ensure_finalizer-HasPhase resv s echo) (ensure_finalizer-Moves p resv s h)
        (λ a u q i. dated_keeps p a u echo q i)

  -- Whatever the server answers, as long as a write it accepts keeps the phase it was sent, every
  -- Reservation status that one pass of Reconcile sends has a phase that the diagram reaches by one
  -- edge from the phase of the Reservation that the pass read.
  -- The log before is assumed to have this property.
  pub reconcile-Moves :
      (name : String) (s : Run W) (resv : Reservation) (w : W)
      → EchoesPhase c
      → c.get_reservation name s.world ≡ (ok resv, w)
      → Moves resv.status.phase s.log
      → Moves resv.status.phase (reconcile c r name s).1.log
  unfolding reconcile
  reconcile-Moves name s resv w echo got h =
      let t : Run W = record { world = w; log = read_reservation name (ok resv) ∷ s.log } in
      ground (
        arith,
        got,
        handle_deletion-Moves c r resv.status.phase resv t h,
        reconcile_live-Moves resv t echo h,
      )
