-- ===== src/Controller/Phases/Handlers.antt =====
-- Each handler of the reconciler follows the phase diagram.
use federation_autoscaler.Base.{Option-cases, inl, inr, false, arith}
use federation_autoscaler.Api.{
  Time, Reservation, ReservationPhase, generating_kubeconfig, kubeconfig_ready, peering,
}
use federation_autoscaler.Kube.Core.{Client, Run}
use federation_autoscaler.Kube.Retry.{retry_preserves}
use federation_autoscaler.Controller.Config.{Reconciler, Duration}
use federation_autoscaler.Controller.Emit.{
  any_other_sibling, kubeconfig_secret_exists, ensure_shared_provider_instruction,
  ensure_instruction, has_other_holding_reservation, has_other_active_reservation,
  emit_consumer_cleanup, ensure_provider_cleanup_instruction, delete_kubeconfig_secret,
}
use federation_autoscaler.Controller.Quiet.{
  loud-has_other_active, loud-ensure_instruction, loud-kubeconfig_secret_exists,
  loud-ensure_shared_provider_instruction, loud-emit_consumer_cleanup,
  loud-ensure_provider_cleanup_instruction,
}
use federation_autoscaler.Controller.Handlers.{
  gk_instruction, peer_instruction, handle_pending, handle_generating_kubeconfig,
  handle_kubeconfig_ready, handle_unpeering, release_if_held, tear_down, collect, handle_terminated,
  tear_down_stamped, handle_just_terminated, handle_terminal, remove_finalizer_once,
  handle_deletion,
}
use federation_autoscaler.Controller.Phases.Diagram.{
  Edge, Moves, quiet-Moves, advance_phase-Moves, release_chunks-Moves,
}

module _ {W : Type 0} (c : Client W) (r : Reconciler) (p : ReservationPhase) where
  secret-Moves :
      (resv : Reservation) (s : Run W)
      → Moves p s.log
      → Moves p (kubeconfig_secret_exists c resv s).1.log
  secret-Moves resv s h =
      quiet-Moves p s.log (kubeconfig_secret_exists c resv s).1.log
        (loud-kubeconfig_secret_exists c resv s) h

  pub handle_pending-Moves :
      (resv : Reservation) (s : Run W)
      → Edge p kubeconfig_ready
      → Edge p generating_kubeconfig
      → Moves p s.log
      → Moves p (handle_pending c r resv s).1.log
  unfolding handle_pending
  handle_pending-Moves resv s e e' h =
      let t = (kubeconfig_secret_exists c resv s).1 in
      let ht = secret-Moves resv s h in
      let u = (ensure_shared_provider_instruction c (gk_instruction resv) t).1 in
      let hu =
        quiet-Moves p t.log u.log
          (loud-ensure_shared_provider_instruction c (gk_instruction resv) t) ht in
      ground (
        arith,
        advance_phase-Moves c p resv kubeconfig_ready t e ht,
        advance_phase-Moves c p resv generating_kubeconfig u e' hu,
      )

  pub handle_generating_kubeconfig-Moves :
      (resv : Reservation) (s : Run W)
      → Edge p kubeconfig_ready
      → Moves p s.log
      → Moves p (handle_generating_kubeconfig c r resv s).1.log
  unfolding handle_generating_kubeconfig
  handle_generating_kubeconfig-Moves resv s e h =
      let t = (kubeconfig_secret_exists c resv s).1 in
      let ht = secret-Moves resv s h in
      ground (arith, advance_phase-Moves c p resv kubeconfig_ready t e ht)

  pub handle_kubeconfig_ready-Moves :
      (resv : Reservation) (s : Run W)
      → Edge p peering
      → Moves p s.log
      → Moves p (handle_kubeconfig_ready c r resv s).1.log
  unfolding handle_kubeconfig_ready
  handle_kubeconfig_ready-Moves resv s e h =
      let t = (ensure_instruction c resv (peer_instruction resv) s).1 in
      let ht =
        quiet-Moves p s.log t.log (loud-ensure_instruction c resv s (peer_instruction resv)) h in
      ground (arith, advance_phase-Moves c p resv peering t e ht)

  pub handle_unpeering-Moves :
      (resv : Reservation) (s : Run W) → Moves p s.log → Moves p (handle_unpeering c r resv s).1.log
  unfolding handle_unpeering has_other_holding_reservation any_other_sibling ensure_instruction
  handle_unpeering-Moves resv s h = ground arith

  pub release_if_held-Moves :
      (resv : Reservation) (s : Run W) → Moves p s.log → Moves p (release_if_held c r resv s).1.log
  unfolding release_if_held
  release_if_held-Moves resv s h = ground (arith, release_chunks-Moves c p resv s h)

  delete_kubeconfig_secret-Moves :
      (resv : Reservation) (s : Run W)
      → Moves p s.log
      → Moves p (delete_kubeconfig_secret c resv s).1.log
  unfolding delete_kubeconfig_secret
  delete_kubeconfig_secret-Moves resv s h = ground arith

  pub tear_down-Moves :
      (resv : Reservation) (d : Duration) (s : Run W)
      → Moves p s.log
      → Moves p (tear_down c r resv d s).1.log
  unfolding tear_down
  tear_down-Moves resv d s h =
      let s1 = (release_if_held c r resv s).1 in
      let h1 = release_if_held-Moves resv s h in
      let s2 = (kubeconfig_secret_exists c resv s1).1 in
      let h2 = secret-Moves resv s1 h1 in
      let s3 = (emit_consumer_cleanup c resv false s2).1 in
      let h3 = quiet-Moves p s2.log s3.log (loud-emit_consumer_cleanup c resv false s2) h2 in
      let s4 = (has_other_active_reservation c resv s3).1 in
      let h4 = quiet-Moves p s3.log s4.log (loud-has_other_active c resv s3) h3 in
      let s5 = (ensure_provider_cleanup_instruction c resv s4).1 in
      let h5 =
        quiet-Moves p s4.log s5.log (loud-ensure_provider_cleanup_instruction c resv s4) h4 in
      ground (arith, delete_kubeconfig_secret-Moves resv s5 h5)

  tear_down_stamped-Moves :
      (stamped : Reservation) (s : Run W)
      → Moves p s.log
      → Moves p (tear_down_stamped c r stamped s).1.log
  unfolding tear_down_stamped
  tear_down_stamped-Moves stamped s h = grind (arith, tear_down-Moves stamped)

  handle_just_terminated-Moves :
      (resv : Reservation) (s : Run W)
      → Edge p resv.status.phase
      → Moves p s.log
      → Moves p (handle_just_terminated c r resv s).1.log
  unfolding handle_just_terminated
  handle_just_terminated-Moves resv s e h = grind (arith, tear_down_stamped-Moves)

  handle_terminated-Moves :
      (resv : Reservation) (terminated : Time) (s : Run W)
      → Moves p s.log
      → Moves p (handle_terminated c r resv terminated s).1.log
  unfolding handle_terminated collect
  handle_terminated-Moves resv terminated s h = grind (arith, tear_down-Moves resv)

  pub handle_terminal-Moves :
      (resv : Reservation) (s : Run W)
      → Edge p resv.status.phase
      → Moves p s.log
      → Moves p (handle_terminal c r resv s).1.log
  unfolding handle_terminal
  handle_terminal-Moves resv s e h = elim (Option-cases resv.status.terminated_at) [
    | inl q ↦ rw (q, handle_terminal) (handle_just_terminated-Moves resv s e h)
    | inr (t, q) ↦ rw (q, handle_terminal) (handle_terminated-Moves resv t s h)
  ]

  remove_finalizer_once-Moves :
      (resv : Reservation) (s : Run W)
      → Moves p s.log
      → Moves p (remove_finalizer_once c r resv s).1.log
  unfolding remove_finalizer_once
  remove_finalizer_once-Moves resv s h = ground arith

  pub handle_deletion-Moves :
      (resv : Reservation) (s : Run W) → Moves p s.log → Moves p (handle_deletion c r resv s).1.log
  unfolding handle_deletion
  handle_deletion-Moves resv s h =
      let s1 = (release_if_held c r resv s).1 in
      let h1 = release_if_held-Moves resv s h in
      let s2 = (emit_consumer_cleanup c resv false s1).1 in
      let h2 = quiet-Moves p s1.log s2.log (loud-emit_consumer_cleanup c resv false s1) h1 in
      ground (
        arith,
        retry_preserves (Moves p) (remove_finalizer_once c r resv)
            (remove_finalizer_once-Moves resv) 3 s2 h2,
      )
