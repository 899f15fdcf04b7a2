-- ===== src/Controller/Credit.antt =====
-- How often one pass of the reconciler credits the chunks of a Reservation back.
use federation_autoscaler.Base.{
  ℕ, suc, ◌+◌, ◌≤◌, true, false, List, [], ◌∷◌, ◌≡◌, refl, sym, ap, ◌∙◌, arith, if◌then◌else◌,
}
use federation_autoscaler.Api.{Time, Reservation, is_chunks_released}
use federation_autoscaler.Kube.Core.{Client, Run, Event, wrote_advertisement_status}
use federation_autoscaler.Kube.Loud.{loud}
use federation_autoscaler.Kube.Retry.{retry_preserves}
use federation_autoscaler.Ledger.Requests.{commits}
use federation_autoscaler.Ledger.Releasing.{release_chunks-commits}
use federation_autoscaler.Controller.Config.{Reconciler, Duration}
use federation_autoscaler.Controller.Emit.{
  kubeconfig_secret_exists, has_other_active_reservation, emit_consumer_cleanup,
  ensure_provider_cleanup_instruction, delete_kubeconfig_secret,
}
use federation_autoscaler.Controller.Handlers.{
  release_if_held, tear_down, collect, handle_terminated, remove_finalizer_once, handle_deletion,
}
use federation_autoscaler.Controller.Quiet.{
  loud-kubeconfig_secret_exists, loud-has_other_active, loud-emit_consumer_cleanup,
  loud-ensure_provider_cleanup_instruction,
}

commits-loud : (log : List Event) → commits (loud log) ≡ commits log
commits-loud [] = refl
commits-loud (wrote_advertisement_status true a ∷ log) = ap suc (commits-loud log)
commits-loud (wrote_advertisement_status false a ∷ log) = commits-loud log
commits-loud (_ ∷ log) = commits-loud log

commits_of_quiet : (log log' : List Event) → loud log' ≡ loud log → commits log' ≡ commits log
commits_of_quiet log log' e = sym (commits-loud log') ∙ ap commits e ∙ commits-loud log

-- One credit for a Reservation that is not marked, none for one that is.
abbrev pub owed : Reservation → ℕ
owed resv = if is_chunks_released resv then 0 else 1

module _ {W : Type 0} (c : Client W) (r : Reconciler) where
  release_if_held-commits :
      (resv : Reservation) (s : Run W)
      → commits (release_if_held c r resv s).1.log ≤ commits s.log + owed resv
  unfolding release_if_held
  release_if_held-commits resv s = ground (arith, release_chunks-commits c resv s)

  delete_kubeconfig_secret-commits :
      (resv : Reservation) (s : Run W)
      → commits (delete_kubeconfig_secret c resv s).1.log ≡ commits s.log
  unfolding delete_kubeconfig_secret
  delete_kubeconfig_secret-commits resv s = ground arith

  tear_down-commits :
      (resv : Reservation) (d : Duration) (s : Run W)
      → commits (tear_down c r resv d s).1.log ≤ commits s.log + owed resv
  unfolding tear_down
  tear_down-commits resv d s =
      let s1 = (release_if_held c r resv s).1 in
      let h1 = release_if_held-commits resv s in
      let s2 = (kubeconfig_secret_exists c resv s1).1 in
      let h2 = commits_of_quiet s1.log s2.log (loud-kubeconfig_secret_exists c resv s1) in
      let s3 = (emit_consumer_cleanup c resv false s2).1 in
      let h3 = commits_of_quiet s2.log s3.log (loud-emit_consumer_cleanup c resv false s2) in
      let s4 = (has_other_active_reservation c resv s3).1 in
      let h4 = commits_of_quiet s3.log s4.log (loud-has_other_active c resv s3) in
      let s5 = (ensure_provider_cleanup_instruction c resv s4).1 in
      let h5 =
        commits_of_quiet s4.log s5.log (loud-ensure_provider_cleanup_instruction c resv s4) in
      ground (arith, h1, h2, h3, h4, h5, delete_kubeconfig_secret-commits resv s5)

  -- A pass over a Reservation that has been terminal for a while credits its chunks at most once,
  -- and not at all once the marker is set.
  pub handle_terminated-commits :
      (resv : Reservation) (terminated : Time) (s : Run W)
      → commits (handle_terminated c r resv terminated s).1.log ≤ commits s.log + owed resv
  unfolding handle_terminated collect
  handle_terminated-commits resv terminated s = grind (arith, tear_down-commits resv)

  remove_finalizer_once-commits :
      (resv : Reservation) (n : ℕ) (s : Run W)
      → commits s.log ≤ n
      → commits (remove_finalizer_once c r resv s).1.log ≤ n
  unfolding remove_finalizer_once
  remove_finalizer_once-commits resv n s h = ground arith

  -- A pass over a Reservation that is being deleted credits its chunks at most once, and not at all
  -- once the marker is set.
  pub handle_deletion-commits :
      (resv : Reservation) (s : Run W)
      → commits (handle_deletion c r resv s).1.log ≤ commits s.log + owed resv
  unfolding handle_deletion
  handle_deletion-commits resv s =
      let s1 = (release_if_held c r resv s).1 in
      let h1 = release_if_held-commits resv s in
      let s2 = (emit_consumer_cleanup c resv false s1).1 in
      let h2 = commits_of_quiet s1.log s2.log (loud-emit_consumer_cleanup c resv false s1) in
      let n = commits s.log + owed resv in
      let below : commits s2.log ≤ n = omega (arith, h1, h2) in
      ground (
        arith,
        h1,
        h2,
        retry_preserves (λ log. commits log ≤ n) (remove_finalizer_once c r resv)
            (remove_finalizer_once-commits resv n) 3 s2 below,
      )
