-- ===== src/Controller/Wakeups.antt =====
-- When the controller looks at a Reservation again, by the delay that Reconcile returns.
use federation_autoscaler.Base.{true, some, ◌≡◌, ◌<◌, inl, inr, arith, Option-cases}
use federation_autoscaler.Base.Int.{pos, ◌≤ℤ◌}
use federation_autoscaler.Api.{Time, Reservation, ClusterAdvertisement, peered}
use federation_autoscaler.Kube.Core.{Client, Run, ok}
use federation_autoscaler.Controller.Config.{
  Reconciler, Duration, gk_resync, is_reservation_terminal,
}
use federation_autoscaler.Controller.Guards.{check_expired, check_provider_available}
use federation_autoscaler.Controller.Handlers.{
  gc_requeue, tear_down, tear_down_stamped, handle_just_terminated,
}
use federation_autoscaler.Controller.Reconcile.{reconcile_guarded, dispatch}

module _ {W : Type 0} (c : Client W) (r : Reconciler) where
  -- The delay of the collection is never shorter than the resync interval.
  gc_requeue-le : (now terminated : Time) → gk_resync r ≤ℤ gc_requeue c r now terminated
  unfolding gc_requeue
  gc_requeue-le now terminated = ground arith

  tear_down-le :
      (resv : Reservation) (gc d : Duration) (s : Run W)
      → gk_resync r ≤ℤ gc
      → (tear_down c r resv gc s).0 ≡ ok d
      → gk_resync r ≤ℤ d
  unfolding tear_down
  tear_down-le resv gc d s h e = ground arith

  tear_down_stamped-le :
      (stamped : Reservation) (d : Duration) (s : Run W)
      → (tear_down_stamped c r stamped s).0 ≡ ok d
      → gk_resync r ≤ℤ d
  unfolding tear_down_stamped
  tear_down_stamped-le stamped d s e = elim (Option-cases stamped.status.terminated_at) [
    | inl q ↦ ground arith
    | inr (t, q) ↦
        let now = (c.now s.world).0 in
        let u : Run W = record s { world = (c.now s.world).1 } in
        ground (arith, tear_down-le stamped (gc_requeue c r now t) d u (gc_requeue-le now t))
  ]

  -- The first pass over a terminal Reservation that returns no error always asks to be called again,
  -- no sooner than the resync interval: the Reservation is not forgotten.
  pub handle_just_terminated-le :
      (resv : Reservation) (d : Duration) (s : Run W)
      → (handle_just_terminated c r resv s).0 ≡ ok d
      → gk_resync r ≤ℤ d
  unfolding handle_just_terminated
  handle_just_terminated-le resv d s e = grind (arith, tear_down_stamped-le)

  -- A peered Reservation before its deadline, with an available provider, is left with no
  -- wake-up.
  pub reconcile_peered_no_wakeup :
      (resv : Reservation) (s : Run W) (deadline : Time) (cadv : ClusterAdvertisement)
      (w1 w2 w3 : W) (now now' : Time)
      → resv.status.phase ≡ peered
      → resv.status.expires_at ≡ some deadline
      → c.now s.world ≡ (now, w1)
      → now < deadline
      → c.now w1 ≡ (now', w2)
      → c.get_advertisement resv.spec.provider_cluster_id w2 ≡ (ok cadv, w3)
      → cadv.status.available ≡ true
      → (reconcile_guarded c r resv s).0 ≡ ok (pos 0)
  unfolding reconcile_guarded check_expired check_provider_available dispatch
      is_reservation_terminal
  reconcile_peered_no_wakeup resv s deadline cadv w1 w2 w3 now now' e f g h k a b = ground arith
