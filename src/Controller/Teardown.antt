-- ===== src/Controller/Teardown.antt =====
-- When the shared credential of a (consumer, provider) pair is torn down, and when the controller
-- looks at a terminal Reservation again.
use federation_autoscaler.Base.{
  ap, Bool, All, true, ◌≢◌, eq_iff, String, false, List, [], ◌∷◌, ◌≡◌, arith, any,
}
use federation_autoscaler.Controller.Config.{is_reservation_terminal}
use federation_autoscaler.Api.{Reservation, ReservationPhase, released, expired, failed}
use federation_autoscaler.Kube.Core.{
  Client, Run, Event, Result, ok, err, deleted_secret, listed_reservations,
}
use federation_autoscaler.Kube.Retry.{retry, retry_preserves}
use federation_autoscaler.Ledger.Capacity.{mark_once}
use federation_autoscaler.Ledger.Release.{credit_once, release_chunks, stamp_chunks_released}
use federation_autoscaler.Controller.Config.{Reconciler, Duration}
use federation_autoscaler.Controller.Emit.{
  is_sibling, is_active, any_other_sibling, has_other_active_reservation,
  has_other_holding_reservation, ensure_shared_reservation_instruction, emit_consumer_cleanup,
  ensure_shared_provider_instruction, ensure_provider_cleanup_instruction, kubeconfig_secret_exists,
  delete_kubeconfig_secret,
}
use federation_autoscaler.Controller.Handlers.{release_if_held, tear_down}

-- Another Reservation of the same pair that is neither being deleted nor over.
pub record IsActiveSibling (resv other : Reservation) : Type 0 where
  pub another : other.metadata.name ≢ resv.metadata.name
  pub same_consumer : other.spec.consumer_cluster_id ≡ resv.spec.consumer_cluster_id
  pub same_provider : other.spec.provider_cluster_id ≡ resv.spec.provider_cluster_id
  pub kept : other.metadata.deleting ≡ false
  pub not_released : other.status.phase ≢ released
  pub not_expired : other.status.phase ≢ expired
  pub not_failed : other.status.phase ≢ failed

is_active-true :
    (p : ReservationPhase) → p ≢ released → p ≢ expired → p ≢ failed → is_active p ≡ true
unfolding is_active is_reservation_terminal
is_active-true p h1 h2 h3 = ground arith

is_sibling-IsActiveSibling :
    (resv other : Reservation) → IsActiveSibling resv other → is_sibling is_active resv other ≡ true
unfolding is_sibling
is_sibling-IsActiveSibling resv other h = ground (
  arith,
  is_active-true other.status.phase h.not_released h.not_expired h.not_failed,
  eq_iff other.metadata.name resv.metadata.name,
  eq_iff other.spec.consumer_cluster_id resv.spec.consumer_cluster_id,
  eq_iff other.spec.provider_cluster_id resv.spec.provider_cluster_id,
)

none-IsActiveSibling :
    (resv : Reservation) (items : List Reservation)
    → any (is_sibling is_active resv) items ≡ false
    → All (λ other. ¬ IsActiveSibling resv other) items
none-IsActiveSibling resv [] h = tt
none-IsActiveSibling resv (x ∷ xs) h = (
  (λ k. cc (is_sibling-IsActiveSibling resv x k, h)),
  none-IsActiveSibling resv xs (ground arith),
)

-- The last list of Reservations that was read shows no active sibling.
abbrev pub LastListClear : Reservation → List Event → Type 0
LastListClear resv [] = ⊥
LastListClear resv (listed_reservations (ok items) ∷ log) =
    All (λ other. ¬ IsActiveSibling resv other) items
LastListClear resv (listed_reservations (err e) ∷ log) = ⊥
LastListClear resv (_ ∷ log) = LastListClear resv log

-- Each deletion of a Secret comes after a list without an active sibling.
abbrev pub DeletesGated : Reservation → List Event → Type 0
DeletesGated resv [] = Unit
DeletesGated resv (deleted_secret b k ∷ log) = LastListClear resv log × DeletesGated resv log
DeletesGated resv (_ ∷ log) = DeletesGated resv log

module _ {W : Type 0} (c : Client W) (r : Reconciler) (resv : Reservation) where
  abbrev G : Run W → Type 0
  G s = DeletesGated resv s.log

  mark_once-Gated : (name : String) (s : Run W) → G s → G (mark_once c name s).1
  unfolding mark_once
  mark_once-Gated name s h = ground arith

  credit_once-Gated : (s : Run W) → G s → G (credit_once c resv s).1
  unfolding credit_once
  credit_once-Gated s h = ground arith

  release_if_held-Gated : (s : Run W) → G s → G (release_if_held c r resv s).1
  unfolding release_if_held release_chunks stamp_chunks_released
  release_if_held-Gated s h =
      let h' = retry_preserves (DeletesGated resv) (credit_once c resv) credit_once-Gated 3 s h in
      let t = (retry 3 (credit_once c resv) s).1 in
      let name = resv.metadata.name in
      ground (
        arith,
        retry_preserves (DeletesGated resv) (mark_once c name) (mark_once-Gated name) 3 t h',
      )

  secret-Gated : (s : Run W) → G s → G (kubeconfig_secret_exists c resv s).1
  unfolding kubeconfig_secret_exists
  secret-Gated s h = ground arith

  cleanup-Gated : (s : Run W) → G s → G (emit_consumer_cleanup c resv false s).1
  unfolding emit_consumer_cleanup has_other_holding_reservation any_other_sibling
      ensure_shared_reservation_instruction
  cleanup-Gated s h = ground arith

  -- The rest of the tear-down, from the check of the siblings on.
  active-Gated : (s : Run W) → G s → G (has_other_active_reservation c resv s).1
  unfolding has_other_active_reservation any_other_sibling
  active-Gated s h = ground arith

  active-Clear :
      (s : Run W)
      → (has_other_active_reservation c resv s).0 ≡ ok false
      → LastListClear resv (has_other_active_reservation c resv s).1.log
  unfolding has_other_active_reservation any_other_sibling
  active-Clear s h = listed (c.list_reservations s.world).0 h
    where
      after : Result (List Reservation) → Run W
      after a = record {
        world = (c.list_reservations s.world).1;
        log = listed_reservations a ∷ s.log;
      }

      shown : Result Bool → Bool
      shown (ok b) = b
      shown (err e) = true

      listed :
          (a : Result (List Reservation))
          → (let t = after a in
              let out : Result Bool × Run W = elim a [
                | ok items ↦ (ok (any (is_sibling is_active resv) items), t)
                | err e ↦ (err e, t)
              ] in
              out.0 ≡ ok false → LastListClear resv out.1.log)
      listed (ok items) e = none-IsActiveSibling resv items (ap shown e)
      listed (err x) e = ground arith

  provider_cleanup-Gated : (s : Run W) → G s → G (ensure_provider_cleanup_instruction c resv s).1
  unfolding ensure_provider_cleanup_instruction ensure_shared_provider_instruction
  provider_cleanup-Gated s h = ground arith

  provider_cleanup-Clear :
      (s : Run W)
      → LastListClear resv s.log
      → LastListClear resv (ensure_provider_cleanup_instruction c resv s).1.log
  unfolding ensure_provider_cleanup_instruction ensure_shared_provider_instruction
  provider_cleanup-Clear s h = ground arith

  delete-Gated :
      (s : Run W) → LastListClear resv s.log → G s → G (delete_kubeconfig_secret c resv s).1
  unfolding delete_kubeconfig_secret
  delete-Gated s k h = ground arith

  -- The staged kubeconfig of the pair is deleted only after a list of Reservations that holds no
  -- other one of the pair that is neither being deleted nor over (Released, Expired or Failed).
  -- The log before is assumed to have this property.
  pub tear_down-DeletesGated :
      (d : Duration) (s : Run W)
      → DeletesGated resv s.log
      → DeletesGated resv (tear_down c r resv d s).1.log
  unfolding tear_down
  tear_down-DeletesGated d s h =
      let s1 = (release_if_held c r resv s).1 in
      let h1 = release_if_held-Gated s h in
      let s2 = (kubeconfig_secret_exists c resv s1).1 in
      let h2 = secret-Gated s1 h1 in
      let s3 = (emit_consumer_cleanup c resv false s2).1 in
      let h3 = cleanup-Gated s2 h2 in
      let s4 = (has_other_active_reservation c resv s3).1 in
      let h4 = active-Gated s3 h3 in
      let s5 = (ensure_provider_cleanup_instruction c resv s4).1 in
      let h5 = provider_cleanup-Gated s4 h4 in
      ground (arith, active-Clear s3, provider_cleanup-Clear s4, delete-Gated s5)
