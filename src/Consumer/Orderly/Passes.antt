-- ===== src/Consumer/Orderly/Passes.antt =====
-- Every pass over a ResourceRequest keeps the order.
use federation_autoscaler.Base.{
  String, Bool, true, false, ◌≡◌, refl, ◌⊎◌, inl, inr, Option, none, some, List, str_eq,
  if◌then◌else◌, arith, eq_iff, ap,
}
use federation_autoscaler.Kube.Core.{◌>>=◌, M, pure, Result, ok, err, Run}
use federation_autoscaler.Consumer.Types.{
  NodeGroupView, NodeGroupListResponse, ResourceRequest, request_phase_eq, request_phase_eq_lem,
  migrating,
}
use federation_autoscaler.Consumer.Sizing.{Choice, multi_chunk_unsupported}
use federation_autoscaler.Consumer.Migration.{
  release_reservation, maybe_start_migration, complete_migration, node_groups_for,
}
use federation_autoscaler.Controller.Config.{Duration}
use federation_autoscaler.Kube.Bind.{Post, then_after, then_keeps}
use federation_autoscaler.Consumer.Port.{Agent, RequestReconciler}
use federation_autoscaler.Consumer.Orderly.{FreedLast, IsOrderly}
use federation_autoscaler.Consumer.Orderly.Writes.{
  set_pending-IsOrderly, hold_reservation-IsOrderly,
}
use federation_autoscaler.Consumer.Picking.{IsGood, pick_provider_and_size-IsGood}
use federation_autoscaler.Consumer.Requests.{
  done, drop_finalizer, chosen, offered, reserve_first, held_unless, keep, release_recorded,
  finalize_request, add_finalizer, serve, reconcile_live_request, reconcile_request,
  reservation_id_of,
}
use federation_autoscaler.Consumer.Orderly.Moves.{
  picked_one, either-IsOrderly, place-IsOrderly, offered_groups, complete_migration-IsOrderly,
  maybe_start_migration-IsOrderly, release_reservation-frees,
}

module _ {F W : Type 0} (r : RequestReconciler F) (c : Agent F W) (rr : ResourceRequest) where
  chosen-IsOrderly :
      (groups : List (NodeGroupView F)) (o : Option (Choice F)) (s : Run W)
      → rr.status.reservation_id ≡ ""
      → IsGood rr.spec.resources groups o
      → IsOrderly rr s.log
      → IsOrderly rr (chosen r c rr o s).1.log
  chosen-IsOrderly groups none s p good k = set_pending-IsOrderly r c rr _ s k
  chosen-IsOrderly groups (some best) s p (_, h, e) k =
      either-IsOrderly r c rr (multi_chunk_unsupported best.count) _ _ s
        (set_pending-IsOrderly r c rr _ s k)
        (λ m.
          place-IsOrderly r c rr (reservation_id_of r c rr) _ best s
            (picked_one r c rr best h (ap (λ b. b.count) e) m, inl (p, refl)) k)

  offered-IsOrderly :
      (a : Result (NodeGroupListResponse F)) (s : Run W)
      → rr.status.reservation_id ≡ ""
      → IsOrderly rr s.log
      → IsOrderly rr (offered r c rr a s).1.log
  offered-IsOrderly (err e) s p k = set_pending-IsOrderly r c rr _ s k
  offered-IsOrderly (ok resp) s p k =
      chosen-IsOrderly resp.node_groups _ s p
        (pick_provider_and_size-IsGood rr.spec.resources resp.node_groups) k

  reserve_first-IsOrderly :
      (s : Run W)
      → rr.status.reservation_id ≡ ""
      → IsOrderly rr s.log
      → IsOrderly rr (reserve_first r c rr s).1.log
  unfolding reserve_first
  reserve_first-IsOrderly s p k =
      offered-IsOrderly (node_groups_for r c rr s).0 _ p (offered_groups r c rr s k)

  held_unless-IsOrderly :
      (o : Option Duration) (s : Run W)
      → IsOrderly rr s.log
      → IsOrderly rr (held_unless r c rr o s).1.log
  held_unless-IsOrderly none s k = hold_reservation-IsOrderly r c rr s k
  held_unless-IsOrderly (some d) s k = k

  kept-IsOrderly :
      (b : Bool) (s : Run W)
      → request_phase_eq rr.status.phase migrating ≡ b
      → IsOrderly rr s.log
      → IsOrderly rr (
          let m : M W Duration =
            if b
            then complete_migration r c rr
            else (maybe_start_migration r c rr >>= held_unless r c rr) in
          (m s).1.log)
  kept-IsOrderly true s e k =
      complete_migration-IsOrderly r c rr s (request_phase_eq_lem rr.status.phase migrating e) k
  kept-IsOrderly false s e k =
      then_keeps (λ u. IsOrderly rr u.log) (held_unless r c rr) (maybe_start_migration r c rr) s
        (maybe_start_migration-IsOrderly r c rr s k) held_unless-IsOrderly

  keep-IsOrderly : (s : Run W) → IsOrderly rr s.log → IsOrderly rr (keep r c rr s).1.log
  unfolding keep
  keep-IsOrderly s k = kept-IsOrderly _ s refl k

  served-IsOrderly :
      (b : Bool) (s : Run W)
      → str_eq rr.status.reservation_id "" ≡ b
      → IsOrderly rr s.log
      → IsOrderly rr ((if b then reserve_first r c rr else keep r c rr) s).1.log
  served-IsOrderly true s e k =
      reserve_first-IsOrderly s ((eq_iff rr.status.reservation_id "").0 e) k
  served-IsOrderly false s e k = keep-IsOrderly s k

  serve-IsOrderly : (s : Run W) → IsOrderly rr s.log → IsOrderly rr (serve r c rr s).1.log
  unfolding serve
  serve-IsOrderly s k = ground (arith, served-IsOrderly _ s refl k)

  add_finalizer-IsOrderly :
      (s : Run W) → IsOrderly rr s.log → IsOrderly rr (add_finalizer r c rr s).1.log
  unfolding add_finalizer
  add_finalizer-IsOrderly s k = ground arith

  -- Nothing is recorded, or what is recorded was just released.
  abbrev IsFree : Run W → Type 0
  IsFree u = (rr.status.reservation_id ≡ "") ⊎ FreedLast rr.status.reservation_id u.log

  release_recorded-frees :
      (s : Run W)
      → IsOrderly rr s.log
      → IsOrderly rr (release_recorded r c rr s).1.log
        × Post (λ _. IsFree (release_recorded r c rr s).1) (release_recorded r c rr s).0
  unfolding release_recorded
  release_recorded-frees s k = freed (str_eq rr.status.reservation_id "") refl
    where
      act : Bool → M W (Unit {0})
      act b = if b then pure tt else release_reservation r c rr.status.reservation_id

      right :
          (a : Result (Unit {0})) (u : Run W)
          → Post (λ _. FreedLast rr.status.reservation_id u.log) a
          → Post (λ _. IsFree u) a
      right (ok a) u h = inr h
      right (err e) u h = tt

      freed :
          (b : Bool)
          → str_eq rr.status.reservation_id "" ≡ b
          → IsOrderly rr (act b s).1.log × Post (λ _. IsFree (act b s).1) (act b s).0
      freed true e = (k, inl ((eq_iff rr.status.reservation_id "").0 e))
      freed false e =
          let f = release_reservation-frees r c rr rr.status.reservation_id s k in
          (
            f.0,
            right (release_reservation r c rr.status.reservation_id s).0
                (release_reservation r c rr.status.reservation_id s).1 f.1,
          )

  drop_finalizer-IsOrderly :
      (s : Run W) → IsFree s → IsOrderly rr s.log → IsOrderly rr (drop_finalizer r c rr s).1.log
  unfolding drop_finalizer
  drop_finalizer-IsOrderly s h k = ground arith

  finalize_request-IsOrderly :
      (s : Run W) → IsOrderly rr s.log → IsOrderly rr (finalize_request r c rr s).1.log
  unfolding finalize_request
  finalize_request-IsOrderly s k =
      let f = release_recorded-frees s k in
      let dropped =
        then_after (λ u. IsOrderly rr u.log) IsFree (λ _. drop_finalizer r c rr)
          (release_recorded r c rr) s f.1 f.0 (λ a. drop_finalizer-IsOrderly) in
      finalized rr.finalizer dropped
    where
      finalized :
          (b : Bool)
          → IsOrderly rr ((release_recorded r c rr >>= λ _. drop_finalizer r c rr) s).1.log
          → IsOrderly rr
              ((if b then (release_recorded r c rr >>= λ _. drop_finalizer r c rr) else pure done)
                s).1.log
      finalized true h = h
      finalized false h = k

  reconcile_live_request-IsOrderly :
      (s : Run W) → IsOrderly rr s.log → IsOrderly rr (reconcile_live_request r c rr s).1.log
  unfolding reconcile_live_request
  reconcile_live_request-IsOrderly s k =
      ground
        (arith, finalize_request-IsOrderly s k, serve-IsOrderly s k, add_finalizer-IsOrderly s k)

  -- Whatever the servers answer, one pass over a ResourceRequest that can be read: asks for
  -- reservations of one chunk only, under the request's own name where no reservation is recorded
  -- and under the recorded name in the middle of a migration; changes the recorded reservation only
  -- right after the new one was made or the old one was released or found gone; and drops the
  -- finalizer only where no reservation is recorded or right after it was released or found gone.
  -- The log before is assumed to have this property.
  pub reconcile_request-IsOrderly :
      (name : String) (s : Run W)
      → (c.get_request name s.world).0 ≡ ok rr
      → IsOrderly rr s.log
      → IsOrderly rr (reconcile_request r c name s).1.log
  unfolding reconcile_request
  reconcile_request-IsOrderly name s e k = ground (
    arith,
    reconcile_live_request-IsOrderly (record s { world = (c.get_request name s.world).1 }) k,
  )
