-- ===== src/Consumer/Orderly/Moves.antt =====
-- Posting a reservation, and each step of a migration, keep the order.
use federation_autoscaler.Base.{
  String, Bool, true, false, ◌≡◌, refl, inl, inr, Option, none, some, List, if◌then◌else◌, arith,
  subst, sym, ap,
}
use federation_autoscaler.Base.Int.{pos}
use federation_autoscaler.Kube.Core.{M, pure, accepted, Result, ok, err, Run}
use federation_autoscaler.Consumer.Types.{
  NodeGroupView, NodeGroupListResponse, ResourceRequest, migrating,
}
use federation_autoscaler.Consumer.Holding.{only_phase}
use federation_autoscaler.Consumer.Sizing.{Choice, chunks_for, fits, multi_chunk_unsupported}
use federation_autoscaler.Consumer.Migration.{
  release_reservation, set_migrating, next_reservation_id, migration_message, migration_target,
  evaluated, moved, completed, start_migration, migrate, request_of, placed, place, re_evaluate,
  is_due, maybe_start_migration, stay_migrating, complete_migration, node_groups_for,
}
use federation_autoscaler.Controller.Config.{Duration}
use federation_autoscaler.Kube.Bind.{Post, then_after, then_keeps}
use federation_autoscaler.Consumer.Port
use federation_autoscaler.Consumer.Port.{Agent, RequestReconciler}
use federation_autoscaler.Consumer.Orderly.{FreedLast, PostedLast, MayPost, IsOrderly}
use federation_autoscaler.Consumer.Orderly.Writes.{
  write_phase-IsOrderly, set_failed-IsOrderly, set_phase_reserved-IsOrderly,
}
use federation_autoscaler.Consumer.Picking.{IsGood, pick_provider_and_size-IsGood}

module _ {F W : Type 0} (r : RequestReconciler F) (c : Agent F W) (rr : ResourceRequest) where
  pub release_reservation-frees :
      (id : String) (s : Run W)
      → IsOrderly rr s.log
      → IsOrderly rr (release_reservation r c id s).1.log
        × Post
            (λ _. FreedLast id (release_reservation r c id s).1.log)
            (release_reservation r c id s).0
  unfolding release_reservation
  release_reservation-frees id s k = ground arith

  set_migrating-IsOrderly :
      (id m : String) (s : Run W)
      → FreedLast rr.status.reservation_id s.log
      → IsOrderly rr s.log
      → IsOrderly rr (set_migrating r c rr id m s).1.log
  unfolding set_migrating
  set_migrating-IsOrderly id m s h k = ground arith

  start_migration-IsOrderly :
      (provider : String) (s : Run W)
      → FreedLast rr.status.reservation_id s.log
      → IsOrderly rr s.log
      → IsOrderly rr (start_migration r c rr provider s).1.log
  unfolding start_migration
  start_migration-IsOrderly provider s h k = ground (
    arith,
    set_migrating-IsOrderly (next_reservation_id r c rr) (migration_message r c rr provider) s h k,
  )

  migrate-IsOrderly :
      (group : NodeGroupView F) (s : Run W)
      → IsOrderly rr s.log
      → IsOrderly rr (migrate r c rr group s).1.log
  unfolding migrate
  migrate-IsOrderly group s k =
      let id = rr.status.reservation_id in
      let freed = release_reservation-frees id s k in
      then_after (λ u. IsOrderly rr u.log) (λ u. FreedLast id u.log)
        (λ _. start_migration r c rr group.provider_cluster_id) (release_reservation r c id) s
        freed.1 freed.0 (λ a. start_migration-IsOrderly group.provider_cluster_id)

  placed-IsOrderly :
      (id m : String) (best : Choice F) (a : Result (Unit {0})) (s : Run W)
      → Post (λ _. PostedLast id s.log) a
      → IsOrderly rr s.log
      → IsOrderly rr (placed r c rr id m best a s).1.log
  placed-IsOrderly id m best (err e) s h k = set_failed-IsOrderly r c rr _ s k
  placed-IsOrderly id m best (ok _) s h k = set_phase_reserved-IsOrderly r c rr id _ _ s h k

  pub place-IsOrderly :
      (id m : String) (best : Choice F) (s : Run W)
      → MayPost rr id best.count
      → IsOrderly rr s.log
      → IsOrderly rr (place r c rr id m best s).1.log
  unfolding place
  place-IsOrderly id m best s h k =
      placed-IsOrderly id m best (Port.post_reservation c id (request_of best) s).0 _
        (posted (c.post_reservation id (request_of best) s.world).0) (h, k)
    where
      posted : (a : Result (Unit {0})) → Post (λ _. (accepted a ≡ true) × (id ≡ id)) a
      posted (ok x) = (refl, refl)
      posted (err e) = tt

  evaluated-IsOrderly :
      (a : Result (NodeGroupListResponse F)) (s : Run W)
      → IsOrderly rr s.log
      → IsOrderly rr (evaluated r c rr a s).1.log
  evaluated-IsOrderly (err e) s k = k
  evaluated-IsOrderly (ok resp) s k = go (migration_target r.float resp rr)
    where
      go :
          (o : Option (NodeGroupView F))
          → IsOrderly rr (
              let m : M W (Option Duration) = elim o [
                | none ↦ pure none
                | some group ↦ migrate r c rr group
              ] in
              (m s).1.log)
      go none = k
      go (some group) = migrate-IsOrderly group s k

  node_groups_for-log : (s : Run W) → (node_groups_for r c rr s).1.log ≡ s.log
  unfolding node_groups_for
  node_groups_for-log s = ground arith

  pub offered_groups :
      (s : Run W) → IsOrderly rr s.log → IsOrderly rr (node_groups_for r c rr s).1.log
  offered_groups s k = subst (IsOrderly rr) (sym (node_groups_for-log s)) k

  re_evaluate-IsOrderly :
      (s : Run W) → IsOrderly rr s.log → IsOrderly rr (re_evaluate r c rr s).1.log
  unfolding re_evaluate
  re_evaluate-IsOrderly s k =
      evaluated-IsOrderly (node_groups_for r c rr s).0 (node_groups_for r c rr s).1
        (offered_groups s k)

  is_due-log : (s : Run W) → (is_due r c rr s).1.log ≡ s.log
  unfolding is_due
  is_due-log s = ground arith

  due-IsOrderly :
      (b : Bool) (s : Run W)
      → IsOrderly rr s.log
      → IsOrderly rr (
          let m : M W (Option Duration) = if b then re_evaluate r c rr else pure none in
          (m s).1.log)
  due-IsOrderly true s k = re_evaluate-IsOrderly s k
  due-IsOrderly false s k = k

  pub maybe_start_migration-IsOrderly :
      (s : Run W) → IsOrderly rr s.log → IsOrderly rr (maybe_start_migration r c rr s).1.log
  unfolding maybe_start_migration
  maybe_start_migration-IsOrderly s k =
      then_keeps (λ u. IsOrderly rr u.log) (λ due. if due then re_evaluate r c rr else pure none)
        (is_due r c rr) s (subst (IsOrderly rr) (sym (is_due-log s)) k) due-IsOrderly

  -- One chunk: the count that was picked is positive, and not refused as too big.
  pub picked_one :
      (best : Choice F)
      → fits rr.spec.resources best.group ≡ true
      → best.count ≡ chunks_for rr.spec.resources best.group.chunk_resources
      → multi_chunk_unsupported best.count ≡ false
      → best.count ≡ pos 1
  unfolding fits multi_chunk_unsupported
  picked_one best h e m = ground arith

  -- The answer of one of two actions, by a test.
  pub either-IsOrderly :
      {A : Type 0} (b : Bool) (m n : M W A) (s : Run W)
      → IsOrderly rr (m s).1.log
      → (b ≡ false → IsOrderly rr (n s).1.log)
      → IsOrderly rr ((if b then m else n) s).1.log
  either-IsOrderly true m n s h k = h
  either-IsOrderly false m n s h k = k refl

  stay_migrating-IsOrderly :
      (m : String) (s : Run W) → IsOrderly rr s.log → IsOrderly rr (stay_migrating r c rr m s).1.log
  unfolding stay_migrating
  stay_migrating-IsOrderly m s k =
      ground (arith, write_phase-IsOrderly r c rr (only_phase migrating m) s (inl refl) k)

  moved-IsOrderly :
      (groups : List (NodeGroupView F)) (o : Option (Choice F)) (s : Run W)
      → rr.status.phase ≡ migrating
      → IsGood rr.spec.resources groups o
      → IsOrderly rr s.log
      → IsOrderly rr (moved r c rr o s).1.log
  moved-IsOrderly groups none s p good k = stay_migrating-IsOrderly _ s k
  moved-IsOrderly groups (some best) s p (_, h, e) k =
      either-IsOrderly (multi_chunk_unsupported best.count) _ _ s (stay_migrating-IsOrderly _ s k)
        (λ m.
          place-IsOrderly rr.status.reservation_id _ best s
            (picked_one best h (ap (λ b. b.count) e) m, inr (p, refl)) k)

  completed-IsOrderly :
      (a : Result (NodeGroupListResponse F)) (s : Run W)
      → rr.status.phase ≡ migrating
      → IsOrderly rr s.log
      → IsOrderly rr (completed r c rr a s).1.log
  completed-IsOrderly (err e) s p k = k
  completed-IsOrderly (ok resp) s p k =
      moved-IsOrderly resp.node_groups _ s p
        (pick_provider_and_size-IsGood rr.spec.resources resp.node_groups) k

  pub complete_migration-IsOrderly :
      (s : Run W)
      → rr.status.phase ≡ migrating
      → IsOrderly rr s.log
      → IsOrderly rr (complete_migration r c rr s).1.log
  unfolding complete_migration
  complete_migration-IsOrderly s p k =
      completed-IsOrderly (node_groups_for r c rr s).0 _ p (offered_groups s k)
