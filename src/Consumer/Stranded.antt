-- ===== src/Consumer/Stranded.antt =====
-- Where a ResourceRequest and its reservation come apart.
use Prim.Native.String.{◌++◌}
use federation_autoscaler.Base.{
  String, false, ◌≡◌, some, List, ◌∷◌, arith, subst, sym, if◌then◌else◌,
}
use federation_autoscaler.Kube.Core.{ok, err, ApiError, Event, consumer, Run}
use federation_autoscaler.Consumer.Types.{
  NodeGroupListResponse, ResourceRequest, failed, migrating, wrote_request_status,
}
use federation_autoscaler.Consumer.Sizing.{Choice, pick_provider_and_size, multi_chunk_unsupported}
use federation_autoscaler.Consumer.Holding.{
  write_phase, is_changed, changed, transition_time, set_failed,
}
use federation_autoscaler.Consumer.Migration.{
  node_groups_for, request_of, placed, place, moved, completed, multi_chunk_message, stay_migrating,
  complete_migration,
}
use federation_autoscaler.Consumer.Port
use federation_autoscaler.Consumer.Port.{Agent, RequestReconciler}

-- The last request sent a status with the given property.
abbrev pub EndsWithStatus : (ResourceRequest → Type 0) → List Event → Type 0
EndsWithStatus P (consumer (wrote_request_status b x) ∷ log) = P x
EndsWithStatus P _ = ⊥

-- Failed, with the reservation that was asked for and refused still recorded.
abbrev pub IsStranded : ResourceRequest → ResourceRequest → Type 0
IsStranded rr x = (x.status.phase ≡ failed) × (x.status.reservation_id ≡ rr.status.reservation_id)

module _ {F W : Type 0} (r : RequestReconciler F) (c : Agent F W) (rr : ResourceRequest) where
  set_failed-IsStranded :
      (m : String) (s : Run W)
      → rr.status.phase ≡ migrating
      → EndsWithStatus (IsStranded rr) (set_failed r c rr m s).1.log
  unfolding set_failed write_phase is_changed changed transition_time
  set_failed-IsStranded m s e = ground arith

  place-IsStranded :
      (id m : String) (best : Choice F) (s : Run W) (e : ApiError)
      → rr.status.phase ≡ migrating
      → (c.post_reservation id (request_of best) s.world).0 ≡ err e
      → EndsWithStatus (IsStranded rr) (place r c rr id m best s).1.log
  unfolding place
  place-IsStranded id m best s e p h =
      let a = Port.post_reservation c id (request_of best) s in
      subst (λ x. EndsWithStatus (IsStranded rr) (placed r c rr id m best x a.1).1.log) (sym h)
        (set_failed-IsStranded _ a.1 p)

  -- Where the post of the reservation that would complete a migration is refused, the pass asks
  -- last for the phase Failed with that reservation still recorded.
  pub complete_migration_strands :
      (s : Run W) (resp : NodeGroupListResponse F) (best : Choice F) (e : ApiError)
      → rr.status.phase ≡ migrating
      → (node_groups_for r c rr s).0 ≡ ok resp
      → pick_provider_and_size resp.node_groups rr.spec.resources ≡ some best
      → multi_chunk_unsupported best.count ≡ false
      → (c.post_reservation rr.status.reservation_id
          (request_of best)
          (node_groups_for r c rr s).1.world).0
        ≡ err e
      → EndsWithStatus (IsStranded rr) (complete_migration r c rr s).1.log
  unfolding complete_migration
  complete_migration_strands s resp best e p g k m h =
      let t = (node_groups_for r c rr s).1 in
      let stays : String = "migrating — " ++ multi_chunk_message r c best.count in
      subst (λ x. EndsWithStatus (IsStranded rr) (completed r c rr x t).1.log) (sym g)
        (subst (λ x. EndsWithStatus (IsStranded rr) (moved r c rr x t).1.log) (sym k)
          (subst
            (λ x.
              EndsWithStatus (IsStranded rr)
                ((if x
                    then stay_migrating r c rr stays
                    else place r c rr rr.status.reservation_id "migration reservation failed: "
                        best)
                  t).1.log)
            (sym m) (place-IsStranded rr.status.reservation_id _ best t e p h)))
