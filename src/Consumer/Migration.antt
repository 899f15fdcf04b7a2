-- ===== src/Consumer/Migration.antt =====
-- resourcerequest_controller.go: the placement of a ResourceRequest, and its migration.
use Prim.Native.String.{◌++◌}
use federation_autoscaler.Base.{
  String, Bool, true, false, not, ◌&&◌, Option, none, some, List, [], ◌∷◌, str_eq, if◌then◌else◌,
}
use federation_autoscaler.Base.Int.{ℤ, pos, ltb_ℤ, leb_ℤ, add32}
use federation_autoscaler.Kube.Core.{
  not_found, Result, ok, err, M, query, pure, throw, attempt, ◌>>=◌, ◌>>◌,
}
use federation_autoscaler.Controller.Config.{Duration, since}
use federation_autoscaler.Broker.Server.{ReservationRequest}
use federation_autoscaler.Consumer.Types.{
  Float64, NodeGroupView, NodeGroupListResponse, PlacementStrategy, price, eco, latency,
  ResourceRequest, migrating,
}
use federation_autoscaler.Consumer.Sizing.{Choice, pick_provider_and_size, multi_chunk_unsupported}
use federation_autoscaler.Consumer.Holding.{
  only_phase, pending_requeue, write_phase, set_failed, set_phase_reserved,
}
use federation_autoscaler.Consumer.Port
use federation_autoscaler.Consumer.Port.{Agent, RequestReconciler}

unfoldable pub is_stable_metric_policy : PlacementStrategy → Bool
is_stable_metric_policy price = true
is_stable_metric_policy eco = true
is_stable_metric_policy latency = true
is_stable_metric_policy _ = false

module _ {F : Type 0} where
  unfoldable pub metric_strictly_better : Float64 F → F → F → Bool
  metric_strictly_better f candidate current =
      f.lt candidate (f.sub current (f.mul current f.micro))

  unfoldable pub find_provider_view :
      String → String → List (NodeGroupView F) → Option (NodeGroupView F)
  find_provider_view provider chunk_type [] = none
  find_provider_view provider chunk_type (g ∷ groups) =
      if str_eq g.provider_cluster_id provider && str_eq g.chunk_type chunk_type
      then some g
      else find_provider_view provider chunk_type groups

  -- The current provider has left the list, or the other is strictly better by the metric.
  unfoldable pub is_improvement : Float64 F → Option (NodeGroupView F) → NodeGroupView F → Bool
  is_improvement f none group = true
  is_improvement f (some cur) group =
      cur.has_metric
      && (group.has_metric && metric_strictly_better f group.placement_metric cur.placement_metric)

  -- The group that a re-evaluation would move the request to.
  unfoldable pub migration_target :
      Float64 F → NodeGroupListResponse F → ResourceRequest → Option (NodeGroupView F)
  migration_target f resp rr = elim (pick_provider_and_size resp.node_groups rr.spec.resources) [
    | none ↦ none
    | some best ↦
        let cur =
          find_provider_view rr.status.provider_cluster_id best.group.chunk_type resp.node_groups in
        if is_stable_metric_policy resp.applied_placement
          && (not (str_eq best.group.provider_cluster_id rr.status.provider_cluster_id)
              && is_improvement f cur best.group)
        then some best.group
        else none
  ]

  abbrev pub request_of : Choice F → ReservationRequest
  request_of best = record {
    provider_cluster_id = best.group.provider_cluster_id;
    node_group_id = best.group.id;
    chunk_count = best.count;
    chunk_type = best.group.chunk_type;
    namespaces = [];
  }

module _ {F W : Type 0} (r : RequestReconciler F) (c : Agent F W) where
  unfoldable pub node_groups_for : ResourceRequest → M W (NodeGroupListResponse F)
  node_groups_for rr = elim rr.spec.latency_bound [
    | none ↦ Port.get_node_groups c
    | some bound ↦ elim c.get_node_groups_within [
      | none ↦ Port.get_node_groups c
      | some within ↦ query (within bound)
    ]
  ]

  abbrev pub next_reservation_id : ResourceRequest → String
  next_reservation_id rr =
      "mr-" ++ (rr.uid ++ ("-m" ++ r.decimal (add32 rr.status.migration_count (pos 1))))

  -- The message of multiChunkUnsupported.
  abbrev pub multi_chunk_message : ℤ → String
  multi_chunk_message count =
      "request needs "
      ++ (r.decimal count
          ++ (" chunks; a manual reservation currently covers exactly one chunk — lower "
              ++ ("spec.resources to fit one chunk, or create "
                  ++ (r.decimal count ++ " separate ResourceRequests"))))

  -- The reservation is gone, or the error of the release.
  abbrev pub released : Result (Unit {0}) → M W (Unit {0})
  released (ok _) = pure tt
  released (err not_found) = pure tt
  released (err e) = throw e

  unfoldable pub release_reservation : String → M W (Unit {0})
  release_reservation id = do got ← attempt (Port.delete_reservation c id); released got

  unfoldable pub set_migrating : ResourceRequest → String → String → M W (Unit {0})
  set_migrating rr id message = do
    now ← Port.now c
    Port.update_request_status c (record rr {
      status = record rr.status {
        phase = migrating;
        message = message;
        reservation_id = id;
        migration_count = add32 rr.status.migration_count (pos 1);
        last_transition_time = some now;
      };
    })
    pure tt

  -- Re-evaluation is enabled, and the last transition is an interval ago.
  unfoldable pub is_due : ResourceRequest → M W Bool
  is_due rr =
      if leb_ℤ r.re_eval_interval (pos 0) then pure false else elim rr.status.last_transition_time [
        | none ↦ pure true
        | some last ↦ (do now ← Port.now c; pure (not (ltb_ℤ (since now last) r.re_eval_interval)))
      ]

  abbrev pub migration_message : ResourceRequest → String → String
  migration_message rr provider =
      "migrating from " ++ (rr.status.provider_cluster_id ++ (" to " ++ provider))

  unfoldable pub start_migration : ResourceRequest → String → M W (Option Duration)
  start_migration rr provider = do
    set_migrating rr (next_reservation_id rr) (migration_message rr provider)
    pure (some pending_requeue)

  -- Break before make.
  unfoldable pub migrate : ResourceRequest → NodeGroupView F → M W (Option Duration)
  migrate rr group = do
    release_reservation rr.status.reservation_id
    start_migration rr group.provider_cluster_id

  -- From the node groups, or the error of the agent.
  abbrev pub evaluated : ResourceRequest → Result (NodeGroupListResponse F) → M W (Option Duration)
  evaluated rr (err e) = pure none
  evaluated rr (ok resp) = elim (migration_target r.float resp rr) [
    | none ↦ pure none
    | some group ↦ migrate rr group
  ]

  unfoldable pub re_evaluate : ResourceRequest → M W (Option Duration)
  re_evaluate rr = do got ← attempt (node_groups_for rr); evaluated rr got

  -- Nothing where the request keeps its reservation.
  unfoldable pub maybe_start_migration : ResourceRequest → M W (Option Duration)
  maybe_start_migration rr = do due ← is_due rr; if due then re_evaluate rr else pure none

  -- The status that follows the post.
  abbrev pub placed :
      ResourceRequest → String → String → Choice F → Result (Unit {0}) → M W Duration
  placed rr id prefix best (err e) = set_failed r c rr (prefix ++ r.error_text e)
  placed rr id prefix best (ok _) =
      set_phase_reserved r c rr id best.group.provider_cluster_id best.count

  unfoldable pub place : ResourceRequest → String → String → Choice F → M W Duration
  place rr id prefix best = do
    got ← attempt (Port.post_reservation c id (request_of best))
    placed rr id prefix best got

  unfoldable pub stay_migrating : ResourceRequest → String → M W Duration
  stay_migrating rr message = do
    write_phase r c rr (only_phase migrating message)
    pure pending_requeue

  -- From what pickProviderAndSize chose.
  abbrev pub moved : ResourceRequest → Option (Choice F) → M W Duration
  moved rr none = stay_migrating rr "migrating — waiting for a provider with capacity"
  moved rr (some best) =
      if multi_chunk_unsupported best.count
      then stay_migrating rr ("migrating — " ++ multi_chunk_message best.count)
      else place rr rr.status.reservation_id "migration reservation failed: " best

  abbrev pub completed : ResourceRequest → Result (NodeGroupListResponse F) → M W Duration
  completed rr (err e) = pure pending_requeue
  completed rr (ok resp) = moved rr (pick_provider_and_size resp.node_groups rr.spec.resources)

  unfoldable pub complete_migration : ResourceRequest → M W Duration
  complete_migration rr = do got ← attempt (node_groups_for rr); completed rr got
