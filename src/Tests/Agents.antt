-- ===== src/Tests/Agents.antt =====
-- The agents and their controller on the small cluster.
use federation_autoscaler.Base.{true, ◌≡◌, refl, [], ◌∷◌}
use federation_autoscaler.Base.Int.{pos}
use federation_autoscaler.Kube.Core.{ok, accepted}
use federation_autoscaler.Kube.Bind.{Post, Outcome}
use federation_autoscaler.Agent.Polling.{tick}
use federation_autoscaler.Agent.Reports.{posted, Polls, tick-Polls}
use federation_autoscaler.Agent.Liqo.{staging_secret_name}
use federation_autoscaler.Agent.Files.{open_files}
use federation_autoscaler.Agent.Handlers.{handle_peer, handle_consumer_cleanup}
use federation_autoscaler.Agent.Teardown.{shared, torn, at_first, secret_gone}
use federation_autoscaler.Agent.Released.{handle_consumer_cleanup-shared}
use federation_autoscaler.Agent.Peered.{built, chunks, all_of, handle_peer-Outcome}
use federation_autoscaler.Agent.Roles.{consumer_registry, consumer_registry-IsQuiet}
use federation_autoscaler.VirtualNodes.Status.{
  set_condition, update_conditions, apply_phase, node_ready, node_name_for, ready_reason,
  failed_reason,
}
use federation_autoscaler.VirtualNodes.Reconcile.{
  project_node, project_answer, project_from_node, desired_status, reconcile_node_state,
}
use federation_autoscaler.VirtualNodes.Passes.{reconcile_node_state_settled}
use federation_autoscaler.Tests.Clusters.{
  cluster, texts, config, at, peer_work, cleanup_work, vns, shown_status,
}

tick-Polls_example :
    Polls
      (consumer_registry cluster texts config)
      (cluster.get_instructions 7).0
      []
      (posted (tick cluster (consumer_registry cluster texts config) (at 7)).1.log)
tick-Polls_example =
    tick-Polls cluster (consumer_registry cluster texts config)
      (consumer_registry-IsQuiet cluster texts config) (λ w. refl) (at 7)

handle_consumer_cleanup-shared_example :
    (shared (handle_consumer_cleanup cluster texts config cleanup_work (at 7)).1.log ≡ [])
    × Post
        (λ _.
          torn (handle_consumer_cleanup cluster texts config cleanup_work (at 7)).1.log
          ≡ secret_gone (staging_secret_name "res-1") ∷ at_first cleanup_work [])
        (handle_consumer_cleanup cluster texts config cleanup_work (at 7)).0
handle_consumer_cleanup-shared_example =
    handle_consumer_cleanup-shared cluster texts config cleanup_work (at 7)

handle_peer-Outcome_example :
    (open_files (handle_peer cluster texts config peer_work (at 7)).1.log ≡ [])
    × Outcome
        (λ v. built v.log ≡ all_of cluster texts config peer_work [])
        (λ v. chunks v.log ≡ [])
        (handle_peer cluster texts config peer_work (at 7)).0
        (handle_peer cluster texts config peer_work (at 7)).1
handle_peer-Outcome_example = handle_peer-Outcome cluster texts config peer_work (at 7)

-- A first pass on an object with no status.
shown_at_7 : (desired_status cluster vns (at 7)).0 ≡ ok shown_status
unfolding desired_status project_from_node project_answer project_node apply_phase update_conditions
    set_condition node_ready node_name_for ready_reason failed_reason
shown_at_7 = refl

reconcile_node_state_settled_example :
    ((reconcile_node_state cluster (λ p q. true) (pos 30) "vns-res-1" (at 60)).1.log ≡ [])
    × (accepted (reconcile_node_state cluster (λ p q. true) (pos 30) "vns-res-1" (at 60)).0 ≡ true)
reconcile_node_state_settled_example =
    reconcile_node_state_settled cluster (λ p q. true) (λ q. refl) (pos 30) vns (at 7) shown_status
      tt shown_at_7 (tt, tt) "vns-res-1" (at 60) refl refl
