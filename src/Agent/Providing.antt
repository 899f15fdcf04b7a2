-- ===== src/Agent/Providing.antt =====
-- internal/agent/provider: the handlers GenerateKubeconfig, Cleanup and Reconcile, and snapshot.go.
-- The path of liqoctl and its timeouts are left out: a timeout is a failure of the command.
use federation_autoscaler.Base.{
  ℕ, suc, String, Bool, not, ◌||◌, Option, some, none, List, [], ◌∷◌, any, str_eq, if◌then◌else◌,
}
use federation_autoscaler.Kube.Core.{other, M, pure, throw, ◌>>=◌}
use federation_autoscaler.Consumer.Types.{Quantity, ResourceList}
use federation_autoscaler.Agent.Types.{reported, kubeconfig_payload, advertisement_payload}
use federation_autoscaler.Agent.Calls
use federation_autoscaler.Agent.Calls.{Cluster, ClusterNode, Work, Exit, Texts}
use federation_autoscaler.Agent.Polling.{Handled, returned, HandlerFunc, kind_text}

unfoldable pub generate_args : String → List String
generate_args consumer = "generate" ∷ "peering-user" ∷ "--consumer-cluster-id" ∷ consumer ∷ []

unfoldable pub delete_args : String → List String
delete_args consumer = "delete" ∷ "peering-user" ∷ "--consumer-cluster-id" ∷ consumer ∷ []

unfoldable pub is_not_found : Texts → String → Bool
is_not_found t stderr =
    any (λ marker. t.contains stderr marker) ("not found" ∷ "does not exist" ∷ "NotFound" ∷ [])

-- Why a node is not counted.
pub data SkipReason : Type 0 where
  cordoned not_ready : SkipReason

pub record Snapshot : Type 0 where
  pub allocatable : ResourceList
  pub counted_nodes : ℕ
  pub skipped_nodes : List (String × SkipReason)

-- Whether some condition of type Ready is not True; a node with none counts as ready here.
unfoldable pub skip_reason : ClusterNode → Option SkipReason
skip_reason n =
    if n.unschedulable
    then some cordoned
    else if any (λ ready. not ready) n.ready
    then some not_ready
    else none

-- `add` is resource.Quantity's Add.
module _ (add : Quantity → Quantity → Quantity) where
  unfoldable pub add_resource : String → Quantity → ResourceList → ResourceList
  add_resource name q [] = (name, q) ∷ []
  add_resource name q ((key, old) ∷ sum) =
      let rest = add_resource name q sum in
      if str_eq key name then (key, add old q) ∷ sum else (key, old) ∷ rest

  unfoldable pub add_resources : ResourceList → ResourceList → ResourceList
  add_resources sum [] = sum
  add_resources sum ((name, q) ∷ list) = add_resources (add_resource name q sum) list

  unfoldable pub count_node : ClusterNode → Snapshot → Snapshot
  count_node n out = elim (skip_reason n) [
    | some reason ↦ record out { skipped_nodes = (n.name, reason) ∷ out.skipped_nodes }
    | none ↦ record out {
      allocatable = add_resources out.allocatable n.allocatable;
      counted_nodes = suc out.counted_nodes;
    }
  ]

  -- The loop of Take.
  unfoldable pub take_from : Snapshot → List ClusterNode → Snapshot
  take_from out [] = out
  take_from out (n ∷ nodes) = take_from (count_node n out) nodes

  unfoldable pub take_snapshot : List ClusterNode → Snapshot
  take_snapshot nodes =
      take_from (record { allocatable = []; counted_nodes = 0; skipped_nodes = [] }) nodes

module _ {W : Type 0} (c : Cluster W) (t : Texts) where
  abbrev generated : Exit → M W Handled
  generated out =
      if not out.succeeded
      then throw other
      else if str_eq (t.trim_space out.stdout) ""
      then throw other
      else pure (returned (some (reported (some (kubeconfig_payload (t.trim_space out.stdout))))))

  unfoldable pub generate : Work → M W Handled
  generate work = do
    out ← Calls.run_liqoctl c (generate_args work.view.consumer_cluster_id)
    generated out

  -- NewGenerateKubeconfigHandler.
  unfoldable pub handle_generate_kubeconfig : HandlerFunc W
  handle_generate_kubeconfig work =
      if not (str_eq (kind_text work.view.kind) "GenerateKubeconfig")
        || str_eq work.view.consumer_cluster_id ""
      then throw other
      else generate work

  abbrev removed : Exit → M W Handled
  removed out =
      if out.succeeded || is_not_found t (t.trim_space out.stderr)
      then pure (returned (some (reported none)))
      else throw other

  unfoldable pub remove_user : Work → M W Handled
  remove_user work = do
    out ← Calls.run_liqoctl c (delete_args work.view.consumer_cluster_id)
    removed out

  -- NewCleanupHandler of the provider.
  unfoldable pub handle_provider_cleanup : HandlerFunc W
  handle_provider_cleanup work =
      if not (str_eq (kind_text work.view.kind) "Cleanup")
        || str_eq work.view.consumer_cluster_id ""
      then throw other
      else remove_user work

  -- LocalClient is not nil, ClusterID and LiqoClusterID.
  module _ (add : Quantity → Quantity → Quantity) (has_client : Bool)
      (cluster_id liqo_id : String) where
    unfoldable pub report_snapshot : M W Handled
    report_snapshot = do
      nodes ← Calls.list_nodes c
      pure (
          returned (
            some (
              reported (
                some (
                  advertisement_payload cluster_id liqo_id
                    (take_snapshot add nodes).allocatable)))))

    -- NewReconcileHandler of the provider.
    unfoldable pub handle_provider_reconcile : HandlerFunc W
    handle_provider_reconcile work =
        if not (str_eq (kind_text work.view.kind) "Reconcile")
          || (not has_client || (str_eq cluster_id "" || str_eq liqo_id ""))
        then throw other
        else report_snapshot
