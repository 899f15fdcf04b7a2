-- ===== src/VirtualNodes/Reconcile.antt =====
-- virtualnodestate_controller.go: a pass over one VirtualNodeState, and which of them the watch on
-- the nodes wakes.
use Prim.Native.String.{◌++◌}
use federation_autoscaler.Base.{String, Bool, not, List, [], ◌∷◌, str_eq, if◌then◌else◌}
use federation_autoscaler.Kube.Core.{
  Result, ok, err, not_found, M, pure, throw, attempt, ◌>>=◌, ◌>>◌,
}
use federation_autoscaler.Consumer.Requests.{Requeue, done, after}
use federation_autoscaler.Controller.Config.{Duration}
use federation_autoscaler.Consumer.Types.{Quantity}
use federation_autoscaler.Agent.Types.{
  creating, running, deleting, VirtualNodeStatus, VirtualNodeState,
}
use federation_autoscaler.Agent.Calls
use federation_autoscaler.Agent.Calls.{Cluster, ClusterNode}
use federation_autoscaler.VirtualNodes.Status.{
  node_ready, node_name_for, apply_phase, update_conditions, status_equal,
}

module _ {W : Type 0} (c : Cluster W) where
  -- Nothing to schedule on: the phase, and no node.
  unfoldable pub without_node : VirtualNodeStatus → String → M W VirtualNodeStatus
  without_node status message = do
    st ← apply_phase c status creating message
    pure (record st { virtual_node_name = ""; provider_id = ""; allocatable = [] })

  -- From `desired.Status.VirtualNodeName = nodeName` on.
  unfoldable pub project_node : VirtualNodeStatus → String → ClusterNode → M W VirtualNodeStatus
  project_node status name node =
      let named = record status { virtual_node_name = name } in
      let terminating : M W VirtualNodeStatus = do
        st ← apply_phase c named deleting "Liqo virtual node is terminating"
        pure (record st { provider_id = ""; allocatable = [] })
      in let unready : M W VirtualNodeStatus = do
        st ← apply_phase c named creating "Liqo virtual node registered, not Ready yet"
        pure (record st { provider_id = ""; allocatable = [] })
        in let ready : M W VirtualNodeStatus = do
          st ← apply_phase c named running "Liqo virtual node is ready"
          pure (record st { provider_id = node.provider_id; allocatable = node.allocatable })
          in if node.deleting then terminating else if not (node_ready node) then unready else ready

  unfoldable pub project_answer :
      VirtualNodeStatus → String → Result ClusterNode → M W VirtualNodeStatus
  project_answer status name (err not_found) =
      without_node status ("waiting for Liqo to materialise node " ++ name)
  project_answer status name (err e) = throw e
  project_answer status name (ok node) = project_node status name node

  unfoldable pub project_from_node : VirtualNodeStatus → String → M W VirtualNodeStatus
  project_from_node status name = do
    got ← attempt (Calls.get_node c name)
    project_answer status name got

  -- `desired.Status`, before it is compared.
  unfoldable pub desired_status : VirtualNodeState → M W VirtualNodeStatus
  desired_status vns =
      let name = node_name_for vns in
      let status = record vns.status {
        observed_generation = vns.generation;
        resource_slice_name = vns.spec.resource_slice_name;
      } in
      (if str_eq name ""
        then without_node status
            "VirtualNodeState missing resourceSliceName and providerLiqoClusterId"
        else project_from_node status name)
      >>= update_conditions c

  module _ (cmp_zero : Quantity → Quantity → Bool) (requeue_after : Duration) where
    unfoldable pub refresh_status : VirtualNodeState → M W Requeue
    refresh_status vns = do
      desired ← desired_status vns
      (if status_equal cmp_zero vns.status desired
          then pure tt
          else Calls.update_state_status c (record vns { status = desired }))
      pure (after requeue_after)

    abbrev pub reconcile_found : Result VirtualNodeState → M W Requeue
    reconcile_found (err not_found) = pure done
    reconcile_found (err e) = throw e
    reconcile_found (ok vns) = if vns.deleting then pure done else refresh_status vns

    -- Reconcile, with its interval of polling.
    unfoldable pub reconcile_node_state : String → M W Requeue
    reconcile_node_state name = do got ← attempt (Calls.get_state c name); reconcile_found got

  abbrev pub woken_by : String → List VirtualNodeState → List String
  woken_by node [] = []
  woken_by node (v ∷ list) =
      let rest = woken_by node list in
      if not (str_eq (node_name_for v) node) then rest else v.name ∷ rest

  -- A list that is refused wakes nothing.
  unfoldable pub requests_for_node : String → M W (List String)
  requests_for_node node = do
    got ← attempt (Calls.list_states c)
    elim got [ ok list ↦ pure (woken_by node list) | err e ↦ pure [] ]
