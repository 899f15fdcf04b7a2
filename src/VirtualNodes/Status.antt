-- ===== src/VirtualNodes/Status.antt =====
-- virtualnodestate_controller.go: what the controller writes into a status, and when it takes two
-- statuses for equal. `cmp_zero` is whether Quantity.Cmp answers 0.
use federation_autoscaler.Base.{
  String, Bool, true, false, not, ◌&&◌, Option, none, some, List, [], ◌∷◌, length, str_eq, ◌==◌,
  if◌then◌else◌,
}
use federation_autoscaler.Kube.Core.{M, pure, ◌>>=◌}
use federation_autoscaler.Consumer.Types.{Quantity, ResourceList, quantity_of, has_resource}
use federation_autoscaler.Agent.Types.{
  VirtualNodePhase, running, failed, node_phase_eq, Condition, VirtualNodeStatus, VirtualNodeState,
}
use federation_autoscaler.Agent.Calls
use federation_autoscaler.Agent.Calls.{Cluster, ClusterNode}

-- The conditions of type Ready, in order: the first one decides.
unfoldable pub node_ready : ClusterNode → Bool
node_ready node = first node.ready
  where
    first : List Bool → Bool
    first [] = false
    first (b ∷ list) = b

unfoldable pub node_name_for : VirtualNodeState → String
node_name_for vns =
    if not (str_eq vns.spec.resource_slice_name "")
    then vns.spec.resource_slice_name
    else vns.spec.provider_liqo_cluster_id

unfoldable pub ready_reason : VirtualNodePhase → String
ready_reason phase =
    if node_phase_eq phase running then "VirtualNodeReady" else "VirtualNodeNotReady"

unfoldable pub failed_reason : VirtualNodePhase → String
failed_reason phase =
    if node_phase_eq phase failed then "VirtualNodeFailed" else "VirtualNodeNotFailed"

abbrev pub same_status : Bool → Bool → Bool
same_status true b = b
same_status false b = not b

module _ {W : Type 0} (c : Cluster W) where
  abbrev pub stamped : Bool → VirtualNodeStatus → M W VirtualNodeStatus
  stamped true status = do t ← Calls.now c; pure (record status { last_transition_time = some t })
  stamped false status = pure status

  unfoldable pub apply_phase : VirtualNodeStatus → VirtualNodePhase → String → M W VirtualNodeStatus
  apply_phase status phase message = do
    st ← stamped (not (node_phase_eq status.phase phase)) status
    pure (record st { phase = phase; message = message })

  -- The time of a condition whose Status flips.
  abbrev pub flipped : Bool → Condition → M W Condition
  flipped true x = do t ← Calls.now c; pure (record x { last_transition_time = t })
  flipped false x = pure x

  unfoldable pub set_condition :
      List Condition → String → Bool → String → String → M W (List Condition)
  set_condition [] type_name holds reason message = do
    t ← Calls.now c
    pure (
        record {
          condition_type = type_name;
          status = holds;
          reason = reason;
          message = message;
          last_transition_time = t;
        }
        ∷ [])
  set_condition (x ∷ xs) type_name holds reason message =
      let later : M W (List Condition) = do
        rest ← set_condition xs type_name holds reason message
        pure (x ∷ rest)
      in let here : M W (List Condition) = do
        y ← flipped (not (same_status x.status holds)) x
        pure (record y { status = holds; reason = reason; message = message } ∷ xs)
        in if str_eq x.condition_type type_name then here else later

  unfoldable pub update_conditions : VirtualNodeStatus → M W VirtualNodeStatus
  update_conditions status = do
    one ←
        set_condition status.conditions "Ready" (node_phase_eq status.phase running)
          (ready_reason status.phase) status.message
    two ←
        set_condition one "Failed" (node_phase_eq status.phase failed) (failed_reason status.phase)
          status.message
    pure (record status { conditions = two })

abbrev pub found_or : Option Condition → Option Condition → Option Condition
found_or (some y) d = some y
found_or none d = d

-- `idx[c.Type] = c` over all conditions: the last of a type.
unfoldable pub condition_index : String → List Condition → Option Condition
condition_index type_name [] = none
condition_index type_name (x ∷ xs) =
    found_or (condition_index type_name xs)
      (if str_eq x.condition_type type_name then some x else none)

abbrev pub same_condition : Option Condition → Condition → Bool
same_condition none y = false
same_condition (some x) y =
    same_status x.status y.status && (str_eq x.reason y.reason && str_eq x.message y.message)

abbrev pub all_indexed : List Condition → List Condition → Bool
all_indexed list [] = true
all_indexed list (y ∷ ys) =
    same_condition (condition_index y.condition_type list) y && all_indexed list ys

unfoldable pub conditions_equal : List Condition → List Condition → Bool
conditions_equal a b = (length a == length b) && all_indexed a b

module _ (cmp_zero : Quantity → Quantity → Bool) where
  abbrev pub all_held : ResourceList → ResourceList → Bool
  all_held [] list = true
  all_held ((key, q) ∷ rest) list =
      (has_resource key list && cmp_zero q (quantity_of key list)) && all_held rest list

  unfoldable pub resource_list_equal : ResourceList → ResourceList → Bool
  resource_list_equal a b = (length a == length b) && all_held a b

  -- The name of the slice and the time of the transition are not looked at.
  unfoldable pub status_equal : VirtualNodeStatus → VirtualNodeStatus → Bool
  status_equal a b =
      (node_phase_eq a.phase b.phase
        && (str_eq a.virtual_node_name b.virtual_node_name
            && (str_eq a.provider_id b.provider_id
                && ((a.observed_generation == b.observed_generation)
                    && str_eq a.message b.message))))
      && (resource_list_equal a.allocatable b.allocatable
          && conditions_equal a.conditions b.conditions)
