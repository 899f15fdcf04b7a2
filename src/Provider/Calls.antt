-- ===== src/Provider/Calls.antt =====
-- NodeGroupIncreaseSize, NodeGroupDeleteNodes, NodeGroupDecreaseTargetSize and findNodeGroup.
use federation_autoscaler.Base.{
  ℕ, zero, suc, String, Option, none, some, List, [], ◌∷◌, any, str_eq, if◌then◌else◌,
}
use federation_autoscaler.Base.Int.{ℤ, pos, pos_part, leb_ℤ, ltb_ℤ}
use federation_autoscaler.Kube.Core.{ApiError, Result, ok, err, M, pure, attempt, ◌>>=◌}
use federation_autoscaler.Broker.Server.{ReservationRequest}
use federation_autoscaler.Consumer.Types.{NodeGroupView, NodeGroupListResponse}
use federation_autoscaler.Consumer.Port
use federation_autoscaler.Consumer.Port.{Agent}

pub data Code : Type 0 where
  invalid_argument failed_precondition not_found : Code

-- Done, refused by the server itself, or an error of the agent.
pub data Reply : Type 0 where
  replied : Reply
  refused : Code → Reply
  agent_failed : ApiError → Reply

module _ {F : Type 0} where
  unfoldable pub find_group : String → List (NodeGroupView F) → Option (NodeGroupView F)
  find_group id [] = none
  find_group id (g ∷ groups) =
      let rest = find_group id groups in if str_eq g.id id then some g else rest

  -- The request for one chunk of a group.
  abbrev pub one_chunk : NodeGroupView F → ReservationRequest
  one_chunk g = record {
    provider_cluster_id = g.provider_cluster_id;
    node_group_id = g.id;
    chunk_count = pos 1;
    chunk_type = g.chunk_type;
    namespaces = [];
  }

-- The reservation of a virtual node; of two with one name, the later is kept.
unfoldable pub by_name : List (String × String) → String → Option String
by_name [] name = none
by_name ((vn, id) ∷ list) name = elim (by_name list name) [
  | some later ↦ some later
  | none ↦ if str_eq vn name then some id else none
]

abbrev pub add_id : String → List String → List String
add_id id ids = if any (λ x. str_eq id x) ids then ids else id ∷ ids

-- What is to be released, or why the request is refused.
pub data Plan : Type 0 where
  release : List String → Plan
  refuse : Code → Plan

-- One more node; only after all of them are there is anything released.
unfoldable pub plan_node : Option String → Plan → Plan
plan_node none plan = refuse not_found
plan_node (some id) (refuse code) = if str_eq id "" then refuse failed_precondition else refuse code
plan_node (some id) (release ids) =
    if str_eq id "" then refuse failed_precondition else release (add_id id ids)

unfoldable pub plan_nodes : List (String × String) → List String → Plan
plan_nodes list [] = release []
plan_nodes list (name ∷ names) =
    let rest = plan_nodes list names in
    if str_eq name "" then refuse invalid_argument else plan_node (by_name list name) rest

-- `new_reservation_id` is `res-` with a new UUID.
module _ {F W : Type 0} (c : Agent F W) (new_reservation_id : W → String × W) where
  abbrev pub mint_id : M W String
  mint_id s =
      (ok (new_reservation_id s.world).0, record s { world = (new_reservation_id s.world).1 })

  abbrev pub post_one : NodeGroupView F → M W (Result (Unit {0}))
  post_one g = do id ← mint_id; attempt (Port.post_reservation c id (one_chunk g))

  -- The error of a request to the agent ends the call.
  abbrev pub unless_failed : Result (Unit {0}) → M W Reply → M W Reply
  unless_failed (err e) rest = pure (agent_failed e)
  unless_failed (ok _) rest = rest

  -- One reservation per chunk; the first error ends the loop.
  unfoldable pub place_chunks : ℕ → NodeGroupView F → M W Reply
  place_chunks zero g = pure replied
  place_chunks (suc n) g = do got ← post_one g; unless_failed got (place_chunks n g)

  abbrev pub on_group : (NodeGroupView F → M W Reply) → Option (NodeGroupView F) → M W Reply
  on_group act none = pure (refused not_found)
  on_group act (some g) = act g

  abbrev pub on_groups :
      String → (NodeGroupView F → M W Reply) → Result (NodeGroupListResponse F) → M W Reply
  on_groups id act (err e) = pure (agent_failed e)
  on_groups id act (ok resp) = on_group act (find_group id resp.node_groups)

  -- findNodeGroup, and what its callers do with a miss.
  unfoldable pub with_group : String → (NodeGroupView F → M W Reply) → M W Reply
  with_group id act = do got ← attempt (Port.get_node_groups c); on_groups id act got

  unfoldable pub node_group_increase_size : String → ℤ → M W Reply
  node_group_increase_size id delta =
      if str_eq id ""
      then pure (refused invalid_argument)
      else if leb_ℤ delta (pos 0)
      then pure (refused invalid_argument)
      else with_group id (place_chunks (pos_part delta))

  unfoldable pub release_all : List String → M W Reply
  release_all [] = pure replied
  release_all (id ∷ ids) = do
    got ← attempt (Port.delete_reservation c id)
    unless_failed got (release_all ids)

  abbrev pub carried_out : Plan → M W Reply
  carried_out (refuse code) = pure (refused code)
  carried_out (release ids) = release_all ids

  abbrev pub release_nodes : List String → Result (List (String × String)) → M W Reply
  release_nodes names (err e) = pure (agent_failed e)
  release_nodes names (ok list) = carried_out (plan_nodes list names)

  unfoldable pub node_group_delete_nodes : String → List String → M W Reply
  node_group_delete_nodes id [] = pure (refused invalid_argument)
  node_group_delete_nodes id (name ∷ names) =
      if str_eq id ""
      then pure (refused invalid_argument)
      else (do got ← attempt (Port.get_virtual_nodes c); release_nodes (name ∷ names) got)

  unfoldable pub node_group_decrease_target_size : String → ℤ → M W Reply
  node_group_decrease_target_size id delta =
      if str_eq id ""
      then pure (refused invalid_argument)
      else if ltb_ℤ delta (pos 0)
      then pure replied
      else pure (refused invalid_argument)
