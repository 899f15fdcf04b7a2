-- ===== src/Tests/Consumers.antt =====
-- ResourceRequests and the calls of the Cluster Autoscaler on a small site.
use federation_autoscaler.Base.{ℕ, ◌≤◌, true, false, refl, [], ◌∷◌, All, arith}
use federation_autoscaler.Base.Int.{pos}
use federation_autoscaler.Kube.Core.{other}
use federation_autoscaler.Consumer.Types.{
  ResourceRequest, migrating, pending, ResourceList, quantity_of, has_resource,
}
use federation_autoscaler.Consumer.Sizing.{
  Choice, fits, pick_from, pick_provider_and_size, multi_chunk_unsupported, chunks_for, max_needed,
  chunks_needed, gpu_requested,
}
use federation_autoscaler.Consumer.Picking.{IsPick, CanHold, HasMost, pick_provider_and_size_lem}
use federation_autoscaler.Consumer.Rounding.{IsCovered, chunks_for-least}
use federation_autoscaler.Consumer.Migration.{complete_migration, node_groups_for}
use federation_autoscaler.Consumer.Requests.{reconcile_request}
use federation_autoscaler.Consumer.Orderly.{IsOrderly}
use federation_autoscaler.Consumer.Orderly.Passes.{reconcile_request-IsOrderly}
use federation_autoscaler.Consumer.Stranded.{EndsWithStatus, IsStranded, complete_migration_strands}
use federation_autoscaler.Provider.Calls.{node_group_increase_size, node_group_delete_nodes}
use federation_autoscaler.Provider.Growing.{made, Replies, node_group_increase_size-Replies}
use federation_autoscaler.Provider.Shrinking.{HasShrunk, node_group_delete_nodes-HasShrunk}
use federation_autoscaler.Base.Int.{int32, int64, quot, sub32}
use federation_autoscaler.Tests.Sites.{
  small_agent, settings, request_in, site, groups, group_of, response, two_cores, new_quantity,
  new_id,
}

abbrev fresh : ResourceRequest
fresh = request_in pending "" false

reconcile_request-IsOrderly_example :
    IsOrderly fresh (reconcile_request settings small_agent "q" (site fresh false)).1.log
reconcile_request-IsOrderly_example =
    reconcile_request-IsOrderly settings small_agent fresh "q" (site fresh false) refl tt

pick_provider_and_size_lem_example :
    IsPick fresh.spec.resources groups (pick_provider_and_size groups fresh.spec.resources)
    × All
        (λ g.
          CanHold fresh.spec.resources g
          → HasMost fresh.spec.resources (pick_provider_and_size groups fresh.spec.resources) g)
        groups
pick_provider_and_size_lem_example = pick_provider_and_size_lem fresh.spec.resources groups

abbrev three_cores : ResourceList
three_cores = ("cpu", new_quantity (pos 3)) ∷ []

chunks_for-least_example :
    All (IsCovered two_cores 2) three_cores
    × ((m : ℕ) → All (IsCovered two_cores m) three_cores → 2 ≤ m)
unfolding chunks_for max_needed chunks_needed quantity_of has_resource int32 int64 quot
chunks_for-least_example =
    chunks_for-least two_cores three_cores 1 ((omega arith, omega arith), tt) refl

abbrev moving : ResourceRequest
moving = request_in migrating "mr-u1-m1" false

abbrev small_choice : Choice ℕ
small_choice = record { group = group_of "b" (pos 4) (pos 1) 7; count = pos 1; head_room = pos 3 }

complete_migration_strands_example :
    EndsWithStatus
      (IsStranded moving)
      (complete_migration settings small_agent moving (site moving true)).1.log
unfolding node_groups_for pick_provider_and_size pick_from fits chunks_for max_needed chunks_needed
    quantity_of has_resource gpu_requested int32 int64 quot sub32 multi_chunk_unsupported
complete_migration_strands_example =
    complete_migration_strands settings small_agent moving (site moving true) response small_choice
      other refl refl refl refl refl

node_group_increase_size-Replies_example :
    Replies
      (pos 2)
      0
      (node_group_increase_size small_agent new_id "b" (pos 2) (site fresh false)).0
      (made (node_group_increase_size small_agent new_id "b" (pos 2) (site fresh false)).1.log)
node_group_increase_size-Replies_example =
    node_group_increase_size-Replies small_agent new_id "b" (pos 2) (site fresh false)

node_group_delete_nodes-HasShrunk_example :
    HasShrunk
      (("n1", "r1") ∷ ("n2", "r2") ∷ [])
      ("n2" ∷ "n1" ∷ [])
      []
      (node_group_delete_nodes small_agent new_id "b" ("n2" ∷ "n1" ∷ []) (site fresh false)).0
      (node_group_delete_nodes small_agent new_id "b" ("n2" ∷ "n1" ∷ []) (site fresh false)).1.log
node_group_delete_nodes-HasShrunk_example =
    node_group_delete_nodes-HasShrunk small_agent new_id "b" "n2" ("n1" ∷ [])
      (("n1", "r1") ∷ ("n2", "r2") ∷ []) (site fresh false) refl
