-- ===== src/Agent/Calls.antt =====
-- What an agent asks of its own API server, of liqoctl, of the file system and of the Broker.
use federation_autoscaler.Base.{String, Bool, true, false, List, ◌∷◌}
use federation_autoscaler.Api.{Time}
use federation_autoscaler.Kube.Core.{
  already_exists, Result, ok, err, accepted, Call, M, Run, query, request, agent,
}
use federation_autoscaler.Consumer.Types.{ResourceList}
use federation_autoscaler.Consumer.Port.{is_released}
use federation_autoscaler.Broker.Delivery.{InstructionView}
use federation_autoscaler.Agent.Types.{
  VirtualNodeState, ResourceSlice, ResultRequest, polled, handler_active, posted_result,
  staged_secret, dropped_secret, staged_file, removed_file, ran_liqoctl, made_slice, dropped_slice,
  made_state, dropped_state, wrote_state_status, dropped_foreign_cluster,
}

-- InstructionView on the wire: with ResourceSliceResources.
pub record Work : Type 0 where
  pub view : InstructionView
  pub resources : ResourceList

-- The outcome of an external command.
pub record Exit : Type 0 where
  pub succeeded : Bool
  pub stdout : String
  pub stderr : String

-- corev1.Node, as far as the agents and the controllers read it. `ready` are the statuses of its
-- conditions of type Ready, in order, with whether each is True.
pub record ClusterNode : Type 0 where
  pub name : String
  pub deleting : Bool
  pub unschedulable : Bool
  pub ready : List Bool
  pub provider_id : String
  pub allocatable : ResourceList

-- `cancelled` tells whether the context is done. A temporary file is known by its path.
pub record Cluster (W : Type 0) : Type 0 where
  pub now : W → Time × W
  pub cancelled : W → Bool × W
  pub get_instructions : Call W (List Work)
  pub post_instruction_result : String → ResultRequest → Call W (Unit {0})
  pub get_secret : String → Call W String
  pub create_secret : String → String → Call W (Unit {0})
  pub update_secret : String → String → Call W (Unit {0})
  pub delete_secret : String → Call W (Unit {0})
  pub write_file : String → String → Call W String
  pub remove_file : String → W → W
  pub run_liqoctl : List String → W → Exit × W
  -- The tenant namespaces of a provider.
  pub list_tenant_namespaces : String → Call W (List String)
  pub create_slice : ResourceSlice → Call W (Unit {0})
  pub delete_slice : String → String → Call W (Unit {0})
  pub create_state : VirtualNodeState → Call W (Unit {0})
  pub delete_state : String → Call W (Unit {0})
  pub get_state : String → Call W VirtualNodeState
  pub list_states : Call W (List VirtualNodeState)
  pub update_state_status : VirtualNodeState → Call W (Unit {0})
  pub delete_foreign_cluster : String → Call W (Unit {0})
  pub get_node : String → Call W ClusterNode
  pub list_nodes : Call W (List ClusterNode)

-- strings.TrimSpace and strings.Contains, the text first.
pub record Texts : Type 0 where
  pub trim_space : String → String
  pub contains : String → String → Bool

-- A creation that finds the object is as good as one that is accepted.
abbrev pub is_made : Result (Unit {0}) → Bool
is_made (ok a) = true
is_made (err already_exists) = true
is_made (err _) = false

abbrev pub staged_as : {W : Type 0} → Result String × W → Run W → Result String × Run W
staged_as (ok path, w) s = (ok path, record { world = w; log = agent (staged_file path) ∷ s.log })
staged_as (err e, w) s = (err e, record s { world = w })

module _ {W : Type 0} (c : Cluster W) where
  abbrev pub now : M W Time
  now s = (ok (c.now s.world).0, record s { world = (c.now s.world).1 })

  abbrev pub cancelled : M W Bool
  cancelled s = (ok (c.cancelled s.world).0, record s { world = (c.cancelled s.world).1 })

  abbrev pub get_instructions : M W (List Work)
  get_instructions = request c.get_instructions (λ a. agent (polled (accepted a)))

  -- A callback of the health probe.
  abbrev pub notify_handler_active : Bool → M W (Unit {0})
  notify_handler_active active s = (ok tt, record s { log = agent (handler_active active) ∷ s.log })

  abbrev pub post_instruction_result : String → ResultRequest → M W (Unit {0})
  post_instruction_result id result =
      request (c.post_instruction_result id result)
        (λ a. agent (posted_result (accepted a) id result))

  abbrev pub get_secret : String → M W String
  get_secret name = query (c.get_secret name)

  abbrev pub create_secret : String → String → M W (Unit {0})
  create_secret name value =
      request (c.create_secret name value) (λ a. agent (staged_secret (accepted a) name))

  abbrev pub update_secret : String → String → M W (Unit {0})
  update_secret name value =
      request (c.update_secret name value) (λ a. agent (staged_secret (accepted a) name))

  abbrev pub delete_secret : String → M W (Unit {0})
  delete_secret name =
      request (c.delete_secret name) (λ a. agent (dropped_secret (is_released a) name))

  -- A file with the kubeconfig for a reservation; a refusal leaves none behind.
  abbrev pub write_file : String → String → M W String
  write_file id kubeconfig s = staged_as (c.write_file id kubeconfig s.world) s

  abbrev pub remove_file : String → M W (Unit {0})
  remove_file path s = (
    ok tt,
    record { world = c.remove_file path s.world; log = agent (removed_file path) ∷ s.log },
  )

  abbrev pub run_liqoctl : List String → M W Exit
  run_liqoctl args s =
      let out = c.run_liqoctl args s.world in
      (ok out.0, record { world = out.1; log = agent (ran_liqoctl out.0.succeeded args) ∷ s.log })

  abbrev pub list_tenant_namespaces : String → M W (List String)
  list_tenant_namespaces provider = query (c.list_tenant_namespaces provider)

  abbrev pub create_slice : ResourceSlice → M W (Unit {0})
  create_slice x = request (c.create_slice x) (λ a. agent (made_slice (is_made a) x))

  abbrev pub delete_slice : String → String → M W (Unit {0})
  delete_slice namespace name =
      request (c.delete_slice namespace name)
        (λ a. agent (dropped_slice (is_released a) namespace name))

  abbrev pub create_state : VirtualNodeState → M W (Unit {0})
  create_state x = request (c.create_state x) (λ a. agent (made_state (is_made a) x))

  abbrev pub delete_state : String → M W (Unit {0})
  delete_state name =
      request (c.delete_state name) (λ a. agent (dropped_state (is_released a) name))

  abbrev pub get_state : String → M W VirtualNodeState
  get_state name = query (c.get_state name)

  abbrev pub list_states : M W (List VirtualNodeState)
  list_states = query c.list_states

  abbrev pub update_state_status : VirtualNodeState → M W (Unit {0})
  update_state_status x =
      request (c.update_state_status x) (λ a. agent (wrote_state_status (accepted a) x))

  abbrev pub delete_foreign_cluster : String → M W (Unit {0})
  delete_foreign_cluster name =
      request (c.delete_foreign_cluster name)
        (λ a. agent (dropped_foreign_cluster (is_released a) name))

  abbrev pub get_node : String → M W ClusterNode
  get_node name = query (c.get_node name)

  abbrev pub list_nodes : M W (List ClusterNode)
  list_nodes = query c.list_nodes
