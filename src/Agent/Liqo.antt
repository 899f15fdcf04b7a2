-- ===== src/Agent/Liqo.antt =====
-- internal/agent/consumer/instructions: liqo.go, secrets.go, virtualnodestate.go and exec.go, the
-- steps that the handlers of the consumer's agent are made of. The texts of errors are left out.
use Prim.Native.String.{◌++◌}
use federation_autoscaler.Base.{String, false, List, [], ◌∷◌, str_eq, none, if◌then◌else◌}
use federation_autoscaler.Base.Int.{pos}
use federation_autoscaler.Api.{chunk_type_standard, chunk_type_gpu}
use federation_autoscaler.Kube.Core.{
  Result, ok, err, not_found, already_exists, other, M, pure, throw, attempt, ◌>>=◌, ◌>>◌,
}
use federation_autoscaler.Consumer.Types.{ResourceList, has_resource, gpu_resource_name}
use federation_autoscaler.Agent.Types.{VirtualNodeState, VirtualNodeStatus, unset}
use federation_autoscaler.Agent.Calls
use federation_autoscaler.Agent.Calls.{Cluster, Work, Exit, Texts}

unfoldable pub resource_slice_name : String → String
resource_slice_name reservation_id = "rs-" ++ reservation_id

unfoldable pub staging_secret_name : String → String
staging_secret_name reservation_id = "kubeconfig-" ++ reservation_id

unfoldable pub virtual_node_state_name : String → String
virtual_node_state_name reservation_id = "vns-" ++ reservation_id

unfoldable pub derive_chunk_type : ResourceList → String
derive_chunk_type resources =
    if has_resource gpu_resource_name resources then chunk_type_gpu else chunk_type_standard

-- The agent's copy of the Broker's formula.
unfoldable pub node_group_id_for : String → String → String
node_group_id_for provider chunk_type = "ng-" ++ (provider ++ ("-" ++ chunk_type))

abbrev new_status : VirtualNodeStatus
new_status = record {
  observed_generation = 0;
  phase = unset;
  virtual_node_name = "";
  provider_id = "";
  resource_slice_name = "";
  allocatable = [];
  last_transition_time = none;
  message = "";
  conditions = [];
}

-- The object that ensureVirtualNodeState creates.
unfoldable pub new_state : String → Work → VirtualNodeState
unfolding node_group_id_for
new_state slice work = record {
  name = virtual_node_state_name work.view.reservation_id;
  generation = 0;
  deleting = false;
  spec = record {
    provider_cluster_id = work.view.provider_cluster_id;
    provider_liqo_cluster_id = work.view.provider_liqo_cluster_id;
    resource_slice_name = slice;
    node_group_id =
        node_group_id_for work.view.provider_cluster_id (derive_chunk_type work.resources);
    chunk_index = pos 0;
    reservation_id = work.view.reservation_id;
    resources = work.resources;
  };
  status = new_status;
}

abbrev pub lift : {W A : Type 0} → Result A → M W A
lift (ok a) = pure a
lift (err e) = throw e

module _ {W : Type 0} (c : Cluster W) where
  -- An action that may find its object gone.
  abbrev pub unless_gone : Result (Unit {0}) → M W (Unit {0})
  unless_gone (ok _) = pure tt
  unless_gone (err not_found) = pure tt
  unless_gone (err e) = throw e

  abbrev pub unless_there : Result (Unit {0}) → M W (Unit {0})
  unless_there (ok _) = pure tt
  unless_there (err already_exists) = pure tt
  unless_there (err e) = throw e

  abbrev refreshed_secret : String → String → Result (Unit {0}) → M W (Unit {0})
  refreshed_secret name kubeconfig (ok _) = pure tt
  refreshed_secret name kubeconfig (err already_exists) = do
    Calls.get_secret c name
    Calls.update_secret c name kubeconfig
  refreshed_secret name kubeconfig (err e) = throw e

  unfoldable pub persist_kubeconfig : String → String → M W (Unit {0})
  persist_kubeconfig id kubeconfig =
      let store : M W (Unit {0}) = do
        got ← attempt (Calls.create_secret c (staging_secret_name id) kubeconfig)
        refreshed_secret (staging_secret_name id) kubeconfig got
      in if str_eq kubeconfig "" then throw other else store

  abbrev loaded : Result String → M W String
  loaded (ok kubeconfig) = pure kubeconfig
  loaded (err not_found) = pure ""
  loaded (err e) = throw e

  unfoldable pub load_kubeconfig_from_secret : String → M W String
  load_kubeconfig_from_secret id = do
    got ← attempt (Calls.get_secret c (staging_secret_name id))
    loaded got

  unfoldable pub delete_staging_secret : String → M W (Unit {0})
  delete_staging_secret id = do
    got ← attempt (Calls.delete_secret c (staging_secret_name id))
    unless_gone got

  abbrev the_namespace : String → List String → M W String
  the_namespace provider [] = pure ("liqo-tenant-" ++ provider)
  the_namespace provider (name ∷ []) = pure name
  the_namespace provider (name ∷ more ∷ names) = throw other

  unfoldable pub tenant_namespace_for : String → M W String
  tenant_namespace_for provider = do
    names ← Calls.list_tenant_namespaces c provider
    the_namespace provider names

  unfoldable pub ensure_resource_slice : String → String → ResourceList → M W String
  ensure_resource_slice id provider resources = do
    namespace ← tenant_namespace_for provider
    got ← attempt (
        Calls.create_slice c (record {
          name = resource_slice_name id;
          namespace = namespace;
          provider_cluster_id = provider;
          resources = resources;
        }))
    unless_there got
    pure (resource_slice_name id)

  unfoldable pub delete_resource_slice : String → String → M W (Unit {0})
  delete_resource_slice id provider = do
    namespace ← tenant_namespace_for provider
    got ← attempt (Calls.delete_slice c namespace (resource_slice_name id))
    unless_gone got

  unfoldable pub delete_foreign_cluster : String → M W (Unit {0})
  delete_foreign_cluster provider = do
    got ← attempt (Calls.delete_foreign_cluster c provider)
    unless_gone got

  unfoldable pub ensure_virtual_node_state : String → Work → M W (Unit {0})
  ensure_virtual_node_state slice work = do
    got ← attempt (Calls.create_state c (new_state slice work))
    unless_there got

  unfoldable pub delete_virtual_node_state : String → M W (Unit {0})
  delete_virtual_node_state id = do
    got ← attempt (Calls.delete_state c (virtual_node_state_name id))
    unless_gone got

  -- The rest of a handler after a file was staged, whose removal is deferred.
  abbrev pub with_file : {A : Type 0} → String → M W A → M W A
  with_file path rest = do got ← attempt rest; Calls.remove_file c path; lift got
