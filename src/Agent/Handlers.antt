-- ===== src/Agent/Handlers.antt =====
-- internal/agent/consumer/instructions: the handlers Peer, Unpeer, Cleanup and Reconcile. The path
-- of liqoctl and its timeouts are left out: a timeout is a failure of the command.
use federation_autoscaler.Base.{
  String, Bool, not, ◌&&◌, ◌||◌, some, none, List, [], ◌∷◌, any, map, str_eq, if◌then◌else◌,
}
use federation_autoscaler.Kube.Core.{other, M, pure, throw, ◌>>=◌, ◌>>◌}
use federation_autoscaler.Agent.Types.{
  VirtualNodeState, StateView, reported, peer_payload, unpeer_payload, states_payload,
}
use federation_autoscaler.Agent.Calls
use federation_autoscaler.Agent.Calls.{Cluster, Work, Exit, Texts}
use federation_autoscaler.Agent.Polling.{Handled, returned, HandlerFunc, kind_text}
use federation_autoscaler.Agent.Liqo.{
  persist_kubeconfig, load_kubeconfig_from_secret, delete_staging_secret, ensure_resource_slice,
  delete_resource_slice, delete_foreign_cluster, ensure_virtual_node_state,
  delete_virtual_node_state, with_file,
}

-- LocalClient is not nil, and the Namespace.
pub record HandlerConfig : Type 0 where
  pub has_client : Bool
  pub namespace : String

-- Whether the handler of a kind refuses the work before it starts.
abbrev pub is_refused : HandlerConfig → String → Work → Bool
is_refused cfg kind work =
    not (str_eq (kind_text work.view.kind) kind) || (not cfg.has_client || str_eq cfg.namespace "")

abbrev pub peer_args : String → List String
peer_args path =
    "peer" ∷ "--remote-kubeconfig" ∷ path ∷ "--gw-server-service-type" ∷ "NodePort"
    ∷ "--create-resource-slice=false" ∷ []

abbrev pub unpeer_args : String → List String
unpeer_args path = "unpeer" ∷ "--remote-kubeconfig" ∷ path ∷ []

unfoldable pub looks_already_unpeered : Texts → String → Bool
looks_already_unpeered t stderr =
    any (λ marker. t.contains stderr marker)
      ("not peered" ∷ "already unpeered" ∷ "no peering" ∷ "not found" ∷ [])

unfoldable pub view_from_vns : VirtualNodeState → StateView
view_from_vns v = record {
  reservation_id = v.spec.reservation_id;
  chunk_index = v.spec.chunk_index;
  node_group_id = v.spec.node_group_id;
  virtual_node_name = v.status.virtual_node_name;
  resource_slice = v.status.resource_slice_name;
  phase = v.status.phase;
  last_transition = v.status.last_transition_time;
}

module _ {W : Type 0} (c : Cluster W) (t : Texts) (cfg : HandlerConfig) where
  -- A command that has to succeed.
  abbrev checked : Exit → M W (Unit {0})
  checked out = if out.succeeded then pure tt else throw other

  -- From the staged file on.
  unfoldable pub peer_through : String → Work → M W Handled
  peer_through path work = do
    out ← Calls.run_liqoctl c (peer_args path)
    checked out
    slice ←
        ensure_resource_slice c work.view.reservation_id work.view.provider_liqo_cluster_id
          work.resources
    ensure_virtual_node_state c slice work
    pure (returned (some (reported (some (peer_payload (slice ∷ []))))))

  unfoldable pub peer : Work → M W Handled
  peer work = do
    persist_kubeconfig c work.view.reservation_id work.view.kubeconfig
    path ← Calls.write_file c work.view.reservation_id work.view.kubeconfig
    with_file c path (peer_through path work)

  -- NewPeerHandler.
  unfoldable pub handle_peer : HandlerFunc W
  handle_peer work =
      if is_refused cfg "Peer" work
        || (str_eq work.view.kubeconfig "" || str_eq work.view.provider_liqo_cluster_id "")
      then throw other
      else peer work

  -- A refusal that says that there is no peering is a success.
  abbrev unpeered : Exit → M W (Unit {0})
  unpeered out =
      if out.succeeded || looks_already_unpeered t (t.trim_space out.stderr)
      then pure tt
      else throw other

  -- Step 4, after the tunnel.
  unfoldable pub finish_unpeer : Work → M W Handled
  finish_unpeer work = do
    delete_staging_secret c work.view.reservation_id
    (if work.view.last_chunk && not (str_eq work.view.provider_liqo_cluster_id "")
        then delete_foreign_cluster c work.view.provider_liqo_cluster_id
        else pure tt)
    pure (
        returned
          (some (reported (some (unpeer_payload work.view.chunk_count work.view.last_chunk)))))

  -- From the staged file on.
  unfoldable pub unpeer_through : String → Work → M W Handled
  unpeer_through path work = do
    out ← Calls.run_liqoctl c (unpeer_args path)
    unpeered out
    finish_unpeer work

  -- Step 3: the tunnel is dropped by the last chunk alone, and only with a kubeconfig.
  unfoldable pub drop_tunnel : String → Work → M W Handled
  drop_tunnel kubeconfig work =
      let drop : M W Handled = do
        path ← Calls.write_file c work.view.reservation_id kubeconfig
        with_file c path (unpeer_through path work)
      in if not work.view.last_chunk
        then finish_unpeer work
        else if str_eq kubeconfig ""
        then finish_unpeer work
        else drop

  unfoldable pub unpeer : Work → M W Handled
  unpeer work = do
    delete_virtual_node_state c work.view.reservation_id
    delete_resource_slice c work.view.reservation_id work.view.provider_liqo_cluster_id
    kubeconfig ← load_kubeconfig_from_secret c work.view.reservation_id
    drop_tunnel kubeconfig work

  -- NewUnpeerHandler.
  unfoldable pub handle_unpeer : HandlerFunc W
  handle_unpeer work = if is_refused cfg "Unpeer" work then throw other else unpeer work

  unfoldable pub clear : Work → M W Handled
  clear work = do
    delete_virtual_node_state c work.view.reservation_id
    delete_resource_slice c work.view.reservation_id work.view.provider_liqo_cluster_id
    delete_staging_secret c work.view.reservation_id
    pure (returned (some (reported none)))

  -- NewCleanupHandler of the consumer.
  unfoldable pub handle_consumer_cleanup : HandlerFunc W
  handle_consumer_cleanup work = if is_refused cfg "Cleanup" work then throw other else clear work

  unfoldable pub report_states : M W Handled
  report_states = do
    states ← Calls.list_states c
    pure (returned (some (reported (some (states_payload (map view_from_vns states))))))

  -- NewReconcileHandler of the consumer; its list is of one namespace or of all.
  unfoldable pub handle_consumer_reconcile : HandlerFunc W
  handle_consumer_reconcile work =
      if not (str_eq (kind_text work.view.kind) "Reconcile") || not cfg.has_client
      then throw other
      else report_states
