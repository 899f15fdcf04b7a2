-- ===== src/Agent/Roles.antt =====
-- The handlers that each role registers, and that they send no result themselves:
-- internal/agent/consumer/consumer.go and internal/agent/provider/provider.go.
use federation_autoscaler.Base.{String, Bool, not, ◌||◌, ap, ◌∙◌, [], ◌≡◌, refl, arith, str_eq}
use federation_autoscaler.Kube.Core.{Run, M, Result, ok, err, throw, other, ◌>>=◌}
use federation_autoscaler.Kube.Keeps.{Keeps, then-Keeps, if-Keeps}
use federation_autoscaler.Agent.Calls
use federation_autoscaler.Agent.Files.{with_file-log}
use federation_autoscaler.Agent.Teardown.{unpeer-Keeps}
use federation_autoscaler.Consumer.Types.{Quantity}
use federation_autoscaler.Agent.Calls.{staged_as, Cluster, Work, Texts}
use federation_autoscaler.Agent.Polling.{Registry, register}
use federation_autoscaler.Agent.Reports.{posted, IsQuiet}
use federation_autoscaler.Agent.Liqo.{
  delete_virtual_node_state, delete_resource_slice, tenant_namespace_for, delete_staging_secret,
  delete_foreign_cluster, load_kubeconfig_from_secret, ensure_resource_slice,
  ensure_virtual_node_state, persist_kubeconfig, with_file,
}
use federation_autoscaler.Agent.Handlers.{
  is_refused, HandlerConfig, handle_peer, handle_unpeer, handle_consumer_cleanup,
  handle_consumer_reconcile, clear, report_states, peer, peer_through, unpeer, unpeer_through,
  finish_unpeer, drop_tunnel,
}
use federation_autoscaler.Agent.Providing.{
  handle_generate_kubeconfig, handle_provider_cleanup, handle_provider_reconcile, generate,
  remove_user, report_snapshot,
}

module _ {W : Type 0} (c : Cluster W) (t : Texts) where
  unfoldable pub provider_registry :
      (Quantity → Quantity → Quantity) → Bool → String → String → Registry W
  provider_registry add has_client cluster_id liqo_id =
      register "Reconcile" (handle_provider_reconcile c t add has_client cluster_id liqo_id) (
        register "Cleanup" (handle_provider_cleanup c t)
          (register "GenerateKubeconfig" (handle_generate_kubeconfig c t) []))

  pub provider_registry-IsQuiet :
      (add : Quantity → Quantity → Quantity) (has_client : Bool) (cluster_id liqo_id : String)
      → IsQuiet (provider_registry add has_client cluster_id liqo_id)
  unfolding provider_registry register handle_generate_kubeconfig handle_provider_cleanup
      handle_provider_reconcile generate remove_user report_snapshot
  provider_registry-IsQuiet add has_client cluster_id liqo_id =
      (λ work s. ground arith, (λ work s. ground arith, (λ work s. ground arith, tt)))

  unfoldable pub consumer_registry : HandlerConfig → Registry W
  consumer_registry cfg = register "Reconcile" (handle_consumer_reconcile c t cfg) (
      register "Cleanup" (handle_consumer_cleanup c t cfg)
        (register "Unpeer" (handle_unpeer c t cfg) (register "Peer" (handle_peer c t cfg) [])))

  cleanup-posted :
      (cfg : HandlerConfig) (work : Work) (s : Run W)
      → posted (handle_consumer_cleanup c t cfg work s).1.log ≡ posted s.log
  unfolding handle_consumer_cleanup clear delete_virtual_node_state delete_resource_slice
      tenant_namespace_for delete_staging_secret
  cleanup-posted cfg work s = ground arith

  module _ (cfg : HandlerConfig) (work : Work) where
    -- A file that is written for an action that sends nothing.
    posted-with_file :
        {A : Type 0} (id kubeconfig : String) (f : String → M W A)
        → ((path : String) → Keeps posted (f path))
        → Keeps posted (Calls.write_file c id kubeconfig >>= (λ path. with_file c path (f path)))
    posted-with_file id kubeconfig f h =
        then-Keeps posted (Calls.write_file c id kubeconfig) (λ path. with_file c path (f path))
          (λ s. written (c.write_file id kubeconfig s.world) s)
          (λ path s. removed path (f path) s (h path s))
      where
        written :
            (got : Result String × W) (s : Run W) → posted (staged_as got s).1.log ≡ posted s.log
        written (ok path, w) s = refl
        written (err e, w) s = refl

        removed :
            {A : Type 0} (path : String) (m : M W A) (s : Run W)
            → posted (m s).1.log ≡ posted s.log
            → posted (with_file c path m s).1.log ≡ posted s.log
        removed path m s k = ap posted (with_file-log c path m s) ∙ k

    peer_through-posted : (path : String) → Keeps posted (peer_through c t cfg path work)
    unfolding peer_through ensure_resource_slice tenant_namespace_for ensure_virtual_node_state
    peer_through-posted path s = ground arith

    persist-posted :
        Keeps posted (persist_kubeconfig c work.view.reservation_id work.view.kubeconfig)
    unfolding persist_kubeconfig
    persist-posted s = ground arith

    handle_peer-posted : Keeps posted (handle_peer c t cfg work)
    unfolding handle_peer peer
    handle_peer-posted =
        if-Keeps posted
          (is_refused cfg "Peer" work
            || (str_eq work.view.kubeconfig "" || str_eq work.view.provider_liqo_cluster_id ""))
          (throw other) (peer c t cfg work) (λ s. refl)
          (then-Keeps posted (persist_kubeconfig c work.view.reservation_id work.view.kubeconfig)
            (λ _.
              Calls.write_file c work.view.reservation_id work.view.kubeconfig
              >>= (λ path. with_file c path (peer_through c t cfg path work)))
            persist-posted
            (λ _.
              posted-with_file work.view.reservation_id work.view.kubeconfig
                (λ path. peer_through c t cfg path work) peer_through-posted))

    finish-posted : Keeps posted (finish_unpeer c t cfg work)
    unfolding finish_unpeer delete_staging_secret delete_foreign_cluster
    finish-posted s = ground arith

    unpeer_through-posted : (path : String) → Keeps posted (unpeer_through c t cfg path work)
    unfolding unpeer_through finish_unpeer delete_staging_secret delete_foreign_cluster
    unpeer_through-posted path s = ground arith

    drop_tunnel-posted : (kubeconfig : String) → Keeps posted (drop_tunnel c t cfg kubeconfig work)
    unfolding drop_tunnel
    drop_tunnel-posted kubeconfig =
        if-Keeps posted (not work.view.last_chunk) (finish_unpeer c t cfg work) _ finish-posted (
          if-Keeps posted (str_eq kubeconfig "") (finish_unpeer c t cfg work) _ finish-posted (
            posted-with_file work.view.reservation_id kubeconfig
              (λ path. unpeer_through c t cfg path work) unpeer_through-posted))

    state-posted : Keeps posted (delete_virtual_node_state c work.view.reservation_id)
    unfolding delete_virtual_node_state
    state-posted s = ground arith

    slice-posted :
        Keeps posted
          (delete_resource_slice c work.view.reservation_id work.view.provider_liqo_cluster_id)
    unfolding delete_resource_slice tenant_namespace_for
    slice-posted s = ground arith

    load-posted : Keeps posted (load_kubeconfig_from_secret c work.view.reservation_id)
    unfolding load_kubeconfig_from_secret
    load-posted s = ground arith

    handle_unpeer-posted : Keeps posted (handle_unpeer c t cfg work)
    unfolding handle_unpeer
    handle_unpeer-posted =
        if-Keeps posted (is_refused cfg "Unpeer" work) (throw other) (unpeer c t cfg work)
          (λ s. refl)
          (unpeer-Keeps c t cfg work posted state-posted slice-posted load-posted
            drop_tunnel-posted)

    reconcile-posted : Keeps posted (handle_consumer_reconcile c t cfg work)
    unfolding handle_consumer_reconcile report_states
    reconcile-posted s = ground arith

  pub consumer_registry-IsQuiet : (cfg : HandlerConfig) → IsQuiet (consumer_registry cfg)
  unfolding consumer_registry register
  consumer_registry-IsQuiet cfg = (
    handle_peer-posted cfg,
    (handle_unpeer-posted cfg, (cleanup-posted cfg, (reconcile-posted cfg, tt))),
  )
