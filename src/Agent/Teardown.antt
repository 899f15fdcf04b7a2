-- ===== src/Agent/Teardown.antt =====
-- What an Unpeer and a Cleanup of the consumer take down.
use federation_autoscaler.Base.{
  String, Bool, true, false, not, ◌&&◌, List, [], ◌∷◌, ◌≡◌, refl, ap, subst, sym, ◌∙◌, ◌⊎◌, inl,
  inr, arith, str_eq, if◌then◌else◌,
}
use federation_autoscaler.Kube.Bind.{Post, Post-imp}
use federation_autoscaler.Kube.Core.{Event, Run, M, agent, ◌>>=◌, ◌>>◌}
use federation_autoscaler.Kube.Keeps.{Keeps, then-Keeps, if-Keeps}
use federation_autoscaler.Agent.Types.{
  ran_liqoctl, dropped_foreign_cluster, dropped_secret, dropped_state, dropped_slice,
}
use federation_autoscaler.Agent.Calls
use federation_autoscaler.Agent.Calls.{Cluster, Work, Texts}
use federation_autoscaler.Agent.Polling.{Handled}
use federation_autoscaler.Agent.Liqo.{
  resource_slice_name, staging_secret_name, virtual_node_state_name, delete_virtual_node_state,
  delete_resource_slice, tenant_namespace_for, load_kubeconfig_from_secret, delete_staging_secret,
  delete_foreign_cluster, with_file,
}
use federation_autoscaler.Agent.Files.{open_files, open_files-with_file, Post-staged}
use federation_autoscaler.Agent.Handlers.{
  HandlerConfig, finish_unpeer, unpeer_through, drop_tunnel, unpeer, clear,
}

-- What touches that which all the chunks of a provider share.
abbrev pub shared : List Event → List Event
shared [] = []
shared (agent (ran_liqoctl b args) ∷ log) = agent (ran_liqoctl b args) ∷ shared log
shared (agent (dropped_foreign_cluster b name) ∷ log) =
    agent (dropped_foreign_cluster b name) ∷ shared log
shared (_ ∷ log) = shared log

-- What is gone after a request, oldest last; a refused deletion takes nothing away.
pub data Torn : Type 0 where
  state_gone slice_gone secret_gone shell_gone : String → Torn
  tunnel_tried : Torn

abbrev pub torn : List Event → List Torn
torn [] = []
torn (agent (dropped_state true name) ∷ log) = state_gone name ∷ torn log
torn (agent (dropped_slice true namespace name) ∷ log) = slice_gone name ∷ torn log
torn (agent (dropped_secret true name) ∷ log) = secret_gone name ∷ torn log
torn (agent (dropped_foreign_cluster true name) ∷ log) = shell_gone name ∷ torn log
torn (agent (ran_liqoctl b args) ∷ log) = tunnel_tried ∷ torn log
torn (_ ∷ log) = torn log

-- First the state, then the slice; last the Secret, and for the last chunk the shell.
abbrev pub at_first : Work → List Torn → List Torn
at_first work before =
    slice_gone (resource_slice_name work.view.reservation_id)
    ∷ state_gone (virtual_node_state_name work.view.reservation_id)
    ∷ before

abbrev pub at_last : Work → List Torn → List Torn
at_last work before =
    let rest = secret_gone (staging_secret_name work.view.reservation_id) ∷ before in
    if work.view.last_chunk && not (str_eq work.view.provider_liqo_cluster_id "")
    then shell_gone work.view.provider_liqo_cluster_id ∷ rest
    else rest

module _ {W : Type 0} (c : Cluster W) (t : Texts) (cfg : HandlerConfig) (work : Work) where
  pub shared-clear : (s : Run W) → shared (clear c t cfg work s).1.log ≡ shared s.log
  unfolding clear delete_virtual_node_state delete_resource_slice tenant_namespace_for
      delete_staging_secret
  shared-clear s = ground arith

  pub shared-finish_unpeer :
      (s : Run W)
      → work.view.last_chunk ≡ false
      → shared (finish_unpeer c t cfg work s).1.log ≡ shared s.log
  unfolding finish_unpeer delete_staging_secret delete_foreign_cluster
  shared-finish_unpeer s h = ground arith

  torn-finish_unpeer :
      (s : Run W)
      → Post
          (λ _. torn (finish_unpeer c t cfg work s).1.log ≡ at_last work (torn s.log))
          (finish_unpeer c t cfg work s).0
  unfolding finish_unpeer delete_staging_secret delete_foreign_cluster
  torn-finish_unpeer s = ground arith

  pub torn-delete_virtual_node_state :
      (s : Run W)
      → Post
          (λ _.
            torn (delete_virtual_node_state c work.view.reservation_id s).1.log
            ≡ state_gone (virtual_node_state_name work.view.reservation_id) ∷ torn s.log)
          (delete_virtual_node_state c work.view.reservation_id s).0
  unfolding delete_virtual_node_state
  torn-delete_virtual_node_state s = ground arith

  pub torn-delete_resource_slice :
      (s : Run W)
      → Post
          (λ _.
            torn
              (delete_resource_slice c work.view.reservation_id work.view.provider_liqo_cluster_id
                s).1.log
            ≡ slice_gone (resource_slice_name work.view.reservation_id) ∷ torn s.log)
          (delete_resource_slice c work.view.reservation_id work.view.provider_liqo_cluster_id s).0
  unfolding delete_resource_slice tenant_namespace_for
  torn-delete_resource_slice s = ground arith

  torn-unpeer_through :
      (path : String) (s : Run W)
      → Post
          (λ _.
            torn (unpeer_through c t cfg path work s).1.log
            ≡ at_last work (tunnel_tried ∷ torn s.log))
          (unpeer_through c t cfg path work s).0
  unfolding unpeer_through finish_unpeer delete_staging_secret delete_foreign_cluster
  torn-unpeer_through path s = ground arith

  pub torn-load : Keeps torn (load_kubeconfig_from_secret c work.view.reservation_id)
  unfolding load_kubeconfig_from_secret
  torn-load s = ground arith

  -- What is torn down from the kubeconfig on.
  abbrev pub Ends : List Torn → List Torn → Type 0
  Ends before after =
      (after ≡ at_last work before)
      ⊎ ((work.view.last_chunk ≡ true) × (after ≡ at_last work (tunnel_tried ∷ before)))

  pub torn-drop_tunnel :
      (kubeconfig : String) (s : Run W)
      → Post
          (λ _. Ends (torn s.log) (torn (drop_tunnel c t cfg kubeconfig work s).1.log))
          (drop_tunnel c t cfg kubeconfig work s).0
  unfolding drop_tunnel
  torn-drop_tunnel kubeconfig s = by_tests work.view.last_chunk (str_eq kubeconfig "") refl
    where
      plain :
          Post
            (λ _. Ends (torn s.log) (torn (finish_unpeer c t cfg work s).1.log))
            (finish_unpeer c t cfg work s).0
      plain = Post-imp _ _ (λ _ e. inl e) (finish_unpeer c t cfg work s).0 (torn-finish_unpeer s)

      by_tests :
          (x y : Bool)
          → work.view.last_chunk ≡ x
          → (let m : M W Handled =
                if not x
                then finish_unpeer c t cfg work
                else if y
                then finish_unpeer c t cfg work
                else (Calls.write_file c work.view.reservation_id kubeconfig
                    >>= (λ path. with_file c path (unpeer_through c t cfg path work))) in
              Post (λ _. Ends (torn s.log) (torn (m s).1.log)) (m s).0)
      by_tests false y e = plain
      by_tests true true e = plain
      by_tests true false e =
          Post-staged c (λ log. Ends (torn s.log) (torn log)) work.view.reservation_id kubeconfig
            (λ path. unpeer_through c t cfg path work) s
            (λ path u k.
              Post-imp _ _
                (λ _ h. inr (e, h ∙ ap (λ log. at_last work (tunnel_tried ∷ torn log)) k))
                (unpeer_through c t cfg path work u).0 (torn-unpeer_through path u))

  -- The files.
  open_files-state : Keeps open_files (delete_virtual_node_state c work.view.reservation_id)
  unfolding delete_virtual_node_state
  open_files-state s = ground arith

  open_files-slice :
      Keeps open_files
        (delete_resource_slice c work.view.reservation_id work.view.provider_liqo_cluster_id)
  unfolding delete_resource_slice tenant_namespace_for
  open_files-slice s = ground arith

  open_files-load : Keeps open_files (load_kubeconfig_from_secret c work.view.reservation_id)
  unfolding load_kubeconfig_from_secret
  open_files-load s = ground arith

  open_files-finish : Keeps open_files (finish_unpeer c t cfg work)
  unfolding finish_unpeer delete_staging_secret delete_foreign_cluster
  open_files-finish s = ground arith

  open_files-through : (path : String) → Keeps open_files (unpeer_through c t cfg path work)
  unfolding unpeer_through finish_unpeer delete_staging_secret delete_foreign_cluster
  open_files-through path s = ground arith

  open_files-drop_tunnel :
      (kubeconfig : String) → Keeps open_files (drop_tunnel c t cfg kubeconfig work)
  unfolding drop_tunnel
  open_files-drop_tunnel kubeconfig =
      if-Keeps open_files (not work.view.last_chunk) (finish_unpeer c t cfg work) _
        open_files-finish
        (if-Keeps open_files (str_eq kubeconfig "") (finish_unpeer c t cfg work) _ open_files-finish
          (λ s.
            open_files-with_file c work.view.reservation_id kubeconfig
              (λ path. unpeer_through c t cfg path work) s open_files-through))

  -- What each step leaves as it was, an Unpeer does.
  pub unpeer-Keeps :
      {X : Type 0} (part : List Event → X)
      → Keeps part (delete_virtual_node_state c work.view.reservation_id)
      → Keeps part
          (delete_resource_slice c work.view.reservation_id work.view.provider_liqo_cluster_id)
      → Keeps part (load_kubeconfig_from_secret c work.view.reservation_id)
      → ((kubeconfig : String) → Keeps part (drop_tunnel c t cfg kubeconfig work))
      → Keeps part (unpeer c t cfg work)
  unfolding unpeer
  unpeer-Keeps part h k l m =
      let slice =
        delete_resource_slice c work.view.reservation_id work.view.provider_liqo_cluster_id in
      let load = load_kubeconfig_from_secret c work.view.reservation_id in
      let tunnel : String → M W Handled = λ kubeconfig. drop_tunnel c t cfg kubeconfig work in
      then-Keeps part (delete_virtual_node_state c work.view.reservation_id)
        (λ _. slice >> (load >>= tunnel)) h
        (λ _. then-Keeps part slice (λ _. load >>= tunnel) k (λ _. then-Keeps part load tunnel l m))

  pub open_files-unpeer : Keeps open_files (unpeer c t cfg work)
  open_files-unpeer =
      unpeer-Keeps open_files open_files-state open_files-slice open_files-load
        open_files-drop_tunnel

  -- The peering, of an Unpeer that is not of the last chunk.
  shared-state : Keeps shared (delete_virtual_node_state c work.view.reservation_id)
  unfolding delete_virtual_node_state
  shared-state s = ground arith

  shared-slice :
      Keeps shared
        (delete_resource_slice c work.view.reservation_id work.view.provider_liqo_cluster_id)
  unfolding delete_resource_slice tenant_namespace_for
  shared-slice s = ground arith

  shared-load : Keeps shared (load_kubeconfig_from_secret c work.view.reservation_id)
  unfolding load_kubeconfig_from_secret
  shared-load s = ground arith

  shared-drop_tunnel :
      work.view.last_chunk ≡ false
      → (kubeconfig : String) → Keeps shared (drop_tunnel c t cfg kubeconfig work)
  unfolding drop_tunnel
  shared-drop_tunnel h kubeconfig =
      subst
        (λ last. Keeps shared (
          if not last
          then finish_unpeer c t cfg work
          else if str_eq kubeconfig ""
          then finish_unpeer c t cfg work
          else (Calls.write_file c work.view.reservation_id kubeconfig
              >>= (λ path. with_file c path (unpeer_through c t cfg path work)))))
        (sym h) (λ s. shared-finish_unpeer s h)

  pub shared-unpeer : work.view.last_chunk ≡ false → Keeps shared (unpeer c t cfg work)
  shared-unpeer h = unpeer-Keeps shared shared-state shared-slice shared-load (shared-drop_tunnel h)
