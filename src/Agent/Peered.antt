-- ===== src/Agent/Peered.antt =====
-- The handler Peer of the consumer's agent as a whole.
use federation_autoscaler.Base.{
  String, Bool, true, false, ◌||◌, List, [], ◌∷◌, ◌≡◌, refl, ap, ◌∙◌, arith, str_eq, if◌then◌else◌,
}
use federation_autoscaler.Kube.Core.{M, Run, Event, agent, other, throw, ◌>>=◌}
use federation_autoscaler.Kube.Bind.{Outcome, Outcome-imp, then_outcome}
use federation_autoscaler.Kube.Keeps.{Keeps, then-Keeps}
use federation_autoscaler.Agent.Types.{
  VirtualNodeState, ran_liqoctl, made_slice, made_state, staged_secret,
}
use federation_autoscaler.Agent.Calls
use federation_autoscaler.Agent.Calls.{Cluster, Work, Texts}
use federation_autoscaler.Agent.Polling.{Handled}
use federation_autoscaler.Agent.Files.{open_files, open_files-with_file, Outcome-staged}
use federation_autoscaler.Agent.Liqo.{
  resource_slice_name, staging_secret_name, new_state, persist_kubeconfig, ensure_resource_slice,
  tenant_namespace_for, ensure_virtual_node_state, with_file,
}
use federation_autoscaler.Agent.Handlers.{
  HandlerConfig, is_refused, peer_through, peer, handle_peer,
}

-- What is there after a request, newest first.
pub data Built : Type 0 where
  secret_up slice_up : String → Built
  tunnel_up : Built
  state_up : VirtualNodeState → Built

abbrev pub built : List Event → List Built
built [] = []
built (agent (staged_secret true name) ∷ log) = secret_up name ∷ built log
built (agent (ran_liqoctl true args) ∷ log) = tunnel_up ∷ built log
built (agent (made_slice true x) ∷ log) = slice_up x.name ∷ built log
built (agent (made_state true x) ∷ log) = state_up x ∷ built log
built (_ ∷ log) = built log

-- The chunks that the gRPC server is shown.
abbrev pub chunks : List Event → List VirtualNodeState
chunks [] = []
chunks (agent (made_state true x) ∷ log) = x ∷ chunks log
chunks (_ ∷ log) = chunks log

module _ {W : Type 0} (c : Cluster W) (t : Texts) (cfg : HandlerConfig) (work : Work) where
  -- The Secret, the peering, the slice and the state that names it, in this order.
  abbrev pub all_of : List Built → List Built
  all_of before =
      state_up (new_state (resource_slice_name work.view.reservation_id) work)
      ∷ slice_up (resource_slice_name work.view.reservation_id)
      ∷ tunnel_up
      ∷ secret_up (staging_secret_name work.view.reservation_id)
      ∷ before

  peer_through-Outcome :
      (path : String) (s : Run W)
      → Outcome
          (λ u.
            built u.log
            ≡ state_up (new_state (resource_slice_name work.view.reservation_id) work)
              ∷ slice_up (resource_slice_name work.view.reservation_id)
              ∷ tunnel_up
              ∷ built s.log)
          (λ u. chunks u.log ≡ chunks s.log)
          (peer_through c t cfg path work s).0
          (peer_through c t cfg path work s).1
  unfolding peer_through ensure_resource_slice tenant_namespace_for ensure_virtual_node_state
  peer_through-Outcome path s = ground arith

  persist_kubeconfig-Outcome :
      (s : Run W)
      → Outcome
          (λ u.
            (built u.log ≡ secret_up (staging_secret_name work.view.reservation_id) ∷ built s.log)
            × (chunks u.log ≡ chunks s.log))
          (λ u. chunks u.log ≡ chunks s.log)
          (persist_kubeconfig c work.view.reservation_id work.view.kubeconfig s).0
          (persist_kubeconfig c work.view.reservation_id work.view.kubeconfig s).1
  unfolding persist_kubeconfig
  persist_kubeconfig-Outcome s = ground arith

  open_files-through : (path : String) → Keeps open_files (peer_through c t cfg path work)
  unfolding peer_through ensure_resource_slice tenant_namespace_for ensure_virtual_node_state
  open_files-through path s = ground arith

  open_files-persist :
      Keeps open_files (persist_kubeconfig c work.view.reservation_id work.view.kubeconfig)
  unfolding persist_kubeconfig
  open_files-persist s = ground arith

  -- The file, and what is done while it is there.
  staged : M W Handled
  staged =
      Calls.write_file c work.view.reservation_id work.view.kubeconfig
      >>= (λ path. with_file c path (peer_through c t cfg path work))

  staged-Outcome :
      (s u : Run W)
      → (built u.log ≡ secret_up (staging_secret_name work.view.reservation_id) ∷ built s.log)
        × (chunks u.log ≡ chunks s.log)
      → Outcome
          (λ v. built v.log ≡ all_of (built s.log))
          (λ v. chunks v.log ≡ chunks s.log)
          (staged u).0
          (staged u).1
  unfolding staged
  staged-Outcome s u (h, k) =
      let P : List Event → Type 0 = λ log. built log ≡ all_of (built s.log) in
      let C : List Event → Type 0 = λ log. chunks log ≡ chunks s.log in
      let name = resource_slice_name work.view.reservation_id in
      Outcome-staged c P C work.view.reservation_id work.view.kubeconfig
        (λ path. peer_through c t cfg path work) u k
        (λ path v e.
          Outcome-imp _ _ _ _ (peer_through c t cfg path work v).0
            (peer_through c t cfg path work v).1
            (λ l.
              l
              ∙ ap (λ rest. state_up (new_state name work) ∷ slice_up name ∷ tunnel_up ∷ rest)
                  (ap built e ∙ h))
            (λ l. l ∙ ap chunks e ∙ k) (peer_through-Outcome path v))

  peer-Outcome :
      (s : Run W)
      → Outcome
          (λ v. built v.log ≡ all_of (built s.log))
          (λ v. chunks v.log ≡ chunks s.log)
          (peer c t cfg work s).0
          (peer c t cfg work s).1
  unfolding peer staged
  peer-Outcome s =
      then_outcome (λ v. built v.log ≡ all_of (built s.log)) (λ v. chunks v.log ≡ chunks s.log)
        (λ u.
          (built u.log ≡ secret_up (staging_secret_name work.view.reservation_id) ∷ built s.log)
          × (chunks u.log ≡ chunks s.log))
        (λ _. staged) (persist_kubeconfig c work.view.reservation_id work.view.kubeconfig) s
        (persist_kubeconfig-Outcome s) (λ _ u h. staged-Outcome s u h)

  open_files-peer : Keeps open_files (peer c t cfg work)
  unfolding peer staged
  open_files-peer =
      then-Keeps open_files (persist_kubeconfig c work.view.reservation_id work.view.kubeconfig)
        (λ _. staged) open_files-persist
        (λ _ s.
          open_files-with_file c work.view.reservation_id work.view.kubeconfig
            (λ path. peer_through c t cfg path work) s open_files-through)

  -- Whatever its cluster and liqoctl answer, a Peer removes every file that it wrote. Where it reports
  -- success it has made, in this order, the Secret, the peering, the ResourceSlice, and the
  -- VirtualNodeState that names that slice; behind an error it has shown no chunk to the gRPC server.
  pub handle_peer-Outcome :
      (s : Run W)
      → (open_files (handle_peer c t cfg work s).1.log ≡ open_files s.log)
        × Outcome
            (λ v. built v.log ≡ all_of (built s.log))
            (λ v. chunks v.log ≡ chunks s.log)
            (handle_peer c t cfg work s).0
            (handle_peer c t cfg work s).1
  unfolding handle_peer
  handle_peer-Outcome s = by_refusal (
      is_refused cfg "Peer" work
      || (str_eq work.view.kubeconfig "" || str_eq work.view.provider_liqo_cluster_id ""))
    where
      by_refusal :
          (b : Bool)
          → (let m : M W Handled = if b then throw other else peer c t cfg work in
              (open_files (m s).1.log ≡ open_files s.log)
              × Outcome
                  (λ v. built v.log ≡ all_of (built s.log))
                  (λ v. chunks v.log ≡ chunks s.log)
                  (m s).0
                  (m s).1)
      by_refusal true = (refl, refl)
      by_refusal false = (open_files-peer s, peer-Outcome s)
