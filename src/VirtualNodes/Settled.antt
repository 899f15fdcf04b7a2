-- ===== src/VirtualNodes/Settled.antt =====
-- What a pass over a VirtualNodeState shows, and that the next pass leaves it.
use Prim.Native.String.{◌++◌}
use federation_autoscaler.Base.{
  String, Bool, true, false, not, [], ◌≡◌, ap, subst, ◌∙◌, if◌then◌else◌, arith,
}
use federation_autoscaler.Kube.Core.{M, Run, Result, pure, ok, err, not_found, ◌>>=◌}
use federation_autoscaler.Kube.Bind.{Post, bind_ok}
use federation_autoscaler.Consumer.Types.{ResourceList}
use federation_autoscaler.Agent.Types.{
  VirtualNodePhase, VirtualNodeStatus, creating, running, deleting,
}
use federation_autoscaler.Agent.Calls.{Cluster, ClusterNode}
use federation_autoscaler.VirtualNodes.Status.{node_ready, apply_phase, stamped}
use federation_autoscaler.VirtualNodes.Equality.{node_phase_refl}
use federation_autoscaler.VirtualNodes.Reconcile.{without_node, project_node, project_answer}

-- What a status says of the node.
pub record Sight : Type 0 where
  pub phase : VirtualNodePhase
  pub message : String
  pub virtual_node_name : String
  pub provider_id : String
  pub allocatable : ResourceList

abbrev pub blank : String → Sight
blank text = record {
  phase = creating;
  message = text;
  virtual_node_name = "";
  provider_id = "";
  allocatable = [];
}

abbrev pub ending : String → Sight
ending name = record (blank "Liqo virtual node is terminating") {
  phase = deleting;
  virtual_node_name = name;
}

abbrev pub unready : String → Sight
unready name = record (blank "Liqo virtual node registered, not Ready yet") {
  virtual_node_name = name;
}

abbrev pub up : String → ClusterNode → Sight
up name node = record {
  phase = running;
  message = "Liqo virtual node is ready";
  virtual_node_name = name;
  provider_id = node.provider_id;
  allocatable = node.allocatable;
}

-- What the answer about the node of a name is worth, in words of its own: an error is none.
abbrev pub sight : String → Result ClusterNode → Sight
sight name (err e) = blank ("waiting for Liqo to materialise node " ++ name)
sight name (ok node) =
    if node.deleting
    then ending name
    else if not (node_ready node)
    then unready name
    else up name node

-- The status shows just that, beside what does not come from the node.
abbrev pub Shows : Sight → VirtualNodeStatus → Type 0
Shows x d =
    (d.phase ≡ x.phase)
    × (d.message ≡ x.message)
    × (d.virtual_node_name ≡ x.virtual_node_name)
    × (d.provider_id ≡ x.provider_id)
    × (d.allocatable ≡ x.allocatable)

abbrev pub Rest : VirtualNodeStatus → VirtualNodeStatus → Type 0
Rest st d =
    (d.observed_generation ≡ st.observed_generation)
    × (d.resource_slice_name ≡ st.resource_slice_name)
    × (d.conditions ≡ st.conditions)

-- An answer that a pass goes on with.
abbrev pub IsSeen : Result ClusterNode → Type 0
IsSeen (err not_found) = Unit
IsSeen (err e) = ⊥
IsSeen (ok node) = Unit

module _ {W : Type 0} (c : Cluster W) (st : VirtualNodeStatus) where
  pub project_answer-Shows :
      (name : String) (got : Result ClusterNode) (s : Run W)
      → Post (λ d. Shows (sight name got) d × Rest st d) (project_answer c st name got s).0
  unfolding project_answer without_node project_node apply_phase
  project_answer-Shows name got s = ground arith

  pub without_node-Shows :
      (text : String) (s : Run W)
      → Post (λ d. Shows (blank text) d × Rest st d) (without_node c st text s).0
  unfolding without_node apply_phase
  without_node-Shows text s = ground arith

  apply_phase_settled :
      (phase : VirtualNodePhase) (text : String) (s : Run W)
      → st.phase ≡ phase
      → st.message ≡ text
      → apply_phase c st phase text s ≡ (ok st, s)
  unfolding apply_phase
  apply_phase_settled phase text s h k =
      subst (λ p. apply_phase c st p text s ≡ (ok st, s)) h
        (subst (λ m. apply_phase c st st.phase m s ≡ (ok st, s)) k
          (ap
            (λ b.
              (stamped c (not b) st
                  >>= (λ x. pure (record x { phase = st.phase; message = st.message })))
                s)
            (node_phase_refl st.phase)))

  pub without_node_settled :
      (text : String) (s : Run W) → Shows (blank text) st → without_node c st text s ≡ (ok st, s)
  unfolding without_node
  without_node_settled text s (h, k, l, m, n) =
      let settled = apply_phase_settled creating text s h k in
      let finish : VirtualNodeStatus → M W VirtualNodeStatus =
        λ x. pure (record x { virtual_node_name = ""; provider_id = ""; allocatable = [] }) in
      let same : record st { virtual_node_name = ""; provider_id = ""; allocatable = [] } ≡ st =
        cc in
      bind_ok finish (apply_phase c st creating text) s st (ap (λ out. out.0) settled)
      ∙ ap (λ out. finish st out.1) settled
      ∙ ap (λ x. (ok x, s)) same

  project_node_settled :
      (name : String) (node : ClusterNode) (s : Run W)
      → Shows (sight name (ok node)) st
      → project_node c st name node s ≡ (ok st, s)
  unfolding project_node
  project_node_settled name node s h = by_node node.deleting (node_ready node) h
    where
      named : st.virtual_node_name ≡ name → record st { virtual_node_name = name } ≡ st
      named e = cc

      ends :
          (phase : VirtualNodePhase) (text id : String) (list : ResourceList)
          → st.phase ≡ phase
          → st.message ≡ text
          → st.virtual_node_name ≡ name
          → st.provider_id ≡ id
          → st.allocatable ≡ list
          → (apply_phase c (record st { virtual_node_name = name }) phase text
                >>= (λ x. pure (record x { provider_id = id; allocatable = list })))
              s
            ≡ (ok st, s)
      ends phase text id list h k l m n =
          let finish : VirtualNodeStatus → M W VirtualNodeStatus =
            λ x. pure (record x { provider_id = id; allocatable = list }) in
          let settled = apply_phase_settled phase text s h k in
          let same : record st { provider_id = id; allocatable = list } ≡ st = cc in
          ap (λ x. (apply_phase c x phase text >>= finish) s) (named l)
          ∙ bind_ok finish (apply_phase c st phase text) s st (ap (λ out. out.0) settled)
          ∙ ap (λ out. finish st out.1) settled
          ∙ ap (λ x. (ok x, s)) same

      by_node :
          (gone ready : Bool)
          → Shows
              (if gone then ending name else if not ready then unready name else up name node)
              st
          → (let named = record st { virtual_node_name = name } in
              (if gone
                  then (apply_phase c named deleting "Liqo virtual node is terminating"
                      >>= (λ x. pure (record x { provider_id = ""; allocatable = [] })))
                  else if not ready
                  then (apply_phase c named creating "Liqo virtual node registered, not Ready yet"
                      >>= (λ x. pure (record x { provider_id = ""; allocatable = [] })))
                  else (apply_phase c named running "Liqo virtual node is ready" >>= (λ x.
                      pure (record x {
                        provider_id = node.provider_id;
                        allocatable = node.allocatable;
                      }))))
                s
              ≡ (ok st, s))
      by_node true ready (h, k, l, m, n) =
          ends deleting "Liqo virtual node is terminating" "" [] h k l m n
      by_node false false (h, k, l, m, n) =
          ends creating "Liqo virtual node registered, not Ready yet" "" [] h k l m n
      by_node false true (h, k, l, m, n) =
          ends running "Liqo virtual node is ready" node.provider_id node.allocatable h k l m n

  pub project_answer-IsSeen :
      (name : String) (got : Result ClusterNode) (s : Run W)
      → Post (λ d. IsSeen got) (project_answer c st name got s).0
  unfolding project_answer
  project_answer-IsSeen name got s = ground arith

  pub project_answer_settled :
      (name : String) (got : Result ClusterNode) (s : Run W)
      → IsSeen got
      → Shows (sight name got) st
      → project_answer c st name got s ≡ (ok st, s)
  unfolding project_answer
  project_answer_settled name (ok node) s i h = project_node_settled name node s h
  project_answer_settled name (err not_found) s i h =
      without_node_settled ("waiting for Liqo to materialise node " ++ name) s h
  project_answer_settled name (err e) s i h = absurd i
