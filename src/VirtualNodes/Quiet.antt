-- ===== src/VirtualNodes/Quiet.antt =====
-- That working out a status asks for nothing but reads.
use federation_autoscaler.Base.{
  String, Bool, true, false, not, List, [], ◌∷◌, refl, str_eq, if◌then◌else◌, arith,
}
use federation_autoscaler.Kube.Core.{M, Event, Result, pure, ◌>>=◌}
use federation_autoscaler.Kube.Keeps.{Keeps, then-Keeps, if-Keeps}
use federation_autoscaler.Agent.Types.{
  Condition, VirtualNodeStatus, VirtualNodeState, running, failed, node_phase_eq,
}
use federation_autoscaler.Agent.Calls.{Cluster, ClusterNode}
use federation_autoscaler.VirtualNodes.Status.{
  node_name_for, apply_phase, set_condition, flipped, same_status, update_conditions, ready_reason,
  failed_reason,
}
use federation_autoscaler.VirtualNodes.Reconcile.{
  without_node, project_node, project_answer, project_from_node, desired_status,
}

abbrev whole : List Event → List Event
whole log = log

module _ {W : Type 0} (c : Cluster W) where
  flipped-Keeps : (b : Bool) (x : Condition) → Keeps whole (flipped c b x)
  flipped-Keeps true x s = refl
  flipped-Keeps false x s = refl

  set_condition-Keeps :
      (xs : List Condition) (name : String) (holds : Bool) (reason message : String)
      → Keeps whole (set_condition c xs name holds reason message)
  unfolding set_condition
  set_condition-Keeps [] name holds reason message s = refl
  set_condition-Keeps (x ∷ xs) name holds reason message s =
      let touched : Condition → M W (List Condition) =
        λ y. pure (record y { status = holds; reason = reason; message = message } ∷ xs) in
      let behind : List Condition → M W (List Condition) = λ rest. pure (x ∷ rest) in
      let here = flipped c (not (same_status x.status holds)) x >>= touched in
      let later = set_condition c xs name holds reason message >>= behind in
      if-Keeps whole (str_eq x.condition_type name) here later
        (then-Keeps whole (flipped c (not (same_status x.status holds)) x) touched
          (flipped-Keeps (not (same_status x.status holds)) x) (λ y u. refl))
        (then-Keeps whole (set_condition c xs name holds reason message) behind
          (set_condition-Keeps xs name holds reason message) (λ rest u. refl))
        s

  update_conditions-Keeps : (st : VirtualNodeStatus) → Keeps whole (update_conditions c st)
  unfolding update_conditions
  update_conditions-Keeps st =
      let fail : List Condition → M W (List Condition) = λ one.
        set_condition c one "Failed" (node_phase_eq st.phase failed) (failed_reason st.phase)
          st.message in
      let finish : List Condition → M W VirtualNodeStatus =
        λ two. pure (record st { conditions = two }) in
      then-Keeps whole
        (set_condition c st.conditions "Ready" (node_phase_eq st.phase running)
          (ready_reason st.phase) st.message)
        (λ one. fail one >>= finish) (set_condition-Keeps st.conditions "Ready" _ _ _)
        (λ one.
          then-Keeps whole (fail one) finish (set_condition-Keeps one "Failed" _ _ _)
            (λ two s. refl))

  without_node-Keeps :
      (st : VirtualNodeStatus) (text : String) → Keeps whole (without_node c st text)
  unfolding without_node apply_phase
  without_node-Keeps st text s = ground arith

  project_answer-Keeps :
      (st : VirtualNodeStatus) (name : String) (got : Result ClusterNode)
      → Keeps whole (project_answer c st name got)
  unfolding project_answer without_node project_node apply_phase
  project_answer-Keeps st name got s = ground arith

  project_from_node-Keeps :
      (st : VirtualNodeStatus) (name : String) → Keeps whole (project_from_node c st name)
  unfolding project_from_node
  project_from_node-Keeps st name s =
      project_answer-Keeps st name (c.get_node name s.world).0
        (record s { world = (c.get_node name s.world).1 })

  pub desired_status-Keeps : (vns : VirtualNodeState) → Keeps whole (desired_status c vns)
  unfolding desired_status
  desired_status-Keeps vns =
      let name = node_name_for vns in
      let st = record vns.status {
        observed_generation = vns.generation;
        resource_slice_name = vns.spec.resource_slice_name;
      } in
      let none_text : String =
        "VirtualNodeState missing resourceSliceName and providerLiqoClusterId" in
      then-Keeps whole
        (if str_eq name "" then without_node c st none_text else project_from_node c st name)
        (update_conditions c)
        (if-Keeps whole (str_eq name "") (without_node c st none_text) (project_from_node c st name)
          (without_node-Keeps st none_text) (project_from_node-Keeps st name))
        update_conditions-Keeps
