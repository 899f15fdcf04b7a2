-- ===== src/VirtualNodes/Faithful.antt =====
-- That the status of a VirtualNodeState shows the node as it is.
use federation_autoscaler.Base.{
  Bool, true, false, not, ◌||◌, Option, none, some, [], ◌≡◌, refl, sym, subst, str_eq,
  if◌then◌else◌,
}
use federation_autoscaler.Kube.Core.{Run, Result, ok, err}
use federation_autoscaler.Kube.Bind.{Post, Post-imp}
use federation_autoscaler.Agent.Types.{
  running, creating, deleting, failed, VirtualNodePhase, node_phase_eq, VirtualNodeStatus,
  VirtualNodeState,
}
use federation_autoscaler.Agent.Calls.{Cluster, ClusterNode}
use federation_autoscaler.VirtualNodes.Status.{
  ready_reason, failed_reason, node_ready, node_name_for,
}
use federation_autoscaler.VirtualNodes.Conditions.{IsKeyed, IsShown}
use federation_autoscaler.VirtualNodes.Equality.{IsAligned}
use federation_autoscaler.VirtualNodes.Settled.{ending, unready, up, Shows}
use federation_autoscaler.VirtualNodes.Reconcile.{desired_status}
use federation_autoscaler.VirtualNodes.Passes.{
  Goes, sight_of, seen, IsPassed, desired_status-IsPassed,
}

module _ {W : Type 0} (c : Cluster W) where
  -- The node that there is to schedule on: it answers, does not end, and its first condition of type
  -- Ready is True.
  abbrev pub alive : VirtualNodeState → Result ClusterNode → Option ClusterNode
  alive vns (err e) = none
  alive vns (ok node) =
      if str_eq (node_name_for vns) "" || (node.deleting || not (node_ready node))
      then none
      else some node

  abbrev pub IsFaithful : VirtualNodeState → Option ClusterNode → VirtualNodeStatus → Type 0
  IsFaithful vns (some node) d =
      (d.phase ≡ running)
      × (d.virtual_node_name ≡ node_name_for vns)
      × (d.provider_id ≡ node.provider_id)
      × (d.allocatable ≡ node.allocatable)
      × IsShown "Ready" true "VirtualNodeReady" d.message d.conditions
      × IsShown "Failed" false "VirtualNodeNotFailed" d.message d.conditions
  IsFaithful vns none d =
      (node_phase_eq d.phase running ≡ false)
      × (d.provider_id ≡ "")
      × (d.allocatable ≡ [])
      × IsShown "Ready" false "VirtualNodeNotReady" d.message d.conditions
      × IsShown "Failed" false "VirtualNodeNotFailed" d.message d.conditions

  aligned :
      (d : VirtualNodeStatus) (p : VirtualNodePhase)
      → d.phase ≡ p
      → IsAligned d d.conditions
      → IsShown "Ready" (node_phase_eq p running) (ready_reason p) d.message d.conditions
        × IsShown "Failed" (node_phase_eq p failed) (failed_reason p) d.message d.conditions
  aligned d p e a =
      subst
        (λ q.
          IsShown "Ready" (node_phase_eq q running) (ready_reason q) d.message d.conditions
          × IsShown "Failed" (node_phase_eq q failed) (failed_reason q) d.message d.conditions)
        e a

  nothing :
      (d : VirtualNodeStatus) (p : VirtualNodePhase)
      → node_phase_eq p running ≡ false
      → node_phase_eq p failed ≡ false
      → ready_reason p ≡ "VirtualNodeNotReady"
      → d.phase ≡ p
      → d.provider_id ≡ ""
      → d.allocatable ≡ []
      → IsAligned d d.conditions
      → (node_phase_eq d.phase running ≡ false)
        × (d.provider_id ≡ "")
        × (d.allocatable ≡ [])
        × IsShown "Ready" false "VirtualNodeNotReady" d.message d.conditions
        × IsShown "Failed" false "VirtualNodeNotFailed" d.message d.conditions
  unfolding failed_reason
  nothing d p r f w h i l a =
      let (x, y) = aligned d p h a in
      (
        subst (λ q. node_phase_eq q running ≡ false) (sym h) r,
        i,
        l,
        subst (λ b. IsShown "Ready" b "VirtualNodeNotReady" d.message d.conditions) r
            (subst (λ t. IsShown "Ready" (node_phase_eq p running) t d.message d.conditions) w x),
        subst
            (λ b.
              IsShown "Failed" b (if b then "VirtualNodeFailed" else "VirtualNodeNotFailed")
                d.message d.conditions)
            f y,
      )

  -- A status that a pass makes is Running just where there is a node to schedule on, and shows that
  -- node's name, provider id and allocatable resources; elsewhere it offers neither. The conditions
  -- Ready and Failed say the same as the phase, and a pass never reports Failed. The conditions of
  -- the object are there once each.
  pub desired_status-IsFaithful :
      (vns : VirtualNodeState) (s : Run W)
      → IsKeyed vns.status.conditions
      → Post (IsFaithful vns (alive vns (seen c vns s))) (desired_status c vns s).0
  unfolding ready_reason failed_reason
  desired_status-IsFaithful vns s k =
      Post-imp (λ d. IsPassed c vns s d × Goes (str_eq (node_name_for vns) "") (seen c vns s))
        (IsFaithful vns (alive vns (seen c vns s)))
        (λ d h. by_answer (str_eq (node_name_for vns) "") (seen c vns s) d h.0.0 h.0.3)
        (desired_status c vns s).0 (desired_status-IsPassed c vns s k)
    where
      by_answer :
          (unnamed : Bool) (got : Result ClusterNode) (d : VirtualNodeStatus)
          → Shows (sight_of unnamed (node_name_for vns) got) d
          → IsAligned d d.conditions
          → IsFaithful vns
              (elim got [
                | ok node ↦
                    if unnamed || (node.deleting || not (node_ready node)) then none else some node
                | err e ↦ none
              ])
              d
      by_answer true (ok node) d h a = nothing d creating refl refl refl h.0 h.3 h.4 a
      by_answer true (err e) d h a = nothing d creating refl refl refl h.0 h.3 h.4 a
      by_answer false (err e) d h a = nothing d creating refl refl refl h.0 h.3 h.4 a
      by_answer false (ok node) d h a = by_node node.deleting (node_ready node) h
        where
          by_node :
              (gone ready : Bool)
              → Shows
                  (if gone
                    then ending (node_name_for vns)
                    else if not ready
                    then unready (node_name_for vns)
                    else up (node_name_for vns) node)
                  d
              → IsFaithful vns (if gone || not ready then none else some node) d
          by_node true ready h = nothing d deleting refl refl refl h.0 h.3 h.4 a
          by_node false false h = nothing d creating refl refl refl h.0 h.3 h.4 a
          by_node false true (p, m, n, i, r) =
              let (x, y) = aligned d running p a in (p, n, i, r, x, y)
