-- ===== src/VirtualNodes/Passes.antt =====
-- A pass over a VirtualNodeState as a whole, and the pass after it.
use federation_autoscaler.Base.{
  String, Bool, true, false, ◌≡◌, refl, sym, ap, subst, ◌∙◌, str_eq, if◌then◌else◌,
}
use federation_autoscaler.Kube.Core.{accepted, M, Run, Result, pure, ok, ◌>>=◌, ◌>>◌}
use federation_autoscaler.Kube.Bind.{Post, Post-imp, bind_returns, bind_ok}
use federation_autoscaler.Controller.Config.{Duration}
use federation_autoscaler.Consumer.Types.{Quantity}
use federation_autoscaler.Consumer.Requests.{Requeue, done, after}
use federation_autoscaler.Agent.Types.{VirtualNodeStatus, VirtualNodeState}
use federation_autoscaler.Agent.Calls
use federation_autoscaler.Agent.Calls.{Cluster, ClusterNode}
use federation_autoscaler.VirtualNodes.Status.{node_name_for, update_conditions, status_equal}
use federation_autoscaler.VirtualNodes.Conditions.{IsKeyed, Post-and}
use federation_autoscaler.VirtualNodes.Equality.{
  IsAligned, IsMap, update_conditions-IsAligned, update_conditions_settled, status_equal_refl,
}
use federation_autoscaler.VirtualNodes.Settled.{
  Sight, blank, sight, Shows, Rest, IsSeen, project_answer-Shows, project_answer-IsSeen,
  without_node-Shows, without_node_settled, project_answer_settled,
}
use federation_autoscaler.VirtualNodes.Reconcile.{
  without_node, project_answer, project_from_node, desired_status, refresh_status, reconcile_found,
  reconcile_node_state,
}

abbrev nameless : String
nameless = "VirtualNodeState missing resourceSliceName and providerLiqoClusterId"

-- What there is to see, where there may be no name to look for.
abbrev pub sight_of : Bool → String → Result ClusterNode → Sight
sight_of unnamed name got = if unnamed then blank nameless else sight name got

abbrev pub Goes : Bool → Result ClusterNode → Type 0
Goes true got = Unit
Goes false got = IsSeen got

module _ {W : Type 0} (c : Cluster W) where
  abbrev projected : Bool → VirtualNodeStatus → String → M W VirtualNodeStatus
  projected unnamed st name =
      if unnamed then without_node c st nameless else project_from_node c st name

  projected-Shows :
      (unnamed : Bool) (st : VirtualNodeStatus) (name : String) (s : Run W)
      → Post
          (λ d.
            (Shows (sight_of unnamed name (c.get_node name s.world).0) d × Rest st d)
            × Goes unnamed (c.get_node name s.world).0)
          (projected unnamed st name s).0
  unfolding project_from_node
  projected-Shows true st name s =
      Post-imp _ _ (λ d h. (h, tt)) (without_node c st nameless s).0
        (without_node-Shows c st nameless s)
  projected-Shows false st name s =
      let got = c.get_node name s.world in
      let u : Run W = record s { world = got.1 } in
      Post-and _ _ (project_answer c st name got.0 u).0 (project_answer-Shows c st name got.0 u)
        (project_answer-IsSeen c st name got.0 u)

  projected_settled :
      (unnamed : Bool) (st : VirtualNodeStatus) (name : String) (u : Run W)
      → Goes unnamed (c.get_node name u.world).0
      → Shows (sight_of unnamed name (c.get_node name u.world).0) st
      → ((projected unnamed st name u).0 ≡ ok st) × ((projected unnamed st name u).1.log ≡ u.log)
  unfolding project_from_node
  projected_settled true st name u i h =
      let e = without_node_settled c st nameless u h in
      (ap (λ out. out.0) e, ap (λ out. out.1.log) e)
  projected_settled false st name u i h =
      let got = c.get_node name u.world in
      let e = project_answer_settled c st name got.0 (record u { world = got.1 }) i h in
      (ap (λ out. out.0) e, ap (λ out. out.1.log) e)

  module _ (vns : VirtualNodeState) where
    abbrev pub seen : Run W → Result ClusterNode
    seen s = (c.get_node (node_name_for vns) s.world).0

    abbrev pub view : Run W → Sight
    view s = sight_of (str_eq (node_name_for vns) "") (node_name_for vns) (seen s)

    abbrev fresh : VirtualNodeStatus
    fresh = record vns.status {
      observed_generation = vns.generation;
      resource_slice_name = vns.spec.resource_slice_name;
    }

    -- All that a pass leaves in the status.
    abbrev pub IsPassed : Run W → VirtualNodeStatus → Type 0
    IsPassed s d =
        Shows (view s) d
        × (d.observed_generation ≡ vns.generation)
        × (d.resource_slice_name ≡ vns.spec.resource_slice_name)
        × IsAligned d d.conditions
        × IsKeyed d.conditions

    pub desired_status-IsPassed :
        (s : Run W)
        → IsKeyed vns.status.conditions
        → Post
            (λ d. IsPassed s d × Goes (str_eq (node_name_for vns) "") (seen s))
            (desired_status c vns s).0
    unfolding desired_status
    desired_status-IsPassed s k =
        let Go : Type 0 = Goes (str_eq (node_name_for vns) "") (seen s) in
        let Between : VirtualNodeStatus → Type 0 = λ st. (Shows (view s) st × Rest fresh st) × Go in
        let Goal : VirtualNodeStatus → Type 0 = λ d. IsPassed s d × Go in
        bind_returns Between Goal (update_conditions c)
          (projected (str_eq (node_name_for vns) "") fresh (node_name_for vns)) s
          (projected-Shows (str_eq (node_name_for vns) "") fresh (node_name_for vns) s)
          (λ st u h.
            Post-imp
              (λ d.
                IsAligned st d.conditions
                × IsKeyed d.conditions
                × (d ≡ record st { conditions = d.conditions }))
              Goal (λ d l. (passed s st d h.0 l, h.1)) (update_conditions c st u).0
              (update_conditions-IsAligned c st u (subst IsKeyed (sym h.0.1.2) k)))
      where
        passed :
            (s : Run W) (st d : VirtualNodeStatus)
            → Shows (view s) st × Rest fresh st
            → IsAligned st d.conditions
              × IsKeyed d.conditions
              × (d ≡ record st { conditions = d.conditions })
            → IsPassed s d
        passed s st d ((p, q, r, x, y), (g, n, z)) (a, k, e) = (
          (
            ap (λ v. v.phase) e ∙ p,
            ap (λ v. v.message) e ∙ q,
            ap (λ v. v.virtual_node_name) e ∙ r,
            ap (λ v. v.provider_id) e ∙ x,
            ap (λ v. v.allocatable) e ∙ y,
          ),
          ap (λ v. v.observed_generation) e ∙ g,
          ap (λ v. v.resource_slice_name) e ∙ n,
          subst (λ v. IsAligned v d.conditions) (sym e) a,
          k,
        )

  -- The object as the API server stores it after the write.
  abbrev pub stored : VirtualNodeState → VirtualNodeStatus → VirtualNodeState
  stored vns d = record vns { status = d }

  module _ (vns : VirtualNodeState) (s : Run W) (d : VirtualNodeStatus) where
    -- The next look, while the node answers the same, finds what is there.
    desired_status_settled :
        IsPassed vns s d
        → Goes (str_eq (node_name_for vns) "") (seen vns s)
        → (u : Run W) → seen vns u ≡ seen vns s
        → ((desired_status c (stored vns d) u).0 ≡ ok d)
          × ((desired_status c (stored vns d) u).1.log ≡ u.log)
    unfolding desired_status node_name_for
    desired_status_settled (h, g, n, a, k) i u e =
        let name = node_name_for vns in
        let unnamed = str_eq name "" in
        let kept =
          projected_settled unnamed d name u (subst (Goes unnamed) (sym e) i)
            (subst (λ got. Shows (sight_of unnamed name got) d) (sym e) h) in
        let base : record d {
          observed_generation = vns.generation;
          resource_slice_name = vns.spec.resource_slice_name;
        }
            ≡ d =
          cc in
        let total : (projected unnamed d name >>= update_conditions c) u
            ≡ (ok d, (projected unnamed d name u).1) =
          bind_ok (update_conditions c) (projected unnamed d name) u d kept.0
          ∙ update_conditions_settled c d (projected unnamed d name u).1 a in
        let whole = ap (λ x. (projected unnamed x name >>= update_conditions c) u) base ∙ total in
        (ap (λ out. out.0) whole, ap (λ out. out.1.log) whole ∙ kept.1)

  module _ (cmp_zero : Quantity → Quantity → Bool) (cmp_refl : (q : Quantity) → cmp_zero q q ≡ true)
      (requeue_after : Duration) where
    refresh_status_settled :
        (x : VirtualNodeState) (u : Run W)
        → (desired_status c x u).0 ≡ ok x.status
        → IsMap x.status.allocatable
        → IsKeyed x.status.conditions
        → refresh_status c cmp_zero requeue_after x u
          ≡ (ok (after requeue_after), (desired_status c x u).1)
    unfolding refresh_status
    refresh_status_settled x u e m k =
        let after_it : VirtualNodeStatus → M W Requeue = λ desired.
          (if status_equal cmp_zero x.status desired
            then pure tt
            else Calls.update_state_status c (record x { status = desired }))
          >> pure (after requeue_after) in
        bind_ok after_it (desired_status c x) u x.status e
        ∙ ap
            (λ b.
              ((if b then pure tt else Calls.update_state_status c x) >> pure (after requeue_after))
                (desired_status c x u).1)
            (status_equal_refl cmp_zero cmp_refl x.status m k)

    -- What the status of a VirtualNodeState shows after a pass is shown for good: where the API server
    -- returns the object with that status and the node still answers what it answered, the next pass
    -- succeeds and writes nothing, at whatever time. The conditions of the object, and the resources of the node,
    -- are there once each, and Quantity.Cmp answers 0 on equal quantities.
    pub reconcile_node_state_settled :
        (vns : VirtualNodeState) (s : Run W) (d : VirtualNodeStatus)
        → IsKeyed vns.status.conditions
        → (desired_status c vns s).0 ≡ ok d
        → IsMap d.allocatable
        → (name : String) (u : Run W) → (c.get_state name u.world).0 ≡ ok (stored vns d)
        → seen vns (record u { world = (c.get_state name u.world).1 }) ≡ seen vns s
        → ((reconcile_node_state c cmp_zero requeue_after name u).1.log ≡ u.log)
          × (accepted (reconcile_node_state c cmp_zero requeue_after name u).0 ≡ true)
    unfolding reconcile_node_state
    reconcile_node_state_settled vns s d k e m name u got same =
        subst (λ r. IsQuiet (reconcile_found c cmp_zero requeue_after r v)) (sym got)
          (by_deletion vns.deleting)
      where
        v : Run W
        v = record u { world = (c.get_state name u.world).1 }

        x : VirtualNodeState
        x = stored vns d

        IsQuiet : Result Requeue × Run W → Type 0
        IsQuiet out = (out.1.log ≡ u.log) × (accepted out.0 ≡ true)

        by_deletion :
            (b : Bool)
            → IsQuiet ((if b then pure done else refresh_status c cmp_zero requeue_after x) v)
        by_deletion true = (refl, refl)
        by_deletion false =
            let passed : IsPassed vns s d × Goes (str_eq (node_name_for vns) "") (seen vns s) =
              subst
                (Post (λ z. IsPassed vns s z × Goes (str_eq (node_name_for vns) "") (seen vns s))) e
                (desired_status-IsPassed vns s k) in
            let next = desired_status_settled vns s d passed.0 passed.1 v same in
            let out = refresh_status_settled x v next.0 m passed.0.4 in
            (ap (λ o. o.1.log) out ∙ next.1, ap (λ o. accepted o.0) out)
