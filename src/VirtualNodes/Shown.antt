-- ===== src/VirtualNodes/Shown.antt =====
-- What one pass writes.
use federation_autoscaler.Base.{Bool, ◌⊎◌, List, ◌∷◌, ◌≡◌, if◌then◌else◌}
use federation_autoscaler.Kube.Core.{M, Event, agent, pure, ◌>>◌}
use federation_autoscaler.Controller.Config.{Duration}
use federation_autoscaler.Consumer.Types.{Quantity}
use federation_autoscaler.Consumer.Requests.{Requeue, after}
use federation_autoscaler.Agent.Types.{VirtualNodeStatus, VirtualNodeState, wrote_state_status}
use federation_autoscaler.Agent.Calls
use federation_autoscaler.Agent.Calls.{Cluster}
use federation_autoscaler.VirtualNodes.Status.{status_equal}

module _ {W : Type 0} (c : Cluster W) (cmp_zero : Quantity → Quantity → Bool)
    (requeue_after : Duration) where
  -- Nothing was asked for, or one write of a status that the claim holds of.
  abbrev pub Writes :
      VirtualNodeState → (VirtualNodeStatus → Type 0) → List Event → List Event → Type 0
  Writes vns P before final =
      (final ≡ before)
      ⊎ ((b : Bool) × (d : VirtualNodeStatus) × (final
            ≡ agent (wrote_state_status b (record vns { status = d })) ∷ before)
          × P d)

  module _ (vns : VirtualNodeState) (P : VirtualNodeStatus → Type 0) where
    abbrev finish : VirtualNodeStatus → M W Requeue
    finish d =
        (if status_equal cmp_zero vns.status d
          then pure tt
          else Calls.update_state_status c (record vns { status = d }))
        >> pure (after requeue_after)
