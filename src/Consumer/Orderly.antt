-- ===== src/Consumer/Orderly.antt =====
-- What a pass over a ResourceRequest may send, and after what.
pub mod Writes
pub mod Moves
pub mod Passes
use Prim.Native.String.{◌++◌}
use federation_autoscaler.Base.{
  ℕ, suc, String, Bool, true, false, ◌≡◌, refl, ◌⊎◌, inl, inr, Option, none, some, List, [], ◌∷◌,
  str_eq, if◌then◌else◌, arith, eq_iff, eq_refl, subst, sym,
}
use federation_autoscaler.Base.Int.{ℤ, pos}
use federation_autoscaler.Kube.Core.{accepted, Result, ok, err, Event, consumer, Run}
use federation_autoscaler.Consumer.Types.{
  NodeGroupView, ResourceRequest, pending, failed, migrating, wrote_request, wrote_request_status,
  posted_reservation, freed_reservation,
}
use federation_autoscaler.Consumer.Holding.{
  Change, only_phase, reserved_change, changed, transition_time, write_phase, set_pending,
  set_failed, set_phase_reserved, disable_scale_down, protect_all, protect_reservation_nodes,
  held_change, report_held, hold_reservation,
}
use federation_autoscaler.Consumer.Sizing.{Choice}
use federation_autoscaler.Consumer.Migration.{
  release_reservation, set_migrating, start_migration, migrate, request_of, placed, place,
  re_evaluate, is_due, maybe_start_migration, stay_migrating, complete_migration, node_groups_for,
}
use federation_autoscaler.Controller.Config.{Duration}
use federation_autoscaler.Kube.Bind.{Post, then_keeps, bind_keeps}
use federation_autoscaler.Consumer.Port
use federation_autoscaler.Consumer.Port.{Agent, RequestReconciler}

-- The last request released the reservation, or found it gone.
abbrev pub FreedLast : String → List Event → Type 0
FreedLast id (consumer (freed_reservation b j) ∷ log) = (b ≡ true) × (j ≡ id)
FreedLast id _ = ⊥

-- The last request made the reservation.
abbrev pub PostedLast : String → List Event → Type 0
PostedLast id (consumer (posted_reservation b j n) ∷ log) = (b ≡ true) × (j ≡ id)
PostedLast id _ = ⊥

-- The finalizer is dropped where no reservation is recorded, or right after its release.
abbrev pub MayDrop : ResourceRequest → List Event → Type 0
MayDrop x log =
    (x.finalizer ≡ true) ⊎ (x.status.reservation_id ≡ "") ⊎ FreedLast x.status.reservation_id log

-- The recorded reservation stays, or changes right after the new one was made or the old one
-- released.
abbrev pub MayRecord : ResourceRequest → ResourceRequest → List Event → Type 0
MayRecord rr x log =
    (x.status.reservation_id ≡ rr.status.reservation_id)
    ⊎ PostedLast x.status.reservation_id log
    ⊎ FreedLast rr.status.reservation_id log

-- One chunk is asked for: under the request's own name where no reservation is recorded, under the
-- recorded one in the middle of a migration.
abbrev pub MayPost : ResourceRequest → String → ℤ → Type 0
MayPost rr id n =
    (n ≡ pos 1)
    × (((rr.status.reservation_id ≡ "") × (id ≡ "mr-" ++ rr.uid))
        ⊎ ((rr.status.phase ≡ migrating) × (id ≡ rr.status.reservation_id)))

abbrev pub IsOrderly : ResourceRequest → List Event → Type 0
IsOrderly rr [] = Unit
IsOrderly rr (consumer (wrote_request b x) ∷ log) = MayDrop x log × IsOrderly rr log
IsOrderly rr (consumer (wrote_request_status b x) ∷ log) = MayRecord rr x log × IsOrderly rr log
IsOrderly rr (consumer (posted_reservation b id n) ∷ log) = MayPost rr id n × IsOrderly rr log
IsOrderly rr (_ ∷ log) = IsOrderly rr log
