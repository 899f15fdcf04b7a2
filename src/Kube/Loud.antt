-- ===== src/Kube/Loud.antt =====
-- The part of a log that a theorem about the Reservation, its ledger and its Secret looks at. What
-- only reads, or creates instructions, leaves it as it was.
use federation_autoscaler.Base.{List, [], ◌∷◌}
use federation_autoscaler.Kube.Core.{
  Event, wrote_reservation_status, wrote_reservation, deleted_reservation, deleted_secret,
  wrote_advertisement_status,
}

abbrev pub loud : List Event → List Event
loud [] = []
loud (wrote_reservation_status b r ∷ log) = wrote_reservation_status b r ∷ loud log
loud (wrote_reservation b r ∷ log) = wrote_reservation b r ∷ loud log
loud (deleted_reservation b r ∷ log) = deleted_reservation b r ∷ loud log
loud (wrote_advertisement_status b a ∷ log) = wrote_advertisement_status b a ∷ loud log
loud (deleted_secret b k ∷ log) = deleted_secret b k ∷ loud log
loud (_ ∷ log) = loud log
