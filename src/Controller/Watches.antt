-- ===== src/Controller/Watches.antt =====
-- The watch on ClusterAdvertisements: which Reservations a change of an advertisement wakes.
use federation_autoscaler.Base.{
  String, Bool, not, ◌&&◌, List, [], ◌∷◌, ◌≡◌, refl, arith, any, str_eq,
}
use federation_autoscaler.Api.{Reservation, ClusterAdvertisement}
use federation_autoscaler.Controller.Config.{is_reservation_terminal}
use federation_autoscaler.Controller.Reconcile.{requests_of}

-- A Reservation of this name is held on the provider of the advertisement and is not over.
abbrev pub is_live_on : ClusterAdvertisement → String → Reservation → Bool
is_live_on cadv name resv =
    str_eq resv.metadata.name name
    && (str_eq resv.spec.provider_cluster_id cadv.metadata.name
        && not (is_reservation_terminal resv.status.phase))

-- A change of an advertisement wakes exactly the names of the Reservations of its provider that
-- are not in a terminal phase.
pub requests_of_lem :
    (cadv : ClusterAdvertisement) (name : String) (items : List Reservation)
    → any (λ woken. str_eq woken name) (requests_of cadv items) ≡ any (is_live_on cadv name) items
unfolding requests_of
requests_of_lem cadv name [] = refl
requests_of_lem cadv name (resv ∷ items) = ground (arith, requests_of_lem cadv name items)
