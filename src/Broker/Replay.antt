-- ===== src/Broker/Replay.antt =====
-- internal/broker/api/reservation.go: how often a request of a consumer changes the chunk ledger.
use federation_autoscaler.Base.{ℕ, ◌+◌, ◌≤◌, ◌==◌, String, ◌≡◌, Option, if◌then◌else◌, arith, refl}
use federation_autoscaler.Base.Int.{ℤ, neg}
use federation_autoscaler.Api.{Reservation}
use federation_autoscaler.Kube.Core
use federation_autoscaler.Kube.Core.{Client, Run, Event, Result, ok, err}
use federation_autoscaler.Ledger.Capacity.{adjust_reserved_chunks}
use federation_autoscaler.Ledger.Requests.{commits}
use federation_autoscaler.Ledger.Adjusting.{
  adjust_reserved_chunks-commits, set_chunks_released-commits,
}
use federation_autoscaler.Broker.Server.{Answer, answered, rejected, Server}
use federation_autoscaler.Broker.Reservations.{
  credit_release, wind_down, winding_down, release_of, handle_reservation_release,
}

-- The commits to the ledger that an answer to a create allows, from `n` to `m`: one behind a new
-- Reservation, none behind the answer to a replay or an error of the caller, and behind a failure
-- of the server none, a reservation, or a reservation and its return.
abbrev pub Charged : Result Answer → ℕ → ℕ → Type 0
Charged (ok (answered status resv)) n m = m ≡ n + (if status == 201 then 1 else 0)
Charged (ok (rejected status)) n m = if status == 500 then (n ≤ m) × (m ≤ n + 2) else m ≡ n
Charged _ n m = ⊥

-- The commits to the ledger that an answer to a release allows.
abbrev pub Credited : Result Answer → ℕ → ℕ → Type 0
Credited (ok (answered status resv)) n m = (status ≡ 202) × (n ≤ m) × (m ≤ n + 1)
Credited (ok (rejected status)) n m = m ≡ n
Credited _ n m = ⊥

module _ {W : Type 0} (c : Client W) (server : Server W) where
  credit_release-commits :
      (resv : Reservation) (s : Run W)
      → (commits s.log ≤ commits (credit_release c server resv s).1.log)
        × (commits (credit_release c server resv s).1.log ≤ commits s.log + 1)
  unfolding credit_release
  credit_release-commits resv s =
      let provider = resv.spec.provider_cluster_id in
      let delta = neg resv.spec.chunk_count in
      let t = (adjust_reserved_chunks c provider delta s).1 in
      ground (
        arith,
        adjust_reserved_chunks-commits c provider delta s,
        set_chunks_released-commits c resv.metadata.name t,
      )

  credit_release_total :
      (resv : Reservation) (s : Run W) → (credit_release c server resv s).0 ≡ ok tt
  unfolding credit_release
  credit_release_total resv s = ground arith

  wind_down-Credited :
      (resv : Reservation) (s : Run W)
      → Credited
          (wind_down c server resv s).0
          (commits s.log)
          (commits (wind_down c server resv s).1.log)
  unfolding wind_down
  wind_down-Credited resv s =
      let t = (Core.update_reservation_status c (winding_down c server resv) s).1 in
      ground (arith, credit_release-commits resv t, credit_release_total resv t)

  release_of-Credited :
      (caller : String) (chunks : Option ℤ) (resv : Reservation) (s : Run W)
      → Credited
          (release_of c server caller chunks resv s).0
          (commits s.log)
          (commits (release_of c server caller chunks resv s).1.log)
  unfolding release_of
  release_of-Credited caller chunks resv s = ground (arith, wind_down-Credited resv s)

  -- Whatever the server answers, a release always answers its caller: it commits nothing to the
  -- ledger behind any rejection, and at most one credit behind a 202.
  pub handle_reservation_release-Credited :
      (caller name : String) (chunks : Option ℤ) (s : Run W)
      → Credited
          (handle_reservation_release c server caller name chunks s).0
          (commits s.log)
          (commits (handle_reservation_release c server caller name chunks s).1.log)
  unfolding handle_reservation_release
  handle_reservation_release-Credited caller name chunks s =
      go (c.get_reservation name s.world).0 refl
    where
      go :
          (o : Result Reservation)
          → (c.get_reservation name s.world).0 ≡ o
          → Credited
              (handle_reservation_release c server caller name chunks s).0
              (commits s.log)
              (commits (handle_reservation_release c server caller name chunks s).1.log)
      go (err e) q = ground (arith, q)
      go (ok resv) q =
          let t = (Core.get_reservation c name s).1 in
          ground (arith, q, release_of-Credited caller chunks resv t)
