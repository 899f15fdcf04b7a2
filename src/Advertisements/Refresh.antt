-- ===== src/Advertisements/Refresh.antt =====
-- What a pass over an advertisement writes, and when it writes.
use federation_autoscaler.Base.{
  String, Bool, true, false, ◌≡◌, ◌↔◌, ◌⊎◌, refl, arith, List, ◌∷◌, Option, none, some, subst, sym,
  ◌∙◌, Bool-cases, inl, inr,
}
use federation_autoscaler.Base.Int.{pos}
use federation_autoscaler.Api.{Time, ClusterAdvertisement}
use federation_autoscaler.Kube.Core
use federation_autoscaler.Kube.Core.{
  Client, Run, Event, accepted, Result, ok, err, read_advertisement, wrote_advertisement_status,
}
use federation_autoscaler.Controller.Config.{Duration}
use federation_autoscaler.Ledger.Requests.{FollowsRead}
use federation_autoscaler.Advertisements.Staleness.{
  refreshed, needs_update, is_advertisement_stale, settle, refresh, reconcile_advertisement,
}

-- A pass skips its write exactly where the write would change nothing, so that it does not wake
-- itself up again.
pub needs_update_lem :
    (stale : Bool) (cadv : ClusterAdvertisement)
    → (needs_update stale cadv ≡ false) ↔ (refreshed stale cadv ≡ cadv)
unfolding needs_update refreshed
needs_update_lem stale cadv = ground arith

-- A write of an advertisement's status that leaves the ledger of chunks alone, and either shows the
-- provider with the chunks that were available or hides it with none.
abbrev pub Refreshes : ClusterAdvertisement → ClusterAdvertisement → Type 0
Refreshes old new =
    (new.status.total_chunks ≡ old.status.total_chunks)
    × (new.status.reserved_chunks ≡ old.status.reserved_chunks)
    × (((new.status.available ≡ true) × (new.status.available_chunks ≡ old.status.available_chunks))
        ⊎ ((new.status.available ≡ false) × (new.status.available_chunks ≡ pos 0)))

refreshed-Refreshes :
    (stale : Bool) (cadv : ClusterAdvertisement) → Refreshes cadv (refreshed stale cadv)
unfolding refreshed
refreshed-Refreshes true cadv = (refl, refl, inr (refl, refl))
refreshed-Refreshes false cadv = (refl, refl, inl (refl, refl))

module _ {W : Type 0} (c : Client W) (setting : Duration) where
  -- The reading of the clock is not logged.
  is_advertisement_stale-log :
      (seen : Option Time) (s : Run W) → (is_advertisement_stale c setting seen s).1.log ≡ s.log
  unfolding is_advertisement_stale
  is_advertisement_stale-log none s = refl
  is_advertisement_stale-log (some seen) s = refl

  write-FollowsRead :
      (name : String) (cadv : ClusterAdvertisement) (stale : Bool) (log : List Event) (t : Run W)
      → t.log ≡ read_advertisement name (ok cadv) ∷ log
      → FollowsRead Refreshes log
      → FollowsRead Refreshes (Core.update_advertisement_status c (refreshed stale cadv) t).1.log
  write-FollowsRead name cadv stale log t e h =
      let b = accepted (c.update_advertisement_status (refreshed stale cadv) t.world).0 in
      subst (λ l. FollowsRead Refreshes (wrote_advertisement_status b (refreshed stale cadv) ∷ l))
        (sym e) (refreshed-Refreshes stale cadv, h)

  settle-FollowsRead :
      (name : String) (cadv : ClusterAdvertisement) (stale : Bool) (log : List Event) (t : Run W)
      → t.log ≡ read_advertisement name (ok cadv) ∷ log
      → FollowsRead Refreshes log
      → FollowsRead Refreshes (settle c setting cadv stale t).1.log
  unfolding settle
  settle-FollowsRead name cadv stale log t e h =
      let keep : FollowsRead Refreshes t.log = subst (FollowsRead Refreshes) (sym e) h in
      let wrote = write-FollowsRead name cadv stale log t e h in
      elim (Bool-cases (needs_update stale cadv)) [
        | inl q ↦ ground (arith, q, wrote)
        | inr q ↦ rw (q, settle) keep
      ]

  refresh-FollowsRead :
      (name : String) (cadv : ClusterAdvertisement) (log : List Event) (s : Run W)
      → s.log ≡ read_advertisement name (ok cadv) ∷ log
      → FollowsRead Refreshes log
      → FollowsRead Refreshes (refresh c setting cadv s).1.log
  unfolding refresh
  refresh-FollowsRead name cadv log s e h =
      go (is_advertisement_stale c setting cadv.status.last_seen s).0 refl
    where
      t : Run W
      t = (is_advertisement_stale c setting cadv.status.last_seen s).1

      e' : t.log ≡ read_advertisement name (ok cadv) ∷ log
      e' = is_advertisement_stale-log cadv.status.last_seen s ∙ e

      go :
          (o : Result Bool)
          → (is_advertisement_stale c setting cadv.status.last_seen s).0 ≡ o
          → FollowsRead Refreshes (refresh c setting cadv s).1.log
      go (err x) q = ground (arith, q, subst (FollowsRead Refreshes) (sym e') h)
      go (ok stale) q = ground (arith, q, settle-FollowsRead name cadv stale log t e' h)

  -- Every status that a pass over an advertisement writes comes directly after a read, keeps the
  -- total and the reserved chunks that were read, and shows a provider as unavailable only with no
  -- available chunks and as available with those that were read.
  -- The log before is assumed to have this property.
  pub reconcile_advertisement-FollowsRead :
      (name : String) (s : Run W)
      → FollowsRead Refreshes s.log
      → FollowsRead Refreshes (reconcile_advertisement c setting name s).1.log
  unfolding reconcile_advertisement
  reconcile_advertisement-FollowsRead name s h = go (c.get_advertisement name s.world).0 refl
    where
      go :
          (o : Result ClusterAdvertisement)
          → (c.get_advertisement name s.world).0 ≡ o
          → FollowsRead Refreshes (reconcile_advertisement c setting name s).1.log
      go (err e) q = ground (arith, q)
      go (ok cadv) q =
          let t = (Core.get_advertisement c name s).1 in
          let e : t.log ≡ read_advertisement name (ok cadv) ∷ s.log = rw q refl in
          ground (arith, q, refresh-FollowsRead name cadv s.log t e h)
