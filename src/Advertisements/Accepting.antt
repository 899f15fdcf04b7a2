-- ===== src/Advertisements/Accepting.antt =====
-- What an advertisement changes.
use federation_autoscaler.Base.{
  String, Bool, true, false, not, ◌≡◌, refl, ◌⊎◌, inl, inr, List, [], ◌∷◌, arith, subst, sym,
  if◌then◌else◌, str_eq,
}
use federation_autoscaler.Base.Int.{ℤ}
use federation_autoscaler.Api.{ClusterAdvertisement, AdvertisementSpec}
use federation_autoscaler.Kube.Core
use federation_autoscaler.Kube.Core.{
  Client, M, Run, Result, ok, err, Event, ApiError, accepted, wrote_advertisement_status,
  read_advertisement,
}
use federation_autoscaler.Consumer.Types.{ResourceList}
use federation_autoscaler.Chunks.{ChunkResult}
use federation_autoscaler.Ledger.Requests.{FollowsRead, commits}
use federation_autoscaler.Kube.Bind.{Post}
use federation_autoscaler.Broker.Delivery.{InstructionView, collect_instructions_for_caller}
use federation_autoscaler.Broker.Addressed.{
  IsCollected, collect_instructions_for_caller-IsCollected,
}
use federation_autoscaler.Broker.Unwritten.{collect_instructions_for_caller-Leaves}
use federation_autoscaler.Advertisements.Publishing.{
  Publishes, touched, spec_of, AdvertisementRequest, AdvertisementAnswer, accepted_with, declined,
  validate_advertisement_request, touch_cluster_advertisement_status, published, instructions_of,
  upsert_cluster_advertisement, handle_advertisement_upsert,
}

module _ {W : Type 0} (c : Client W) (sizer : ResourceList → List ChunkResult) where
  -- The advertisement that the server upserted, and the run after the touch of its status.
  abbrev pub IsTouched : ℤ → Run W → Run W → Type 0
  IsTouched count s u =
      (x : AdvertisementSpec) × (cadv : ClusterAdvertisement) × ((c.upsert_advertisement x
          s.world).0
        ≡ ok cadv)
      × (u
          ≡ (touch_cluster_advertisement_status c sizer cadv count (record {
            world = (c.upsert_advertisement x s.world).1;
            log = read_advertisement x.cluster_id (ok cadv) ∷ s.log;
          })).1)

  -- What the caller is given of the server's lists, or nothing where that cannot be collected.
  abbrev pub AreInstructions : String → Run W → List InstructionView → Type 0
  AreInstructions caller u instr =
      IsCollected c caller u instr
      ⊎ ((e : ApiError) × ((collect_instructions_for_caller c caller u).0 ≡ err e) × (instr ≡ []))

  -- The chunk count that is published, in the answer and in the writes: each write follows the read
  -- that the upsert is, sets the total to the count and keeps the reserved chunks that were read. The
  -- instructions of the answer are collected for the caller after the touch.
  abbrev pub Published : String → Run W → List Event → Result AdvertisementAnswer → Type 0
  Published caller s after (ok (accepted_with count instr)) =
      (FollowsRead (Publishes count) s.log → FollowsRead (Publishes count) after)
      × (u : Run W) × IsTouched count s u
      × AreInstructions caller u instr
  Published caller s after (ok (declined status)) = commits after ≡ commits s.log
  Published caller s after (err e) = ⊥

  -- The touch sends one status, read off the clock at that moment.
  touch-log :
      (cadv : ClusterAdvertisement) (count : ℤ) (s : Run W)
      → (b : Bool) × ((touch_cluster_advertisement_status c sizer cadv count s).1.log
          ≡ wrote_advertisement_status b (touched count (c.now s.world).0 cadv) ∷ s.log)
  unfolding touch_cluster_advertisement_status
  touch-log cadv count s =
      let now = c.now s.world in
      (accepted (c.update_advertisement_status (touched count now.0 cadv) now.1).0, ground arith)

  instructions_of-AreInstructions :
      (caller : String) (u : Run W) (got : Result (List InstructionView))
      → (collect_instructions_for_caller c caller u).0 ≡ got
      → Post (IsCollected c caller u) got
      → AreInstructions caller u (instructions_of c sizer got)
  instructions_of-AreInstructions caller u (ok views) q h = inl h
  instructions_of-AreInstructions caller u (err e) q h = inr (e, q, refl)

  -- The instructions are collected after the touch, and send no status of an advertisement.
  published-Published :
      (caller : String) (result : ChunkResult) (x : AdvertisementSpec)
      (a : Result ClusterAdvertisement) (s : Run W)
      → (c.upsert_advertisement x s.world).0 ≡ a
      → (let u : Run W = record {
        world = (c.upsert_advertisement x s.world).1;
        log = read_advertisement x.cluster_id a ∷ s.log;
      } in
          Published caller s
            (published c sizer caller result a u).1.log
            (published c sizer caller result a u).0)
  unfolding published
  published-Published caller result x (err e) s q = refl
  published-Published caller result x (ok cadv) s q =
      let w = (c.upsert_advertisement x s.world).1 in
      let u : Run W = record {
        world = w;
        log = read_advertisement x.cluster_id (ok cadv) ∷ s.log;
      } in
      let t = touch-log cadv result.count u in
      let after = (touch_cluster_advertisement_status c sizer cadv result.count u).1 in
      (
        λ h.
            collect_instructions_for_caller-Leaves c (Publishes result.count) caller after
              (subst (FollowsRead (Publishes result.count)) (sym t.1) (((c.now w).0, refl), h)),
        after,
        (x, cadv, q, refl),
        instructions_of-AreInstructions caller after
            (collect_instructions_for_caller c caller after).0 refl
            (collect_instructions_for_caller-IsCollected c caller after),
      )

  upsert_cluster_advertisement-Published :
      (caller : String) (req : AdvertisementRequest) (results : List ChunkResult) (s : Run W)
      → Published caller s
          (upsert_cluster_advertisement c sizer caller req results s).1.log
          (upsert_cluster_advertisement c sizer caller req results s).0
  unfolding upsert_cluster_advertisement
  upsert_cluster_advertisement-Published caller req [] s = refl
  upsert_cluster_advertisement-Published caller req (result ∷ results) s =
      let x = spec_of req result in
      published-Published caller result x (c.upsert_advertisement x s.world).0 s refl

  -- Whatever the server answers, an advertisement is always answered. Behind a refusal nothing was
  -- committed to the ledger; otherwise every status sent follows directly on the upserted object, has
  -- the answered chunk count as its total, keeps the reserved chunks of that object and shows as
  -- available what the total leaves of them. The instructions in the answer are then, from the run
  -- after that write, in order the open ones that the server lists for the caller, of the
  -- ReservationInstructions perhaps without some Peers that name a kubeconfig; there are none where
  -- the collection fails.
  -- Of the log before the status writes of the count are assumed to have this property.
  pub handle_advertisement_upsert-Published :
      (caller : String) (req : AdvertisementRequest) (s : Run W)
      → Published caller s
          (handle_advertisement_upsert c sizer caller req s).1.log
          (handle_advertisement_upsert c sizer caller req s).0
  unfolding handle_advertisement_upsert
  handle_advertisement_upsert-Published caller req s =
      checked (not (validate_advertisement_request req)) (not (str_eq req.cluster_id caller))
    where
      checked :
          (x y : Bool)
          → (let m : M W AdvertisementAnswer =
                if x
                then Core.pure (declined 400)
                else if y
                then Core.pure (declined 403)
                else upsert_cluster_advertisement c sizer caller req (sizer req.resources) in
              Published caller s (m s).1.log (m s).0)
      checked true y = refl
      checked false true = refl
      checked false false =
          upsert_cluster_advertisement-Published caller req (sizer req.resources) s
