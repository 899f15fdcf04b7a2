-- ===== src/Broker/Unwritten.antt =====
-- The delivery of instructions sends nothing to an advertisement.
use federation_autoscaler.Base.{
  String, Bool, true, false, List, [], ◌∷◌, ◌++◌, arith, if◌then◌else◌,
}
use federation_autoscaler.Api.{ClusterAdvertisement, ProviderInstruction, ReservationInstruction}
use federation_autoscaler.Kube.Core
use federation_autoscaler.Kube.Core.{Client, M, Run, Result, ok, err, pure, attempt, ◌>>=◌, ◌>>◌}
use federation_autoscaler.Kube.Bind.{then_keeps}
use federation_autoscaler.Ledger.Requests.{FollowsRead}
use federation_autoscaler.Broker.Delivery.{
  InstructionView, view_from_provider_instruction, view_from_reservation_instruction,
  touch_provider_delivered, touch_reservation_delivered, load_kubeconfig, kubeconfig_for,
  namespaces_for, delivered, deliver_reservation_instruction, deliver_provider_instruction,
  deliver_to_provider, deliver_to_consumer, collect_instructions_for_caller, is_open_for,
  needs_kubeconfig,
}

module _ {W : Type 0} (c : Client W)
    (R : ClusterAdvertisement → ClusterAdvertisement → Type 0) where
  abbrev Follows : Run W → Type 0
  Follows s = FollowsRead R s.log

  -- An action that leaves the order of reads and writes of the advertisement as it is.
  abbrev Leaves : {A : Type 0} → M W A → Type 0
  Leaves m = (s : Run W) → Follows s → Follows (m s).1

  if-Leaves :
      {A : Type 0} (b : Bool) (m n : M W A) → Leaves m → Leaves n → Leaves (if b then m else n)
  if-Leaves true m n h k = h
  if-Leaves false m n h k = k

  then-Leaves :
      {A B : Type 0} (m : M W A) (f : A → M W B)
      → Leaves m
      → ((a : A) → Leaves (f a))
      → Leaves (m >>= f)
  then-Leaves m f h k s i = then_keeps Follows f m s (h s i) k

  -- A pure end.
  end-Leaves : {A B : Type 0} (m : M W A) (f : A → B) → Leaves m → Leaves (m >>= (λ a. pure (f a)))
  end-Leaves m f h = then-Leaves m (λ a. pure (f a)) h (λ a s i. i)

  touch_provider_delivered-Leaves :
      (pi : ProviderInstruction) → Leaves (touch_provider_delivered c pi)
  unfolding touch_provider_delivered
  touch_provider_delivered-Leaves pi s h = ground arith

  touch_reservation_delivered-Leaves :
      (ri : ReservationInstruction) → Leaves (touch_reservation_delivered c ri)
  unfolding touch_reservation_delivered
  touch_reservation_delivered-Leaves ri s h = ground arith

  load_kubeconfig-Leaves : (name : String) → Leaves (load_kubeconfig c name)
  unfolding load_kubeconfig
  load_kubeconfig-Leaves name s h = ground arith

  kubeconfig_for-Leaves : (ri : ReservationInstruction) → Leaves (attempt (kubeconfig_for c ri))
  unfolding kubeconfig_for
  kubeconfig_for-Leaves ri s h =
      if-Leaves (needs_kubeconfig ri) (load_kubeconfig c ri.spec.kubeconfig_ref) (pure "")
        (load_kubeconfig-Leaves ri.spec.kubeconfig_ref) (λ u i. i) s h

  namespaces_for-Leaves : (ri : ReservationInstruction) → Leaves (namespaces_for c ri)
  unfolding namespaces_for
  namespaces_for-Leaves ri s h = ground arith

  delivered-Leaves :
      (ri : ReservationInstruction) (got : Result String) → Leaves (delivered c ri got)
  delivered-Leaves ri (err e) = λ s h. h
  delivered-Leaves ri (ok kubeconfig) =
      then-Leaves (namespaces_for c ri)
        (λ names. do
          touch_reservation_delivered c ri
          pure (view_from_reservation_instruction ri kubeconfig names ∷ []))
        (namespaces_for-Leaves ri)
        (λ names.
          end-Leaves (touch_reservation_delivered c ri)
            (λ _. view_from_reservation_instruction ri kubeconfig names ∷ [])
            (touch_reservation_delivered-Leaves ri))

  -- The views of one instruction and of the rest.
  both-Leaves :
      (m n : M W (List InstructionView))
      → Leaves m
      → Leaves n
      → Leaves (do first ← m; rest ← n; pure (first ++ rest))
  both-Leaves m n h k =
      then-Leaves m (λ first. do rest ← n; pure (first ++ rest)) h
        (λ first. end-Leaves n (λ rest. first ++ rest) k)

  deliver_to_provider-Leaves :
      (caller : String) (pis : List ProviderInstruction) → Leaves (deliver_to_provider c caller pis)
  unfolding deliver_to_provider deliver_provider_instruction
  deliver_to_provider-Leaves caller [] = λ s h. h
  deliver_to_provider-Leaves caller (pi ∷ pis) =
      let mine = is_open_for caller pi.spec.target_cluster_id pi.status.enforced in
      both-Leaves (if mine then deliver_provider_instruction c pi else pure [])
        (deliver_to_provider c caller pis)
        (if-Leaves mine (deliver_provider_instruction c pi) (pure [])
          (end-Leaves (touch_provider_delivered c pi) (λ _. view_from_provider_instruction pi ∷ [])
            (touch_provider_delivered-Leaves pi))
          (λ u i. i))
        (deliver_to_provider-Leaves caller pis)

  deliver_to_consumer-Leaves :
      (caller : String) (ris : List ReservationInstruction)
      → Leaves (deliver_to_consumer c caller ris)
  unfolding deliver_to_consumer deliver_reservation_instruction
  deliver_to_consumer-Leaves caller [] = λ s h. h
  deliver_to_consumer-Leaves caller (ri ∷ ris) =
      let mine = is_open_for caller ri.spec.target_cluster_id ri.status.enforced in
      both-Leaves (if mine then deliver_reservation_instruction c ri else pure [])
        (deliver_to_consumer c caller ris)
        (if-Leaves mine (deliver_reservation_instruction c ri) (pure [])
          (then-Leaves (attempt (kubeconfig_for c ri)) (delivered c ri) (kubeconfig_for-Leaves ri)
            (delivered-Leaves ri))
          (λ u i. i))
        (deliver_to_consumer-Leaves caller ris)

  pub collect_instructions_for_caller-Leaves :
      (caller : String) → Leaves (collect_instructions_for_caller c caller)
  unfolding collect_instructions_for_caller
  collect_instructions_for_caller-Leaves caller =
      let consumer_views : List InstructionView → M W (List InstructionView) = λ first. (do
        ris ← Core.list_reservation_instructions c
        rest ← deliver_to_consumer c caller ris
        pure (first ++ rest)) in
      then-Leaves (Core.list_provider_instructions c)
        (λ pis. do first ← deliver_to_provider c caller pis; consumer_views first) (λ s h. h)
        (λ pis.
          then-Leaves (deliver_to_provider c caller pis) consumer_views
            (deliver_to_provider-Leaves caller pis)
            (λ first.
              then-Leaves (Core.list_reservation_instructions c)
                (λ ris. do rest ← deliver_to_consumer c caller ris; pure (first ++ rest)) (λ s h. h)
                (λ ris.
                  end-Leaves (deliver_to_consumer c caller ris) (λ rest. first ++ rest)
                    (deliver_to_consumer-Leaves caller ris))))
