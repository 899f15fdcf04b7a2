-- ===== src/Broker/Addressed.antt =====
-- A caller is given its own open instructions, all of them and in the order of the server's lists.
use federation_autoscaler.Base.{
  String, Bool, true, false, ◌≡◌, ◌≢◌, refl, ◌⊎◌, inl, inr, List, [], ◌∷◌, ◌++◌, str_eq,
  if◌then◌else◌, ap, sym, subst,
}
use federation_autoscaler.Api.{ProviderInstruction, ReservationInstruction}
use federation_autoscaler.Kube.Core
use federation_autoscaler.Kube.Core.{Client, M, Run, Result, ok, err, pure, ◌>>=◌}
use federation_autoscaler.Kube.Bind.{Post, Post-any, bind_returns, bind_returns_at}
use federation_autoscaler.Broker.Delivery.{
  InstructionView, view_from_provider_instruction, view_from_reservation_instruction, is_open_for,
  needs_kubeconfig, load_kubeconfig, kubeconfig_for, namespaces_for, touch_reservation_delivered,
  touch_provider_delivered, delivered, deliver_reservation_instruction,
  deliver_provider_instruction, deliver_to_provider, deliver_to_consumer,
  collect_instructions_for_caller,
}
use federation_autoscaler.Broker.Opened.{
  IsOpen, IsGiven, NamesKubeconfig, IsServed, is_open_for-IsOpen, is_open_for-not, filled-≢,
  needs-NamesKubeconfig, NamesKubeconfig-needs,
}

module _ {W : Type 0} (c : Client W) (caller : String) where
  -- The views are what a caller is given of the two lists that the server answers, the second one
  -- after the deliveries of the first.
  abbrev pub IsCollected : Run W → List InstructionView → Type 0
  IsCollected s views =
      (pis : List ProviderInstruction) × (ris : List ReservationInstruction) × (first : List
        InstructionView)
      × (rest : List InstructionView) × ((c.list_provider_instructions s.world).0 ≡ ok pis)
      × (let t = (deliver_to_provider c caller pis (Core.list_provider_instructions c s).1).1 in
          (c.list_reservation_instructions t.world).0 ≡ ok ris)
      × IsGiven caller pis first
      × IsServed caller ris rest
      × (views ≡ first ++ rest)

  -- What one delivery and the rest return.
  both :
      (P Q R : List InstructionView → Type 0) (m n : M W (List InstructionView))
      → ((s : Run W) → Post P (m s).0)
      → ((s : Run W) → Post Q (n s).0)
      → ((xs ys : List InstructionView) → P xs → Q ys → R (xs ++ ys))
      → (s : Run W) → Post R ((m >>= λ first. (n >>= λ rest. pure (first ++ rest))) s).0
  both P Q R m n h k join s =
      bind_returns P R (λ first. (n >>= λ rest. pure (first ++ rest))) m s (h s)
        (λ first u p.
          bind_returns Q R (λ rest. pure (first ++ rest)) n u (k u)
            (λ rest v q. join first rest p q))

  deliver_provider_instruction-one :
      (pi : ProviderInstruction) (s : Run W)
      → Post
          (λ views. views ≡ view_from_provider_instruction pi ∷ [])
          (deliver_provider_instruction c pi s).0
  unfolding deliver_provider_instruction
  deliver_provider_instruction-one pi s =
      bind_returns (λ _. Unit) (λ views. views ≡ view_from_provider_instruction pi ∷ [])
        (λ _. pure (view_from_provider_instruction pi ∷ [])) (touch_provider_delivered c pi) s
        (Post-any (touch_provider_delivered c pi s).0) (λ x u _. refl)

  deliver_to_provider-IsGiven :
      (pis : List ProviderInstruction) (s : Run W)
      → Post (IsGiven caller pis) (deliver_to_provider c caller pis s).0
  unfolding deliver_to_provider
  deliver_to_provider-IsGiven [] s = refl
  deliver_to_provider-IsGiven (pi ∷ pis) s =
      by_test (is_open_for caller pi.spec.target_cluster_id pi.status.enforced) refl
        (deliver_to_provider-IsGiven pis)
    where
      by_test :
          (b : Bool)
          → is_open_for caller pi.spec.target_cluster_id pi.status.enforced ≡ b
          → ((t : Run W) → Post (IsGiven caller pis) (deliver_to_provider c caller pis t).0)
          → Post
              (IsGiven caller (pi ∷ pis))
              (((if b then deliver_provider_instruction c pi else pure []) >>= λ first.
                  (deliver_to_provider c caller pis >>= λ rest. pure (first ++ rest)))
                s).0
      by_test true e next =
          both (λ views. views ≡ view_from_provider_instruction pi ∷ []) (IsGiven caller pis)
            (IsGiven caller (pi ∷ pis)) (deliver_provider_instruction c pi)
            (deliver_to_provider c caller pis) (deliver_provider_instruction-one pi) next
            (λ xs ys p q. inr (ys, ap (λ v. v ++ ys) p, is_open_for-IsOpen caller _ _ e, q)) s
      by_test false e next =
          bind_returns (IsGiven caller pis) (IsGiven caller (pi ∷ pis)) (λ rest. pure ([] ++ rest))
            (deliver_to_provider c caller pis) s (next s)
            (λ rest v q. inl (is_open_for-not caller _ _ e, q))

  -- A kubeconfig is loaded where one is named, and only this can fail.
  abbrev IsLoaded : ReservationInstruction → Result String → Type 0
  IsLoaded ri (ok k) = NamesKubeconfig ri → k ≢ ""
  IsLoaded ri (err e) = NamesKubeconfig ri

  load_kubeconfig-filled :
      (name : String) (s : Run W) → Post (λ k. k ≢ "") (load_kubeconfig c name s).0
  unfolding load_kubeconfig
  load_kubeconfig-filled name s =
      bind_returns (λ _. Unit) (λ k. k ≢ "")
        (λ k. if str_eq k "" then Core.throw Core.empty_kubeconfig else pure k)
        (Core.get_secret c name) s (Post-any (Core.get_secret c name s).0)
        (λ k u _. by_test k u (str_eq k "") refl)
    where
      by_test :
          (k : String) (u : Run W) (b : Bool)
          → str_eq k "" ≡ b
          → Post (λ x. x ≢ "") ((if b then Core.throw Core.empty_kubeconfig else pure k) u).0
      by_test k u true e = tt
      by_test k u false e = filled-≢ k e

  kubeconfig_for-IsLoaded :
      (ri : ReservationInstruction) (s : Run W) → IsLoaded ri (kubeconfig_for c ri s).0
  unfolding kubeconfig_for
  kubeconfig_for-IsLoaded ri s = by_need (needs_kubeconfig ri) refl
    where
      loaded : (r : Result String) → NamesKubeconfig ri → Post (λ k. k ≢ "") r → IsLoaded ri r
      loaded (ok k) h p = λ _. p
      loaded (err e) h p = h

      by_need :
          (b : Bool)
          → needs_kubeconfig ri ≡ b
          → IsLoaded ri ((if b then load_kubeconfig c ri.spec.kubeconfig_ref else pure "") s).0
      by_need true e =
          loaded (load_kubeconfig c ri.spec.kubeconfig_ref s).0 (needs-NamesKubeconfig ri e)
            (load_kubeconfig-filled ri.spec.kubeconfig_ref s)
      by_need false e = λ h. absurd (NamesKubeconfig-needs ri e h)

  -- What is delivered of one open instruction.
  abbrev IsOne : ReservationInstruction → List InstructionView → Type 0
  IsOne ri views =
      ((views ≡ []) × NamesKubeconfig ri)
      ⊎ ((kubeconfig : String) × (namespaces : List String) × (views
            ≡ view_from_reservation_instruction ri kubeconfig namespaces ∷ [])
          × (NamesKubeconfig ri → kubeconfig ≢ ""))

  delivered-IsOne :
      (ri : ReservationInstruction) (a : Result String) (s : Run W)
      → IsLoaded ri a
      → Post (IsOne ri) (delivered c ri a s).0
  delivered-IsOne ri (err e) s h = inl (refl, h)
  delivered-IsOne ri (ok kubeconfig) s h =
      bind_returns (λ _. Unit) (IsOne ri)
        (λ ns.
          (touch_reservation_delivered c ri >>= λ _.
          pure (view_from_reservation_instruction ri kubeconfig ns ∷ [])))
        (namespaces_for c ri) s (Post-any (namespaces_for c ri s).0)
        (λ ns u _.
          bind_returns (λ _. Unit) (IsOne ri)
            (λ _. pure (view_from_reservation_instruction ri kubeconfig ns ∷ []))
            (touch_reservation_delivered c ri) u (Post-any (touch_reservation_delivered c ri u).0)
            (λ x v _. inr (kubeconfig, ns, refl, h)))

  deliver_reservation_instruction-IsOne :
      (ri : ReservationInstruction) (s : Run W)
      → Post (IsOne ri) (deliver_reservation_instruction c ri s).0
  unfolding deliver_reservation_instruction
  deliver_reservation_instruction-IsOne ri s =
      delivered-IsOne ri (kubeconfig_for c ri s).0 (kubeconfig_for c ri s).1
        (kubeconfig_for-IsLoaded ri s)

  serve :
      (ri : ReservationInstruction) (ris : List ReservationInstruction)
      (xs ys : List InstructionView)
      → IsOpen caller ri.spec.target_cluster_id ri.status.enforced
      → IsOne ri xs
      → IsServed caller ris ys
      → IsServed caller (ri ∷ ris) (xs ++ ys)
  serve ri ris xs ys o (inl (p, h)) q =
      inl ((λ _. h), subst (IsServed caller ris) (sym (ap (λ v. v ++ ys) p)) q)
  serve ri ris xs ys o (inr (k, ns, p, h)) q = inr (ys, k, ns, ap (λ v. v ++ ys) p, h, o, q)

  deliver_to_consumer-IsServed :
      (ris : List ReservationInstruction) (s : Run W)
      → Post (IsServed caller ris) (deliver_to_consumer c caller ris s).0
  unfolding deliver_to_consumer
  deliver_to_consumer-IsServed [] s = refl
  deliver_to_consumer-IsServed (ri ∷ ris) s =
      by_test (is_open_for caller ri.spec.target_cluster_id ri.status.enforced) refl
        (deliver_to_consumer-IsServed ris)
    where
      by_test :
          (b : Bool)
          → is_open_for caller ri.spec.target_cluster_id ri.status.enforced ≡ b
          → ((t : Run W) → Post (IsServed caller ris) (deliver_to_consumer c caller ris t).0)
          → Post
              (IsServed caller (ri ∷ ris))
              (((if b then deliver_reservation_instruction c ri else pure []) >>= λ first.
                  (deliver_to_consumer c caller ris >>= λ rest. pure (first ++ rest)))
                s).0
      by_test true e next =
          both (IsOne ri) (IsServed caller ris) (IsServed caller (ri ∷ ris))
            (deliver_reservation_instruction c ri) (deliver_to_consumer c caller ris)
            (deliver_reservation_instruction-IsOne ri) next
            (λ xs ys p q. serve ri ris xs ys (is_open_for-IsOpen caller _ _ e) p q) s
      by_test false e next =
          bind_returns (IsServed caller ris) (IsServed caller (ri ∷ ris))
            (λ rest. pure ([] ++ rest)) (deliver_to_consumer c caller ris) s (next s)
            (λ rest v q. inl ((λ o. absurd (is_open_for-not caller _ _ e o)), q))

  -- Whatever the server answers, where a caller gets instructions, they are in order the views of all
  -- instructions in the server's list of ProviderInstructions that have the caller as their target
  -- and are not enforced, and then those of its list of ReservationInstructions, of which only Peers
  -- that name the Secret of a kubeconfig may be missing; such a Peer that is given comes with a
  -- kubeconfig that is not empty.
  pub collect_instructions_for_caller-IsCollected :
      (s : Run W) → Post (IsCollected s) (collect_instructions_for_caller c caller s).0
  unfolding collect_instructions_for_caller
  collect_instructions_for_caller-IsCollected s =
      bind_returns_at (IsCollected s)
        (λ pis.
          (deliver_to_provider c caller pis >>= λ first.
          (Core.list_reservation_instructions c >>= λ ris.
          (deliver_to_consumer c caller ris >>= λ rest. pure (first ++ rest)))))
        (Core.list_provider_instructions c) s (λ pis e. given pis e)
    where
      listed : Run W
      listed = (Core.list_provider_instructions c s).1

      given :
          (pis : List ProviderInstruction)
          → (c.list_provider_instructions s.world).0 ≡ ok pis
          → Post
              (IsCollected s)
              ((deliver_to_provider c caller pis >>= λ first.
                  (Core.list_reservation_instructions c >>= λ ris.
                  (deliver_to_consumer c caller ris >>= λ rest. pure (first ++ rest))))
                listed).0
      given pis e =
          bind_returns_at (IsCollected s)
            (λ first.
              (Core.list_reservation_instructions c >>= λ ris.
              (deliver_to_consumer c caller ris >>= λ rest. pure (first ++ rest))))
            (deliver_to_provider c caller pis) listed
            (λ first p.
              bind_returns_at (IsCollected s)
                (λ ris. (deliver_to_consumer c caller ris >>= λ rest. pure (first ++ rest)))
                (Core.list_reservation_instructions c) (deliver_to_provider c caller pis listed).1
                (λ ris g.
                  let u =
                    (Core.list_reservation_instructions c
                      (deliver_to_provider c caller pis listed).1).1 in
                  bind_returns (IsServed caller ris) (IsCollected s) (λ rest. pure (first ++ rest))
                    (deliver_to_consumer c caller ris) u (deliver_to_consumer-IsServed ris u)
                    (λ rest v k. (
                      pis,
                      ris,
                      first,
                      rest,
                      e,
                      g,
                      subst (Post (IsGiven caller pis)) p (deliver_to_provider-IsGiven pis listed),
                      k,
                      refl,
                    ))))
