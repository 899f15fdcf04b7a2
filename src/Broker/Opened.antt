-- ===== src/Broker/Opened.antt =====
-- internal/broker/api/instructions.go: which instructions of the server's lists a caller is given.
use federation_autoscaler.Base.{
  String, Bool, true, false, ◌≡◌, ◌≢◌, refl, ◌⊎◌, List, [], ◌∷◌, str_eq, arith, eq_iff, ap,
}
use federation_autoscaler.Api.{
  ProviderInstruction, ReservationInstruction, ReservationInstructionKind,
}
use federation_autoscaler.Broker.Delivery.{
  InstructionView, view_from_provider_instruction, view_from_reservation_instruction, is_open_for,
  is_peer_kind, needs_kubeconfig,
}

-- The instruction is for the caller and not enforced yet.
abbrev pub IsOpen : String → String → Bool → Type 0
IsOpen caller target enforced = (target ≡ caller) × (enforced ≡ false)

-- The views are those of the open instructions of the caller, one of each, in order.
abbrev pub IsGiven : String → List ProviderInstruction → List InstructionView → Type 0
IsGiven caller [] views = views ≡ []
IsGiven caller (pi ∷ pis) views =
    ((¬ IsOpen caller pi.spec.target_cluster_id pi.status.enforced) × IsGiven caller pis views)
    ⊎ ((rest : List InstructionView) × (views ≡ view_from_provider_instruction pi ∷ rest)
        × IsOpen caller pi.spec.target_cluster_id pi.status.enforced
        × IsGiven caller pis rest)

-- A Peer that names the Secret of its kubeconfig.
abbrev pub NamesKubeconfig : ReservationInstruction → Type 0
NamesKubeconfig ri =
    (ri.spec.kind ≡ ReservationInstructionKind.peer) × (ri.spec.kubeconfig_ref ≢ "")

-- The views are those of the open instructions of the caller, one of each, in order, but for some
-- that name a kubeconfig; one of these that is among them has a kubeconfig that is not empty.
abbrev pub IsServed : String → List ReservationInstruction → List InstructionView → Type 0
IsServed caller [] views = views ≡ []
IsServed caller (ri ∷ ris) views =
    ((IsOpen caller ri.spec.target_cluster_id ri.status.enforced → NamesKubeconfig ri)
      × IsServed caller ris views)
    ⊎ ((rest : List InstructionView) × (kubeconfig : String) × (namespaces : List String) × (views
          ≡ view_from_reservation_instruction ri kubeconfig namespaces ∷ rest)
        × (NamesKubeconfig ri → kubeconfig ≢ "")
        × IsOpen caller ri.spec.target_cluster_id ri.status.enforced
        × IsServed caller ris rest)

pub is_open_for-IsOpen :
    (caller target : String) (enforced : Bool)
    → is_open_for caller target enforced ≡ true
    → IsOpen caller target enforced
is_open_for-IsOpen caller target enforced e = grind (arith, eq_iff)

pub is_open_for-not :
    (caller target : String) (enforced : Bool)
    → is_open_for caller target enforced ≡ false
    → ¬ IsOpen caller target enforced
is_open_for-not caller target enforced e (p, q) = let h = (eq_iff target caller).1 p in ground arith

peer-is_peer_kind :
    (kind : ReservationInstructionKind)
    → is_peer_kind kind ≡ true
    → kind ≡ ReservationInstructionKind.peer
peer-is_peer_kind ReservationInstructionKind.peer e = refl
peer-is_peer_kind ReservationInstructionKind.unpeer e = ground arith
peer-is_peer_kind ReservationInstructionKind.cleanup e = ground arith
peer-is_peer_kind ReservationInstructionKind.reconcile e = ground arith

pub filled-≢ : (k : String) → str_eq k "" ≡ false → k ≢ ""
filled-≢ k e p = let h = (eq_iff k "").1 p in ground arith

pub needs-NamesKubeconfig :
    (ri : ReservationInstruction) → needs_kubeconfig ri ≡ true → NamesKubeconfig ri
needs-NamesKubeconfig ri e =
    (peer-is_peer_kind ri.spec.kind (ground arith), filled-≢ ri.spec.kubeconfig_ref (ground arith))

pub NamesKubeconfig-needs :
    (ri : ReservationInstruction) → needs_kubeconfig ri ≡ false → ¬ NamesKubeconfig ri
NamesKubeconfig-needs ri e (p, q) = named (str_eq ri.spec.kubeconfig_ref "") refl
  where
    named : (b : Bool) → str_eq ri.spec.kubeconfig_ref "" ≡ b → ⊥
    named true g = q ((eq_iff ri.spec.kubeconfig_ref "").0 g)
    named false g = let k = ap is_peer_kind p in ground arith
