-- ===== src/Broker/Delivery.antt =====
-- internal/broker/api/instructions.go: the instructions that a caller is given.
use federation_autoscaler.Base.{
  String, Bool, true, false, not, ◌&&◌, ◌||◌, Option, none, some, List, [], ◌∷◌, ◌++◌, str_eq,
  if◌then◌else◌,
}
use federation_autoscaler.Base.Int.{ℤ, pos, ltb_ℤ}
use federation_autoscaler.Api.{
  Time, Reservation, ProviderInstruction, ProviderInstructionKind, ReservationInstruction,
  ReservationInstructionKind,
}
use federation_autoscaler.Kube.Core
use federation_autoscaler.Kube.Core.{
  Client, M, Result, ok, err, empty_kubeconfig, pure, throw, attempt, ◌>>=◌, ◌>>◌,
}
use federation_autoscaler.Controller.Config.{since}

pub data InstructionKind : Type 0 where
  for_provider : ProviderInstructionKind → InstructionKind
  for_consumer : ReservationInstructionKind → InstructionKind

-- InstructionView; IssuedAt and the shape and names of the slices are left out.
pub record InstructionView : Type 0 where
  pub id : String
  pub kind : InstructionKind
  pub reservation_id : String
  pub chunk_count : ℤ
  pub last_chunk : Bool
  pub consumer_cluster_id : String
  pub consumer_liqo_cluster_id : String
  pub provider_cluster_id : String
  pub provider_liqo_cluster_id : String
  pub expires_at : Option Time
  pub kubeconfig : String
  pub namespaces : List String

unfoldable pub view_from_provider_instruction : ProviderInstruction → InstructionView
view_from_provider_instruction pi = record {
  id = pi.name;
  kind = for_provider pi.spec.kind;
  reservation_id = pi.spec.reservation_id;
  chunk_count = pi.spec.chunk_count;
  last_chunk = pi.spec.last_chunk;
  consumer_cluster_id = pi.spec.consumer_cluster_id;
  consumer_liqo_cluster_id = pi.spec.consumer_liqo_cluster_id;
  provider_cluster_id = "";
  provider_liqo_cluster_id = "";
  expires_at = pi.spec.expires_at;
  kubeconfig = "";
  namespaces = [];
}

-- With the kubeconfig and the namespaces that the loop adds.
unfoldable pub view_from_reservation_instruction :
    ReservationInstruction → String → List String → InstructionView
view_from_reservation_instruction ri kubeconfig namespaces = record {
  id = ri.name;
  kind = for_consumer ri.spec.kind;
  reservation_id = ri.spec.reservation_id;
  chunk_count = ri.spec.chunk_count;
  last_chunk = ri.spec.last_chunk;
  consumer_cluster_id = "";
  consumer_liqo_cluster_id = "";
  provider_cluster_id = ri.spec.provider_cluster_id;
  provider_liqo_cluster_id = ri.spec.provider_liqo_cluster_id;
  expires_at = ri.spec.expires_at;
  kubeconfig = kubeconfig;
  namespaces = namespaces;
}

abbrev pub is_peer_kind : ReservationInstructionKind → Bool
is_peer_kind ReservationInstructionKind.peer = true
is_peer_kind _ = false

abbrev pub is_unpeer_kind : ReservationInstructionKind → Bool
is_unpeer_kind ReservationInstructionKind.unpeer = true
is_unpeer_kind _ = false

-- 30 seconds.
abbrev pub delivery_touch_interval : ℤ
delivery_touch_interval = pos 30_000_000_000

unfoldable pub delivery_touch_due : Option Time → Time → Bool
delivery_touch_due none now = true
delivery_touch_due (some last) now = not (ltb_ℤ (since now last) delivery_touch_interval)

-- The instruction is the caller's, and not enforced yet.
abbrev pub is_open_for : String → String → Bool → Bool
is_open_for caller target enforced = str_eq target caller && not enforced

-- The Peer that needs the staged kubeconfig.
abbrev pub needs_kubeconfig : ReservationInstruction → Bool
needs_kubeconfig ri = is_peer_kind ri.spec.kind && not (str_eq ri.spec.kubeconfig_ref "")

module _ {W : Type 0} (c : Client W) where
  unfoldable pub touch_provider_delivered : ProviderInstruction → M W (Unit {0})
  touch_provider_delivered pi = do
    now ← Core.now c
    let touch : M W (Unit {0}) = do
      attempt (
          Core.update_provider_instruction_status c
            (record pi { status = record pi.status { last_delivered_at = some now } }))
      pure tt
    if delivery_touch_due pi.status.last_delivered_at now then touch else pure tt

  unfoldable pub touch_reservation_delivered : ReservationInstruction → M W (Unit {0})
  touch_reservation_delivered ri = do
    now ← Core.now c
    let touch : M W (Unit {0}) = do
      attempt (
          Core.update_reservation_instruction_status c
            (record ri { status = record ri.status { last_delivered_at = some now } }))
      pure tt
    if delivery_touch_due ri.status.last_delivered_at now then touch else pure tt

  unfoldable pub load_kubeconfig : String → M W String
  load_kubeconfig name = do
    value ← Core.get_secret c name
    if str_eq value "" then throw empty_kubeconfig else pure value

  unfoldable pub kubeconfig_for : ReservationInstruction → M W String
  kubeconfig_for ri =
      if needs_kubeconfig ri then load_kubeconfig ri.spec.kubeconfig_ref else pure ""

  abbrev pub namespaces_of : Result Reservation → List String
  namespaces_of (ok resv) = resv.spec.namespaces
  namespaces_of (err e) = []

  unfoldable pub namespaces_for : ReservationInstruction → M W (List String)
  namespaces_for ri = do
    let look : M W (List String) = do
      got ← attempt (Core.get_reservation c ri.spec.reservation_id)
      pure (namespaces_of got)
    if is_peer_kind ri.spec.kind || is_unpeer_kind ri.spec.kind then look else pure []

  -- An instruction whose kubeconfig cannot be loaded is skipped this time.
  abbrev pub delivered : ReservationInstruction → Result String → M W (List InstructionView)
  delivered ri (err e) = pure []
  delivered ri (ok kubeconfig) = do
    namespaces ← namespaces_for ri
    touch_reservation_delivered ri
    pure (view_from_reservation_instruction ri kubeconfig namespaces ∷ [])

  unfoldable pub deliver_reservation_instruction :
      ReservationInstruction → M W (List InstructionView)
  deliver_reservation_instruction ri = do got ← attempt (kubeconfig_for ri); delivered ri got

  unfoldable pub deliver_provider_instruction : ProviderInstruction → M W (List InstructionView)
  deliver_provider_instruction pi = do
    touch_provider_delivered pi
    pure (view_from_provider_instruction pi ∷ [])

  unfoldable pub deliver_to_provider :
      String → List ProviderInstruction → M W (List InstructionView)
  deliver_to_provider caller [] = pure []
  deliver_to_provider caller (pi ∷ pis) = do
    first ←
        (if is_open_for caller pi.spec.target_cluster_id pi.status.enforced
          then deliver_provider_instruction pi
          else pure [])
    rest ← deliver_to_provider caller pis
    pure (first ++ rest)

  unfoldable pub deliver_to_consumer :
      String → List ReservationInstruction → M W (List InstructionView)
  deliver_to_consumer caller [] = pure []
  deliver_to_consumer caller (ri ∷ ris) = do
    first ←
        (if is_open_for caller ri.spec.target_cluster_id ri.status.enforced
          then deliver_reservation_instruction ri
          else pure [])
    rest ← deliver_to_consumer caller ris
    pure (first ++ rest)

  unfoldable pub collect_instructions_for_caller : String → M W (List InstructionView)
  collect_instructions_for_caller caller = do
    pis ← Core.list_provider_instructions c
    provider_views ← deliver_to_provider caller pis
    ris ← Core.list_reservation_instructions c
    consumer_views ← deliver_to_consumer caller ris
    pure (provider_views ++ consumer_views)
