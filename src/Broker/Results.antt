-- ===== src/Broker/Results.antt =====
-- internal/broker/api/instructions.go: what an agent's result changes.
use federation_autoscaler.Base.{
  String, Bool, true, false, not, ◌&&◌, Option, none, some, List, [], ◌∷◌, ◌++◌, str_eq, any,
  if◌then◌else◌,
}
use federation_autoscaler.Base.Int.{pos, add32}
use federation_autoscaler.Api.{
  ReservationPhase, generating_kubeconfig, kubeconfig_ready, peered, unpeering, released, failed,
  phase_eq, ProviderInstruction, ProviderInstructionKind, ReservationInstruction,
  ReservationInstructionKind, InstructionStatus, Time,
}
use federation_autoscaler.Kube.Core
use federation_autoscaler.Kube.Core.{
  Client, M, Result, ok, err, not_found, phase_mismatch, empty_kubeconfig, pure, throw, attempt,
  ◌>>=◌, ◌>>◌,
}
use federation_autoscaler.Controller.Names.{kubeconfig_secret_name}
use federation_autoscaler.Broker.Server.{Answer, rejected, taken}

-- The payload of a success, with the fields that the handler reads.
pub record Payload : Type 0 where
  pub kubeconfig : String
  pub virtual_node_names : List String

-- InstructionResultRequest after validateInstructionResult: a failure has a message.
pub data Outcome : Type 0 where
  succeeded : Option Payload → Outcome
  failure : String → Outcome

unfoldable pub has_string : String → List String → Bool
has_string x xs = any (λ y. str_eq y x) xs

-- The loop of mergeStrings: `seen` are the strings that are out already.
unfoldable pub add_new : List String → List String → List String
unfolding has_string
add_new seen [] = []
add_new seen (x ∷ xs) = elim (has_string x seen) [
  | true ↦ add_new seen xs
  | false ↦ x ∷ add_new (x ∷ seen) xs
]

unfoldable pub merge_strings : List String → List String → List String
merge_strings existing [] = existing
merge_strings existing (x ∷ xs) = add_new [] (existing ++ (x ∷ xs))

-- The bookkeeping of a result.
unfoldable pub enforced_at : Time → InstructionStatus → InstructionStatus
enforced_at now status = record status {
  enforced = true;
  attempts = add32 status.attempts (pos 1);
  last_update_time = some now;
}

abbrev is_peer : ReservationInstructionKind → Bool
is_peer ReservationInstructionKind.peer = true
is_peer _ = false

-- Which Peer instruction of a Reservation is found first.
unfoldable pub find_peer : String → List ReservationInstruction → Option ReservationInstruction
find_peer reservation_id [] = none
find_peer reservation_id (ri ∷ items) =
    if str_eq ri.spec.reservation_id reservation_id && is_peer ri.spec.kind
    then some ri
    else find_peer reservation_id items

module _ {W : Type 0} (c : Client W) where
  -- advanceReservationPhase from a given phase, or from any.
  unfoldable pub advance_from : Option ReservationPhase → String → ReservationPhase → M W (Unit {0})
  advance_from from reservation_id to = do
    resv ← Core.get_reservation c reservation_id
    let write : M W (Unit {0}) = do
      Core.update_reservation_status c (record resv { status = record resv.status { phase = to } })
      pure tt
    elim from [
      | none ↦ write
      | some p ↦ if phase_eq resv.status.phase p then write else throw phase_mismatch
    ]

  unfoldable pub stage_secret : String → String → M W (Unit {0})
  stage_secret name value = do
    got ← attempt (Core.get_secret c name)
    elim got [
      | ok _ ↦ Core.update_secret c name value
      | err e ↦ elim e [ not_found ↦ Core.create_secret c name value | refused ↦ throw refused ]
    ]

  unfoldable pub attach_kubeconfig_to_peer : String → String → M W (Unit {0})
  attach_kubeconfig_to_peer reservation_id secret = do
    items ← Core.list_reservation_instructions c
    elim (find_peer reservation_id items) [
      | none ↦ pure tt
      | some ri ↦ if str_eq ri.spec.kubeconfig_ref secret then pure tt else (do
        Core.update_reservation_instruction c
            (record ri { spec = record ri.spec { kubeconfig_ref = secret } })
        pure tt)
    ]

  -- Attaching the Secret and advancing the phase are best effort.
  unfoldable pub stage_kubeconfig : ProviderInstruction → String → M W (Unit {0})
  stage_kubeconfig pi kubeconfig = do
    let secret = kubeconfig_secret_name pi.spec.consumer_cluster_id pi.spec.target_cluster_id
    stage_secret secret kubeconfig
    attempt (attach_kubeconfig_to_peer pi.spec.reservation_id secret)
    attempt (advance_from (some generating_kubeconfig) pi.spec.reservation_id kubeconfig_ready)
    pure tt

  unfoldable pub persist_kubeconfig_payload : ProviderInstruction → Option Payload → M W (Unit {0})
  persist_kubeconfig_payload pi none = throw empty_kubeconfig
  persist_kubeconfig_payload pi (some payload) =
      if str_eq payload.kubeconfig ""
      then throw empty_kubeconfig
      else stage_kubeconfig pi payload.kubeconfig

  unfoldable pub mark_provider_enforced : ProviderInstruction → M W (Unit {0})
  mark_provider_enforced pi = do
    now ← Core.now c
    Core.update_provider_instruction_status c (record pi { status = enforced_at now pi.status })
    pure tt

  -- What a result of this kind does before the instruction is marked.
  unfoldable pub provider_before :
      ProviderInstructionKind → ProviderInstruction → Outcome → M W (Unit {0})
  provider_before ProviderInstructionKind.generate_kubeconfig pi (succeeded payload) =
      persist_kubeconfig_payload pi payload
  provider_before _ pi _ = pure tt

  -- And after it: a kubeconfig that could not be generated fails the Reservation.
  unfoldable pub provider_after :
      ProviderInstructionKind → ProviderInstruction → Outcome → M W (Unit {0})
  provider_after ProviderInstructionKind.generate_kubeconfig pi (failure message) =
      advance_from none pi.spec.reservation_id failed
  provider_after _ pi _ = pure tt

  -- applyProviderResult.
  unfoldable pub apply_provider_result : ProviderInstruction → Outcome → String → M W Answer
  apply_provider_result pi outcome caller =
      if not (str_eq pi.spec.target_cluster_id caller)
      then pure (rejected 403)
      else if pi.status.enforced
      then pure taken
      else (do
        applied ← attempt (do provider_before pi.spec.kind pi outcome; mark_provider_enforced pi)
        elim applied [
          | err _ ↦ pure (rejected 500)
          | ok _ ↦ (do attempt (provider_after pi.spec.kind pi outcome); pure taken)
        ])

  -- applyPeerPayload: the phase is written whatever it was.
  unfoldable pub apply_peer_payload : ReservationInstruction → Option Payload → M W (Unit {0})
  apply_peer_payload ri payload = do
    resv ← Core.get_reservation c ri.spec.reservation_id
    let names : List String = elim payload [
      | none ↦ resv.status.virtual_node_names
      | some p ↦ merge_strings resv.status.virtual_node_names p.virtual_node_names
    ]
    Core.update_reservation_status c
        (record resv { status = record resv.status { phase = peered; virtual_node_names = names } })
    pure tt

  unfoldable pub apply_unpeer_payload : ReservationInstruction → M W (Unit {0})
  apply_unpeer_payload ri = do
    attempt (advance_from (some unpeering) ri.spec.reservation_id released)
    pure tt

  unfoldable pub mark_reservation_enforced : ReservationInstruction → M W (Unit {0})
  mark_reservation_enforced ri = do
    now ← Core.now c
    Core.update_reservation_instruction_status c (record ri { status = enforced_at now ri.status })
    pure tt

  -- What a result does to the Reservation.
  unfoldable pub reservation_effect :
      ReservationInstructionKind → ReservationInstruction → Outcome → M W (Unit {0})
  reservation_effect ReservationInstructionKind.peer ri (succeeded payload) =
      apply_peer_payload ri payload
  reservation_effect ReservationInstructionKind.unpeer ri (succeeded payload) =
      apply_unpeer_payload ri
  reservation_effect _ ri (succeeded payload) = pure tt
  reservation_effect _ ri (failure message) = do
    attempt (advance_from none ri.spec.reservation_id failed)
    pure tt

  -- applyReservationResult.
  unfoldable pub apply_reservation_result : ReservationInstruction → Outcome → String → M W Answer
  apply_reservation_result ri outcome caller =
      if not (str_eq ri.spec.target_cluster_id caller)
      then pure (rejected 403)
      else if ri.status.enforced
      then pure taken
      else (do
        applied ←
            attempt (do reservation_effect ri.spec.kind ri outcome; mark_reservation_enforced ri)
        elim applied [ err _ ↦ pure (rejected 500) | ok _ ↦ pure taken ])

  -- The consumer side of handleInstructionResult.
  abbrev pub consumer_side : Result ReservationInstruction → Outcome → String → M W Answer
  consumer_side (ok ri) outcome caller = apply_reservation_result ri outcome caller
  consumer_side (err not_found) outcome caller = pure (rejected 404)
  consumer_side (err refused) outcome caller = pure (rejected 500)

  -- handleInstructionResult: the provider's instructions are looked up first.
  unfoldable pub handle_instruction_result : String → Outcome → String → M W Answer
  handle_instruction_result id outcome caller = if str_eq id "" then pure (rejected 400) else (do
    got ← attempt (Core.get_provider_instruction c id)
    elim got [
      | ok pi ↦ apply_provider_result pi outcome caller
      | err e ↦ elim e [
        | not_found ↦ (do
          got' ← attempt (Core.get_reservation_instruction c id)
          consumer_side got' outcome caller)
        | _ ↦ pure (rejected 500)
      ]
    ])
