-- ===== src/Controller/Emit.antt =====
-- The helpers of the reconciler: which siblings count, how instructions are created, advancePhase.
use federation_autoscaler.Base.{
  String, Bool, true, false, not, ◌&&◌, none, some, str_eq, any, if◌then◌else◌,
}
use federation_autoscaler.Base.Int.{pos}
use federation_autoscaler.Api.{
  ReservationPhase, unpeering, phase_eq, Reservation, ProviderInstruction, ProviderInstructionKind,
  ReservationInstruction, ReservationInstructionKind, InstructionStatus,
}
use federation_autoscaler.Kube.Core
use federation_autoscaler.Kube.Core.{
  Client, M, Result, ok, err, ApiError, not_found, already_exists, pure, throw, attempt, ◌>>=◌,
  ◌>>◌,
}
use federation_autoscaler.Controller.Config.{is_reservation_terminal}
use federation_autoscaler.Controller.Names.{
  kubeconfig_secret_name, reservation_instruction_cleanup_name, provider_instruction_cleanup_name,
}

-- The status of an instruction that has just been created.
abbrev pub fresh_status : InstructionStatus
fresh_status = record {
  observed_generation = 0;
  enforced = false;
  issued_at = none;
  last_delivered_at = none;
  last_update_time = none;
  attempts = pos 0;
}

-- The body of the loop of anyOtherSibling.
unfoldable pub is_sibling : (ReservationPhase → Bool) → Reservation → Reservation → Bool
is_sibling counts resv other =
    not (str_eq other.metadata.name resv.metadata.name)
    && (str_eq other.spec.consumer_cluster_id resv.spec.consumer_cluster_id
        && (str_eq other.spec.provider_cluster_id resv.spec.provider_cluster_id
            && (not other.metadata.deleting && counts other.status.phase)))

unfoldable pub is_active : ReservationPhase → Bool
is_active p = not (is_reservation_terminal p)

unfoldable pub is_holding : ReservationPhase → Bool
is_holding p = not (is_reservation_terminal p) && not (phase_eq p unpeering)

-- The consumer-side instruction of a Reservation.
unfoldable pub consumer_instruction :
    Reservation → String → ReservationInstructionKind → Bool → ReservationInstruction
consumer_instruction resv name kind last_chunk = record {
  name = name;
  generation = 0;
  owner = none;
  spec = record {
    reservation_id = resv.metadata.name;
    kind = kind;
    target_cluster_id = resv.spec.consumer_cluster_id;
    provider_cluster_id = resv.spec.provider_cluster_id;
    provider_liqo_cluster_id = resv.spec.provider_liqo_cluster_id;
    chunk_count = resv.spec.chunk_count;
    last_chunk = last_chunk;
    kubeconfig_ref = "";
    expires_at = none;
  };
  status = fresh_status;
}

-- The provider-side instruction of a Reservation.
unfoldable pub provider_instruction :
    Reservation → String → ProviderInstructionKind → ProviderInstruction
provider_instruction resv name kind = record {
  name = name;
  generation = 0;
  spec = record {
    reservation_id = resv.metadata.name;
    kind = kind;
    target_cluster_id = resv.spec.provider_cluster_id;
    consumer_cluster_id = resv.spec.consumer_cluster_id;
    consumer_liqo_cluster_id = resv.spec.consumer_liqo_cluster_id;
    chunk_count = resv.spec.chunk_count;
    last_chunk = false;
    expires_at = none;
  };
  status = fresh_status;
}

abbrev pub tolerate_existing : {W A : Type 0} → Result A → M W (Unit {0})
tolerate_existing (ok _) = pure tt
tolerate_existing (err already_exists) = pure tt
tolerate_existing (err refused) = throw refused

abbrev secret_found : {W : Type 0} → Result String → M W Bool
secret_found (ok _) = pure true
secret_found (err not_found) = pure false
secret_found (err refused) = throw refused

abbrev tolerate_missing : {W : Type 0} → Result (Unit {0}) → M W (Unit {0})
tolerate_missing (ok _) = pure tt
tolerate_missing (err not_found) = pure tt
tolerate_missing (err refused) = throw refused

module _ {W : Type 0} (c : Client W) where
  unfoldable pub any_other_sibling : Reservation → (ReservationPhase → Bool) → M W Bool
  any_other_sibling resv counts = do
    items ← Core.list_reservations c
    pure (any (is_sibling counts resv) items)

  unfoldable pub has_other_active_reservation : Reservation → M W Bool
  has_other_active_reservation resv = any_other_sibling resv is_active

  unfoldable pub has_other_holding_reservation : Reservation → M W Bool
  has_other_holding_reservation resv = any_other_sibling resv is_holding

  -- An instruction that is owned by the Reservation.
  unfoldable pub ensure_instruction : Reservation → ReservationInstruction → M W (Unit {0})
  ensure_instruction resv ri = do
    owned ← Core.set_controller_reference c resv ri
    created ← attempt (Core.create_reservation_instruction c owned)
    tolerate_existing created

  -- ensureSharedInstruction of a ReservationInstruction.
  unfoldable pub ensure_shared_reservation_instruction : ReservationInstruction → M W (Unit {0})
  ensure_shared_reservation_instruction ri = do
    created ← attempt (Core.create_reservation_instruction c ri)
    tolerate_existing created

  rearm : ProviderInstruction → ProviderInstruction → M W (Unit {0})
  rearm pi existing = do
    updated ← Core.update_provider_instruction c (record existing { spec = pi.spec })
    now ← Core.now c
    Core.update_provider_instruction_status c (record updated {
      status = record updated.status {
        enforced = false;
        attempts = pos 0;
        issued_at = some now;
        last_update_time = some now;
        last_delivered_at = none;
      };
    })
    pure tt

  -- ensureSharedInstruction of a ProviderInstruction: one that was enforced in an earlier cycle is
  -- armed again.
  unfoldable pub ensure_shared_provider_instruction : ProviderInstruction → M W (Unit {0})
  unfolding rearm
  ensure_shared_provider_instruction pi = do
    created ← attempt (Core.create_provider_instruction c pi)
    elim created [
      | ok _ ↦ pure tt
      | err e ↦ elim e [
        | already_exists ↦ (do
          existing ← Core.get_provider_instruction c pi.name
          if existing.status.enforced then rearm pi existing else pure tt)
        | refused ↦ throw refused
      ]
    ]

  unfoldable pub ensure_provider_cleanup_instruction : Reservation → M W (Unit {0})
  ensure_provider_cleanup_instruction resv = ensure_shared_provider_instruction (
      provider_instruction resv
        (provider_instruction_cleanup_name resv.spec.consumer_cluster_id
          resv.spec.provider_cluster_id)
        ProviderInstructionKind.cleanup)

  unfoldable pub emit_consumer_cleanup : Reservation → Bool → M W (Unit {0})
  emit_consumer_cleanup resv owned = do
    last ← has_other_holding_reservation resv
    let ri =
        consumer_instruction resv (reservation_instruction_cleanup_name resv.metadata.name)
          ReservationInstructionKind.cleanup (not last)
    if owned then ensure_instruction resv ri else ensure_shared_reservation_instruction ri

  unfoldable pub kubeconfig_secret_exists : Reservation → M W Bool
  kubeconfig_secret_exists resv = do
    got ← attempt (
        Core.get_secret c
          (kubeconfig_secret_name resv.spec.consumer_cluster_id resv.spec.provider_cluster_id))
    secret_found got

  unfoldable pub delete_kubeconfig_secret : Reservation → M W (Unit {0})
  delete_kubeconfig_secret resv = do
    gone ← attempt (
        Core.delete_secret c
          (kubeconfig_secret_name resv.spec.consumer_cluster_id resv.spec.provider_cluster_id))
    tolerate_missing gone

  -- The Reservation is not changed in place.
  unfoldable pub advance_phase : Reservation → ReservationPhase → M W (Unit {0})
  advance_phase resv next = if phase_eq resv.status.phase next then pure tt else (do
    Core.update_reservation_status c (record resv {
      status = record resv.status { phase = next; observed_generation = resv.metadata.generation };
    })
    pure tt)
