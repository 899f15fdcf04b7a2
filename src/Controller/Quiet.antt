-- ===== src/Controller/Quiet.antt =====
-- The helpers that emit instructions write no Reservation, no advertisement and delete no Secret.
use federation_autoscaler.Base.{Bool, ◌≡◌, arith}
use federation_autoscaler.Api.{Reservation, ProviderInstruction, ReservationInstruction}
use federation_autoscaler.Kube.Core.{Client, Run}
use federation_autoscaler.Kube.Loud.{loud}
use federation_autoscaler.Controller.Emit.{
  any_other_sibling, has_other_active_reservation, has_other_holding_reservation,
  ensure_instruction, ensure_shared_reservation_instruction, ensure_shared_provider_instruction,
  emit_consumer_cleanup, ensure_provider_cleanup_instruction, kubeconfig_secret_exists,
}

module _ {W : Type 0} (c : Client W) (resv : Reservation) (s : Run W) where
  pub loud-has_other_active : loud (has_other_active_reservation c resv s).1.log ≡ loud s.log
  unfolding has_other_active_reservation any_other_sibling
  loud-has_other_active = ground arith

  pub loud-has_other_holding : loud (has_other_holding_reservation c resv s).1.log ≡ loud s.log
  unfolding has_other_holding_reservation any_other_sibling
  loud-has_other_holding = ground arith

  pub loud-ensure_instruction :
      (ri : ReservationInstruction) → loud (ensure_instruction c resv ri s).1.log ≡ loud s.log
  unfolding ensure_instruction
  loud-ensure_instruction ri = ground arith

  pub loud-kubeconfig_secret_exists : loud (kubeconfig_secret_exists c resv s).1.log ≡ loud s.log
  unfolding kubeconfig_secret_exists
  loud-kubeconfig_secret_exists = ground arith

module _ {W : Type 0} (c : Client W) where
  pub loud-ensure_shared_reservation_instruction :
      (ri : ReservationInstruction) (s : Run W)
      → loud (ensure_shared_reservation_instruction c ri s).1.log ≡ loud s.log
  unfolding ensure_shared_reservation_instruction
  loud-ensure_shared_reservation_instruction ri s = ground arith

  pub loud-ensure_shared_provider_instruction :
      (pi : ProviderInstruction) (s : Run W)
      → loud (ensure_shared_provider_instruction c pi s).1.log ≡ loud s.log
  unfolding ensure_shared_provider_instruction
  loud-ensure_shared_provider_instruction pi s = ground arith

  pub loud-emit_consumer_cleanup :
      (resv : Reservation) (owned : Bool) (s : Run W)
      → loud (emit_consumer_cleanup c resv owned s).1.log ≡ loud s.log
  unfolding emit_consumer_cleanup has_other_holding_reservation any_other_sibling ensure_instruction
      ensure_shared_reservation_instruction
  loud-emit_consumer_cleanup resv owned s = ground arith

  pub loud-ensure_provider_cleanup_instruction :
      (resv : Reservation) (s : Run W)
      → loud (ensure_provider_cleanup_instruction c resv s).1.log ≡ loud s.log
  unfolding ensure_provider_cleanup_instruction
  loud-ensure_provider_cleanup_instruction resv s = loud-ensure_shared_provider_instruction _ s
