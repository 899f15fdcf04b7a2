-- ===== src/Broker/Staging.antt =====
-- internal/broker/api/instructions.go: a provider's kubeconfig is stored before it is announced.
use federation_autoscaler.Base.{String, true, ◌≡◌, Option, none, some, List, [], ◌∷◌, arith}
use federation_autoscaler.Api.{
  ReservationPhase, kubeconfig_ready, generating_kubeconfig, failed, ProviderInstruction,
}
use federation_autoscaler.Kube.Core.{
  Client, Run, Event, ok, created_secret, wrote_secret, wrote_reservation_status,
}
use federation_autoscaler.Controller.Names.{kubeconfig_secret_name}
use federation_autoscaler.Broker.Results.{
  Outcome, advance_from, stage_secret, attach_kubeconfig_to_peer, stage_kubeconfig,
  persist_kubeconfig_payload, mark_provider_enforced, provider_before, provider_after,
  apply_provider_result,
}

-- The Secret of this name was stored.
abbrev pub HasStaged : String → List Event → Type 0
HasStaged k [] = ⊥
HasStaged k (created_secret true j ∷ log) = j ≡ k
HasStaged k (wrote_secret true j ∷ log) = j ≡ k
HasStaged k (_ ∷ log) = HasStaged k log

-- Each status with the phase KubeconfigReady is sent after the Secret was stored.
abbrev pub StagedFirst : String → List Event → Type 0
StagedFirst k [] = Unit
StagedFirst k (wrote_reservation_status b r ∷ log) =
    (r.status.phase ≡ kubeconfig_ready → HasStaged k log) × StagedFirst k log
StagedFirst k (_ ∷ log) = StagedFirst k log

module _ {W : Type 0} (c : Client W) (k : String) where
  stage_secret-HasStaged :
      (value : String) (s : Run W)
      → (stage_secret c k value s).0 ≡ ok tt
      → HasStaged k (stage_secret c k value s).1.log
  unfolding stage_secret
  stage_secret-HasStaged value s h = ground arith

  stage_secret-StagedFirst :
      (value : String) (s : Run W)
      → StagedFirst k s.log
      → StagedFirst k (stage_secret c k value s).1.log
  unfolding stage_secret
  stage_secret-StagedFirst value s h = ground arith

  attach-HasStaged :
      (id name : String) (s : Run W)
      → HasStaged k s.log
      → HasStaged k (attach_kubeconfig_to_peer c id name s).1.log
  unfolding attach_kubeconfig_to_peer
  attach-HasStaged id name s h = ground arith

  attach-StagedFirst :
      (id name : String) (s : Run W)
      → StagedFirst k s.log
      → StagedFirst k (attach_kubeconfig_to_peer c id name s).1.log
  unfolding attach_kubeconfig_to_peer
  attach-StagedFirst id name s h = ground arith

  advance-StagedFirst :
      (from : Option ReservationPhase) (id : String) (to : ReservationPhase) (s : Run W)
      → (to ≡ kubeconfig_ready → HasStaged k s.log)
      → StagedFirst k s.log
      → StagedFirst k (advance_from c from id to s).1.log
  unfolding advance_from
  advance-StagedFirst from id to s staged h = ground (arith, staged)

  mark-StagedFirst :
      (pi : ProviderInstruction) (s : Run W)
      → StagedFirst k s.log
      → StagedFirst k (mark_provider_enforced c pi s).1.log
  unfolding mark_provider_enforced
  mark-StagedFirst pi s h = ground arith

-- The name under which the kubeconfig of an instruction is stored.
abbrev pub secret_of : ProviderInstruction → String
secret_of pi = kubeconfig_secret_name pi.spec.consumer_cluster_id pi.spec.target_cluster_id

module _ {W : Type 0} (c : Client W) (pi : ProviderInstruction) where
  stage_kubeconfig-StagedFirst :
      (value : String) (s : Run W)
      → StagedFirst (secret_of pi) s.log
      → StagedFirst (secret_of pi) (stage_kubeconfig c pi value s).1.log
  unfolding stage_kubeconfig
  stage_kubeconfig-StagedFirst value s h =
      let k = secret_of pi in
      let id = pi.spec.reservation_id in
      let t = (stage_secret c k value s).1 in
      let ht = stage_secret-StagedFirst c k value s h in
      let u = (attach_kubeconfig_to_peer c id k t).1 in
      let hu = attach-StagedFirst c k id k t ht in
      ground (
        arith,
        stage_secret-HasStaged c k value s,
        attach-HasStaged c k id k t,
        advance-StagedFirst c k (some generating_kubeconfig) id kubeconfig_ready u,
      )

  before-StagedFirst :
      (outcome : Outcome) (s : Run W)
      → StagedFirst (secret_of pi) s.log
      → StagedFirst (secret_of pi) (provider_before c pi.spec.kind pi outcome s).1.log
  unfolding provider_before persist_kubeconfig_payload
  before-StagedFirst outcome s h = grind (arith, stage_kubeconfig-StagedFirst)

  after-StagedFirst :
      (outcome : Outcome) (s : Run W)
      → StagedFirst (secret_of pi) s.log
      → StagedFirst (secret_of pi) (provider_after c pi.spec.kind pi outcome s).1.log
  unfolding provider_after
  after-StagedFirst outcome s h =
      ground (arith, advance-StagedFirst c (secret_of pi) none pi.spec.reservation_id failed s)

  -- Whatever the server answers, every status with the phase KubeconfigReady that a provider's result
  -- sends comes after the Secret of the pair was stored.
  -- The log before is assumed to have this property.
  pub apply_provider_result-StagedFirst :
      (outcome : Outcome) (caller : String) (s : Run W)
      → StagedFirst (secret_of pi) s.log
      → StagedFirst (secret_of pi) (apply_provider_result c pi outcome caller s).1.log
  unfolding apply_provider_result
  apply_provider_result-StagedFirst outcome caller s h =
      let t = (provider_before c pi.spec.kind pi outcome s).1 in
      let ht = before-StagedFirst outcome s h in
      let u = (mark_provider_enforced c pi t).1 in
      let hu = mark-StagedFirst c (secret_of pi) pi t ht in
      ground (arith, after-StagedFirst outcome u)
