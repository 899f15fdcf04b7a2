-- ===== src/Agent/Polling.antt =====
-- internal/agent/poller: the registry of handlers, and one round of the poll loop.
use federation_autoscaler.Base.{
  String, true, false, Option, none, some, List, [], ◌∷◌, str_eq, if◌then◌else◌,
}
use federation_autoscaler.Api.{ProviderInstructionKind, ReservationInstructionKind}
use federation_autoscaler.Kube.Core.{Result, ok, err, M, pure, attempt, ◌>>=◌, ◌>>◌}
use federation_autoscaler.Broker.Delivery.{InstructionKind, for_provider, for_consumer}
use federation_autoscaler.Agent.Types.{
  ResultRequest, reported, reported_failure, invalid_request, internal_error,
}
use federation_autoscaler.Agent.Calls
use federation_autoscaler.Agent.Calls.{Work, Cluster}

-- The kind as it stands on the wire: two of each role's share their names.
unfoldable pub kind_text : InstructionKind → String
kind_text (for_provider ProviderInstructionKind.generate_kubeconfig) = "GenerateKubeconfig"
kind_text (for_provider ProviderInstructionKind.cleanup) = "Cleanup"
kind_text (for_provider ProviderInstructionKind.reconcile) = "Reconcile"
kind_text (for_consumer ReservationInstructionKind.peer) = "Peer"
kind_text (for_consumer ReservationInstructionKind.unpeer) = "Unpeer"
kind_text (for_consumer ReservationInstructionKind.cleanup) = "Cleanup"
kind_text (for_consumer ReservationInstructionKind.reconcile) = "Reconcile"

-- What a handler returns beside an error, or that it panicked. No result stands for a bare success.
pub data Handled : Type 0 where
  returned : Option ResultRequest → Handled
  panicked : Handled

abbrev pub HandlerFunc : Type 0 → Type 0
HandlerFunc W = Work → M W Handled

abbrev pub Registry : Type 0 → Type 0
Registry W = List (String × HandlerFunc W)

-- An error and a panic are reported alike.
unfoldable pub result_of : Result Handled → ResultRequest
result_of (err e) = reported_failure internal_error
result_of (ok panicked) = reported_failure internal_error
result_of (ok (returned none)) = reported none
result_of (ok (returned (some result))) = result

module _ {W : Type 0} where
  unfoldable pub register : String → HandlerFunc W → Registry W → Registry W
  register kind h [] = (kind, h) ∷ []
  register kind h ((key, old) ∷ reg) =
      let rest = register kind h reg in
      if str_eq key kind then (key, h) ∷ reg else (key, old) ∷ rest

  unfoldable pub lookup_handler : String → Registry W → Option (HandlerFunc W)
  lookup_handler kind [] = none
  lookup_handler kind ((key, h) ∷ reg) =
      let rest = lookup_handler kind reg in if str_eq key kind then some h else rest

  module _ (c : Cluster W) where
    -- A failure to post is not retried.
    unfoldable pub post_result : String → ResultRequest → M W (Unit {0})
    post_result id result = do attempt (Calls.post_instruction_result c id result); pure tt

    abbrev pub handled_by : Option (HandlerFunc W) → Work → M W (Unit {0})
    handled_by none work = post_result work.view.id (reported_failure invalid_request)
    handled_by (some h) work = do got ← attempt (h work); post_result work.view.id (result_of got)

    unfoldable pub dispatch_instruction : Registry W → Work → M W (Unit {0})
    dispatch_instruction reg work = do
      Calls.notify_handler_active c true
      handled_by (lookup_handler (kind_text work.view.kind) reg) work
      Calls.notify_handler_active c false

    -- The context is looked at before each instruction.
    unfoldable pub dispatch_all : Registry W → List Work → M W (Unit {0})
    dispatch_all reg [] = pure tt
    dispatch_all reg (work ∷ works) = do
      stop ← Calls.cancelled c
      if stop then pure tt else (do dispatch_instruction reg work; dispatch_all reg works)

    abbrev pub polled_works : Registry W → Result (List Work) → M W (Unit {0})
    polled_works reg (err e) = pure tt
    polled_works reg (ok works) = dispatch_all reg works

    unfoldable pub tick : Registry W → M W (Unit {0})
    tick reg = do got ← attempt (Calls.get_instructions c); polled_works reg got
