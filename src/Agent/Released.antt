-- ===== src/Agent/Released.antt =====
-- The handlers Unpeer and Cleanup of the consumer's agent as a whole.
use federation_autoscaler.Base.{Bool, true, false, ◌∷◌, ◌≡◌, refl, ◌⊎◌, arith, if◌then◌else◌}
use federation_autoscaler.Kube.Core.{M, Run, other, throw}
use federation_autoscaler.Kube.Bind.{Post}
use federation_autoscaler.Agent.Calls.{Cluster, Work, Texts}
use federation_autoscaler.Agent.Polling.{Handled}
use federation_autoscaler.Agent.Files.{open_files}
use federation_autoscaler.Agent.Liqo.{
  delete_virtual_node_state, delete_resource_slice, tenant_namespace_for, delete_staging_secret,
  staging_secret_name,
}
use federation_autoscaler.Agent.Handlers.{HandlerConfig, is_refused, clear, handle_consumer_cleanup}
use federation_autoscaler.Agent.Teardown.{shared, secret_gone, torn, at_first, Ends, shared-clear}

module _ {W : Type 0} (c : Cluster W) (t : Texts) (cfg : HandlerConfig) (work : Work) where
  abbrev IsReleased : M W Handled → Type 0
  IsReleased m =
      (s : Run W)
      → ((work.view.last_chunk ≡ true) ⊎ (shared (m s).1.log ≡ shared s.log))
        × (open_files (m s).1.log ≡ open_files s.log)
        × Post (λ _. Ends c t cfg work (at_first work (torn s.log)) (torn (m s).1.log)) (m s).0

  torn-clear :
      (s : Run W)
      → Post
          (λ _.
            torn (clear c t cfg work s).1.log
            ≡ secret_gone (staging_secret_name work.view.reservation_id)
              ∷ at_first work (torn s.log))
          (clear c t cfg work s).0
  unfolding clear delete_virtual_node_state delete_resource_slice tenant_namespace_for
      delete_staging_secret
  torn-clear s = ground arith

  -- A Cleanup takes down what is the reservation's own where it reports success, and never what the
  -- chunks of a provider share, be it of the last chunk or not.
  pub handle_consumer_cleanup-shared :
      (s : Run W)
      → (shared (handle_consumer_cleanup c t cfg work s).1.log ≡ shared s.log)
        × Post
            (λ _.
              torn (handle_consumer_cleanup c t cfg work s).1.log
              ≡ secret_gone (staging_secret_name work.view.reservation_id)
                ∷ at_first work (torn s.log))
            (handle_consumer_cleanup c t cfg work s).0
  unfolding handle_consumer_cleanup
  handle_consumer_cleanup-shared s = by_refusal (is_refused cfg "Cleanup" work)
    where
      by_refusal :
          (b : Bool)
          → (let m : M W Handled = if b then throw other else clear c t cfg work in
              (shared (m s).1.log ≡ shared s.log)
              × Post
                  (λ _.
                    torn (m s).1.log
                    ≡ secret_gone (staging_secret_name work.view.reservation_id)
                      ∷ at_first work (torn s.log))
                  (m s).0)
      by_refusal true = (refl, tt)
      by_refusal false = (shared-clear c t cfg work s, torn-clear s)
