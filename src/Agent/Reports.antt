-- ===== src/Agent/Reports.antt =====
-- What a round of the poll loop reports.
use federation_autoscaler.Base.{
  String, Bool, true, false, Option, none, some, List, [], ◌∷◌, ◌≡◌, refl, ap, sym, subst, str_eq,
  if◌then◌else◌,
}
use federation_autoscaler.Kube.Core.{M, Run, Event, Result, ok, err, accepted, agent, pure, ◌>>◌}
use federation_autoscaler.Kube.Keeps.{Keeps}
use federation_autoscaler.Kube.Bind.{bind_ok}
use federation_autoscaler.Agent.Types.{
  ResultRequest, reported_failure, invalid_request, posted_result, handler_active, polled,
}
use federation_autoscaler.Agent.Calls
use federation_autoscaler.Agent.Calls.{Cluster, Work}
use federation_autoscaler.Agent.Polling.{
  HandlerFunc, Registry, kind_text, lookup_handler, result_of, post_result, handled_by,
  dispatch_instruction, dispatch_all, polled_works, tick,
}

-- The results that were sent to the Broker, newest first.
abbrev pub posted : List Event → List (String × ResultRequest)
posted [] = []
posted (agent (posted_result b id result) ∷ log) = (id, result) ∷ posted log
posted (_ ∷ log) = posted log

module _ {W : Type 0} where
  -- No handler sends a result itself.
  abbrev pub IsQuiet : Registry W → Type 0
  IsQuiet [] = Unit
  IsQuiet ((kind, h) ∷ reg) = ((work : Work) → Keeps posted (h work)) × IsQuiet reg

  abbrev pub IsQuietOption : Option (HandlerFunc W) → Type 0
  IsQuietOption none = Unit
  IsQuietOption (some h) = (work : Work) → Keeps posted (h work)

  lookup_handler-IsQuiet :
      (kind : String) (reg : Registry W) → IsQuiet reg → IsQuietOption (lookup_handler kind reg)
  unfolding lookup_handler
  lookup_handler-IsQuiet kind [] q = tt
  lookup_handler-IsQuiet kind ((key, h) ∷ reg) (q, qs) =
      by_test (str_eq key kind) (lookup_handler-IsQuiet kind reg qs)
    where
      by_test :
          (b : Bool)
          → IsQuietOption (lookup_handler kind reg)
          → IsQuietOption (if b then some h else lookup_handler kind reg)
      by_test true rest = q
      by_test false rest = rest

  -- The result is what the outcome of the handler makes, run where just the results before were sent,
  -- or a failure where there is no handler.
  abbrev pub IsAnswer :
      Option (HandlerFunc W) → Work → List (String × ResultRequest) → ResultRequest → Type 0
  IsAnswer none work before result = result ≡ reported_failure invalid_request
  IsAnswer (some h) work before result =
      (u : Run W) × (posted u.log ≡ before) × (result ≡ result_of (h work u).0)

  abbrev pub Served :
      Registry W
      → List Work
      → List (String × ResultRequest)
      → List (String × ResultRequest)
      → Type 0
  Served reg [] before after = after ≡ before
  Served reg (work ∷ works) before after =
      (result : ResultRequest) × IsAnswer (lookup_handler (kind_text work.view.kind) reg) work
        before result
      × Served reg works ((work.view.id, result) ∷ before) after

  abbrev pub Polls :
      Registry W
      → Result (List Work)
      → List (String × ResultRequest)
      → List (String × ResultRequest)
      → Type 0
  Polls reg (err e) before after = after ≡ before
  Polls reg (ok works) before after = Served reg works before after

  module _ (c : Cluster W) where
    -- Between its notices, whoever handles it.
    abbrev bracketed : Option (HandlerFunc W) → Work → M W (Unit {0})
    bracketed h work = do
      Calls.notify_handler_active c true
      handled_by c h work
      Calls.notify_handler_active c false

    -- One instruction, one result.
    bracketed-posted :
        (h : Option (HandlerFunc W)) (work : Work) (s : Run W)
        → IsQuietOption h
        → (result : ResultRequest) × IsAnswer h work (posted s.log) result
          × (posted (bracketed h work s).1.log ≡ (work.view.id, result) ∷ posted s.log)
          × ((bracketed h work s).0 ≡ ok tt)
    unfolding post_result
    bracketed-posted none work s q = (reported_failure invalid_request, refl, refl, refl)
    bracketed-posted (some h) work s q =
        let u : Run W = record s { log = agent (handler_active true) ∷ s.log } in
        (
          result_of (h work u).0,
          (u, refl, refl),
          ap (λ rest. (work.view.id, result_of (h work u).0) ∷ rest) (q work u),
          refl,
        )

    module _ (reg : Registry W) (q : IsQuiet reg)
        (goes_on : (w : W) → (c.cancelled w).0 ≡ false) where
      dispatch_all-Served :
          (works : List Work) (s : Run W)
          → Served reg works (posted s.log) (posted (dispatch_all c reg works s).1.log)
      unfolding dispatch_all dispatch_instruction
      dispatch_all-Served [] s = refl
      dispatch_all-Served (work ∷ works) s =
          by_stop (c.cancelled s.world).0 (goes_on s.world) (dispatch_all-Served works)
        where
          u : Run W
          u = record s { world = (c.cancelled s.world).1 }

          h : Option (HandlerFunc W)
          h = lookup_handler (kind_text work.view.kind) reg

          by_stop :
              (stop : Bool)
              → stop ≡ false
              → ((v : Run W)
                  → Served reg works (posted v.log) (posted (dispatch_all c reg works v).1.log))
              → (let m : M W (Unit {0}) =
                    if stop
                    then pure tt
                    else (dispatch_instruction c reg work >> dispatch_all c reg works) in
                  Served reg (work ∷ works) (posted s.log) (posted (m u).1.log))
          by_stop true e rest = absurd (cc)
          by_stop false e rest =
              let (result, answer, sent, done) =
                bracketed-posted h work u
                  (lookup_handler-IsQuiet (kind_text work.view.kind) reg q) in
              let v = (bracketed h work u).1 in
              (
                result,
                answer,
                subst
                    (λ log. Served reg works log (
                      posted
                        ((dispatch_instruction c reg work >> dispatch_all c reg works) u).1.log))
                    sent
                    (subst (λ run. Served reg works (posted v.log) (posted run.1.log))
                      (sym (
                        bind_ok (λ _. dispatch_all c reg works) (dispatch_instruction c reg work) u
                          tt done))
                      (rest v)),
              )

      -- Where the handlers send nothing themselves and the agent is not told to stop, a round of the
      -- poll loop sends exactly one result for each instruction that the Broker delivers, in their
      -- order: what the handler made of it, an error or a panic included, or a failure where no
      -- handler is registered. Where nothing is delivered nothing is sent.
      pub tick-Polls :
          (s : Run W)
          → Polls reg (c.get_instructions s.world).0 (posted s.log) (posted (tick c reg s).1.log)
      unfolding tick
      tick-Polls s = by_answer (c.get_instructions s.world)
        where
          by_answer :
              (got : Result (List Work) × W)
              → (let u : Run W = record {
                world = got.1;
                log = agent (polled (accepted got.0)) ∷ s.log;
              } in
                  Polls reg got.0 (posted s.log) (posted (polled_works c reg got.0 u).1.log))
          by_answer (err e, w) = refl
          by_answer (ok works, w) =
              dispatch_all-Served works (record { world = w; log = agent (polled true) ∷ s.log })
