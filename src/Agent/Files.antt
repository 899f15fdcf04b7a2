-- ===== src/Agent/Files.antt =====
-- The temporary files of the consumer's agent, each with a kubeconfig in it.
use federation_autoscaler.Base.{
  String, List, [], ◌∷◌, ◌≡◌, refl, ap, ◌∙◌, str_eq, eq_refl, if◌then◌else◌,
}
use federation_autoscaler.Kube.Core.{Event, Run, Result, ok, err, M, agent, ◌>>=◌}
use federation_autoscaler.Kube.Bind.{Post, Outcome}
use federation_autoscaler.Agent.Types.{staged_file, removed_file}
use federation_autoscaler.Agent.Calls
use federation_autoscaler.Agent.Calls.{Cluster, staged_as}
use federation_autoscaler.Agent.Liqo.{with_file, lift}

abbrev pub closed : String → List String → List String
closed path [] = []
closed path (last ∷ paths) = if str_eq path last then paths else last ∷ closed path paths

-- The files that were written and not removed yet.
abbrev pub open_files : List Event → List String
open_files [] = []
open_files (agent (staged_file path) ∷ log) = path ∷ open_files log
open_files (agent (removed_file path) ∷ log) = closed path (open_files log)
open_files (_ ∷ log) = open_files log

module _ {W A : Type 0} (c : Cluster W) where
  pub with_file-log :
      (path : String) (m : M W A) (s : Run W)
      → (with_file c path m s).1.log ≡ agent (removed_file path) ∷ (m s).1.log
  with_file-log path m s = by_result (m s).0
    where
      by_result :
          (got : Result A)
          → (lift got (record {
            world = c.remove_file path (m s).1.world;
            log = agent (removed_file path) ∷ (m s).1.log;
          })).1.log
            ≡ agent (removed_file path) ∷ (m s).1.log
      by_result (ok a) = refl
      by_result (err e) = refl

  -- A file that is written for an action that leaves the files alone is removed after it.
  pub open_files-with_file :
      (id kubeconfig : String) (f : String → M W A) (s : Run W)
      → ((path : String) (u : Run W) → open_files (f path u).1.log ≡ open_files u.log)
      → open_files
          ((Calls.write_file c id kubeconfig >>= (λ path. with_file c path (f path))) s).1.log
        ≡ open_files s.log
  open_files-with_file id kubeconfig f s h = by_answer (c.write_file id kubeconfig s.world)
    where
      by_answer :
          (got : Result String × W)
          → (let out : Result A × Run W = elim (staged_as got s).0 [
            | ok path ↦ with_file c path (f path) (staged_as got s).1
            | err e ↦ (err e, (staged_as got s).1)
          ] in
              open_files out.1.log ≡ open_files s.log)
      by_answer (err e, w) = refl
      by_answer (ok path, w) =
          let u : Run W = record { world = w; log = agent (staged_file path) ∷ s.log } in
          ap open_files (with_file-log path (f path) u)
          ∙ ap (closed path) (h path u)
          ∙ ap (λ b. if b then open_files s.log else path ∷ closed path (open_files s.log))
              (eq_refl path)

  -- What holds of the log once the action has succeeded, where removing the file leaves it true.
  Post-with_file :
      (P : List Event → Type 0) (path : String) (m : M W A) (s : Run W)
      → Post (λ _. P (agent (removed_file path) ∷ (m s).1.log)) (m s).0
      → Post (λ _. P (with_file c path m s).1.log) (with_file c path m s).0
  Post-with_file P path m s h = by_result (m s).0 h
    where
      by_result :
          (got : Result A)
          → Post (λ _. P (agent (removed_file path) ∷ (m s).1.log)) got
          → (let u : Run W = record {
            world = c.remove_file path (m s).1.world;
            log = agent (removed_file path) ∷ (m s).1.log;
          } in
              Post (λ _. P (lift got u).1.log) (lift got u).0)
      by_result (ok a) h = h
      by_result (err e) h = tt

  pub Post-staged :
      (P : List Event → Type 0) (id kubeconfig : String) (f : String → M W A) (s : Run W)
      → ((path : String) (u : Run W)
          → u.log ≡ agent (staged_file path) ∷ s.log
          → Post (λ _. P (agent (removed_file path) ∷ (f path u).1.log)) (f path u).0)
      → (let m : M W A = Calls.write_file c id kubeconfig >>= (λ path. with_file c path (f path)) in
          Post (λ _. P (m s).1.log) (m s).0)
  Post-staged P id kubeconfig f s h = by_answer (c.write_file id kubeconfig s.world)
    where
      by_answer :
          (got : Result String × W)
          → (let out : Result A × Run W = elim (staged_as got s).0 [
            | ok path ↦ with_file c path (f path) (staged_as got s).1
            | err e ↦ (err e, (staged_as got s).1)
          ] in
              Post (λ _. P out.1.log) out.0)
      by_answer (err e, w) = tt
      by_answer (ok path, w) =
          let u : Run W = record { world = w; log = agent (staged_file path) ∷ s.log } in
          Post-with_file P path (f path) u (h path u refl)

  -- Where a success and an error leave something that does not look at files.
  pub Outcome-staged :
      (P C : List Event → Type 0) (id kubeconfig : String) (f : String → M W A) (s : Run W)
      → C s.log
      → ((path : String) (u : Run W)
          → u.log ≡ agent (staged_file path) ∷ s.log
          → Outcome
              (λ v. P (agent (removed_file path) ∷ v.log))
              (λ v. C (agent (removed_file path) ∷ v.log))
              (f path u).0
              (f path u).1)
      → (let m : M W A = Calls.write_file c id kubeconfig >>= (λ path. with_file c path (f path)) in
          Outcome (λ v. P v.log) (λ v. C v.log) (m s).0 (m s).1)
  Outcome-staged P C id kubeconfig f s i h = by_answer (c.write_file id kubeconfig s.world)
    where
      by_result :
          (path : String) (got : Result A) (w : W) (log : List Event)
          → Outcome {W = W}
              (λ v. P (agent (removed_file path) ∷ v.log))
              (λ v. C (agent (removed_file path) ∷ v.log))
              got
              (record { world = w; log = log })
          → (let u : Run W = record {
            world = c.remove_file path w;
            log = agent (removed_file path) ∷ log;
          } in
              Outcome (λ v. P v.log) (λ v. C v.log) (lift got u).0 (lift got u).1)
      by_result path (ok a) w log k = k
      by_result path (err e) w log k = k

      by_answer :
          (got : Result String × W)
          → (let out : Result A × Run W = elim (staged_as got s).0 [
            | ok path ↦ with_file c path (f path) (staged_as got s).1
            | err e ↦ (err e, (staged_as got s).1)
          ] in
              Outcome (λ v. P v.log) (λ v. C v.log) out.0 out.1)
      by_answer (err e, w) = i
      by_answer (ok path, w) =
          let u : Run W = record { world = w; log = agent (staged_file path) ∷ s.log } in
          by_result path (f path u).0 (f path u).1.world (f path u).1.log (h path u refl)
