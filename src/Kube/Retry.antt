-- ===== src/Kube/Retry.antt =====
-- The shape of every conflict loop of the source, `for attempt := 0; attempt < 3; attempt++`:
-- `continue` on Conflict, return on anything else, and an error after the last attempt.
use federation_autoscaler.Base.{ℕ, zero, suc, List, Option, none, some, arith}
use federation_autoscaler.Kube.Core.{
  M, Run, Event, Result, ok, err, conflict, exhausted, pure, throw, attempt, ◌>>=◌,
}

module _ {W A : Type 0} where
  -- `none` asks for another attempt.
  unfoldable pub retry : ℕ → M W (Option A) → M W A
  retry zero once = throw exhausted
  retry (suc left) once = do
    outcome ← once
    elim outcome [ some a ↦ pure a | none ↦ retry left once ]

  abbrev retry_on_conflict : Result A → M W (Option A)
  retry_on_conflict (ok a) = pure (some a)
  retry_on_conflict (err conflict) = pure none
  retry_on_conflict (err refused) = throw refused

  abbrev pub unless_conflict : M W A → M W (Option A)
  unless_conflict m = do written ← attempt m; retry_on_conflict written

  -- What one attempt preserves of the log, the loop preserves.
  pub retry_preserves :
      (P : List Event → Type 0) (once : M W (Option A))
      → ((s : Run W) → P s.log → P (once s).1.log)
      → (left : ℕ) (s : Run W) → P s.log
      → P (retry left once s).1.log
  unfolding retry
  retry_preserves P once keep zero s h = h
  retry_preserves P once keep (suc left) s h =
      let h' = keep s h in ground (arith, retry_preserves P once keep left (once s).1 h')
