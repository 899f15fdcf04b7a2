-- ===== src/Kube/Keeps.antt =====
-- A part of the log that an action leaves as it was.
use federation_autoscaler.Base.{Bool, true, false, List, ◌≡◌, ◌∙◌, if◌then◌else◌}
use federation_autoscaler.Kube.Core.{M, Run, Event, ◌>>=◌}
use federation_autoscaler.Kube.Bind.{then_keeps}

module _ {W : Type 0} {X : Type 0} (part : List Event → X) where
  abbrev pub Keeps : {A : Type 0} → M W A → Type 0
  Keeps m = (s : Run W) → part (m s).1.log ≡ part s.log

  pub then-Keeps :
      {A B : Type 0} (m : M W A) (f : A → M W B)
      → Keeps m
      → ((a : A) → Keeps (f a))
      → Keeps (m >>= f)
  then-Keeps m f h k s = then_keeps (λ u. part u.log ≡ part s.log) f m s (h s) (λ a u i. k a u ∙ i)

  pub if-Keeps :
      {A : Type 0} (b : Bool) (m n : M W A) → Keeps m → Keeps n → Keeps (if b then m else n)
  if-Keeps true m n h k = h
  if-Keeps false m n h k = k
