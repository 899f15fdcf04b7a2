-- ===== src/Kube/Bind.antt =====
-- The rule of a sequence of actions: what the first leaves true, and a fact about what it returns.
use federation_autoscaler.Base.{◌≡◌, ap, refl}
use federation_autoscaler.Kube.Core.{M, Run, Result, ok, err, ◌>>=◌}

-- A fact about the value of an action that succeeded.
abbrev pub Post : {A : Type 0} → (A → Type 0) → Result A → Type 0
Post Q (ok a) = Q a
Post Q (err e) = Unit

module _ {W A B : Type 0} (I : Run W → Type 0) (Q : A → Type 0) (f : A → M W B) where
  continue_keeps :
      (r : Result A) (t : Run W)
      → Post Q r
      → I t
      → ((a : A) (u : Run W) → Q a → I u → I (f a u).1)
      → I (let out : Result B × Run W = elim r [ ok a ↦ f a t | err e ↦ (err e, t) ] in out.1)
  continue_keeps (ok a) t q i next = next a t q i
  continue_keeps (err e) t q i next = i

  pub bind_keeps :
      (m : M W A) (s : Run W)
      → Post Q (m s).0
      → I (m s).1
      → ((a : A) (u : Run W) → Q a → I u → I (f a u).1)
      → I ((m >>= f) s).1
  bind_keeps m s q i next = continue_keeps (m s).0 (m s).1 q i next

-- The same with no fact about the value.
module _ {W A B : Type 0} (I : Run W → Type 0) (f : A → M W B) where
  any_result : (r : Result A) → Post (λ _. Unit) r
  any_result (ok a) = tt
  any_result (err e) = tt

  pub then_keeps :
      (m : M W A) (s : Run W)
      → I (m s).1
      → ((a : A) (u : Run W) → I u → I (f a u).1)
      → I ((m >>= f) s).1
  then_keeps m s i next =
      bind_keeps I (λ _. Unit) f m s (any_result (m s).0) i (λ a u _ j. next a u j)

-- The same with a fact about the state in which the first action succeeds.
module _ {W A B : Type 0} (I J : Run W → Type 0) (f : A → M W B) where
  continue_after :
      (r : Result A) (t : Run W)
      → Post (λ _. J t) r
      → I t
      → ((a : A) (u : Run W) → J u → I u → I (f a u).1)
      → I (let out : Result B × Run W = elim r [ ok a ↦ f a t | err e ↦ (err e, t) ] in out.1)
  continue_after (ok a) t j i next = next a t j i
  continue_after (err e) t j i next = i

  pub then_after :
      (m : M W A) (s : Run W)
      → Post (λ _. J (m s).1) (m s).0
      → I (m s).1
      → ((a : A) (u : Run W) → J u → I u → I (f a u).1)
      → I ((m >>= f) s).1
  then_after m s j i next = continue_after (m s).0 (m s).1 j i next

-- A fact about the value of a sequence.
module _ {W A B : Type 0} (Q : A → Type 0) (R : B → Type 0) (f : A → M W B) where
  continue_returns :
      (r : Result A) (t : Run W)
      → Post Q r
      → ((a : A) (u : Run W) → Q a → Post R (f a u).0)
      → Post R (let out : Result B × Run W = elim r [ ok a ↦ f a t | err e ↦ (err e, t) ] in out.0)
  continue_returns (ok a) t q next = next a t q
  continue_returns (err e) t q next = tt

  pub bind_returns :
      (m : M W A) (s : Run W)
      → Post Q (m s).0
      → ((a : A) (u : Run W) → Q a → Post R (f a u).0)
      → Post R ((m >>= f) s).0
  bind_returns m s q next = continue_returns (m s).0 (m s).1 q next

-- The same with where the first action has led.
module _ {W A B : Type 0} (R : B → Type 0) (f : A → M W B) where
  returns_at :
      (m : M W A) (s : Run W) (r : Result A)
      → (m s).0 ≡ r
      → ((a : A) → (m s).0 ≡ ok a → Post R (f a (m s).1).0)
      → Post R (
          let out : Result B × Run W = elim r [ ok a ↦ f a (m s).1 | err e ↦ (err e, (m s).1) ] in
          out.0)
  returns_at m s (ok a) e next = next a e
  returns_at m s (err x) e next = tt

  pub bind_returns_at :
      (m : M W A) (s : Run W)
      → ((a : A) → (m s).0 ≡ ok a → Post R (f a (m s).1).0)
      → Post R ((m >>= f) s).0
  bind_returns_at m s next = returns_at m s (m s).0 refl next

pub Post-any : {A : Type 0} (r : Result A) → Post (λ _. Unit) r
Post-any (ok a) = tt
Post-any (err e) = tt

pub Post-imp :
    {A : Type 0} (P Q : A → Type 0) → ((a : A) → P a → Q a) → (r : Result A) → Post P r → Post Q r
Post-imp P Q h (ok a) p = h a p
Post-imp P Q h (err e) p = tt

-- What holds of the run once a sequence has succeeded.
module _ {W A B : Type 0} (P J : Run W → Type 0) (f : A → M W B) where
  continue_ends :
      (r : Result A) (t : Run W)
      → Post (λ _. J t) r
      → ((a : A) (u : Run W) → J u → Post (λ _. P (f a u).1) (f a u).0)
      → (let out : Result B × Run W = elim r [ ok a ↦ f a t | err e ↦ (err e, t) ] in
          Post (λ _. P out.1) out.0)
  continue_ends (ok a) t j next = next a t j
  continue_ends (err e) t j next = tt

  pub then_ends :
      (m : M W A) (s : Run W)
      → Post (λ _. J (m s).1) (m s).0
      → ((a : A) (u : Run W) → J u → Post (λ _. P (f a u).1) (f a u).0)
      → Post (λ _. P ((m >>= f) s).1) ((m >>= f) s).0
  then_ends m s j next = continue_ends (m s).0 (m s).1 j next

-- An action after which the log holds something, whatever its result.
pub Post-always : {A : Type 0} {P : Type 0} (r : Result A) → P → Post (λ _. P) r
Post-always (ok a) p = p
Post-always (err e) p = tt

-- What holds of the run after a success, and after an error.
abbrev pub Outcome :
    {W A : Type 0} → (Run W → Type 0) → (Run W → Type 0) → Result A → Run W → Type 0
Outcome P C (ok a) u = P u
Outcome P C (err e) u = C u

pub Outcome-imp :
    {W A : Type 0} (P C P' C' : Run W → Type 0) (r : Result A) (u : Run W)
    → (P u → P' u)
    → (C u → C' u)
    → Outcome P C r u
    → Outcome P' C' r u
Outcome-imp P C P' C' (ok a) u h k o = h o
Outcome-imp P C P' C' (err e) u h k o = k o

module _ {W A B : Type 0} (P C J : Run W → Type 0) (f : A → M W B) where
  continue_outcome :
      (r : Result A) (t : Run W)
      → Outcome J C r t
      → ((a : A) (u : Run W) → J u → Outcome P C (f a u).0 (f a u).1)
      → (let out : Result B × Run W = elim r [ ok a ↦ f a t | err e ↦ (err e, t) ] in
          Outcome P C out.0 out.1)
  continue_outcome (ok a) t j next = next a t j
  continue_outcome (err e) t j next = j

  pub then_outcome :
      (m : M W A) (s : Run W)
      → Outcome J C (m s).0 (m s).1
      → ((a : A) (u : Run W) → J u → Outcome P C (f a u).0 (f a u).1)
      → Outcome P C ((m >>= f) s).0 ((m >>= f) s).1
  then_outcome m s j next = continue_outcome (m s).0 (m s).1 j next

-- A sequence whose first action succeeds goes on.
module _ {W A B : Type 0} (f : A → M W B) where
  continue_ok :
      (r : Result A) (t : Run W) (a : A)
      → r ≡ ok a
      → (let out : Result B × Run W = elim r [ ok a' ↦ f a' t | err e ↦ (err e, t) ] in out) ≡ f a t
  continue_ok (ok b) t a e = let same : b ≡ a = cc in ap (λ x. f x t) same
  continue_ok (err b) t a e = absurd (cc)

  pub bind_ok : (m : M W A) (s : Run W) (a : A) → (m s).0 ≡ ok a → (m >>= f) s ≡ f a (m s).1
  bind_ok m s a e = continue_ok (m s).0 (m s).1 a e
