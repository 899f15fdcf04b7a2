-- ===== src/Base/Lists.antt =====
-- Lists: predicates by recursion, and tests by recursion that run in a test.
use Prim.Native.Nat.{ℕ, suc}
use mathlib.Core.Bool.{Bool, false, ◌||◌}
use mathlib.Core.List.{List, [], ◌∷◌, map}
use mathlib.Core.Path.{◌≡◌, refl, ap₂}

module _ {ℓ} {A : Type ℓ} where
  abbrev pub length : List A → ℕ
  length [] = 0
  length (x ∷ xs) = suc (length xs)

  -- Every element satisfies the predicate.
  abbrev pub All {κ} : (A → Type κ) → List A → Type κ
  All P [] = Unit
  All P (x ∷ xs) = P x × All P xs

  abbrev pub any : (A → Bool) → List A → Bool
  any p [] = false
  any p (x ∷ xs) = p x || any p xs

  -- The lists have the same length, and corresponding elements are related.
  abbrev pub All₂ : (A → A → Type 0) → List A → List A → Type 0
  All₂ R [] [] = Unit
  All₂ R (x ∷ xs) (y ∷ ys) = R x y × All₂ R xs ys
  All₂ R _ _ = ⊥

  pub All-imp {κ} : {P Q : A → Type κ} (xs : List A) → ((x : A) → P x → Q x) → All P xs → All Q xs
  All-imp [] h k = tt
  All-imp (x ∷ xs) h (k, ks) = (h x k, All-imp xs h ks)

  pub map_same_on : (g h : A → A) (xs : List A) → All (λ x. g x ≡ h x) xs → map g xs ≡ map h xs
  map_same_on g h [] k = refl
  map_same_on g h (x ∷ xs) (k, ks) = ap₂ ◌∷◌ k (map_same_on g h xs ks)

  pub map_fixed : (g : A → A) (xs : List A) → All (λ x. g x ≡ x) xs → map g xs ≡ xs
  map_fixed g [] k = refl
  map_fixed g (x ∷ xs) (k, ks) = ap₂ ◌∷◌ k (map_fixed g xs ks)

  pub All-both {κ} :
      {P Q R : A → Type κ} (xs : List A)
      → ((x : A) → P x → Q x → R x)
      → All P xs
      → All Q xs
      → All R xs
  All-both [] h p q = tt
  All-both (x ∷ xs) h (p, ps) (q, qs) = (h x p q, All-both xs h ps qs)
