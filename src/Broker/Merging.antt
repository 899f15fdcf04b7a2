-- ===== src/Broker/Merging.antt =====
-- internal/broker/api/instructions.go: mergeStrings on the names of virtual nodes.
use federation_autoscaler.Base.{
  String, true, false, ◌||◌, ◌≡◌, refl, List, [], ◌∷◌, ◌++◌, arith, ◌⊎◌, inl, inr, eq_iff,
}
use federation_autoscaler.Broker.Results.{has_string, add_new, merge_strings}

-- No string occurs twice.
abbrev pub NoDup : List String → Type 0
NoDup [] = Unit
NoDup (x ∷ xs) = (has_string x xs ≡ false) × NoDup xs

-- What comes out of the loop, with what was out before it, is what goes in.
add_new-has :
    (y : String) (seen xs : List String)
    → (has_string y seen || has_string y (add_new seen xs)) ≡ (has_string y seen || has_string y xs)
unfolding has_string add_new
add_new-has y seen [] = refl
add_new-has y seen (x ∷ xs) =
    ground (arith, add_new-has y seen xs, add_new-has y (x ∷ seen) xs, eq_iff x y)

add_new_fresh :
    (y : String) (seen xs : List String)
    → has_string y seen ≡ true
    → has_string y (add_new seen xs) ≡ false
unfolding has_string add_new
add_new_fresh y seen [] h = refl
add_new_fresh y seen (x ∷ xs) h =
    ground (arith, add_new_fresh y seen xs, add_new_fresh y (x ∷ seen) xs, eq_iff x y)

add_new-NoDup : (seen xs : List String) → NoDup (add_new seen xs)
unfolding add_new has_string
add_new-NoDup seen [] = tt
add_new-NoDup seen (x ∷ xs) = ground (
  arith,
  add_new-NoDup seen xs,
  add_new-NoDup (x ∷ seen) xs,
  add_new_fresh x (x ∷ seen) xs,
  eq_iff x x,
)

has_string-append :
    (y : String) (xs ys : List String)
    → has_string y (xs ++ ys) ≡ (has_string y xs || has_string y ys)
unfolding has_string
has_string-append y [] ys = refl
has_string-append y (x ∷ xs) ys = ground (arith, has_string-append y xs ys)

-- The merged list has exactly the strings of the two lists, and where the new list has any, none of
-- them occurs twice.
pub merge_strings_lem :
    (existing fresh : List String)
    → ((y : String)
        → has_string y (merge_strings existing fresh)
          ≡ (has_string y existing || has_string y fresh))
      × ((fresh ≡ []) ⊎ NoDup (merge_strings existing fresh))
unfolding merge_strings has_string
merge_strings_lem existing [] = ((λ y. ground arith), inl refl)
merge_strings_lem existing (x ∷ xs) = (
  (λ y.
      ground
        (arith, add_new-has y [] (existing ++ (x ∷ xs)), has_string-append y existing (x ∷ xs))),
  inr (add_new-NoDup [] (existing ++ (x ∷ xs))),
)
