-- ===== src/Placement/Narrowing.antt =====
-- The loops over the chunk types only take away what can be grown.
use federation_autoscaler.Base.{
  String, Bool, true, false, ◌≡◌, refl, ◌⊎◌, inl, inr, List, [], ◌∷◌, map, All₂, if◌then◌else◌, ap,
  ◌∙◌,
}
use federation_autoscaler.Placement.Masking.{
  Row, Verdict, leave, hold, grow, has_index, mask, masked_by, is_of_type, mask_type, narrow_type,
  narrow_all,
}

module _ {F : Type 0} where
  -- Unchanged, or left with no head-room.
  abbrev pub IsNarrowed : Row F → Row F → Type 0
  IsNarrowed old new = (new ≡ old) ⊎ (new ≡ mask old)

  masked_by-IsNarrowed : (v : Verdict) (row : Row F) → IsNarrowed row (masked_by v row)
  unfolding masked_by
  masked_by-IsNarrowed leave row = inl refl
  masked_by-IsNarrowed hold row = inr refl
  masked_by-IsNarrowed (grow is) row = kept_or_masked (has_index is row.index)
    where
      kept_or_masked : (b : Bool) → IsNarrowed row (if b then row else mask row)
      kept_or_masked true = inl refl
      kept_or_masked false = inr refl

  mask_type-IsNarrowed :
      (t : String) (v : Verdict) (row : Row F) → IsNarrowed row (mask_type t v row)
  mask_type-IsNarrowed t v row = masked_or_kept (is_of_type t row)
    where
      masked_or_kept : (b : Bool) → IsNarrowed row (if b then masked_by v row else row)
      masked_or_kept true = masked_by-IsNarrowed v row
      masked_or_kept false = inl refl

  IsNarrowed-trans : (a b c : Row F) → IsNarrowed a b → IsNarrowed b c → IsNarrowed a c
  unfolding mask
  IsNarrowed-trans a b c (inl e) (inl f) = inl (f ∙ e)
  IsNarrowed-trans a b c (inl e) (inr f) = inr (f ∙ ap mask e)
  IsNarrowed-trans a b c (inr e) (inl f) = inr (f ∙ e)
  IsNarrowed-trans a b c (inr e) (inr f) = inr (f ∙ ap mask e)

  map-IsNarrowed :
      (g : Row F → Row F) (base rows : List (Row F))
      → ((row : Row F) → IsNarrowed row (g row))
      → All₂ IsNarrowed base rows
      → All₂ IsNarrowed base (map g rows)
  map-IsNarrowed g [] [] h k = tt
  map-IsNarrowed g [] (y ∷ ys) h k = absurd k
  map-IsNarrowed g (x ∷ xs) [] h k = absurd k
  map-IsNarrowed g (x ∷ xs) (y ∷ ys) h (k, ks) =
      (IsNarrowed-trans x y (g y) k (h y), map-IsNarrowed g xs ys h ks)

  narrow_all_from :
      (decide : List (Row F) → Verdict) (ts : List String) (base rows : List (Row F))
      → All₂ IsNarrowed base rows
      → All₂ IsNarrowed base (narrow_all decide ts rows)
  unfolding narrow_all narrow_type
  narrow_all_from decide [] base rows k = k
  narrow_all_from decide (t ∷ ts) base rows k =
      narrow_all_from decide ts base (narrow_type decide t rows)
        (map-IsNarrowed _ base rows (mask_type-IsNarrowed t _) k)

  same-IsNarrowed : (rows : List (Row F)) → All₂ IsNarrowed rows rows
  same-IsNarrowed [] = tt
  same-IsNarrowed (x ∷ xs) = (inl refl, same-IsNarrowed xs)

  -- Whatever is decided for each chunk type, every provider stays listed, in its place, and its
  -- view is unchanged or has the number of its reserved chunks as its maximum.
  pub narrow_all-IsNarrowed :
      (decide : List (Row F) → Verdict) (ts : List String) (rows : List (Row F))
      → All₂ IsNarrowed rows (narrow_all decide ts rows)
  narrow_all-IsNarrowed decide ts rows = narrow_all_from decide ts rows rows (same-IsNarrowed rows)
