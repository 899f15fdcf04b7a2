-- ===== src/Placement/Types.antt =====
-- The loop over the chunk types decides each type once, from its own providers.
use federation_autoscaler.Base.{
  String, Bool, true, false, ◌≡◌, refl, sym, ap, ◌∙◌, List, [], ◌∷◌, map, map_same_on, map_fixed,
  All, All-imp, any, arith, str_eq, if◌then◌else◌, ◌||◌, eq_iff, eq_refl, subst, Bool-cases, inl,
  inr,
}
use federation_autoscaler.Placement.Masking.{
  Row, Verdict, leave, hold, grow, has_index, mask, masked_by, is_of_type, of_type, types_of,
  mask_type, narrow_type, narrow_all,
}

-- The strings of a list are pairwise different, as `==` sees them.
abbrev member : String → List String → Bool
member t ts = any (λ u. str_eq t u) ts

-- No type comes twice.
abbrev IsDistinct : List String → Type 0
IsDistinct [] = Unit
IsDistinct (t ∷ ts) = (member t ts ≡ false) × IsDistinct ts

module _ {F : Type 0} where
  masked_by-type :
      (v : Verdict) (row : Row F) → (masked_by v row).view.chunk_type ≡ row.view.chunk_type
  unfolding masked_by mask
  masked_by-type leave row = refl
  masked_by-type hold row = refl
  masked_by-type (grow is) row = kept_or_masked (has_index is row.index)
    where
      kept_or_masked :
          (b : Bool) → (if b then row else mask row).view.chunk_type ≡ row.view.chunk_type
      kept_or_masked true = refl
      kept_or_masked false = refl

  mask_type-type :
      (t : String) (v : Verdict) (row : Row F)
      → (mask_type t v row).view.chunk_type ≡ row.view.chunk_type
  mask_type-type t v row = masked_or_kept (is_of_type t row)
    where
      masked_or_kept :
          (b : Bool) → (if b then masked_by v row else row).view.chunk_type ≡ row.view.chunk_type
      masked_or_kept true = masked_by-type v row
      masked_or_kept false = refl

  -- A function that keeps the type of every provider commutes with the selection of a type.
  of_type-map :
      (t : String) (g : Row F → Row F) (rows : List (Row F))
      → ((row : Row F) → (g row).view.chunk_type ≡ row.view.chunk_type)
      → of_type t (map g rows) ≡ map g (of_type t rows)
  unfolding of_type
  of_type-map t g [] h = refl
  of_type-map t g (row ∷ rows) h =
      ap (λ u. if str_eq u t then g row ∷ of_type t (map g rows) else of_type t (map g rows))
        (h row)
      ∙ both (is_of_type t row) (of_type-map t g rows h)
    where
      both :
          (b : Bool)
          → of_type t (map g rows) ≡ map g (of_type t rows)
          → (if b then g row ∷ of_type t (map g rows) else of_type t (map g rows))
            ≡ map g (if b then row ∷ of_type t rows else of_type t rows)
      both true e = ap (λ xs. g row ∷ xs) e
      both false e = e

  of_type-All :
      (t : String) (rows : List (Row F)) → All (λ row. is_of_type t row ≡ true) (of_type t rows)
  unfolding of_type
  of_type-All t [] = tt
  of_type-All t (row ∷ rows) = both (is_of_type t row) refl (of_type-All t rows)
    where
      both :
          (b : Bool)
          → is_of_type t row ≡ b
          → All (λ x. is_of_type t x ≡ true) (of_type t rows)
          → All (λ x. is_of_type t x ≡ true) (if b then row ∷ of_type t rows else of_type t rows)
      both true e k = (e, k)
      both false e k = k

  -- A round changes the providers of its own type by the verdict on them.
  round-own :
      (decide : List (Row F) → Verdict) (t : String) (rows : List (Row F))
      → of_type t (narrow_type decide t rows)
        ≡ map (masked_by (decide (of_type t rows))) (of_type t rows)
  unfolding narrow_type
  round-own decide t rows =
      let v = decide (of_type t rows) in
      of_type-map t (mask_type t v) rows (mask_type-type t v)
      ∙ map_same_on (mask_type t v) (masked_by v) (of_type t rows) (
          All-imp (of_type t rows) (λ row e. ap (λ b. if b then masked_by v row else row) e)
            (of_type-All t rows))

  two_types :
      (t u : String) (row : Row F)
      → str_eq t u ≡ false
      → is_of_type t row ≡ true
      → is_of_type u row ≡ false
  two_types t u row h e =
      subst (λ x. str_eq x u ≡ false) (sym ((eq_iff row.view.chunk_type t).0 e)) h

  -- A round changes no provider of another type.
  round-other :
      (decide : List (Row F) → Verdict) (t u : String) (rows : List (Row F))
      → str_eq t u ≡ false
      → of_type t (narrow_type decide u rows) ≡ of_type t rows
  unfolding narrow_type
  round-other decide t u rows h =
      let v = decide (of_type u rows) in
      of_type-map t (mask_type u v) rows (mask_type-type u v)
      ∙ map_fixed (mask_type u v) (of_type t rows) (
          All-imp (of_type t rows)
            (λ row e. ap (λ b. if b then masked_by v row else row) (two_types t u row h e))
            (of_type-All t rows))

  rounds-other :
      (decide : List (Row F) → Verdict) (t : String) (ts : List String) (rows : List (Row F))
      → member t ts ≡ false
      → of_type t (narrow_all decide ts rows) ≡ of_type t rows
  unfolding narrow_all
  rounds-other decide t [] rows h = refl
  rounds-other decide t (u ∷ ts) rows h =
      rounds-other decide t ts (narrow_type decide u rows) (ground arith)
      ∙ round-other decide t u rows (ground arith)

  abbrev decided : (List (Row F) → Verdict) → String → List (Row F) → List (Row F)
  decided decide t xs = map (masked_by (decide (of_type t xs))) (of_type t xs)

  rounds-own :
      (decide : List (Row F) → Verdict) (t : String) (ts : List String) (rows : List (Row F))
      → IsDistinct ts
      → member t ts ≡ true
      → of_type t (narrow_all decide ts rows)
        ≡ map (masked_by (decide (of_type t rows))) (of_type t rows)
  unfolding narrow_all
  rounds-own decide t [] rows d m = ground arith
  rounds-own decide t (u ∷ ts) rows (d, ds) m =
      here_or_later (str_eq t u) refl (λ k. rounds-own decide t ts (narrow_type decide u rows) ds k)
    where
      here :
          t ≡ u
          → of_type t (narrow_all decide ts (narrow_type decide u rows)) ≡ decided decide t rows
      here e =
          rounds-other decide t ts (narrow_type decide u rows)
            (subst (λ x. member x ts ≡ false) (sym e) d)
          ∙ (ap (λ x. of_type t (narrow_type decide x rows)) (sym e) ∙ round-own decide t rows)

      later :
          str_eq t u ≡ false
          → of_type t (narrow_all decide ts (narrow_type decide u rows))
            ≡ decided decide t (narrow_type decide u rows)
          → of_type t (narrow_all decide ts (narrow_type decide u rows)) ≡ decided decide t rows
      later e k = k ∙ ap (λ xs. map (masked_by (decide xs)) xs) (round-other decide t u rows e)

      here_or_later :
          (b : Bool)
          → str_eq t u ≡ b
          → (member t ts ≡ true
              → of_type t (narrow_all decide ts (narrow_type decide u rows))
                ≡ decided decide t (narrow_type decide u rows))
          → of_type t (narrow_all decide ts (narrow_type decide u rows)) ≡ decided decide t rows
      here_or_later true e k = here ((eq_iff t u).0 e)
      here_or_later false e k = later e (k (subst (λ b. b || member t ts ≡ true) e m))

  types_of-IsDistinct : (rows : List (Row F)) → IsDistinct (types_of rows)
  unfolding types_of
  types_of-IsDistinct [] = tt
  types_of-IsDistinct (row ∷ rows) =
      new_or_old (member row.view.chunk_type (types_of rows)) refl (types_of-IsDistinct rows)
    where
      new_or_old :
          (b : Bool)
          → member row.view.chunk_type (types_of rows) ≡ b
          → IsDistinct (types_of rows)
          → IsDistinct (if b then types_of rows else row.view.chunk_type ∷ types_of rows)
      new_or_old true e d = d
      new_or_old false e d = (e, d)

  -- A type that is no key has no provider.
  missing-type :
      (t : String) (rows : List (Row F)) → member t (types_of rows) ≡ false → of_type t rows ≡ []
  unfolding types_of of_type
  missing-type t [] h = refl
  missing-type t (row ∷ rows) h =
      own_or_other (str_eq row.view.chunk_type t) refl
        (missing-type t rows (keys_grow (member rt (types_of rows)) h))
    where
      rt : String
      rt = row.view.chunk_type

      keys_grow :
          (b : Bool)
          → member t (if b then types_of rows else rt ∷ types_of rows) ≡ false
          → member t (types_of rows) ≡ false
      keys_grow true k = k
      keys_grow false k = ground arith

      key_is_there :
          (b : Bool)
          → member rt (types_of rows) ≡ b
          → member rt (if b then types_of rows else rt ∷ types_of rows) ≡ true
      key_is_there true e = e
      key_is_there false e = ap (λ b. b || member rt (types_of rows)) (eq_refl rt)

      own_or_other :
          (b : Bool)
          → str_eq rt t ≡ b
          → of_type t rows ≡ []
          → (if b then row ∷ of_type t rows else of_type t rows) ≡ []
      own_or_other true e k =
          let there = key_is_there (member rt (types_of rows)) refl in
          let gone =
            subst
              (λ x.
                member x (if member rt (types_of rows) then types_of rows else rt ∷ types_of rows)
                ≡ false)
              (sym ((eq_iff rt t).0 e)) h in
          ground arith
      own_or_other false e k = k

  -- Selecting a chunk type after the loop gives what its verdict, taken on its own providers alone,
  -- makes of them: no type is decided twice or by the providers of another.
  pub narrow_all-by_type :
      (decide : List (Row F) → Verdict) (t : String) (rows : List (Row F))
      → of_type t (narrow_all decide (types_of rows) rows)
        ≡ map (masked_by (decide (of_type t rows))) (of_type t rows)
  narrow_all-by_type decide t rows = elim (Bool-cases (member t (types_of rows))) [
    | inl e ↦ rounds-own decide t (types_of rows) rows (types_of-IsDistinct rows) e
    | inr e ↦
        let none = missing-type t rows e in
        rounds-other decide t (types_of rows) rows e
        ∙ (none ∙ sym (ap (map (masked_by (decide (of_type t rows)))) none))
  ]
