-- ===== src/Placement/Best.antt =====
-- Which provider of a chunk type the policies that rank on a metric leave to be grown.
use federation_autoscaler.Base.{
  String, Bool, true, false, ◌≡◌, refl, List, [], ◌∷◌, map, All, All₂, All-imp, arith,
  if◌then◌else◌, ℕ, ◌≢◌, subst, sym,
}
use federation_autoscaler.Base.Int.{pos, ◌-ℤ◌, ◌≤ℤ◌, int32, sub32}
use federation_autoscaler.Consumer.Types.{Float64}
use federation_autoscaler.Placement.Masking.{
  Row, Verdict, leave, hold, grow, has_room, of_type, mask, masked_by, greedy, ranking,
  apply_metric_preference,
}
use federation_autoscaler.Placement.Sorting.{
  IsOrder, IsBefore, IsSorted, ranking-IsSorted, ranking-All, ranking-All_back,
}
use federation_autoscaler.Placement.Types.{narrow_all-by_type}
use mathlib.Core.List.{Mem, mem-cons_self, mem-cons_of_mem}

module _ {F : Type 0} (f : Float64 F) (in_flight : String → Bool) where
  abbrev pub HasRoom : Row F → Type 0
  HasRoom row = pos 1 ≤ℤ int32 (row.view.max_size -ℤ row.view.current_reserved)

  abbrev pub IsFull : Row F → Type 0
  IsFull row = int32 (row.view.max_size -ℤ row.view.current_reserved) ≤ℤ pos 0

  has_room-HasRoom : (row : Row F) → has_room row ≡ true → HasRoom row
  unfolding sub32
  has_room-HasRoom row e = ground arith

  has_room-IsFull : (row : Row F) → has_room row ≡ false → IsFull row
  unfolding sub32
  has_room-IsFull row e = ground arith

  -- Full, and no reservation of the consumer there is still being provisioned.
  abbrev pub IsExhausted : Row F → Type 0
  IsExhausted row = IsFull row × (in_flight row.view.provider_cluster_id ≡ false)

  -- Every row of the list with a metric that is strictly better is exhausted.
  abbrev pub IsNext : List (Row F) → Row F → Type 0
  IsNext rows row = All (λ x. f.lt x.metric row.metric ≡ true → IsExhausted x) rows

  -- What a verdict on the visited rows rests on.
  abbrev Rests : (Row F → Type 0) → Verdict → List (Row F) → Type 0
  Rests P leave rows = All IsExhausted rows
  Rests P hold rows =
      (row : Row F) × P row
      × IsFull row
      × (in_flight row.view.provider_cluster_id ≡ true)
      × IsNext rows row
  Rests P (grow is) rows =
      (row : Row F) × P row × HasRoom row × (is ≡ row.index ∷ []) × IsNext rows row

  Rests-cons :
      (P : Row F → Type 0) (v : Verdict) (x : Row F) (rows : List (Row F))
      → IsExhausted x
      → Rests P v rows
      → Rests P v (x ∷ rows)
  Rests-cons P leave x rows h k = (h, k)
  Rests-cons P hold x rows h (row, p, e, g, k) = (row, p, e, g, (λ _. h, k))
  Rests-cons P (grow is) x rows h (row, p, e, g, k) = (row, p, e, g, (λ _. h, k))

  clash : {A : Type 0} (b : Bool) → b ≡ true → b ≡ false → A
  clash true e g = ground arith
  clash false e g = ground arith

  first-IsNext :
      IsOrder f
      → (row : Row F) (rows : List (Row F)) → All (IsBefore f row) rows
      → IsNext (row ∷ rows) row
  first-IsNext o row rows k = (
    λ h. clash (f.lt row.metric row.metric) h (o.asym row.metric row.metric h),
    All-imp rows (λ x e h. clash (f.lt x.metric row.metric) h e) k,
  )

  greedy-Rests :
      IsOrder f
      → (P : Row F → Type 0) (rows : List (Row F)) → IsSorted f rows
      → All P rows
      → Rests P (greedy in_flight rows) rows
  unfolding greedy
  greedy-Rests o P [] s k = tt
  greedy-Rests o P (row ∷ rows) (b, s) (p, k) =
      first (has_room row) (in_flight row.view.provider_cluster_id) refl refl
        (greedy-Rests o P rows s k)
    where
      first :
          (x y : Bool)
          → has_room row ≡ x
          → in_flight row.view.provider_cluster_id ≡ y
          → Rests P (greedy in_flight rows) rows
          → Rests P
              (if x then grow (row.index ∷ []) else if y then hold else greedy in_flight rows)
              (row ∷ rows)
      first true y e g rest = (row, p, has_room-HasRoom row e, refl, first-IsNext o row rows b)
      first false true e g rest = (row, p, has_room-IsFull row e, g, first-IsNext o row rows b)
      first false false e g rest = Rests-cons P _ row rows (has_room-IsFull row e, g) rest

  All-members :
      (all rows : List (Row F))
      → ((row : Row F) → Mem row rows → Mem row all)
      → All (λ row. Mem row all) rows
  All-members all [] h = tt
  All-members all (row ∷ rows) h =
      (h row mem-cons_self, All-members all rows (λ x m. h x (mem-cons_of_mem row m)))

  -- A row of the list with a metric.
  abbrev pub IsRanked : List (Row F) → Row F → Type 0
  IsRanked rows row = Mem row rows × (row.has ≡ true)

  -- Every row of the list with a metric that is strictly better is exhausted.
  abbrev pub IsBestLeft : List (Row F) → Row F → Type 0
  IsBestLeft rows row =
      All (λ x. x.has ≡ true → f.lt x.metric row.metric ≡ true → IsExhausted x) rows

  -- What the verdict on the providers of a chunk type rests on: nothing is narrowed where all that
  -- have a metric are exhausted; all are held where the best that is not exhausted is full; it alone
  -- is left to grow where it has head-room.
  abbrev pub IsJustified : Verdict → List (Row F) → Type 0
  IsJustified leave rows = All (λ row. row.has ≡ true → IsExhausted row) rows
  IsJustified hold rows =
      (row : Row F) × IsRanked rows row
      × IsFull row
      × (in_flight row.view.provider_cluster_id ≡ true)
      × IsBestLeft rows row
  IsJustified (grow is) rows =
      (row : Row F) × IsRanked rows row × HasRoom row × (is ≡ row.index ∷ []) × IsBestLeft rows row

  -- Nothing is left of its head-room, and nothing else is changed.
  abbrev pub IsHeld : Row F → Row F → Type 0
  IsHeld old new =
      new ≡ record old { view = record old.view { max_size = old.view.current_reserved } }

  -- What a verdict makes of a row: with a row to grow, that one is as it was and each other is held.
  abbrev pub HasEffect : Verdict → Row F → Row F → Type 0
  HasEffect leave old new = new ≡ old
  HasEffect hold old new = IsHeld old new
  HasEffect (grow []) old new = ⊥
  HasEffect (grow (i ∷ is)) old new = (old.index ≡ i → new ≡ old) × (old.index ≢ i → IsHeld old new)

  one-HasEffect :
      (i : ℕ) (row : Row F) → HasEffect (grow (i ∷ [])) row (masked_by (grow (i ∷ [])) row)
  unfolding masked_by mask
  one-HasEffect i row = ground arith

  all-HasEffect :
      (v : Verdict)
      → ((row : Row F) → HasEffect v row (masked_by v row))
      → (rows : List (Row F)) → All₂ (HasEffect v) rows (map (masked_by v) rows)
  all-HasEffect v h [] = tt
  all-HasEffect v h (row ∷ rows) = (h row, all-HasEffect v h rows)

  masked-HasEffect :
      (v : Verdict) (own rows : List (Row F))
      → IsJustified v own
      → All₂ (HasEffect v) rows (map (masked_by v) rows)
  unfolding masked_by mask
  masked-HasEffect leave own rows j = all-HasEffect leave (λ row. refl) rows
  masked-HasEffect hold own rows j = all-HasEffect hold (λ row. refl) rows
  masked-HasEffect (grow is) own rows (row, p, e, q, k) =
      subst (λ js. All₂ (HasEffect (grow js)) rows (map (masked_by (grow js)) rows)) (sym q)
        (all-HasEffect (grow (row.index ∷ [])) (one-HasEffect row.index) rows)

  justify :
      (rows : List (Row F)) (v : Verdict)
      → Rests (IsRanked rows) v (ranking f rows)
      → IsJustified v rows
  justify rows leave k = ranking-All_back f IsExhausted rows k
  justify rows hold (row, p, e, g, k) = (row, p, e, g, ranking-All_back f _ rows k)
  justify rows (grow is) (row, p, e, g, k) = (row, p, e, g, ranking-All_back f _ rows k)

  -- Where the metrics are ordered as numbers, the loop of a ranking policy treats each chunk type by
  -- one verdict on the providers of the type that have a metric. If the best one that is not
  -- exhausted has head-room, the rows of the type at its index are left as they were and every other
  -- row of the type has its maximum lowered to what is reserved there. If that one is full with a
  -- reservation still in flight, all of the type have their maximum lowered so. If there is none, the
  -- type is left as it was. A provider is exhausted if it is full with nothing in flight.
  pub apply_metric_preference_lem :
      IsOrder f
      → (t : String) (rows : List (Row F))
      → (v : Verdict) × All₂
          (HasEffect v)
          (of_type t rows)
          (of_type t (apply_metric_preference f in_flight rows))
        × IsJustified v (of_type t rows)
  unfolding apply_metric_preference
  apply_metric_preference_lem o t rows =
      let own = of_type t rows in
      let v = greedy in_flight (ranking f own) in
      let j : IsJustified v own = justify own v (
        greedy-Rests o (IsRanked own) (ranking f own) (ranking-IsSorted f o own)
          (ranking-All f (λ row. Mem row own) own (All-members own own (λ row m. m)))) in
      (
        v,
        subst (All₂ (HasEffect v) own)
            (sym (narrow_all-by_type (λ idxs. greedy in_flight (ranking f idxs)) t rows))
            (masked-HasEffect v own own j),
        j,
      )
