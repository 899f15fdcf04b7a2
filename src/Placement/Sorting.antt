-- ===== src/Placement/Sorting.antt =====
-- The order in which the providers of a chunk type are visited.
use federation_autoscaler.Base.{
  Bool, true, false, ◌≡◌, refl, List, [], ◌∷◌, All, All-imp, arith, if◌then◌else◌,
}
use federation_autoscaler.Consumer.Types.{Float64}
use federation_autoscaler.Placement.Masking.{
  Row, less, insert, sort, with_metric, ranking, string_lt,
}

-- How float64 compares numbers; a NaN is none.
pub record IsOrder {F : Type 0} (f : Float64 F) : Type 0 where
  pub asym : (a b : F) → f.lt a b ≡ true → f.lt b a ≡ false
  pub le_trans : (a b c : F) → f.lt b a ≡ false → f.lt c b ≡ false → f.lt c a ≡ false
  pub eq_le : (a b : F) → f.eq a b ≡ true → (f.lt a b ≡ false) × (f.lt b a ≡ false)

module _ {F : Type 0} (f : Float64 F) where
  -- No metric of the list is better than that of the row.
  abbrev pub IsBefore : Row F → Row F → Type 0
  IsBefore a b = f.lt b.metric a.metric ≡ false

  abbrev pub IsSorted : List (Row F) → Type 0
  IsSorted [] = Unit
  IsSorted (row ∷ rows) = All (IsBefore row) rows × IsSorted rows

  less-IsBefore :
      IsOrder f
      → (a b : Row F) (x : Bool) → less f b a ≡ x
      → (if x then IsBefore b a else IsBefore a b)
  unfolding less
  less-IsBefore o a b x e = by_metric x (f.eq b.metric a.metric) refl e
    where
      by_metric :
          (x y : Bool)
          → f.eq b.metric a.metric ≡ y
          → (if y
              then string_lt b.view.provider_cluster_id a.view.provider_cluster_id
              else f.lt b.metric a.metric)
            ≡ x
          → (if x then IsBefore b a else IsBefore a b)
      by_metric true true h k = (o.eq_le b.metric a.metric h).1
      by_metric false true h k = (o.eq_le b.metric a.metric h).0
      by_metric true false h k = o.asym b.metric a.metric k
      by_metric false false h k = k

  insert-All :
      (P : Row F → Type 0) (a : Row F) (rows : List (Row F))
      → P a
      → All P rows
      → All P (insert f a rows)
  unfolding insert
  insert-All P a [] h k = (h, tt)
  insert-All P a (b ∷ rows) h (k, ks) = either (less f b a) (insert-All P a rows h ks)
    where
      either :
          (x : Bool)
          → All P (insert f a rows)
          → All P (if x then b ∷ insert f a rows else a ∷ b ∷ rows)
      either true rest = (k, rest)
      either false rest = (h, (k, ks))

  insert-IsSorted :
      IsOrder f → (a : Row F) (rows : List (Row F)) → IsSorted rows → IsSorted (insert f a rows)
  unfolding insert
  insert-IsSorted o a [] s = (tt, tt)
  insert-IsSorted o a (b ∷ rows) (k, s) = either (less f b a) refl (insert-IsSorted o a rows s)
    where
      either :
          (x : Bool)
          → less f b a ≡ x
          → IsSorted (insert f a rows)
          → IsSorted (if x then b ∷ insert f a rows else a ∷ b ∷ rows)
      either true e rest = (insert-All (IsBefore b) a rows (less-IsBefore o a b true e) k, rest)
      either false e rest =
          let h = less-IsBefore o a b false e in
          ((h, All-imp rows (λ c. o.le_trans a.metric b.metric c.metric h) k), (k, s))

  sort-IsSorted : IsOrder f → (rows : List (Row F)) → IsSorted (sort f rows)
  unfolding sort
  sort-IsSorted o [] = tt
  sort-IsSorted o (row ∷ rows) = insert-IsSorted o row (sort f rows) (sort-IsSorted o rows)

  sort-All : (P : Row F → Type 0) (rows : List (Row F)) → All P rows → All P (sort f rows)
  unfolding sort
  sort-All P [] k = tt
  sort-All P (row ∷ rows) (k, ks) = insert-All P row (sort f rows) k (sort-All P rows ks)

  insert-All_back :
      (P : Row F → Type 0) (a : Row F) (rows : List (Row F))
      → All P (insert f a rows)
      → P a × All P rows
  unfolding insert
  insert-All_back P a [] k = k
  insert-All_back P a (b ∷ rows) k = either (less f b a) (insert-All_back P a rows) k
    where
      either :
          (x : Bool)
          → (All P (insert f a rows) → P a × All P rows)
          → All P (if x then b ∷ insert f a rows else a ∷ b ∷ rows)
          → P a × All P (b ∷ rows)
      either true rest (h, hs) = let r = rest hs in (r.0, (h, r.1))
      either false rest h = h

  sort-All_back : (P : Row F → Type 0) (rows : List (Row F)) → All P (sort f rows) → All P rows
  unfolding sort
  sort-All_back P [] k = tt
  sort-All_back P (row ∷ rows) k =
      let r = insert-All_back P row (sort f rows) k in (r.0, sort-All_back P rows r.1)

  pub ranking-IsSorted : IsOrder f → (rows : List (Row F)) → IsSorted (ranking f rows)
  unfolding ranking
  ranking-IsSorted o rows = sort-IsSorted o (with_metric rows)

  with_metric-All :
      (P : Row F → Type 0) (rows : List (Row F))
      → All P rows
      → All (λ row. P row × (row.has ≡ true)) (with_metric rows)
  unfolding with_metric
  with_metric-All P [] k = tt
  with_metric-All P (row ∷ rows) (k, ks) = either row.has refl (with_metric-All P rows ks)
    where
      either :
          (x : Bool)
          → row.has ≡ x
          → All (λ r. P r × (r.has ≡ true)) (with_metric rows)
          → All (λ r. P r × (r.has ≡ true)) (if x then row ∷ with_metric rows else with_metric rows)
      either true e rest = ((k, e), rest)
      either false e rest = rest

  with_metric-All_back :
      (P : Row F → Type 0) (rows : List (Row F))
      → All P (with_metric rows)
      → All (λ row. row.has ≡ true → P row) rows
  unfolding with_metric
  with_metric-All_back P [] k = tt
  with_metric-All_back P (row ∷ rows) k = either row.has refl (with_metric-All_back P rows) k
    where
      either :
          (x : Bool)
          → row.has ≡ x
          → (All P (with_metric rows) → All (λ r. r.has ≡ true → P r) rows)
          → All P (if x then row ∷ with_metric rows else with_metric rows)
          → (row.has ≡ true → P row) × All (λ r. r.has ≡ true → P r) rows
      either true e rest (h, hs) = (λ _. h, rest hs)
      either false e rest hs = (λ g. ground arith, rest hs)

  -- Every visited row is one of the rows, with a metric.
  pub ranking-All :
      (P : Row F → Type 0) (rows : List (Row F))
      → All P rows
      → All (λ row. P row × (row.has ≡ true)) (ranking f rows)
  unfolding ranking
  ranking-All P rows k =
      sort-All (λ row. P row × (row.has ≡ true)) (with_metric rows) (with_metric-All P rows k)

  -- Every row with a metric is visited.
  pub ranking-All_back :
      (P : Row F → Type 0) (rows : List (Row F))
      → All P (ranking f rows)
      → All (λ row. row.has ≡ true → P row) rows
  unfolding ranking
  ranking-All_back P rows k = with_metric-All_back P rows (sort-All_back P (with_metric rows) k)
