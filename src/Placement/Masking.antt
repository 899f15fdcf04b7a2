-- ===== src/Placement/Masking.antt =====
-- nodegroups.go: applyMetricPreference, applyLatencyTopN and applyRandomPreference. The slices that
-- describe one provider at one index are one row here.
use Prim.Native.String.{compare}
use Prim.Native.Nat.{Ordering}
use federation_autoscaler.Base.{
  ℕ, zero, suc, String, Bool, true, false, not, ◌&&◌, Option, none, some, List, [], ◌∷◌, map, any,
  length, str_eq, if◌then◌else◌, ◌==◌, leb,
}
use federation_autoscaler.Base.Int.{ℤ, pos, ltb_ℤ, sub32}
use federation_autoscaler.Consumer.Types.{Float64, NodeGroupView}

-- views[i], metric[i] and has[i].
pub record Row (F : Type 0) : Type 0 where
  pub index : ℕ
  pub view : NodeGroupView F
  pub metric : F
  pub has : Bool

-- What is to be done with the providers of a chunk type.
pub data Verdict : Type 0 where
  leave : Verdict
  hold : Verdict
  grow : List ℕ → Verdict

abbrev pub string_lt : String → String → Bool
string_lt a b = elim (compare a b) [ Ordering.lt ↦ true | _ ↦ false ]

abbrev pub has_index : List ℕ → ℕ → Bool
has_index is i = any (λ j. i == j) is

abbrev pub is_empty : List ℕ → Bool
is_empty [] = true
is_empty (i ∷ is) = false

abbrev pub grow_kept : List ℕ → Verdict
grow_kept [] = leave
grow_kept (i ∷ is) = grow (i ∷ is)

-- The element at a position; none past the end, where Go panics.
unfoldable pub get_elem? : List ℕ → ℕ → Option ℕ
get_elem? [] n = none
get_elem? (i ∷ is) zero = some i
get_elem? (i ∷ is) (suc n) = get_elem? is n

module _ {F : Type 0} where
  abbrev pub room_of : Row F → ℤ
  room_of row = sub32 row.view.max_size row.view.current_reserved

  abbrev pub has_room : Row F → Bool
  has_room row = ltb_ℤ (pos 0) (room_of row)

  -- `MaxSize = CurrentReserved`.
  unfoldable pub mask : Row F → Row F
  mask row = record row { view = record row.view { max_size = row.view.current_reserved } }

  abbrev pub is_of_type : String → Row F → Bool
  is_of_type t row = str_eq row.view.chunk_type t

  -- byType[t].
  unfoldable pub of_type : String → List (Row F) → List (Row F)
  of_type t [] = []
  of_type t (row ∷ rows) =
      let rest = of_type t rows in if is_of_type t row then row ∷ rest else rest

  -- The keys of byType.
  unfoldable pub types_of : List (Row F) → List String
  types_of [] = []
  types_of (row ∷ rows) =
      let rest = types_of rows in
      if any (λ t. is_of_type t row) rest then rest else row.view.chunk_type ∷ rest

  -- The comparison that sorts the rows.
  unfoldable pub less : Float64 F → Row F → Row F → Bool
  less f a b =
      if f.eq a.metric b.metric
      then string_lt a.view.provider_cluster_id b.view.provider_cluster_id
      else f.lt a.metric b.metric

  -- sort.SliceStable.
  unfoldable pub insert : Float64 F → Row F → List (Row F) → List (Row F)
  insert f a [] = a ∷ []
  insert f a (b ∷ rows) =
      let rest = insert f a rows in if less f b a then b ∷ rest else a ∷ b ∷ rows

  unfoldable pub sort : Float64 F → List (Row F) → List (Row F)
  sort f [] = []
  sort f (row ∷ rows) = insert f row (sort f rows)

  -- `ranking`: the rows with a metric, best first.
  unfoldable pub with_metric : List (Row F) → List (Row F)
  with_metric [] = []
  with_metric (row ∷ rows) = let rest = with_metric rows in if row.has then row ∷ rest else rest

  unfoldable pub ranking : Float64 F → List (Row F) → List (Row F)
  ranking f rows = sort f (with_metric rows)

  -- The first with head-room is grown; a full one that is still peering holds all; a full and
  -- settled one is passed over.
  unfoldable pub greedy : (String → Bool) → List (Row F) → Verdict
  greedy in_flight [] = leave
  greedy in_flight (row ∷ rows) =
      let rest = greedy in_flight rows in
      if has_room row
      then grow (row.index ∷ [])
      else if in_flight row.view.provider_cluster_id
      then hold
      else rest

  -- The loop of applyLatencyTopN, from what is kept so far.
  unfoldable pub shortlist : ℕ → (String → Bool) → List ℕ → List (Row F) → Verdict
  shortlist n in_flight keep [] = grow_kept keep
  shortlist n in_flight keep (row ∷ rows) =
      let taken = shortlist n in_flight (row.index ∷ keep) rows in
      let skipped = shortlist n in_flight keep rows in
      if leb n (length keep)
      then grow_kept keep
      else if has_room row
      then taken
      else if is_empty keep && in_flight row.view.provider_cluster_id
      then hold
      else skipped

  -- The writes to the providers of one chunk type.
  unfoldable pub masked_by : Verdict → Row F → Row F
  masked_by leave row = row
  masked_by hold row = mask row
  masked_by (grow is) row = if has_index is row.index then row else mask row

  abbrev pub mask_type : String → Verdict → Row F → Row F
  mask_type t v row = if is_of_type t row then masked_by v row else row

  -- One round of the loop over byType.
  unfoldable pub narrow_type : (List (Row F) → Verdict) → String → List (Row F) → List (Row F)
  narrow_type decide t rows = map (mask_type t (decide (of_type t rows))) rows

  unfoldable pub narrow_all : (List (Row F) → Verdict) → List String → List (Row F) → List (Row F)
  narrow_all decide [] rows = rows
  narrow_all decide (t ∷ ts) rows = narrow_all decide ts (narrow_type decide t rows)

  unfoldable pub apply_metric_preference : Float64 F → (String → Bool) → List (Row F) → List (Row F)
  apply_metric_preference f in_flight rows =
      narrow_all (λ idxs. greedy in_flight (ranking f idxs)) (types_of rows) rows

  unfoldable pub apply_latency_top_n :
      Float64 F → ℕ → (String → Bool) → List (Row F) → List (Row F) × Bool
  apply_latency_top_n f n in_flight rows =
      if any (λ row. row.has) rows
      then (
        narrow_all (λ idxs. shortlist n in_flight [] (ranking f idxs)) (types_of rows) rows,
        true,
      )
      else (rows, false)

  -- withCapacity of applyRandomPreference.
  unfoldable pub with_capacity : List (Row F) → List ℕ
  with_capacity [] = []
  with_capacity (row ∷ rows) =
      let rest = with_capacity rows in if has_room row then row.index ∷ rest else rest

  -- `draw` is rand.Intn of the length; each chunk type, with candidates of its own, has its own draw.
  unfoldable pub random_verdict : (List ℕ → ℕ) → (String → Bool) → List (Row F) → Verdict
  random_verdict draw in_flight idxs =
      let is = with_capacity idxs in
      if is_empty is
      then if any (λ row. not (has_room row) && in_flight row.view.provider_cluster_id) idxs
        then hold
        else leave
      else elim (get_elem? is (draw is)) [ none ↦ leave | some i ↦ grow (i ∷ []) ]

  unfoldable pub apply_random_preference :
      (List ℕ → ℕ) → (String → Bool) → List (Row F) → List (Row F)
  apply_random_preference draw in_flight rows =
      narrow_all (random_verdict draw in_flight) (types_of rows) rows
