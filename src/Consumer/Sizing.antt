-- ===== src/Consumer/Sizing.antt =====
-- internal/controller/autoscaling/resourcerequest_controller.go: chunksFor, gpuRequested,
-- pickProviderAndSize, multiChunkUnsupported.
use federation_autoscaler.Base.{
  Bool, true, false, not, ◌&&◌, ◌||◌, Option, none, some, List, [], ◌∷◌, str_eq, if◌then◌else◌,
}
use federation_autoscaler.Base.Int.{ℤ, pos, ◌+ℤ◌, ◌-ℤ◌, leb_ℤ, ltb_ℤ, sub32, int32, int64, quot}
use federation_autoscaler.Api.{chunk_type_gpu}
use federation_autoscaler.Consumer.Types.{
  ResourceList, quantity_of, has_resource, gpu_resource_name, NodeGroupView,
}

-- `(rv + cv - 1) / cv` on int64.
unfoldable pub chunks_needed : ℤ → ℤ → ℤ
chunks_needed rv cv = quot (int64 (int64 (rv +ℤ cv) -ℤ pos 1)) cv

abbrev pub greater : ℤ → ℤ → ℤ
greater a b = if ltb_ℤ a b then b else a

-- The loop of chunksFor from the maximum so far; nothing where a requested resource is absent.
unfoldable pub max_needed : ResourceList → ℤ → ResourceList → Option ℤ
max_needed chunk n [] = some n
max_needed chunk n ((name, q) ∷ req) =
    let cv = (quantity_of name chunk).milli_value in
    let skip = max_needed chunk n req in
    let rest = max_needed chunk (greater n (chunks_needed q.milli_value cv)) req in
    if leb_ℤ q.milli_value (pos 0)
    then skip
    else if not (has_resource name chunk) || leb_ℤ cv (pos 0)
    then none
    else rest

unfoldable pub chunks_for : ResourceList → ResourceList → ℤ
chunks_for req chunk = elim (max_needed chunk (pos 0) req) [
  | none ↦ pos 0
  | some n ↦ if ltb_ℤ n (pos 1) then pos 0 else int32 n
]

unfoldable pub gpu_requested : ResourceList → Bool
gpu_requested req =
    has_resource gpu_resource_name req
    && not (leb_ℤ (quantity_of gpu_resource_name req).milli_value (pos 0))

-- multiChunkUnsupported, without its message.
unfoldable pub multi_chunk_unsupported : ℤ → Bool
multi_chunk_unsupported count = not (leb_ℤ count (pos 1))

-- Go's `!=` on Booleans.
abbrev pub disagree : Bool → Bool → Bool
disagree true b = not b
disagree false b = b

pub record Choice (F : Type 0) : Type 0 where
  pub group : NodeGroupView F
  pub count : ℤ
  pub head_room : ℤ

module _ {F : Type 0} where
  abbrev pub head_room_of : NodeGroupView F → ℤ
  head_room_of g = sub32 g.max_size g.current_reserved

  -- The group can hold the whole request: the tests of the loop that `continue`.
  unfoldable pub fits : ResourceList → NodeGroupView F → Bool
  fits req g =
      not (disagree (gpu_requested req) (str_eq g.chunk_type chunk_type_gpu))
      && (not (leb_ℤ (head_room_of g) (pos 0))
          && not (
              leb_ℤ (chunks_for req g.chunk_resources) (pos 0)
              || ltb_ℤ (head_room_of g) (chunks_for req g.chunk_resources)))

  abbrev pub choice_of : ResourceList → NodeGroupView F → Choice F
  choice_of req g = record {
    group = g;
    count = chunks_for req g.chunk_resources;
    head_room = head_room_of g;
  }

  -- The group beats the best so far.
  abbrev pub beats : NodeGroupView F → Option (Choice F) → Bool
  beats g none = true
  beats g (some best) = ltb_ℤ best.head_room (head_room_of g)

  unfoldable pub pick_from :
      ResourceList → Option (Choice F) → List (NodeGroupView F) → Option (Choice F)
  pick_from req best [] = best
  pick_from req best (g ∷ groups) =
      let next = if fits req g && beats g best then some (choice_of req g) else best in
      pick_from req next groups

  unfoldable pub pick_provider_and_size : List (NodeGroupView F) → ResourceList → Option (Choice F)
  pick_provider_and_size groups req = pick_from req none groups
