-- ===== src/Consumer/Picking.antt =====
-- What pickProviderAndSize chooses.
use federation_autoscaler.Base.{
  true, false, ◌≡◌, refl, Option, none, some, List, [], ◌∷◌, All, All-imp, ap, arith, if◌then◌else◌,
  ◌&&◌, str_eq,
}
use federation_autoscaler.Base.Int.{ℤ, pos, ◌-ℤ◌, ◌≤ℤ◌, int32, sub32}
use federation_autoscaler.Consumer.Types.{ResourceList, NodeGroupView}
use federation_autoscaler.Consumer.Sizing.{
  Choice, head_room_of, fits, gpu_requested, chunks_for, choice_of, beats, pick_from,
  pick_provider_and_size,
}
use mathlib.Core.List.{Mem, mem-cons_self, mem-cons_of_mem}

module _ {F : Type 0} (req : ResourceList) where
  -- The choice has at least the head-room of the group.
  abbrev pub Covers : Option (Choice F) → NodeGroupView F → Type 0
  Covers none g = ⊥
  Covers (some best) g = head_room_of g ≤ℤ best.head_room

  -- The choice is one of the groups, and the group can hold the whole request.
  abbrev pub IsGood : List (NodeGroupView F) → Option (Choice F) → Type 0
  IsGood groups none = Unit
  IsGood groups (some best) =
      Mem best.group groups × (fits req best.group ≡ true) × (best ≡ choice_of req best.group)

  next : Option (Choice F) → NodeGroupView F → Option (Choice F)
  next best g = if fits req g && beats g best then some (choice_of req g) else best

  next-Covers :
      (best : Option (Choice F)) (g : NodeGroupView F) → fits req g ≡ true → Covers (next best g) g
  unfolding next
  next-Covers none g h = ground arith
  next-Covers (some best) g h = ground arith

  next_keeps :
      (best : Option (Choice F)) (g h : NodeGroupView F) → Covers best h → Covers (next best g) h
  unfolding next
  next_keeps none g h k = absurd k
  next_keeps (some best) g h k = ground arith

  pick_keeps :
      (groups : List (NodeGroupView F)) (best : Option (Choice F)) (h : NodeGroupView F)
      → Covers best h
      → Covers (pick_from req best groups) h
  unfolding pick_from next
  pick_keeps [] best h k = k
  pick_keeps (g ∷ groups) best h k = pick_keeps groups (next best g) h (next_keeps best g h k)

  pick-Covers :
      (groups : List (NodeGroupView F)) (best : Option (Choice F))
      → All (λ g. fits req g ≡ true → Covers (pick_from req best groups) g) groups
  unfolding pick_from next
  pick-Covers [] best = tt
  pick-Covers (g ∷ groups) best = (
    λ h. pick_keeps groups (next best g) g (next-Covers best g h),
    pick-Covers groups (next best g),
  )

  next-IsGood :
      (all : List (NodeGroupView F)) (best : Option (Choice F)) (g : NodeGroupView F)
      → Mem g all
      → IsGood all best
      → IsGood all (next best g)
  unfolding next
  next-IsGood all best g m k =
      elim (fits req g && beats g best)
          as (λ b.
            (b ≡ true → fits req g ≡ true)
            → IsGood all (if b then some (choice_of req g) else best)) [
              | true ↦ λ h. (m, h refl, refl)
              | false ↦ λ h. k
            ]
        (λ h. ground arith)

  pick-IsGood :
      (all groups : List (NodeGroupView F)) (best : Option (Choice F))
      → All (λ g. Mem g all) groups
      → IsGood all best
      → IsGood all (pick_from req best groups)
  unfolding pick_from next
  pick-IsGood all [] best m k = k
  pick-IsGood all (g ∷ groups) best (m, ms) k =
      pick-IsGood all groups (next best g) ms (next-IsGood all best g m k)

  All-members :
      (all groups : List (NodeGroupView F))
      → ((g : NodeGroupView F) → Mem g groups → Mem g all)
      → All (λ g. Mem g all) groups
  All-members all [] h = tt
  All-members all (g ∷ groups) h =
      (h g mem-cons_self, All-members all groups (λ k m. h k (mem-cons_of_mem g m)))

  pub pick_provider_and_size-IsGood :
      (groups : List (NodeGroupView F)) → IsGood groups (pick_provider_and_size groups req)
  unfolding pick_provider_and_size
  pick_provider_and_size-IsGood groups =
      pick-IsGood groups groups none (All-members groups groups (λ g m. m)) tt

  -- The chunks between what is reserved and the maximum, an int32.
  abbrev pub free_in : NodeGroupView F → ℤ
  free_in g = int32 (g.max_size -ℤ g.current_reserved)

  -- The group has a GPU exactly where one is requested, the request needs at least one chunk of it,
  -- and it has as many free.
  pub record CanHold (g : NodeGroupView F) : Type 0 where
    pub same_kind : str_eq g.chunk_type "gpu" ≡ gpu_requested req
    pub needed : pos 1 ≤ℤ chunks_for req g.chunk_resources
    pub enough : chunks_for req g.chunk_resources ≤ℤ free_in g

  fits-CanHold : (g : NodeGroupView F) → fits req g ≡ true → CanHold g
  unfolding fits sub32
  fits-CanHold g h = ground arith

  CanHold-fits : (g : NodeGroupView F) → CanHold g → fits req g ≡ true
  unfolding fits sub32
  CanHold-fits g h = let a = h.same_kind in let b = h.needed in let d = h.enough in ground arith

  -- The choice is one of the groups, and the group can hold the whole request; it names the count of
  -- chunks that the request needs there, and the chunks that are free.
  abbrev pub IsPick : List (NodeGroupView F) → Option (Choice F) → Type 0
  IsPick groups none = Unit
  IsPick groups (some best) =
      Mem best.group groups
      × CanHold best.group
      × (best.count ≡ chunks_for req best.group.chunk_resources)
      × (best.head_room ≡ free_in best.group)

  -- Something is picked, with at least as many free chunks as the group.
  abbrev pub HasMost : Option (Choice F) → NodeGroupView F → Type 0
  HasMost none g = ⊥
  HasMost (some best) g = free_in g ≤ℤ best.head_room

  IsGood-IsPick :
      (groups : List (NodeGroupView F)) (o : Option (Choice F)) → IsGood groups o → IsPick groups o
  unfolding sub32
  IsGood-IsPick groups none h = tt
  IsGood-IsPick groups (some best) (m, h, e) =
      (m, fits-CanHold best.group h, ap (λ x. x.count) e, ap (λ x. x.head_room) e)

  Covers-HasMost : (o : Option (Choice F)) (g : NodeGroupView F) → Covers o g → HasMost o g
  unfolding sub32
  Covers-HasMost none g h = h
  Covers-HasMost (some best) g h = h

  -- The group that is picked is one of those offered, is of the GPU type exactly where the request
  -- asks for a GPU, needs at least one chunk for the request and has as many free. The choice carries
  -- that count and the free chunks of the group, which are at least those of every group that can
  -- hold the request in this sense. Nothing is picked only where no group can.
  pub pick_provider_and_size_lem :
      (groups : List (NodeGroupView F))
      → IsPick groups (pick_provider_and_size groups req)
        × All (λ g. CanHold g → HasMost (pick_provider_and_size groups req) g) groups
  unfolding pick_provider_and_size
  pick_provider_and_size_lem groups = (
    IsGood-IsPick groups (pick_provider_and_size groups req) (pick_provider_and_size-IsGood groups),
    All-imp groups
        (λ g h k. Covers-HasMost (pick_provider_and_size groups req) g (h (CanHold-fits g k)))
        (pick-Covers groups none),
  )
