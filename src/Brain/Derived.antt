-- ===== src/Brain/Derived.antt =====
-- What the brain derives from the served list is what the Broker derives from its own.
use federation_autoscaler.Base.{
  eq_iff, subst, Bool-cases, inl, inr, String, Bool, true, false, ◌&&◌, ◌||◌, List, [], ◌∷◌, ◌≡◌,
  refl, sym, ap, ◌∙◌, str_eq, if◌then◌else◌,
}
use federation_autoscaler.Base.Sums.{add32_swap}
use federation_autoscaler.Base.Int.{ℤ, pos, add32}
use federation_autoscaler.Api.{Reservation}
use federation_autoscaler.Placement.Masking.{string_lt}
use federation_autoscaler.Placement.Build.{
  reservation_holds_chunk, reservation_in_flight, own_chunks, in_flight_on,
}
use federation_autoscaler.Brain.Types.{ReservationResponse}
use federation_autoscaler.Brain.Reservations.{
  chunks_of, own_of, in_flight_of, from_reservations, reservation_response_from_cr, insert_by_id,
  sort_by_id, held_by, reservation_list,
}

-- What one reservation adds.
abbrev own_step : ReservationResponse → String → ℤ → ℤ
own_step r provider rest =
    if str_eq r.provider_cluster_id ""
    then rest
    else if reservation_holds_chunk r.status && str_eq r.provider_cluster_id provider
    then add32 rest (chunks_of r)
    else rest

own_step_swap :
    (x r : ReservationResponse) (provider : String) (rest : ℤ)
    → own_step x provider (own_step r provider rest)
      ≡ own_step r provider (own_step x provider rest)
own_step_swap x r provider rest =
    by_tests (str_eq x.provider_cluster_id "") (str_eq r.provider_cluster_id "")
      (reservation_holds_chunk x.status && str_eq x.provider_cluster_id provider)
      (reservation_holds_chunk r.status && str_eq r.provider_cluster_id provider)
  where
    step : Bool → Bool → ℤ → ℤ → ℤ
    step e h n acc = if e then acc else if h then add32 acc n else acc

    by_tests :
        (e f h k : Bool)
        → step e h (chunks_of x) (step f k (chunks_of r) rest)
          ≡ step f k (chunks_of r) (step e h (chunks_of x) rest)
    by_tests true f h k = refl
    by_tests false true h k = refl
    by_tests false false true true = add32_swap rest (chunks_of r) (chunks_of x)
    by_tests false false true false = refl
    by_tests false false false k = refl

abbrev flight_step : ReservationResponse → String → Bool → Bool
flight_step r provider rest =
    if str_eq r.provider_cluster_id ""
    then rest
    else if reservation_in_flight r.status && str_eq r.provider_cluster_id provider
    then true
    else rest

flight_step_swap :
    (x r : ReservationResponse) (provider : String) (rest : Bool)
    → flight_step x provider (flight_step r provider rest)
      ≡ flight_step r provider (flight_step x provider rest)
flight_step_swap x r provider rest =
    by_tests (str_eq x.provider_cluster_id "") (str_eq r.provider_cluster_id "")
      (reservation_in_flight x.status && str_eq x.provider_cluster_id provider)
      (reservation_in_flight r.status && str_eq r.provider_cluster_id provider)
  where
    step : Bool → Bool → Bool → Bool
    step e h acc = if e then acc else if h then true else acc

    by_tests : (e f h k : Bool) → step e h (step f k rest) ≡ step f k (step e h rest)
    by_tests true f h k = refl
    by_tests false true h k = refl
    by_tests false false true true = refl
    by_tests false false true false = refl
    by_tests false false false k = refl

-- The order of the list does not matter.
module _ {B : Type 0} (step : ReservationResponse → B → B)
    (swap : (x r : ReservationResponse) (b : B) → step x (step r b) ≡ step r (step x b))
    (start : B) where
  abbrev total : List ReservationResponse → B
  total [] = start
  total (r ∷ list) = step r (total list)

  total-insert_by_id :
      (r : ReservationResponse) (list : List ReservationResponse)
      → total (insert_by_id r list) ≡ step r (total list)
  unfolding insert_by_id
  total-insert_by_id r [] = refl
  total-insert_by_id r (x ∷ list) =
      by_order (string_lt x.reservation_id r.reservation_id) (total-insert_by_id r list)
    where
      by_order :
          (b : Bool)
          → total (insert_by_id r list) ≡ step r (total list)
          → total (if b then x ∷ insert_by_id r list else r ∷ x ∷ list)
            ≡ step r (step x (total list))
      by_order true rest = ap (step x) rest ∙ swap x r (total list)
      by_order false rest = refl

  total-sort_by_id : (list : List ReservationResponse) → total (sort_by_id list) ≡ total list
  unfolding sort_by_id
  total-sort_by_id [] = refl
  total-sort_by_id (r ∷ list) =
      total-insert_by_id r (sort_by_id list) ∙ ap (step r) (total-sort_by_id list)

module _ (caller provider : String) (named : str_eq provider "" ≡ false) where
  nameless_differs : (id : String) → str_eq id "" ≡ true → str_eq id provider ≡ false
  nameless_differs id h = elim (Bool-cases (str_eq id provider)) [
    | inl e ↦ absurd (differ (subst (λ x. str_eq x "" ≡ true) ((eq_iff id provider).0 e) h))
    | inr e ↦ e
  ]
    where
      differ : str_eq provider "" ≡ true → ⊥
      differ k = cc

  own_of-total :
      (list : List ReservationResponse)
      → own_of list provider
        ≡ total (λ r b. own_step r provider b) (λ x r b. own_step_swap x r provider b) (pos 0) list
  unfolding own_of
  own_of-total [] = refl
  own_of-total (r ∷ list) = ap (own_step r provider) (own_of-total list)

  in_flight_of-total :
      (list : List ReservationResponse)
      → in_flight_of list provider
        ≡ total
            (λ r b. flight_step r provider b)
            (λ x r b. flight_step_swap x r provider b)
            false
            list
  unfolding in_flight_of
  in_flight_of-total [] = refl
  in_flight_of-total (r ∷ list) = ap (flight_step r provider) (in_flight_of-total list)

  own_of-held_by :
      (resvs : List Reservation)
      → own_of (held_by caller resvs) provider ≡ own_chunks caller provider resvs
  unfolding own_of own_chunks reservation_response_from_cr
  own_of-held_by [] = refl
  own_of-held_by (r ∷ resvs) =
      pick (str_eq r.spec.consumer_cluster_id caller)
      ∙ chosen (chunks_of (reservation_response_from_cr r))
          (str_eq r.spec.consumer_cluster_id caller) (str_eq r.spec.provider_cluster_id "")
          (reservation_holds_chunk r.status.phase) (str_eq r.spec.provider_cluster_id provider)
          (nameless_differs r.spec.provider_cluster_id) (own_of-held_by resvs)
    where
      held : List ReservationResponse
      held = held_by caller resvs

      pick :
          (mine : Bool)
          → own_of (if mine then reservation_response_from_cr r ∷ held else held) provider ≡ (
              if mine
              then own_step (reservation_response_from_cr r) provider (own_of held provider)
              else own_of held provider)
      pick true = refl
      pick false = refl

      chosen :
          (n : ℤ) (mine empty holds same : Bool) {x y : ℤ}
          → (empty ≡ true → same ≡ false)
          → x ≡ y
          → (if mine then (if empty then x else if holds && same then add32 x n else x) else x)
            ≡ (if mine && (holds && same) then add32 y n else y)
      chosen n false empty holds same h e = e
      chosen n true true false same h e = e
      chosen n true true true false h e = e
      chosen n true true true true h e = let k = h refl in absurd (cc)
      chosen n true false false same h e = e
      chosen n true false true true h e = ap (λ z. add32 z n) e
      chosen n true false true false h e = e

  in_flight_of-held_by :
      (resvs : List Reservation)
      → in_flight_of (held_by caller resvs) provider ≡ in_flight_on caller resvs provider
  unfolding in_flight_of in_flight_on reservation_response_from_cr
  in_flight_of-held_by [] = refl
  in_flight_of-held_by (r ∷ resvs) =
      pick (str_eq r.spec.consumer_cluster_id caller)
      ∙ chosen (str_eq r.spec.consumer_cluster_id caller) (str_eq r.spec.provider_cluster_id "")
          (reservation_in_flight r.status.phase) (str_eq r.spec.provider_cluster_id provider)
          (nameless_differs r.spec.provider_cluster_id) (in_flight_of-held_by resvs)
    where
      held : List ReservationResponse
      held = held_by caller resvs

      pick :
          (mine : Bool)
          → in_flight_of (if mine then reservation_response_from_cr r ∷ held else held) provider ≡ (
              if mine
              then flight_step
                  (reservation_response_from_cr r)
                  provider
                  (in_flight_of held provider)
              else in_flight_of held provider)
      pick true = refl
      pick false = refl

      chosen :
          (mine empty flies same : Bool) {x y : Bool}
          → (empty ≡ true → same ≡ false)
          → x ≡ y
          → (if mine then (if empty then x else if flies && same then true else x) else x)
            ≡ ((mine && (flies && same)) || y)
      chosen false empty flies same h e = e
      chosen true true false same h e = e
      chosen true true true false h e = e
      chosen true true true true h e = let k = h refl in absurd (cc)
      chosen true false false same h e = e
      chosen true false true true h e = refl
      chosen true false true false h e = e

  -- For a named provider, what the brain derives from the list that the Broker serves to a consumer,
  -- sorted and with the other consumers' reservations left out, is what the Broker derives from all
  -- reservations for its own placement: how many chunks the consumer holds there, as an int32, and
  -- whether one is still being set up.
  pub from_reservations_lem :
      (resvs : List Reservation)
      → ((from_reservations (reservation_list caller resvs)).0 provider
          ≡ own_chunks caller provider resvs)
        × ((from_reservations (reservation_list caller resvs)).1 provider
            ≡ in_flight_on caller resvs provider)
  unfolding from_reservations reservation_list
  from_reservations_lem resvs =
      let held = held_by caller resvs in
      (
        own_of-total (sort_by_id held)
            ∙ total-sort_by_id (λ r b. own_step r provider b)
                (λ x r b. own_step_swap x r provider b) (pos 0) held
            ∙ sym (own_of-total held)
            ∙ own_of-held_by resvs,
        in_flight_of-total (sort_by_id held)
            ∙ total-sort_by_id (λ r b. flight_step r provider b)
                (λ x r b. flight_step_swap x r provider b) false held
            ∙ sym (in_flight_of-total held)
            ∙ in_flight_of-held_by resvs,
      )
