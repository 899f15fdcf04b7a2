-- ===== src/Provider/Growing.antt =====
-- What an increase of the size places.
use federation_autoscaler.Base.{
  ℕ, zero, suc, ◌+◌, ◌<◌, String, Bool, true, false, ◌≡◌, refl, List, [], ◌∷◌, arith, subst, ◌∙◌,
  Option, none, some, str_eq, if◌then◌else◌,
}
use federation_autoscaler.Base.Int.{ℤ, pos, leb_ℤ, pos_part}
use federation_autoscaler.Kube.Core.{M, pure, accepted, Event, consumer, Result, ok, err, Run}
use federation_autoscaler.Consumer.Types.{posted_reservation, NodeGroupView, NodeGroupListResponse}
use federation_autoscaler.Consumer.Port.{Agent}
use federation_autoscaler.Provider.Calls.{
  invalid_argument, one_chunk, unless_failed, on_group, on_groups, Reply, replied, refused,
  agent_failed, place_chunks, with_group, find_group, node_group_increase_size,
}

-- How many chunks were reserved.
abbrev pub made : List Event → ℕ
made [] = 0
made (consumer (posted_reservation true id n) ∷ log) = pos_part n + made log
made (_ ∷ log) = made log

-- All that were asked for where the reply says so, fewer behind an error, and none behind a refusal.
abbrev pub HasGrown : ℤ → ℕ → Reply → ℕ → Type 0
HasGrown delta before replied after = after ≡ before + pos_part delta
HasGrown delta before (refused code) after = after ≡ before
HasGrown delta before (agent_failed e) after = after < before + pos_part delta

-- The reply of an action that always gives one, and what it stands for.
abbrev pub Replies : ℤ → ℕ → Result Reply → ℕ → Type 0
Replies delta before (ok reply) after = HasGrown delta before reply after
Replies delta before (err e) after = ⊥

-- The same of the loop, which refuses nothing.
abbrev Placed : ℕ → ℕ → Result Reply → ℕ → Type 0
Placed n before (ok replied) after = after ≡ before + n
Placed n before (ok (refused code)) after = ⊥
Placed n before (ok (agent_failed e)) after = after < before + n
Placed n before (err e) after = ⊥

Placed-suc : (n b a : ℕ) (r : Result Reply) → Placed n (suc b) r a → Placed (suc n) b r a
Placed-suc n b a (ok replied) h = omega arith
Placed-suc n b a (ok (refused code)) h = h
Placed-suc n b a (ok (agent_failed e)) h = omega arith
Placed-suc n b a (err e) h = h

Placed-Replies :
    (delta : ℤ) (b a : ℕ) (r : Result Reply) → Placed (pos_part delta) b r a → Replies delta b r a
Placed-Replies delta b a (ok replied) h = h
Placed-Replies delta b a (ok (refused code)) h = absurd h
Placed-Replies delta b a (ok (agent_failed e)) h = h
Placed-Replies delta b a (err e) h = h

abbrev made_by : Result (Unit {0}) → ℕ
made_by (ok a) = 1
made_by (err e) = 0

made_by_post :
    (a : Result (Unit {0})) (id : String) (log : List Event)
    → made (consumer (posted_reservation (accepted a) id (pos 1)) ∷ log) ≡ made_by a + made log
made_by_post (ok a) id log = omega arith
made_by_post (err e) id log = omega arith

one_more : (n : ℕ) → 1 + n ≡ suc n
one_more n = omega arith

module _ {F W : Type 0} (c : Agent F W) (new_reservation_id : W → String × W) where
  place_chunks-Placed :
      (n : ℕ) (g : NodeGroupView F) (s : Run W)
      → Placed n
          (made s.log)
          (place_chunks c new_reservation_id n g s).0
          (made (place_chunks c new_reservation_id n g s).1.log)
  unfolding place_chunks
  place_chunks-Placed zero g s = omega arith
  place_chunks-Placed (suc n) g s =
      let id = (new_reservation_id s.world).0 in
      let got = c.post_reservation id (one_chunk g) (new_reservation_id s.world).1 in
      after_post got.0
        (record {
          world = got.1;
          log = consumer (posted_reservation (accepted got.0) id (pos 1)) ∷ s.log;
        })
        (made_by_post got.0 id s.log) (place_chunks-Placed n g)
    where
      loop : M W Reply
      loop = place_chunks c new_reservation_id n g

      after_post :
          (a : Result (Unit {0})) (u : Run W)
          → made u.log ≡ made_by a + made s.log
          → ((v : Run W) → Placed n (made v.log) (loop v).0 (made (loop v).1.log))
          → Placed
              (suc n)
              (made s.log)
              (unless_failed c new_reservation_id a loop u).0
              (made (unless_failed c new_reservation_id a loop u).1.log)
      after_post (err e) u k rest = omega (arith, k)
      after_post (ok x) u k rest = Placed-suc n (made s.log) _ _ (
          subst (λ b. Placed n b (loop u).0 (made (loop u).1.log)) (k ∙ one_more (made s.log))
            (rest u))

  on_group-Replies :
      (delta : ℤ) (o : Option (NodeGroupView F)) (s : Run W)
      → Replies delta
          (made s.log)
          (on_group c new_reservation_id (place_chunks c new_reservation_id (pos_part delta)) o s).0
          (made
            (on_group c new_reservation_id
              (place_chunks c new_reservation_id (pos_part delta))
              o
              s).1.log)
  on_group-Replies delta none s = refl
  on_group-Replies delta (some g) s =
      Placed-Replies delta (made s.log) _ _ (place_chunks-Placed (pos_part delta) g s)

  on_groups-Replies :
      (id : String) (delta : ℤ) (a : Result (NodeGroupListResponse F)) (s : Run W)
      → 0 < pos_part delta
      → Replies delta
          (made s.log)
          (on_groups c new_reservation_id id
            (place_chunks c new_reservation_id (pos_part delta))
            a
            s).0
          (made
            (on_groups c new_reservation_id id
              (place_chunks c new_reservation_id (pos_part delta))
              a
              s).1.log)
  on_groups-Replies id delta (err e) s h = omega arith
  on_groups-Replies id delta (ok resp) s h =
      on_group-Replies delta (find_group id resp.node_groups) s

  with_group-Replies :
      (id : String) (delta : ℤ) (s : Run W)
      → 0 < pos_part delta
      → Replies delta
          (made s.log)
          (with_group c new_reservation_id id
            (place_chunks c new_reservation_id (pos_part delta))
            s).0
          (made
            (with_group c new_reservation_id id
              (place_chunks c new_reservation_id (pos_part delta))
              s).1.log)
  unfolding with_group
  with_group-Replies id delta s h =
      on_groups-Replies id delta (c.get_node_groups s.world).0
        (record s { world = (c.get_node_groups s.world).1 }) h

  -- Whatever the agent answers, an increase always gets a reply. Where it is success, exactly as many
  -- chunks were reserved as the increase asked for; behind an error of the agent, fewer; and none
  -- where the request is refused.
  pub node_group_increase_size-Replies :
      (id : String) (delta : ℤ) (s : Run W)
      → Replies delta
          (made s.log)
          (node_group_increase_size c new_reservation_id id delta s).0
          (made (node_group_increase_size c new_reservation_id id delta s).1.log)
  unfolding node_group_increase_size
  node_group_increase_size-Replies id delta s = checked (str_eq id "") (leb_ℤ delta (pos 0)) refl
    where
      loop : M W Reply
      loop = with_group c new_reservation_id id (place_chunks c new_reservation_id (pos_part delta))

      refusal : M W Reply
      refusal = pure (refused invalid_argument)

      positive : (z : ℤ) → leb_ℤ z (pos 0) ≡ false → 0 < pos_part z
      positive z h = ground arith

      checked :
          (x y : Bool)
          → leb_ℤ delta (pos 0) ≡ y
          → Replies delta
              (made s.log)
              ((if x then refusal else if y then refusal else loop) s).0
              (made ((if x then refusal else if y then refusal else loop) s).1.log)
      checked true y e = refl
      checked false true e = refl
      checked false false e = with_group-Replies id delta s (positive delta e)
