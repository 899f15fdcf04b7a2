-- ===== src/Provider/Shrinking.antt =====
-- What a deletion of nodes releases.
use federation_autoscaler.Base.{
  String, Bool, true, false, ◌≡◌, refl, ap, subst, sym, List, [], ◌∷◌, All, All-imp, ◌⊎◌, inl, inr,
  any, arith, Option, none, some, str_eq, eq_refl, if◌then◌else◌, ◌||◌,
}
use federation_autoscaler.Kube.Core.{M, pure, Event, consumer, Result, ok, err, Run}
use federation_autoscaler.Consumer.Types.{freed_reservation}
use federation_autoscaler.Consumer.Port.{Agent, is_released}
use federation_autoscaler.Provider.Calls.{
  Reply, replied, refused, agent_failed, Plan, release, refuse, by_name, add_id, plan_node,
  plan_nodes, unless_failed, release_all, carried_out, release_nodes, node_group_delete_nodes,
  invalid_argument, failed_precondition,
}

-- Releases of the reservations, the first one first, on top of a log.
abbrev pub freed : List String → List Event → List Event
freed [] log = log
freed (id ∷ ids) log = freed ids (consumer (freed_reservation true id) ∷ log)

abbrev pub has_id : List String → String → Bool
has_id ids id = any (λ x. str_eq id x) ids

-- No reservation comes twice.
abbrev pub IsDistinct : List String → Type 0
IsDistinct [] = Unit
IsDistinct (id ∷ ids) = (has_id ids id ≡ false) × IsDistinct ids

-- The node is known, and its reservation is one of the list.
abbrev pub IsPlanned : List (String × String) → List String → String → Type 0
IsPlanned list ids name = (id : String) × (by_name list name ≡ some id) × (has_id ids id ≡ true)

-- The reservation is that of one of the nodes.
abbrev pub IsOwned : List (String × String) → List String → String → Type 0
IsOwned list [] id = ⊥
IsOwned list (name ∷ names) id = (by_name list name ≡ some id) ⊎ IsOwned list names id

-- Every node is known with a reservation that is planned, none is planned twice, and each is that of
-- one of the nodes.
abbrev pub IsGoodPlan : List (String × String) → List String → Plan → Type 0
IsGoodPlan list names (release ids) =
    All (IsPlanned list ids) names × IsDistinct ids × All (IsOwned list names) ids
IsGoodPlan list names (refuse code) = Unit

add_id-has : (id : String) (ids : List String) → has_id (add_id id ids) id ≡ true
add_id-has id ids = by_test (has_id ids id) refl
  where
    by_test : (b : Bool) → has_id ids id ≡ b → has_id (if b then ids else id ∷ ids) id ≡ true
    by_test true e = e
    by_test false e = ap (λ b. b || has_id ids id) (eq_refl id)

add_id-keeps :
    (id x : String) (ids : List String) → has_id ids x ≡ true → has_id (add_id id ids) x ≡ true
add_id-keeps id x ids h = by_test (has_id ids id)
  where
    by_test : (b : Bool) → has_id (if b then ids else id ∷ ids) x ≡ true
    by_test true = h
    by_test false = ground arith

add_id-IsDistinct : (id : String) (ids : List String) → IsDistinct ids → IsDistinct (add_id id ids)
add_id-IsDistinct id ids h = by_test (has_id ids id) refl
  where
    by_test : (b : Bool) → has_id ids id ≡ b → IsDistinct (if b then ids else id ∷ ids)
    by_test true e = h
    by_test false e = (e, h)

IsPlanned-more :
    (list : List (String × String)) (id : String) (ids names : List String)
    → All (IsPlanned list ids) names
    → All (IsPlanned list (add_id id ids)) names
IsPlanned-more list id ids [] h = tt
IsPlanned-more list id ids (name ∷ names) ((x, e, k), h) =
    ((x, e, add_id-keeps id x ids k), IsPlanned-more list id ids names h)

add_id-All :
    (P : String → Type 0) (id : String) (ids : List String)
    → P id
    → All P ids
    → All P (add_id id ids)
add_id-All P id ids p h = by_test (has_id ids id)
  where
    by_test : (b : Bool) → All P (if b then ids else id ∷ ids)
    by_test true = h
    by_test false = (p, h)

plan_node-IsGoodPlan :
    (list : List (String × String)) (name : String) (names : List String) (o : Option String)
    (plan : Plan)
    → by_name list name ≡ o
    → IsGoodPlan list names plan
    → IsGoodPlan list (name ∷ names) (plan_node o plan)
unfolding plan_node
plan_node-IsGoodPlan list name names none plan e h = tt
plan_node-IsGoodPlan list name names (some id) (refuse code) e h = by_test (str_eq id "")
  where
    by_test :
        (b : Bool)
        → IsGoodPlan list (name ∷ names) (if b then refuse failed_precondition else refuse code)
    by_test true = tt
    by_test false = tt
plan_node-IsGoodPlan list name names (some id) (release ids) e (h, d, o) = by_test (str_eq id "")
  where
    by_test :
        (b : Bool)
        → IsGoodPlan list
            (name ∷ names)
            (if b then refuse failed_precondition else release (add_id id ids))
    by_test true = tt
    by_test false = (
      ((id, e, add_id-has id ids), IsPlanned-more list id ids names h),
      add_id-IsDistinct id ids d,
      add_id-All (IsOwned list (name ∷ names)) id ids (inl e) (All-imp ids (λ x k. inr k) o),
    )

pub plan_nodes-IsGoodPlan :
    (list : List (String × String)) (names : List String)
    → IsGoodPlan list names (plan_nodes list names)
unfolding plan_nodes
plan_nodes-IsGoodPlan list [] = (tt, tt, tt)
plan_nodes-IsGoodPlan list (name ∷ names) =
    by_test (str_eq name "") (plan_nodes-IsGoodPlan list names)
  where
    by_test :
        (b : Bool)
        → IsGoodPlan list names (plan_nodes list names)
        → IsGoodPlan list (name ∷ names) (
            if b
            then refuse invalid_argument
            else plan_node (by_name list name) (plan_nodes list names))
    by_test true h = tt
    by_test false h = plan_node-IsGoodPlan list name names (by_name list name) _ refl h

-- What the reply of a deletion says of the log: every named node is one of those that the agent
-- lists and the reservations released, each once and in some order, are exactly theirs, nothing else
-- being sent; or nothing was sent at all.
abbrev pub HasShrunk :
    List (String × String) → List String → List Event → Result Reply → List Event → Type 0
HasShrunk list names before (ok replied) after =
    (ids : List String) × All (IsPlanned list ids) names
    × IsDistinct ids
    × All (IsOwned list names) ids
    × (after ≡ freed ids before)
HasShrunk list names before (ok (refused code)) after = after ≡ before
HasShrunk list names before (ok (agent_failed e)) after = Unit
HasShrunk list names before (err e) after = ⊥

-- The loop succeeds only with a release of each.
Releases : List String → List Event → Result Reply → List Event → Type 0
Releases ids before (ok replied) after = after ≡ freed ids before
Releases ids before (ok (refused code)) after = ⊥
Releases ids before (ok (agent_failed e)) after = Unit
Releases ids before (err e) after = ⊥

Releases-cons :
    (id : String) (ids : List String) (before after : List Event) (r : Result Reply)
    → Releases ids (consumer (freed_reservation true id) ∷ before) r after
    → Releases (id ∷ ids) before r after
unfolding Releases
Releases-cons id ids before after (ok replied) h = h
Releases-cons id ids before after (ok (refused code)) h = h
Releases-cons id ids before after (ok (agent_failed e)) h = h
Releases-cons id ids before after (err e) h = h

module _ {F W : Type 0} (c : Agent F W) (new_reservation_id : W → String × W) where
  release_all-Releases :
      (ids : List String) (s : Run W)
      → Releases ids s.log
          (release_all c new_reservation_id ids s).0
          (release_all c new_reservation_id ids s).1.log
  unfolding release_all Releases
  release_all-Releases [] s = refl
  release_all-Releases (id ∷ ids) s =
      let got = c.delete_reservation id s.world in
      after_release got.0 got.1 (release_all-Releases ids)
    where
      loop : M W Reply
      loop = release_all c new_reservation_id ids

      after_release :
          (a : Result (Unit {0})) (w : W)
          → ((v : Run W) → Releases ids v.log (loop v).0 (loop v).1.log)
          → (let u : Run W = record {
            world = w;
            log = consumer (freed_reservation (is_released a) id) ∷ s.log;
          } in
              Releases
                (id ∷ ids)
                s.log
                (unless_failed c new_reservation_id a loop u).0
                (unless_failed c new_reservation_id a loop u).1.log)
      after_release (err e) w rest = tt
      after_release (ok x) w rest =
          Releases-cons id ids s.log _ _
            (rest (record { world = w; log = consumer (freed_reservation true id) ∷ s.log }))

  released-HasShrunk :
      (list : List (String × String)) (names ids : List String) (before after : List Event)
      (r : Result Reply)
      → All (IsPlanned list ids) names
      → IsDistinct ids
      → All (IsOwned list names) ids
      → Releases ids before r after
      → HasShrunk list names before r after
  unfolding Releases
  released-HasShrunk list names ids before after (ok replied) p d o h = (ids, p, d, o, h)
  released-HasShrunk list names ids before after (ok (refused code)) p d o h = absurd h
  released-HasShrunk list names ids before after (ok (agent_failed e)) p d o h = tt
  released-HasShrunk list names ids before after (err e) p d o h = h

  carried_out-HasShrunk :
      (list : List (String × String)) (names : List String) (plan : Plan) (s : Run W)
      → IsGoodPlan list names plan
      → HasShrunk list names s.log
          (carried_out c new_reservation_id plan s).0
          (carried_out c new_reservation_id plan s).1.log
  carried_out-HasShrunk list names (refuse code) s h = refl
  carried_out-HasShrunk list names (release ids) s (p, d, o) =
      released-HasShrunk list names ids s.log _ _ p d o (release_all-Releases ids s)

  -- Where the agent lists its virtual nodes, a deletion of nodes always gets a reply. Where it is
  -- success, every node named is one of those listed, and what was sent is one release of each of
  -- their reservations, each accepted and none twice, and of no other reservation; where the deletion is refused, nothing was sent.
  pub node_group_delete_nodes-HasShrunk :
      (id name : String) (names : List String) (list : List (String × String)) (s : Run W)
      → (c.get_virtual_nodes s.world).0 ≡ ok list
      → HasShrunk list
          (name ∷ names)
          s.log
          (node_group_delete_nodes c new_reservation_id id (name ∷ names) s).0
          (node_group_delete_nodes c new_reservation_id id (name ∷ names) s).1.log
  unfolding node_group_delete_nodes
  node_group_delete_nodes-HasShrunk id name names list s e = by_test (str_eq id "")
    where
      t : Run W
      t = record s { world = (c.get_virtual_nodes s.world).1 }

      act : M W Reply
      act u =
          release_nodes c new_reservation_id (name ∷ names) (c.get_virtual_nodes u.world).0
            (record u { world = (c.get_virtual_nodes u.world).1 })

      planned : HasShrunk list (name ∷ names) s.log (act s).0 (act s).1.log
      planned =
          subst
            (λ a.
              let out = release_nodes c new_reservation_id (name ∷ names) a t in
              HasShrunk list (name ∷ names) s.log out.0 out.1.log)
            (sym e)
            (carried_out-HasShrunk list (name ∷ names) (plan_nodes list (name ∷ names)) t
              (plan_nodes-IsGoodPlan list (name ∷ names)))

      by_test :
          (b : Bool)
          → (let m : M W Reply = if b then pure (refused invalid_argument) else act in
              HasShrunk list (name ∷ names) s.log (m s).0 (m s).1.log)
      by_test true = refl
      by_test false = planned
