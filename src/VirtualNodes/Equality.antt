-- ===== src/VirtualNodes/Equality.antt =====
-- The status that a pass shows, and that the comparison finds it equal to itself.
use federation_autoscaler.Base.{
  and_true, ℕ, String, Bool, true, false, ◌&&◌, All, All-imp, All-both, Option, none, some, length,
  List, [], ◌∷◌, ◌≡◌, refl, sym, ap, subst, ◌∙◌, str_eq, eq_refl, if◌then◌else◌, arith, ◌==◌,
}
use federation_autoscaler.Kube.Core.{M, Run, pure, ok, ◌>>=◌}
use federation_autoscaler.Kube.Bind.{Post, bind_returns, bind_ok}
use federation_autoscaler.Consumer.Types.{Quantity, ResourceList, has_resource, quantity_of}
use federation_autoscaler.Agent.Types.{
  VirtualNodePhase, Condition, VirtualNodeStatus, running, failed, node_phase_eq,
}
use federation_autoscaler.Agent.Calls.{Cluster}
use federation_autoscaler.VirtualNodes.Status.{
  set_condition, update_conditions, ready_reason, failed_reason, condition_index, same_condition,
  all_indexed, conditions_equal, all_held, resource_list_equal, status_equal, found_or,
}
use federation_autoscaler.VirtualNodes.Conditions.{
  IsShown, IsKeyed, same_status_refl, Post-and, set_condition-IsShown, set_condition_settled,
  set_condition-other, set_condition-IsKeyed,
}

pub node_phase_refl : (p : VirtualNodePhase) → node_phase_eq p p ≡ true
node_phase_refl p = ground arith

-- Both conditions say what the phase is.
abbrev pub IsAligned : VirtualNodeStatus → List Condition → Type 0
IsAligned st list =
    IsShown "Ready" (node_phase_eq st.phase running) (ready_reason st.phase) st.message list
    × IsShown "Failed" (node_phase_eq st.phase failed) (failed_reason st.phase) st.message list

module _ {W : Type 0} (c : Cluster W) (st : VirtualNodeStatus) where
  pub update_conditions-IsAligned :
      (s : Run W)
      → IsKeyed st.conditions
      → Post
          (λ d.
            IsAligned st d.conditions
            × IsKeyed d.conditions
            × (d ≡ record st { conditions = d.conditions }))
          (update_conditions c st s).0
  unfolding update_conditions
  update_conditions-IsAligned s h =
      let Goal : VirtualNodeStatus → Type 0 = λ d.
        IsAligned st d.conditions
        × IsKeyed d.conditions
        × (d ≡ record st { conditions = d.conditions }) in
      let ready : List Condition → M W (List Condition) = λ list.
        set_condition c list "Ready" (node_phase_eq st.phase running) (ready_reason st.phase)
          st.message in
      let fail : List Condition → M W (List Condition) = λ list.
        set_condition c list "Failed" (node_phase_eq st.phase failed) (failed_reason st.phase)
          st.message in
      let Ready : List Condition → Type 0 =
        IsShown "Ready" (node_phase_eq st.phase running) (ready_reason st.phase) st.message in
      let finish : List Condition → M W VirtualNodeStatus =
        λ two. pure (record st { conditions = two }) in
      bind_returns (λ one. Ready one × IsKeyed one) Goal (λ one. fail one >>= finish)
        (ready st.conditions) s
        (Post-and Ready IsKeyed (ready st.conditions s).0
          (set_condition-IsShown c "Ready" _ _ _ st.conditions s)
          (set_condition-IsKeyed c "Ready" _ _ _ st.conditions s h))
        (λ one u k.
          bind_returns (λ two. IsAligned st two × IsKeyed two) Goal finish (fail one) u
            (Post-and (IsAligned st) IsKeyed (fail one u).0
              (Post-and Ready _ (fail one u).0
                (set_condition-other c "Failed" _ _ _ "Ready" _ _ _ refl one u k.0)
                (set_condition-IsShown c "Failed" _ _ _ one u))
              (set_condition-IsKeyed c "Failed" _ _ _ one u k.1))
            (λ two v l. (l.0, l.1, refl)))

  pub update_conditions_settled :
      (s : Run W) → IsAligned st st.conditions → update_conditions c st s ≡ (ok st, s)
  unfolding update_conditions
  update_conditions_settled s (h, k) =
      let ready =
        set_condition c st.conditions "Ready" (node_phase_eq st.phase running)
          (ready_reason st.phase) st.message in
      let fail : List Condition → M W (List Condition) = λ list.
        set_condition c list "Failed" (node_phase_eq st.phase failed) (failed_reason st.phase)
          st.message in
      let finish : List Condition → M W VirtualNodeStatus =
        λ two. pure (record st { conditions = two }) in
      let one = set_condition_settled c "Ready" _ _ _ st.conditions s h in
      let two = set_condition_settled c "Failed" _ _ _ st.conditions s k in
      bind_ok (λ list. fail list >>= finish) ready s st.conditions (ap (λ out. out.0) one)
      ∙ ap (λ out. (fail st.conditions >>= finish) out.1) one
      ∙ bind_ok finish (fail st.conditions) s st.conditions (ap (λ out. out.0) two)
      ∙ ap (λ out. (ok st, out.1)) two

same_condition_refl : (y : Condition) → same_condition (some y) y ≡ true
same_condition_refl y =
    and_true (same_status_refl y.status) (and_true (eq_refl y.reason) (eq_refl y.message))

apart-index :
    (name : String) (xs : List Condition)
    → All (λ y. str_eq y.condition_type name ≡ false) xs
    → condition_index name xs ≡ none
unfolding condition_index
apart-index name [] h = refl
apart-index name (x ∷ xs) (h, hs) =
    ap (λ o. found_or o (if str_eq x.condition_type name then some x else none))
      (apart-index name xs hs)
    ∙ ap (λ b. if b then some x else none) h

-- A list of conditions with one of each type equals itself.
all_indexed_found :
    (list ys : List Condition)
    → All (λ y. condition_index y.condition_type list ≡ some y) ys
    → all_indexed list ys ≡ true
all_indexed_found list [] h = refl
all_indexed_found list (y ∷ ys) (h, hs) =
    subst (λ o. (same_condition o y && all_indexed list ys) ≡ true) (sym h)
      (and_true (same_condition_refl y) (all_indexed_found list ys hs))

IsKeyed-found :
    (xs : List Condition) → IsKeyed xs → All (λ y. condition_index y.condition_type xs ≡ some y) xs
unfolding condition_index
IsKeyed-found [] h = tt
IsKeyed-found (x ∷ xs) (h, hs) = (
  absent (condition_index x.condition_type xs) (apart-index x.condition_type xs h),
  All-imp xs
      (λ y e.
        ap (λ o. found_or o (if str_eq x.condition_type y.condition_type then some x else none)) e)
      (IsKeyed-found xs hs),
)
  where
    absent :
        (o : Option Condition)
        → o ≡ none
        → found_or o (if str_eq x.condition_type x.condition_type then some x else none) ≡ some x
    absent none e = ap (λ b. if b then some x else none) (eq_refl x.condition_type)
    absent (some y) e = absurd (cc)

length_refl : (n : ℕ) → (n == n) ≡ true
length_refl n = ground arith

-- A resource list with each key once.
abbrev pub IsMap : ResourceList → Type 0
IsMap [] = Unit
IsMap ((key, q) ∷ rest) = All (λ e. str_eq key e.0 ≡ false) rest × IsMap rest

module _ (cmp_zero : Quantity → Quantity → Bool)
    (cmp_refl : (q : Quantity) → cmp_zero q q ≡ true) where
  IsMap-held :
      (list : ResourceList)
      → IsMap list
      → All (λ e. (has_resource e.0 list ≡ true) × (quantity_of e.0 list ≡ e.1)) list
  unfolding has_resource quantity_of
  IsMap-held [] h = tt
  IsMap-held ((key, q) ∷ rest) (h, hs) = (
    (
      ap (λ b. if b then true else has_resource key rest) (eq_refl key),
      ap (λ b. if b then q else quantity_of key rest) (eq_refl key),
    ),
    All-both rest
        (λ e d k. (
          ap (λ b. if b then true else has_resource e.0 rest) d ∙ k.0,
          ap (λ b. if b then q else quantity_of e.0 rest) d ∙ k.1,
        ))
        h (IsMap-held rest hs),
  )

  held-all_held :
      (list rest : ResourceList)
      → All (λ e. (has_resource e.0 list ≡ true) × (quantity_of e.0 list ≡ e.1)) rest
      → all_held cmp_zero rest list ≡ true
  held-all_held list [] h = refl
  held-all_held list ((key, q) ∷ rest) ((h, k), hs) =
      and_true (and_true h (subst (λ r. cmp_zero q r ≡ true) (sym k) (cmp_refl q)))
        (held-all_held list rest hs)

  -- Where each resource and each type of condition is there once, a status equals itself.
  pub status_equal_refl :
      (st : VirtualNodeStatus)
      → IsMap st.allocatable
      → IsKeyed st.conditions
      → status_equal cmp_zero st st ≡ true
  unfolding status_equal resource_list_equal conditions_equal
  status_equal_refl st h k =
      and_true
        (and_true (node_phase_refl st.phase) (
          and_true (eq_refl st.virtual_node_name) (
            and_true (eq_refl st.provider_id)
              (and_true (length_refl st.observed_generation) (eq_refl st.message)))))
        (and_true
          (and_true (length_refl (length st.allocatable))
            (held-all_held st.allocatable st.allocatable (IsMap-held st.allocatable h)))
          (and_true (length_refl (length st.conditions))
            (all_indexed_found st.conditions st.conditions (IsKeyed-found st.conditions k))))
