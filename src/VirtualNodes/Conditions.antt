-- ===== src/VirtualNodes/Conditions.antt =====
-- What setCondition and updateConditions leave in a list of conditions.
use federation_autoscaler.Base.{
  String, Bool, true, false, not, All, List, [], ◌∷◌, ◌≡◌, refl, sym, ap, subst, ◌∙◌, str_eq,
  eq_refl, eq_iff, if◌then◌else◌, Bool-cases, inl, inr,
}
use federation_autoscaler.Kube.Core.{M, Run, Result, pure, ok, err, ◌>>=◌}
use federation_autoscaler.Kube.Bind.{Post, Post-imp, Post-any, bind_returns, bind_ok}
use federation_autoscaler.Api.{Time}
use federation_autoscaler.Agent.Types.{Condition}
use federation_autoscaler.Agent.Calls.{Cluster}
use federation_autoscaler.VirtualNodes.Status.{set_condition, flipped, same_status}

-- The first condition of the type says this.
abbrev pub IsShown : String → Bool → String → String → List Condition → Type 0
IsShown type_name holds reason message [] = ⊥
IsShown type_name holds reason message (x ∷ xs) =
    if str_eq x.condition_type type_name
    then (x.status ≡ holds) × (x.reason ≡ reason) × (x.message ≡ message)
    else IsShown type_name holds reason message xs

-- No two conditions have one type: `+listType=map`.
abbrev pub IsKeyed : List Condition → Type 0
IsKeyed [] = Unit
IsKeyed (x ∷ xs) = All (λ y. str_eq y.condition_type x.condition_type ≡ false) xs × IsKeyed xs

pub str_eq_sym_false : (a b : String) → str_eq a b ≡ false → str_eq b a ≡ false
str_eq_sym_false a b h = elim (Bool-cases (str_eq b a)) [
  | inl e ↦ absurd (ap_absurd (subst (λ x. str_eq a x ≡ true) (sym ((eq_iff b a).0 e)) (eq_refl a)))
  | inr e ↦ e
]
  where
    ap_absurd : str_eq a b ≡ true → ⊥
    ap_absurd k = cc

pub same_status_refl : (b : Bool) → same_status b b ≡ true
same_status_refl true = refl
same_status_refl false = refl

abbrev AreApart : String → List Condition → Type 0
AreApart name xs = All (λ y. str_eq y.condition_type name ≡ false) xs

pub Post-and :
    {A : Type 0} (P Q : A → Type 0) (r : Result A) → Post P r → Post Q r → Post (λ a. P a × Q a) r
Post-and P Q (ok a) p q = (p, q)
Post-and P Q (err e) p q = tt

module _ {W : Type 0} (c : Cluster W) where
  module _ (type_name : String) (holds : Bool) (reason message : String) where
    abbrev set : List Condition → M W (List Condition)
    set xs = set_condition c xs type_name holds reason message

    -- What is true of the list with the condition touched, and of the list with a changed tail.
    set_condition-cons :
        (P : List Condition → Type 0) (x : Condition) (xs : List Condition) (s : Run W)
        → (str_eq x.condition_type type_name ≡ true
            → (t : Time)
            → P (
                record x {
                  status = holds;
                  reason = reason;
                  message = message;
                  last_transition_time = t;
                }
                ∷ xs))
        → (str_eq x.condition_type type_name ≡ false → Post (λ rest. P (x ∷ rest)) (set xs s).0)
        → Post P (set (x ∷ xs) s).0
    unfolding set_condition
    set_condition-cons P x xs s here later =
        by_type (str_eq x.condition_type type_name) (not (same_status x.status holds)) here later
      where
        by_type :
            (b f : Bool)
            → (b ≡ true
                → (t : Time)
                → P (
                    record x {
                      status = holds;
                      reason = reason;
                      message = message;
                      last_transition_time = t;
                    }
                    ∷ xs))
            → (b ≡ false → Post (λ rest. P (x ∷ rest)) (set xs s).0)
            → Post P
                ((if b
                    then (flipped c f x >>= (λ y.
                        pure
                          (record y { status = holds; reason = reason; message = message } ∷ xs)))
                    else (set xs >>= (λ rest. pure (x ∷ rest))))
                  s).0
        by_type true true h k = h refl (c.now s.world).0
        by_type true false h k = h refl x.last_transition_time
        by_type false f h k =
            bind_returns (λ rest. P (x ∷ rest)) P (λ rest. pure (x ∷ rest)) (set xs) s (k refl)
              (λ rest u q. q)

    pub set_condition-IsShown :
        (xs : List Condition) (s : Run W)
        → Post (IsShown type_name holds reason message) (set xs s).0
    unfolding set_condition
    set_condition-IsShown [] s =
        subst (λ b. if b then (holds ≡ holds) × (reason ≡ reason) × (message ≡ message) else ⊥)
          (sym (eq_refl type_name)) (refl, refl, refl)
    set_condition-IsShown (x ∷ xs) s =
        set_condition-cons (IsShown type_name holds reason message) x xs s
          (λ e t.
            subst
              (λ b.
                if b
                then (holds ≡ holds) × (reason ≡ reason) × (message ≡ message)
                else IsShown type_name holds reason message xs)
              (sym e) (refl, refl, refl))
          (λ e.
            Post-imp (IsShown type_name holds reason message)
              (λ rest. IsShown type_name holds reason message (x ∷ rest))
              (λ rest h.
                subst
                  (λ b.
                    if b
                    then (x.status ≡ holds) × (x.reason ≡ reason) × (x.message ≡ message)
                    else IsShown type_name holds reason message rest)
                  (sym e) h)
              (set xs s).0 (set_condition-IsShown xs s))

    -- Where it is shown already, nothing changes and no clock is read.
    pub set_condition_settled :
        (xs : List Condition) (s : Run W)
        → IsShown type_name holds reason message xs
        → set xs s ≡ (ok xs, s)
    unfolding set_condition
    set_condition_settled [] s h = absurd h
    set_condition_settled (x ∷ xs) s h =
        by_type (str_eq x.condition_type type_name) (set_condition_settled xs s) h
      where
        touched :
            (x.status ≡ holds) × (x.reason ≡ reason) × (x.message ≡ message)
            → record x { status = holds; reason = reason; message = message } ≡ x
        touched (e, f, g) = cc

        kept :
            (f : Bool)
            → f ≡ true
            → (x.status ≡ holds) × (x.reason ≡ reason) × (x.message ≡ message)
            → (flipped c (not f) x >>= (λ y.
                  pure (record y { status = holds; reason = reason; message = message } ∷ xs)))
                s
              ≡ (ok (x ∷ xs), s)
        kept true e k = ap (λ y. (ok (y ∷ xs), s)) (touched k)
        kept false e k = absurd (cc)

        by_type :
            (b : Bool)
            → (IsShown type_name holds reason message xs → set xs s ≡ (ok xs, s))
            → (if b
                then (x.status ≡ holds) × (x.reason ≡ reason) × (x.message ≡ message)
                else IsShown type_name holds reason message xs)
            → (if b
                  then (flipped c (not (same_status x.status holds)) x >>= (λ y.
                      pure (record y { status = holds; reason = reason; message = message } ∷ xs)))
                  else (set xs >>= (λ rest. pure (x ∷ rest))))
                s
              ≡ (ok (x ∷ xs), s)
        by_type true rest k =
            kept (same_status x.status holds)
              (subst (λ b. same_status b holds ≡ true) (sym k.0) (same_status_refl holds)) k
        by_type false rest k =
            bind_ok (λ list. pure (x ∷ list)) (set xs) s xs (ap (λ out. out.0) (rest k))
            ∙ ap (λ out. (ok (x ∷ xs), out.1)) (rest k)

    -- What is shown of another type stays.
    pub set_condition-other :
        (other_name : String) (b : Bool) (r m : String)
        → str_eq type_name other_name ≡ false
        → (xs : List Condition) (s : Run W) → IsShown other_name b r m xs
        → Post (IsShown other_name b r m) (set xs s).0
    set_condition-other other_name b r m d [] s h = absurd h
    set_condition-other other_name b r m d (x ∷ xs) s h =
        set_condition-cons (IsShown other_name b r m) x xs s (λ e t. differs e t)
          (λ e.
            later (str_eq x.condition_type other_name) h
              (set_condition-other other_name b r m d xs s))
      where
        differs :
            str_eq x.condition_type type_name ≡ true
            → (t : Time)
            → IsShown other_name b r m (
                record x {
                  status = holds;
                  reason = reason;
                  message = message;
                  last_transition_time = t;
                }
                ∷ xs)
        differs e t =
            let apart : str_eq x.condition_type other_name ≡ false =
              subst (λ n. str_eq n other_name ≡ false)
                (sym ((eq_iff x.condition_type type_name).0 e)) d in
            subst
              (λ f.
                if f
                then (holds ≡ b) × (reason ≡ r) × (message ≡ m)
                else IsShown other_name b r m xs)
              (sym apart)
              (subst
                (λ f.
                  if f
                  then (x.status ≡ b) × (x.reason ≡ r) × (x.message ≡ m)
                  else IsShown other_name b r m xs)
                apart h)

        later :
            (f : Bool)
            → (if f
                then (x.status ≡ b) × (x.reason ≡ r) × (x.message ≡ m)
                else IsShown other_name b r m xs)
            → (IsShown other_name b r m xs → Post (IsShown other_name b r m) (set xs s).0)
            → Post
                (λ rest.
                  if f
                  then (x.status ≡ b) × (x.reason ≡ r) × (x.message ≡ m)
                  else IsShown other_name b r m rest)
                (set xs s).0
        later true k rest = Post-imp (λ _. Unit) _ (λ _ _. k) (set xs s).0 (Post-any (set xs s).0)
        later false k rest = rest k

    set_condition-apart :
        (name : String)
        → str_eq type_name name ≡ false
        → (xs : List Condition) (s : Run W) → AreApart name xs
        → Post (AreApart name) (set xs s).0
    unfolding set_condition
    set_condition-apart name d [] s h = (d, tt)
    set_condition-apart name d (x ∷ xs) s (h, hs) =
        set_condition-cons (AreApart name) x xs s (λ e t. (h, hs))
          (λ e.
            Post-imp (AreApart name) (λ rest. AreApart name (x ∷ rest)) (λ rest k. (h, k))
              (set xs s).0 (set_condition-apart name d xs s hs))

    pub set_condition-IsKeyed :
        (xs : List Condition) (s : Run W) → IsKeyed xs → Post IsKeyed (set xs s).0
    unfolding set_condition
    set_condition-IsKeyed [] s h = (tt, tt)
    set_condition-IsKeyed (x ∷ xs) s (h, hs) =
        set_condition-cons IsKeyed x xs s (λ e t. (h, hs))
          (λ e.
            Post-and (AreApart x.condition_type) IsKeyed (set xs s).0
              (set_condition-apart x.condition_type (str_eq_sym_false x.condition_type type_name e)
                xs s h)
              (set_condition-IsKeyed xs s hs))
