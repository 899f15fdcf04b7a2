-- ===== src/Consumer/Orderly/Writes.antt =====
-- The status writes and the hold on the nodes keep the order.
use federation_autoscaler.Base.{
  ℕ, suc, String, Bool, true, false, ◌≡◌, refl, ◌⊎◌, inl, inr, List, [], ◌∷◌, str_eq, if◌then◌else◌,
  arith, eq_refl, subst, sym,
}
use federation_autoscaler.Base.Int.{ℤ}
use federation_autoscaler.Kube.Core.{Event, Run}
use federation_autoscaler.Consumer.Types.{ResourceRequest, pending, failed}
use federation_autoscaler.Consumer.Holding.{
  Change, only_phase, reserved_change, changed, transition_time, write_phase, set_pending,
  set_failed, set_phase_reserved, disable_scale_down, protect_all, protect_reservation_nodes,
  held_change, report_held, hold_reservation,
}
use federation_autoscaler.Kube.Bind.{then_keeps}
use federation_autoscaler.Consumer.Port
use federation_autoscaler.Consumer.Port.{Agent, RequestReconciler}
use federation_autoscaler.Consumer.Orderly.{PostedLast, IsOrderly}

kept-or-posted :
    (b : Bool) (old id : String) (log : List Event)
    → (b ≡ true) ⊎ PostedLast id log
    → ((if b then old else id) ≡ old) ⊎ PostedLast (if b then old else id) log
kept-or-posted true old id log h = inl refl
kept-or-posted false old id log (inl e) = ground arith
kept-or-posted false old id log (inr h) = inr h

module _ {F W : Type 0} (r : RequestReconciler F) (c : Agent F W) (rr : ResourceRequest) where
  transition_time-log : (new : Change) (s : Run W) → (transition_time r c rr new s).1.log ≡ s.log
  unfolding transition_time
  transition_time-log new s = ground arith

  changed-MayRecord :
      (new : Change) (log : List Event)
      → (new.reservation_id ≡ "") ⊎ PostedLast new.reservation_id log
      → ((changed new rr.status).reservation_id ≡ rr.status.reservation_id)
        ⊎ PostedLast (changed new rr.status).reservation_id log
  unfolding changed
  changed-MayRecord new log (inl e) =
      kept-or-posted (str_eq new.reservation_id "") _ new.reservation_id log
        (inl (subst (λ id. str_eq id "" ≡ true) (sym e) (eq_refl "")))
  changed-MayRecord new log (inr h) =
      kept-or-posted (str_eq new.reservation_id "") _ new.reservation_id log (inr h)

  -- A status write that names no reservation, or one that was just made.
  pub write_phase-IsOrderly :
      (new : Change) (s : Run W)
      → (new.reservation_id ≡ "") ⊎ PostedLast new.reservation_id s.log
      → IsOrderly rr s.log
      → IsOrderly rr (write_phase r c rr new s).1.log
  unfolding write_phase
  write_phase-IsOrderly new s h k =
      ground (arith, transition_time-log new s, changed-MayRecord new s.log h)

  pub set_pending-IsOrderly :
      (m : String) (s : Run W) → IsOrderly rr s.log → IsOrderly rr (set_pending r c rr m s).1.log
  unfolding set_pending
  set_pending-IsOrderly m s k =
      ground (arith, write_phase-IsOrderly (only_phase pending m) s (inl refl) k)

  pub set_failed-IsOrderly :
      (m : String) (s : Run W) → IsOrderly rr s.log → IsOrderly rr (set_failed r c rr m s).1.log
  unfolding set_failed
  set_failed-IsOrderly m s k =
      ground (arith, write_phase-IsOrderly (only_phase failed m) s (inl refl) k)

  pub set_phase_reserved-IsOrderly :
      (id provider : String) (n : ℤ) (s : Run W)
      → PostedLast id s.log
      → IsOrderly rr s.log
      → IsOrderly rr (set_phase_reserved r c rr id provider n s).1.log
  unfolding set_phase_reserved
  set_phase_reserved-IsOrderly id provider n s h k =
      let new = reserved_change r c id provider n in
      ground (arith, write_phase-IsOrderly new s (inr h) k)

  disable_scale_down-IsOrderly :
      (name : String) (s : Run W)
      → IsOrderly rr s.log
      → IsOrderly rr (disable_scale_down r c name s).1.log
  unfolding disable_scale_down
  disable_scale_down-IsOrderly name s k = ground arith

  protect_all-IsOrderly :
      (names : List String) (n : ℕ) (s : Run W)
      → IsOrderly rr s.log
      → IsOrderly rr (protect_all r c n names s).1.log
  unfolding protect_all
  protect_all-IsOrderly [] n s k = k
  protect_all-IsOrderly (name ∷ names) n s k =
      let u = (disable_scale_down r c name s).1 in
      let h = disable_scale_down-IsOrderly name s k in
      ground (
        arith,
        protect_all-IsOrderly names n s k,
        protect_all-IsOrderly names n u h,
        protect_all-IsOrderly names (suc n) u h,
      )

  protect_reservation_nodes-IsOrderly :
      (id : String) (s : Run W)
      → IsOrderly rr s.log
      → IsOrderly rr (protect_reservation_nodes r c id s).1.log
  unfolding protect_reservation_nodes
  protect_reservation_nodes-IsOrderly id s k =
      then_keeps (λ u. IsOrderly rr u.log) (protect_all r c 0) (Port.list_virtual_nodes c id) s k
        (λ names u h. protect_all-IsOrderly names 0 u h)

  held_change_names_none : (n : ℕ) → (held_change r c rr n).reservation_id ≡ ""
  held_change_names_none n = ground arith

  report_held-IsOrderly :
      (n : ℕ) (s : Run W) → IsOrderly rr s.log → IsOrderly rr (report_held r c rr n s).1.log
  unfolding report_held
  report_held-IsOrderly n s k =
      let new = held_change r c rr n in
      ground (arith, write_phase-IsOrderly new s (inl (held_change_names_none n)) k)

  pub hold_reservation-IsOrderly :
      (s : Run W) → IsOrderly rr s.log → IsOrderly rr (hold_reservation r c rr s).1.log
  unfolding hold_reservation
  hold_reservation-IsOrderly s k =
      let id = rr.status.reservation_id in
      then_keeps (λ u. IsOrderly rr u.log) (report_held r c rr) (protect_reservation_nodes r c id) s
        (protect_reservation_nodes-IsOrderly id s k) (λ n u h. report_held-IsOrderly n u h)
