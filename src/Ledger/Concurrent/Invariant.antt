-- ===== src/Ledger/Concurrent/Invariant.antt =====
-- No interleaving of reads and writes loses a write of the counters.
use federation_autoscaler.Base.{
  List, ◌∷◌, ℕ, suc, ◌+◌, ◌-◌, ◌≤◌, ◌<◌, ◌≡◌, ◌==◌, if◌then◌else◌, Bool, true, false, none, some,
  arith, subst, sym, ap, ◌∙◌, refl,
}
use federation_autoscaler.Base.Int.{
  pos, neg, ◌-ℤ◌, ◌≤ℤ◌, floor_zero, InInt32, int32_half, int32, add32, sub32,
}
use federation_autoscaler.Api.{AdvertisementStatus, ClusterAdvertisement}
use federation_autoscaler.Ledger.Arithmetic.{reserved, credited, adjusted}
use federation_autoscaler.Advertisements.Staleness.{refreshed}
use federation_autoscaler.Advertisements.Publishing.{touched}
use federation_autoscaler.Ledger.Concurrent.{
  Entry, charged, returned, balance, System, Snapshot, update, commit, IsCurrent, Step, read,
  reserve, credit, give_back, refresh, publish, refuse, IsStart, Reach, start, later,
}

-- The reserved counter is what is charged, and no more is available than the total leaves.
pub record IsSound (held : ℕ) (st : AdvertisementStatus) : Type 0 where
  pub total_in_range : (pos 0 ≤ℤ st.total_chunks) × InInt32 st.total_chunks
  pub reserved_exact : st.reserved_chunks ≡ pos held
  pub held_in_range : held < int32_half
  pub available_sound : st.available_chunks ≤ℤ floor_zero (st.total_chunks -ℤ pos held)

-- A snapshot of the current version is the object at the server.
abbrev pub Agrees : ℕ → ClusterAdvertisement → Snapshot → Type 0
Agrees version stored none = Unit
Agrees version stored (some (v, old)) = (v ≤ version) × (v ≡ version → old ≡ stored)

pub record Inv (s : System) : Type 0 where
  pub sound : IsSound (balance s.entries) s.stored.status
  pub agrees : (i : ℕ) → Agrees s.version s.stored (s.seen i)

reserved-IsSound :
    (held n : ℕ) (st : AdvertisementStatus)
    → IsSound held st
    → 0 < n
    → pos n ≤ℤ st.available_chunks
    → IsSound (held + n) (reserved (pos n) st)
unfolding reserved add32 sub32 int32
reserved-IsSound held n st v k h = ground arith

credited-IsSound :
    (held n : ℕ) (st : AdvertisementStatus)
    → IsSound held st
    → n < int32_half
    → IsSound (held - n) (credited (pos n) st)
unfolding credited sub32 int32
credited-IsSound held n st v h = ground arith

adjusted-IsSound :
    (held n : ℕ) (st : AdvertisementStatus)
    → IsSound held st
    → n < int32_half
    → IsSound (held - n) (adjusted (neg (pos n)) st)
unfolding adjusted add32 sub32 int32
adjusted-IsSound held n st v h = ground arith

refreshed-IsSound :
    (held : ℕ) (stale : Bool) (cadv : ClusterAdvertisement)
    → IsSound held cadv.status
    → IsSound held (refreshed stale cadv).status
unfolding refreshed
refreshed-IsSound held true cadv v = ground arith
refreshed-IsSound held false cadv v = ground arith

touched-IsSound :
    (held n now : ℕ) (cadv : ClusterAdvertisement)
    → IsSound held cadv.status
    → n < int32_half
    → IsSound held (touched (pos n) now cadv).status
unfolding touched sub32 int32
touched-IsSound held n now cadv v h = ground arith

Agrees-commit :
    (version : ℕ) (stored new : ClusterAdvertisement) (x : Snapshot)
    → Agrees version stored x
    → Agrees (suc version) new x
Agrees-commit version stored new none h = tt
Agrees-commit version stored new (some (v, old)) h = ground arith

Agrees-if :
    (b : Bool) (s : System)
    → Inv s
    → (j : ℕ) → Agrees s.version s.stored (if b then some (s.version, s.stored) else s.seen j)
Agrees-if true s inv j = (omega arith, λ _. refl)
Agrees-if false s inv j = inv.agrees j

Agrees-read :
    (s : System)
    → Inv s
    → (i j : ℕ) → Agrees s.version s.stored (update s.seen i (some (s.version, s.stored)) j)
Agrees-read s inv i j = Agrees-if (i == j) s inv j

-- The object that a process whose read is current has seen is the object at the server.
pub same :
    (s : System) (i : ℕ) (old : ClusterAdvertisement) → Inv s → IsCurrent s i old → old ≡ s.stored
same s i old inv q =
    let a : Agrees s.version s.stored (some (s.version, old)) =
      subst (Agrees s.version s.stored) q (inv.agrees i) in
    a.1 refl

pub current :
    (s : System) (i : ℕ) (old : ClusterAdvertisement)
    → Inv s
    → IsCurrent s i old
    → IsSound (balance s.entries) old.status
current s i old inv q =
    subst (λ cadv. IsSound (balance s.entries) cadv.status) (sym (same s i old inv q)) inv.sound

-- The invariant after a write of an object that equals a sound one.
committed :
    (s : System) (new target : ClusterAdvertisement) (entries : List Entry)
    → Inv s
    → new ≡ target
    → IsSound (balance entries) target.status
    → Inv (commit new entries s)
committed s new target entries inv e h = record {
  sound = subst (λ cadv. IsSound (balance entries) cadv.status) (sym e) h;
  agrees = λ i. Agrees-commit s.version s.stored new (s.seen i) (inv.agrees i);
}

-- Every step keeps the invariant.
pub Step-Inv : {s t : System} → Step s t → Inv s → Inv t
Step-Inv {s} (read i) inv = record { sound = inv.sound; agrees = λ j. Agrees-read s inv i j }
Step-Inv {s} (reserve i n old new q k (h, e)) inv =
    committed s new _ (charged n ∷ s.entries) inv e
      (reserved-IsSound (balance s.entries) n old.status (current s i old inv q) k h)
Step-Inv {s} (credit i n resv old new q k c e) inv =
    committed s new (record old { status = credited (pos n) old.status }) (returned n ∷ s.entries)
      inv (e ∙ ap (λ x. record old { status = credited x old.status }) c)
      (credited-IsSound (balance s.entries) n old.status (current s i old inv q) k)
Step-Inv {s} (give_back i n old new q k e) inv =
    committed s new _ (returned n ∷ s.entries) inv e
      (adjusted-IsSound (balance s.entries) n old.status (current s i old inv q) k)
Step-Inv {s} (refresh i stale old q) inv =
    committed s _ _ s.entries inv refl
      (refreshed-IsSound (balance s.entries) stale old (current s i old inv q))
Step-Inv {s} (publish i n old new q k (now, e)) inv =
    committed s new _ s.entries inv e
      (touched-IsSound (balance s.entries) n now old (current s i old inv q) k)
Step-Inv {s} (refuse i v old q k) inv = inv

start-IsSound : (s : System) → IsStart s → IsSound (balance s.entries) s.stored.status
start-IsSound s h = let b = h.balanced in let a = h.accounted in ground arith

start-Inv : (s : System) → IsStart s → Inv s
start-Inv s h = record {
  sound = start-IsSound s h;
  agrees = λ i. subst (Agrees s.version s.stored) (sym (h.unread i)) tt;
}

-- However the reads and writes of all processes interleave, credits that match no reservation
-- included, from balanced counters that are the balance of the history, every accepted write with an
-- int32 that is not negative as its count: the reserved counter stays the balance of all accepted writes, in the
-- order in which they were accepted, so that none is lost; no more is shown as available than the
-- total less that balance; and every snapshot of the current version is the object at the server.
pub Reach-Inv : {s t : System} → IsStart s → Reach s t → Inv t
Reach-Inv {s} h start = start-Inv s h
Reach-Inv h (later r st) = Step-Inv st (Reach-Inv h r)
