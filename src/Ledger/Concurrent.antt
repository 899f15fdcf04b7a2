-- ===== src/Ledger/Concurrent.antt =====
-- One advertisement, written by any number of requests and reconcilers that run at once: each reads
-- the object, and its write is accepted only while the object is still the version that it read.
pub mod Invariant
pub mod Refinement
pub mod Steps
use federation_autoscaler.Base.{
  ℕ, suc, ◌+◌, ◌-◌, List, [], ◌∷◌, ◌<◌, ◌≡◌, ◌≢◌, Bool, Option, none, some, if◌then◌else◌, ◌==◌,
}
use federation_autoscaler.Base.Int.{pos, neg, int32_half}
use federation_autoscaler.Api.{ClusterAdvertisement, Reservation}
use federation_autoscaler.Ledger.Arithmetic.{IsBalanced}
use federation_autoscaler.Ledger.Reserving.{ReservesIn}
use federation_autoscaler.Ledger.Releasing.{Credits}
use federation_autoscaler.Ledger.Adjusting.{Adjusts}
use federation_autoscaler.Advertisements.Staleness.{refreshed}
use federation_autoscaler.Advertisements.Publishing.{Publishes}

-- What a process has read last: the version and the object.
abbrev pub Snapshot : Type 0
Snapshot = Option (ℕ × ClusterAdvertisement)

abbrev pub update {ℓ} : {A : Type ℓ} → (ℕ → A) → ℕ → A → ℕ → A
update f i a j = if i == j then a else f j

-- A write of the counters that the server accepted: chunks charged, or chunks given back.
pub data Entry : Type 0 where
  charged : ℕ → Entry
  returned : ℕ → Entry

-- What the entries leave charged, the last one first. A return beyond it leaves nothing.
abbrev pub balance : List Entry → ℕ
balance [] = 0
balance (charged n ∷ entries) = balance entries + n
balance (returned n ∷ entries) = balance entries - n

-- The object at the server, its version, the history of the accepted writes of its counters, and
-- what each process has read. No step depends on the history.
pub record System : Type 0 where
  pub stored : ClusterAdvertisement
  pub version : ℕ
  pub entries : List Entry
  pub seen : ℕ → Snapshot

abbrev pub commit : ClusterAdvertisement → List Entry → System → System
commit new entries s = record s { stored = new; version = suc s.version; entries = entries }

-- The read of process `i` is still current.
abbrev pub IsCurrent : System → ℕ → ClusterAdvertisement → Type 0
IsCurrent s i old = s.seen i ≡ some (s.version, old)

-- A read, a write of each kind by a process whose read is current, or a write that is refused. A
-- reservation tests the object that its process has read. A count is an int32 that is not negative; what is
-- credited or given back need not have been reserved, and may come again.
pub data Step (s : System) : System → Type 0 where
  read : (i : ℕ) → Step s (record s { seen = update s.seen i (some (s.version, s.stored)) })
  reserve :
      (i n : ℕ) (old new : ClusterAdvertisement)
      → IsCurrent s i old
      → 0 < n
      → ReservesIn (pos n) old new
      → Step s (commit new (charged n ∷ s.entries) s)
  credit :
      (i n : ℕ) (resv : Reservation) (old new : ClusterAdvertisement)
      → IsCurrent s i old
      → n < int32_half
      → resv.spec.chunk_count ≡ pos n
      → Credits resv old new
      → Step s (commit new (returned n ∷ s.entries) s)
  give_back :
      (i n : ℕ) (old new : ClusterAdvertisement)
      → IsCurrent s i old
      → n < int32_half
      → Adjusts (neg (pos n)) old new
      → Step s (commit new (returned n ∷ s.entries) s)
  refresh :
      (i : ℕ) (stale : Bool) (old : ClusterAdvertisement)
      → IsCurrent s i old
      → Step s (commit (refreshed stale old) s.entries s)
  publish :
      (i n : ℕ) (old new : ClusterAdvertisement)
      → IsCurrent s i old
      → n < int32_half
      → Publishes (pos n) old new
      → Step s (commit new s.entries s)
  refuse :
      (i v : ℕ) (old : ClusterAdvertisement) → s.seen i ≡ some (v, old) → v ≢ s.version → Step s s

-- Nobody has read, the counters are balanced, and the reserved one is the balance of the history.
pub record IsStart (s : System) : Type 0 where
  pub balanced : IsBalanced s.stored.status
  pub accounted : s.stored.status.reserved_chunks ≡ pos (balance s.entries)
  pub unread : (i : ℕ) → s.seen i ≡ none

pub data Reach (s : System) : System → Type 0 where
  start : Reach s s
  later : {t u : System} → Reach s t → Step t u → Reach s u
