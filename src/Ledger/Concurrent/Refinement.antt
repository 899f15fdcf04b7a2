-- ===== src/Ledger/Concurrent/Refinement.antt =====
-- The concurrent ledger implements a pool of chunks that are taken and given back at once.
use federation_autoscaler.Base.{ℕ, ◌+◌, ◌-◌, ◌≤◌, ◌<◌, ◌≡◌}
use federation_autoscaler.Base.Int.{pos_part}
use federation_autoscaler.Api.{ClusterAdvertisement}
use federation_autoscaler.Ledger.Concurrent.{balance, System}

-- What a provider offers and what is counted as taken of it.
pub record Pool : Type 0 where
  pub total : ℕ
  pub taken : ℕ

-- A taker gets chunks only where the count leaves that many; giving back never counts below zero;
-- the provider may change what it offers.
pub data Move (p : Pool) : Pool → Type 0 where
  take : (n : ℕ) → 0 < n → p.taken + n ≤ p.total → Move p (record p { taken = p.taken + n })
  give : (n : ℕ) → Move p (record p { taken = p.taken - n })
  resize : (n : ℕ) → Move p (record p { total = n })

pub data Moves (p : Pool) : Pool → Type 0 where
  none_yet : Moves p p
  then_move : {q r : Pool} → Moves p q → Move q r → Moves p r

abbrev pub pool_of : System → Pool
pool_of s = record {
  total = pos_part s.stored.status.total_chunks;
  taken = pos_part s.stored.status.reserved_chunks;
}

-- The same, with what the history leaves charged.
abbrev pool_by : System → Pool
pool_by s = record { total = pos_part s.stored.status.total_chunks; taken = balance s.entries }

-- A write of each kind but a publication keeps the total.
KeepsTotal : ClusterAdvertisement → ClusterAdvertisement → Type 0
KeepsTotal old new = new.status.total_chunks ≡ old.status.total_chunks
