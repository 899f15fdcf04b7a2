-- ===== src/Ledger/Arithmetic.antt =====
-- The counters before and after one write. The counts are int32, with wrap-around.
use federation_autoscaler.Base.{ℕ, ◌<◌, ◌≡◌, arith}
use federation_autoscaler.Base.Int.{
  ℤ, pos, neg, ◌+ℤ◌, ◌-ℤ◌, ◌≤ℤ◌, int32, InInt32, add32, sub32, floor_zero,
}
use federation_autoscaler.Api.{AdvertisementStatus}

-- `ReservedChunks = next`, and AvailableChunks recomputed from TotalChunks.
unfoldable pub set_reserved : ℤ → AdvertisementStatus → AdvertisementStatus
set_reserved next st = record st {
  reserved_chunks = next;
  available_chunks = floor_zero (sub32 st.total_chunks next);
}

-- The body of adjustReservedChunks.
unfoldable pub adjusted : ℤ → AdvertisementStatus → AdvertisementStatus
unfolding set_reserved
adjusted delta st = set_reserved (floor_zero (add32 st.reserved_chunks delta)) st

-- The body of releaseChunks.
unfoldable pub credited : ℤ → AdvertisementStatus → AdvertisementStatus
unfolding set_reserved
credited count st = set_reserved (floor_zero (sub32 st.reserved_chunks count)) st

-- The body of reserveChunks, behind its test of AvailableChunks.
unfoldable pub reserved : ℤ → AdvertisementStatus → AdvertisementStatus
unfolding set_reserved
reserved count st = set_reserved (add32 st.reserved_chunks count) st

-- The counters of an advertisement that is being served: non-negative int32 values, and exactly
-- the chunks that are not reserved are available.
pub record IsBalanced (st : AdvertisementStatus) : Type 0 where
  pub total_in_range : (pos 0 ≤ℤ st.total_chunks) × InInt32 st.total_chunks
  pub reserved_in_range : (pos 0 ≤ℤ st.reserved_chunks) × InInt32 st.reserved_chunks
  pub available_exact : st.available_chunks ≡ floor_zero (st.total_chunks -ℤ st.reserved_chunks)

-- A positive reservation that the free chunks cover keeps balanced counters balanced and within
-- the total, adds its count to the reserved chunks and takes it from the available ones.
pub reserved-IsBalanced :
    (n : ℕ) (st : AdvertisementStatus)
    → IsBalanced st
    → pos n ≤ℤ st.available_chunks
    → 0 < n
    → IsBalanced (reserved (pos n) st)
      × ((reserved (pos n) st).reserved_chunks ≡ st.reserved_chunks +ℤ pos n)
      × ((reserved (pos n) st).reserved_chunks ≤ℤ st.total_chunks)
      × ((reserved (pos n) st).available_chunks +ℤ pos n ≡ st.available_chunks)
unfolding reserved add32 sub32 int32
reserved-IsBalanced n st v h k = ground arith

-- Crediting chunks back keeps the counters balanced, never takes the reserved count below zero and
-- never makes more than the total available.
pub credited-IsBalanced :
    (n : ℕ) (st : AdvertisementStatus)
    → IsBalanced st
    → InInt32 (pos n)
    → IsBalanced (credited (pos n) st)
      × ((credited (pos n) st).reserved_chunks ≡ floor_zero (st.reserved_chunks -ℤ pos n))
      × ((credited (pos n) st).available_chunks ≤ℤ st.total_chunks)
unfolding credited sub32 int32
credited-IsBalanced n st v h = ground arith

-- From balanced counters, crediting a positive count back right after it was reserved restores
-- the counters.
pub credited-reserved :
    (n : ℕ) (st : AdvertisementStatus)
    → IsBalanced st
    → pos n ≤ℤ st.available_chunks
    → 0 < n
    → credited (pos n) (reserved (pos n) st) ≡ st
unfolding credited reserved add32 sub32 int32
credited-reserved n st v h k = ground arith

-- The two implementations of the credit, the handler's `+ (-count)` and the reconciler's
-- `- count`, agree on every count that an int32 holds with its negation.
pub adjusted-credited :
    (n : ℕ) (st : AdvertisementStatus)
    → InInt32 st.reserved_chunks
    → InInt32 (pos n)
    → adjusted (neg (pos n)) st ≡ credited (pos n) st
unfolding adjusted credited add32 sub32
adjusted-credited n st h k = ground arith
