-- ===== src/Consumer/Rounding.antt =====
-- chunksFor rounds a request up to whole chunks.
use federation_autoscaler.Base.{
  ℕ, suc, ◌+◌, ◌-◌, ◌*◌, ◌/◌, ◌≤◌, ◌<◌, ◌≡◌, refl, String, Bool, true, false, not, ◌||◌, ◌⊎◌,
  Option, none, some, [], ◌∷◌, All, arith, ap, ◌∙◌, sym, subst, ltb, if◌then◌else◌,
}
use federation_autoscaler.Base.Int.{
  ℤ, pos, negsuc, pos_part, int32, int64, int64_half, int32_half, quot, leb_ℤ, ltb_ℤ,
}
use federation_autoscaler.Consumer.Types.{ResourceList, Quantity, quantity_of, has_resource}
use federation_autoscaler.Consumer.Sizing.{chunks_needed, greater, max_needed, chunks_for}

-- Where the sum fits an int64, the quotient is the ceiling.
chunks_needed_exact :
    (r c : ℕ) → 0 < r → r + c < int64_half → chunks_needed (pos r) (pos c) ≡ pos ((r + c - 1) / c)
unfolding chunks_needed quot int64
chunks_needed_exact r c k h = ground arith

-- The ceiling is the least number of chunks that covers the request.
ceil-covers : (r c m : ℕ) → 0 < c → (r + c - 1) / c ≤ m → r ≤ m * c
ceil-covers r c m h k = grind arith

ceil-least : (r c m : ℕ) → 0 < c → r ≤ m * c → (r + c - 1) / c ≤ m
ceil-least r c m h k = grind arith

-- `m` chunks hold what is requested of one resource.
abbrev pub IsCovered : ResourceList → ℕ → String × Quantity → Type 0
IsCovered chunk m (name, q) =
    pos_part q.milli_value ≤ m * pos_part (quantity_of name chunk).milli_value

-- The sum of the two quantities fits an int64, and an int32 the chunks that cover the request.
abbrev pub IsSmall : ResourceList → String × Quantity → Type 0
IsSmall chunk (name, q) =
    let c = pos_part (quantity_of name chunk).milli_value in
    (pos_part q.milli_value + c < int64_half) × (pos_part q.milli_value ≤ (int32_half - 1) * c)

quantity_of_missing :
    (name : String) (list : ResourceList)
    → has_resource name list ≡ false
    → (quantity_of name list).milli_value ≡ pos 0
unfolding quantity_of has_resource
quantity_of_missing name [] h = refl
quantity_of_missing name ((key, q) ∷ list) h = ground (arith, quantity_of_missing name list)

-- What the loop answers from the maximum `k`.
Outcome : ResourceList → ResourceList → ℕ → Option ℤ → Type 0
Outcome chunk req k none = (m : ℕ) → All (IsCovered chunk m) req → ⊥
Outcome chunk req k (some (negsuc n)) = ⊥
Outcome chunk req k (some (pos j)) =
    (k ≤ j)
    × (k < int32_half → j < int32_half)
    × All (IsCovered chunk j) req
    × ((m : ℕ) → k ≤ m → All (IsCovered chunk m) req → j ≤ m)

module _ (chunk req : ResourceList) (e : String × Quantity) where
  Outcome-skip :
      (k : ℕ) (o : Option ℤ)
      → ((m : ℕ) → IsCovered chunk m e)
      → Outcome chunk req k o
      → Outcome chunk (e ∷ req) k o
  unfolding Outcome
  Outcome-skip k none h out = λ m (_, c). out m c
  Outcome-skip k (some (negsuc n)) h out = out
  Outcome-skip k (some (pos j)) h (a, b, c, d) = (a, b, (h j, c), λ m l (_, c). d m l c)

  Outcome-absent : (k : ℕ) → ((m : ℕ) → IsCovered chunk m e → ⊥) → Outcome chunk (e ∷ req) k none
  unfolding Outcome
  Outcome-absent k h = λ m (c, _). h m c

  Outcome-next :
      (k l n : ℕ) (o : Option ℤ)
      → ((m : ℕ) → n ≤ m → IsCovered chunk m e)
      → ((m : ℕ) → IsCovered chunk m e → n ≤ m)
      → n < int32_half
      → k ≤ l
      → n ≤ l
      → (l ≡ k) ⊎ (l ≡ n)
      → Outcome chunk req l o
      → Outcome chunk (e ∷ req) k o
  unfolding Outcome
  Outcome-next k l n none up down f g i w out = λ m (_, c). out m c
  Outcome-next k l n (some (negsuc j)) up down f g i w out = out
  Outcome-next k l n (some (pos j)) up down f g i w (a, b, c, d) = (
    omega arith,
    λ x. b (ground arith),
    (up j (omega arith), c),
    λ m x (y, z). d m (let n≤m = down m y in ground arith) z,
  )

positive : (z : ℤ) → leb_ℤ z (pos 0) ≡ false → (z ≡ pos (pos_part z)) × (0 < pos_part z)
positive (pos n) h = (refl, ground arith)
positive (negsuc n) h = ground arith

abbrev ceil : ℕ → ℕ → ℕ
ceil r c = (r + c - 1) / c

abbrev larger : ℕ → ℕ → ℕ
larger k n = if ltb k n then n else k

-- The maximum after one more resource.
greater_exact :
    (k : ℕ) (rv cv : ℤ)
    → leb_ℤ rv (pos 0) ≡ false
    → leb_ℤ cv (pos 0) ≡ false
    → pos_part rv + pos_part cv < int64_half
    → greater (pos k) (chunks_needed rv cv) ≡ pos (larger k (ceil (pos_part rv) (pos_part cv)))
greater_exact k rv cv h i l =
    let r = positive rv h in
    let c = positive cv i in
    let q = chunks_needed_exact (pos_part rv) (pos_part cv) r.1 l in
    let p : chunks_needed rv cv ≡ pos (ceil (pos_part rv) (pos_part cv)) =
      ap (λ z. chunks_needed z cv) r.0 ∙ ap (chunks_needed (pos (pos_part rv))) c.0 ∙ q in
    ap (greater (pos k)) p ∙ pos_larger k (ceil (pos_part rv) (pos_part cv))
  where
    pos_larger : (a b : ℕ) → greater (pos a) (pos b) ≡ pos (larger a b)
    pos_larger a b = ground arith

absent :
    (name : String) (chunk : ResourceList)
    → not (has_resource name chunk) || leb_ℤ (quantity_of name chunk).milli_value (pos 0) ≡ true
    → pos_part (quantity_of name chunk).milli_value ≡ 0
absent name chunk h = ground (arith, quantity_of_missing name chunk)

present : (a b : Bool) → not a || b ≡ false → b ≡ false
present a b h = ground arith

-- The number of chunks needed for a small request fits an int32.
ceil_small : (r c : ℕ) → 0 < c → r ≤ (int32_half - 1) * c → ceil r c < int32_half
ceil_small r c h k = omega (arith, ceil-least r c (int32_half - 1) h k)

uncoverable : (r c m : ℕ) → 0 < r → c ≡ 0 → r ≤ m * c → ⊥
uncoverable r c m h e k = grind arith

module _ (chunk : ResourceList) where
  abbrev chunk_milli : String → ℤ
  chunk_milli name = (quantity_of name chunk).milli_value

  -- One resource, tested as the loop tests it.
  round :
      (k : ℕ) (name : String) (q : Quantity) (req : ResourceList) (a b : Bool)
      → IsSmall chunk (name, q)
      → leb_ℤ q.milli_value (pos 0) ≡ a
      → not (has_resource name chunk) || leb_ℤ (chunk_milli name) (pos 0) ≡ b
      → ((l : ℕ) → Outcome chunk req l (max_needed chunk (pos l) req))
      → Outcome chunk ((name, q) ∷ req) k (
          if a
          then max_needed chunk (pos k) req
          else if b
          then none
          else max_needed chunk
              (greater (pos k) (chunks_needed q.milli_value (chunk_milli name)))
              req)
  round k name q req true b small e f rest =
      Outcome-skip chunk req (name, q) k _ (λ m. ground arith) (rest k)
  round k name q req false true small e f rest =
      let c = absent name chunk f in
      Outcome-absent chunk req (name, q) k
        (λ m x. uncoverable (pos_part q.milli_value) _ m (positive q.milli_value e).1 c x)
  round k name q req false false (sum, few) e f rest =
      let i = present (has_resource name chunk) (leb_ℤ (chunk_milli name) (pos 0)) f in
      let r = pos_part q.milli_value in
      let c = pos_part (chunk_milli name) in
      let l = larger k (ceil r c) in
      let h = (positive (chunk_milli name) i).1 in
      subst (λ z. Outcome chunk ((name, q) ∷ req) k (max_needed chunk z req))
        (sym (greater_exact k q.milli_value (chunk_milli name) e i sum))
        (Outcome-next chunk req (name, q) k l (ceil r c) _ (λ m x. ceil-covers r c m h x)
          (λ m x. ceil-least r c m h x) (ceil_small r c h few) (ground arith) (ground arith)
          (ground arith) (rest l))

  rounds :
      (req : ResourceList)
      → All (IsSmall chunk) req
      → (k : ℕ) → Outcome chunk req k (max_needed chunk (pos k) req)
  unfolding max_needed Outcome
  rounds [] h k = (omega arith, λ l. l, tt, λ m l _. l)
  rounds ((name, q) ∷ req) (h, hs) k = round k name q req _ _ h refl refl (rounds req hs)

  outcome-count :
      (req : ResourceList) (o : Option ℤ)
      → Outcome chunk req 0 o
      → (n : ℕ)
      → elim o [ none ↦ pos 0 | some n ↦ if ltb_ℤ n (pos 1) then pos 0 else int32 n ] ≡ pos (suc n)
      → All (IsCovered chunk (suc n)) req × ((m : ℕ) → All (IsCovered chunk m) req → suc n ≤ m)
  unfolding Outcome int32
  outcome-count req none out n e = ground arith
  outcome-count req (some (negsuc j)) out n e = absurd out
  outcome-count req (some (pos j)) (a, b, c, d) n e =
      let small : j < int32_half = b (omega arith) in
      let same : j ≡ suc n = ground arith in
      subst (λ i. All (IsCovered chunk i) req × ((m : ℕ) → All (IsCovered chunk m) req → i ≤ m))
        same (c, λ m x. d m (omega arith) x)

  -- For a request that is small against the chunk: a positive answer is the least number of chunks
  -- that holds what is requested of every resource.
  pub chunks_for-least :
      (req : ResourceList) (n : ℕ)
      → All (IsSmall chunk) req
      → chunks_for req chunk ≡ pos (suc n)
      → All (IsCovered chunk (suc n)) req × ((m : ℕ) → All (IsCovered chunk m) req → suc n ≤ m)
  unfolding chunks_for
  chunks_for-least req n h e = outcome-count req _ (rounds req h 0) n e
