-- ===== src/Chunks/Bounds.antt =====
-- The chunks of an advertisement fit into it, and no chunk more does.
use federation_autoscaler.Base.{
  ℕ, suc, ◌*◌, ◌/◌, ◌≤◌, ◌<◌, ◌≡◌, ◌∙◌, ap, arith, ◌⊎◌, if◌then◌else◌, ltb,
}
use mathlib.Core.Path.{ap₂}
use federation_autoscaler.Base.Int.{ℤ, pos, quot, int32, int32_half, int64_half, floor_zero}
use federation_autoscaler.Consumer.Types.{ResourceList, Quantity, quantity_of}
use federation_autoscaler.Chunks.{min64, size_standard, size_gpu}

abbrev pub min_ℕ : ℕ → ℕ → ℕ
min_ℕ a b = if ltb a b then a else b

min64_exact : (a b : ℕ) → min64 (pos a) (pos b) ≡ pos (min_ℕ a b)
unfolding min64
min64_exact a b = ground arith

count_exact : (n : ℕ) → n < int32_half → floor_zero (int32 (pos n)) ≡ pos n
unfolding int32
count_exact n h = ground arith

min_standard :
    (c m : ℕ)
    → m < int64_half
    → (min_ℕ (c / 2_000) (m / 4_294_967_296) < int32_half)
      × (min_ℕ (c / 2_000) (m / 4_294_967_296) * 2_000 ≤ c)
      × (min_ℕ (c / 2_000) (m / 4_294_967_296) * 4_294_967_296 ≤ m)
      × ((c < suc (min_ℕ (c / 2_000) (m / 4_294_967_296)) * 2_000)
          ⊎ (m < suc (min_ℕ (c / 2_000) (m / 4_294_967_296)) * 4_294_967_296))
min_standard c m h = ground arith

min_gpu :
    (c m g : ℕ)
    → m < int64_half
    → (let n = min_ℕ (min_ℕ (c / 4_000) (m / 8_589_934_592)) g in
        (n < int32_half)
        × (n * 4_000 ≤ c)
        × (n * 8_589_934_592 ≤ m)
        × (n ≤ g)
        × ((c < suc n * 4_000) ⊎ (m < suc n * 8_589_934_592) ⊎ (g < suc n)))
min_gpu c m g h = ground arith

-- `n` chunks fit into the processors and the memory advertised, and one more does not.
abbrev pub IsMost : ℕ → ℕ → ℕ → ℕ → ℕ → Type 0
IsMost c m c_chunk m_chunk n =
    (n * c_chunk ≤ c) × (n * m_chunk ≤ m) × ((c < suc n * c_chunk) ⊎ (m < suc n * m_chunk))

module _ (new_quantity : ℤ → Quantity) (advertised : ResourceList) (c m : ℕ) where
  -- From quantities that are not negative, with a memory that an int64 holds, the int32 count does not
  -- wrap around: it is the greatest number of standard chunks that the advertised processors and
  -- memory hold.
  pub size_standard_lem :
      (quantity_of "cpu" advertised).milli_value ≡ pos c
      → (quantity_of "memory" advertised).value ≡ pos m
      → m < int64_half
      → (n : ℕ) × ((size_standard new_quantity advertised).count ≡ pos n)
        × IsMost c m 2_000 4_294_967_296 n
  unfolding size_standard quot
  size_standard_lem e g h =
      let n = min_ℕ (c / 2_000) (m / 4_294_967_296) in
      let (small, cpu, mem, most) = min_standard c m h in
      (
        n,
        ap₂ (λ x y. floor_zero (int32 (min64 (quot x (pos 2_000)) (quot y (pos 4_294_967_296))))) e
              g
            ∙ (ap (λ x. floor_zero (int32 x)) (min64_exact (c / 2_000) (m / 4_294_967_296))
                ∙ count_exact n small),
        (cpu, mem, most),
      )

  -- From quantities that are not negative, the int32 count does not wrap around: it is the greatest
  -- number of GPU chunks that the advertised processors, memory and GPUs hold.
  pub size_gpu_lem :
      (g : ℕ)
      → (quantity_of "cpu" advertised).milli_value ≡ pos c
      → (quantity_of "memory" advertised).value ≡ pos m
      → m < int64_half
      → (n : ℕ) × ((size_gpu new_quantity advertised (pos g)).count ≡ pos n)
        × (n * 4_000 ≤ c)
        × (n * 8_589_934_592 ≤ m)
        × (n ≤ g)
        × ((c < suc n * 4_000) ⊎ (m < suc n * 8_589_934_592) ⊎ (g < suc n))
  unfolding size_gpu quot
  size_gpu_lem g e k h =
      let n = min_ℕ (min_ℕ (c / 4_000) (m / 8_589_934_592)) g in
      let (small, cpu, mem, gpus, most) = min_gpu c m g h in
      (
        n,
        ap₂
              (λ x y.
                floor_zero
                  (int32 (min64 (min64 (quot x (pos 4_000)) (quot y (pos 8_589_934_592))) (pos g))))
              e k
            ∙ (ap (λ x. floor_zero (int32 (min64 x (pos g))))
                  (min64_exact (c / 4_000) (m / 8_589_934_592))
                ∙ (ap (λ x. floor_zero (int32 x))
                      (min64_exact (min_ℕ (c / 4_000) (m / 8_589_934_592)) g)
                    ∙ count_exact n small)),
        cpu,
        mem,
        gpus,
        most,
      )
