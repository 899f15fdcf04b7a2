-- ===== src/Base/Sums.antt =====
-- Sums of int32 wrap around to the same number in any order.
use Prim.Native.Nat.{ℕ, ◌+◌, ◌-◌, ◌%◌}
use mathlib.Core.Path.{◌≡◌, sym, ap, ◌∙◌}
use native.Mathlib.Omega.{arith}
use federation_autoscaler.Base.Tests.{ltb, if◌then◌else◌}
use federation_autoscaler.Base.Int.{
  ℤ, pos, negsuc, int32, add32, pattern32, int32_mod, int32_half, ◌+ℤ◌,
}

-- The bit pattern of a sum.
pattern32_add : (a b : ℤ) → pattern32 (a +ℤ b) ≡ (pattern32 a + pattern32 b) % int32_mod
pattern32_add (pos a) (pos b) = ground arith
pattern32_add (pos a) (negsuc b) = ground arith
pattern32_add (negsuc a) (pos b) = ground arith
pattern32_add (negsuc a) (negsuc b) = ground arith

pattern32-int32 : (a : ℤ) → pattern32 (int32 a) ≡ pattern32 a
unfolding int32
pattern32-int32 (pos a) = ground arith
pattern32-int32 (negsuc a) = ground arith

int32_same : (a b : ℤ) → pattern32 a ≡ pattern32 b → int32 a ≡ int32 b
unfolding int32
int32_same a b h = ap (λ n. if ltb n int32_half then pos n else negsuc (int32_mod - 1 - n)) h

-- Sums that wrap around may be taken in any order.
pub add32_swap : (r a b : ℤ) → add32 (add32 r a) b ≡ add32 (add32 r b) a
unfolding add32
add32_swap r a b =
    int32_same (int32 (r +ℤ a) +ℤ b) (int32 (r +ℤ b) +ℤ a)
      (sum r a b ∙ swapped (pattern32 r) (pattern32 a) (pattern32 b) ∙ sym (sum r b a))
  where
    sum :
        (r a b : ℤ)
        → pattern32 (int32 (r +ℤ a) +ℤ b)
          ≡ ((pattern32 r + pattern32 a) % int32_mod + pattern32 b) % int32_mod
    sum r a b =
        pattern32_add (int32 (r +ℤ a)) b
        ∙ ap (λ n. (n + pattern32 b) % int32_mod) (pattern32-int32 (r +ℤ a) ∙ pattern32_add r a)

    swapped :
        (x y z : ℕ) → ((x + y) % int32_mod + z) % int32_mod ≡ ((x + z) % int32_mod + y) % int32_mod
    swapped x y z = omega arith
