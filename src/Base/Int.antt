-- ===== src/Base/Int.antt =====
-- Signed integers over the native numbers, and Go's int32 with its wrap-around.
use Prim.Native.Nat.{ℕ, suc, ◌+◌, ◌-◌, ◌/◌, ◌%◌, ◌≤◌, ◌<◌}
use mathlib.Core.Path.{◌≡◌}
use mathlib.Core.Bool.{Bool}
use native.Mathlib.Omega.{arith}
use federation_autoscaler.Base.Tests.{ltb, leb, if◌then◌else◌}

-- `negsuc n` is -(n + 1).
pub data ℤ : Type 0 where
  pos : ℕ → ℤ
  negsuc : ℕ → ℤ

abbrev pub pos_part : ℤ → ℕ
pos_part (pos n) = n
pos_part (negsuc n) = 0

abbrev pub neg_part : ℤ → ℕ
neg_part (pos n) = 0
neg_part (negsuc n) = suc n

-- a - b, as an integer.
abbrev pub sub_ℕ : ℕ → ℕ → ℤ
sub_ℕ a b = if leb b a then pos (a - b) else negsuc (b - a - 1)

abbrev pub neg : ℤ → ℤ
neg a = sub_ℕ (neg_part a) (pos_part a)

infixl 65 ◌+ℤ◌ ◌-ℤ◌
infix 50 ◌≤ℤ◌ ◌<ℤ◌
abbrev pub ◌+ℤ◌ : ℤ → ℤ → ℤ
a +ℤ b = sub_ℕ (pos_part a + pos_part b) (neg_part a + neg_part b)

abbrev pub ◌-ℤ◌ : ℤ → ℤ → ℤ
a -ℤ b = sub_ℕ (pos_part a + neg_part b) (neg_part a + pos_part b)

abbrev pub ◌≤ℤ◌ : ℤ → ℤ → Type 0
a ≤ℤ b = pos_part a + neg_part b ≤ pos_part b + neg_part a

abbrev pub ◌<ℤ◌ : ℤ → ℤ → Type 0
a <ℤ b = pos_part a + neg_part b < pos_part b + neg_part a

abbrev pub ltb_ℤ : ℤ → ℤ → Bool
ltb_ℤ a b = ltb (pos_part a + neg_part b) (pos_part b + neg_part a)

abbrev pub leb_ℤ : ℤ → ℤ → Bool
leb_ℤ a b = leb (pos_part a + neg_part b) (pos_part b + neg_part a)

abbrev pub int32_half : ℕ
int32_half = 2147483648

abbrev pub int32_mod : ℕ
int32_mod = 4294967296

-- The bit pattern of an integer at 32 bits.
abbrev pub pattern32 : ℤ → ℕ
pattern32 (pos n) = n % int32_mod
pattern32 (negsuc n) = int32_mod - 1 - n % int32_mod

-- The int32 that a bit pattern stands for: Go's conversion `int32(x)`.
unfoldable pub int32 : ℤ → ℤ
int32 a =
    if ltb (pattern32 a) int32_half then pos (pattern32 a) else negsuc (int32_mod - 1 - pattern32 a)

-- The values of an int32.
abbrev pub InInt32 : ℤ → Type 0
InInt32 a = (pos_part a < int32_half) × (neg_part a ≤ int32_half)

-- The conversion changes no value that fits.
pub int32_exact : (a : ℤ) → InInt32 a → int32 a ≡ a
unfolding int32
int32_exact (pos n) h = ground arith
int32_exact (negsuc n) h = ground arith

-- The conversion always yields an int32.
pub int32-InInt32 : (a : ℤ) → InInt32 (int32 a)
unfolding int32
int32-InInt32 (pos n) = ground arith
int32-InInt32 (negsuc n) = ground arith

-- Go's `a + b` and `a - b` on int32.
unfoldable pub add32 : ℤ → ℤ → ℤ
add32 a b = int32 (a +ℤ b)

unfoldable pub sub32 : ℤ → ℤ → ℤ
sub32 a b = int32 (a -ℤ b)

-- `if x < 0 { x = 0 }`.
abbrev pub floor_zero : ℤ → ℤ
floor_zero (pos n) = pos n
floor_zero (negsuc n) = pos 0

abbrev pub int64_half : ℕ
int64_half = 9223372036854775808

abbrev pub int64_mod : ℕ
int64_mod = 18446744073709551616

-- The bit pattern of an integer at 64 bits.
abbrev pub pattern64 : ℤ → ℕ
pattern64 (pos n) = n % int64_mod
pattern64 (negsuc n) = int64_mod - 1 - n % int64_mod

-- Go's int64 with that bit pattern.
unfoldable pub int64 : ℤ → ℤ
int64 a =
    if ltb (pattern64 a) int64_half then pos (pattern64 a) else negsuc (int64_mod - 1 - pattern64 a)

-- Wrap-around changes no value that fits.
pub int64_exact : (n : ℕ) → n < int64_half → int64 (pos n) ≡ pos n
unfolding int64
int64_exact n h = ground arith

-- Go's division, which truncates towards zero; division by zero, a panic there, yields zero.
unfoldable pub quot : ℤ → ℤ → ℤ
quot (pos a) (pos b) = pos (a / b)
quot (pos a) (negsuc b) = neg (pos (a / suc b))
quot (negsuc a) (pos b) = neg (pos (suc a / b))
quot (negsuc a) (negsuc b) = pos (suc a / suc b)
