-- ===== src/Base/Int.antt =====
-- C's signed values over the native numbers: the type, its order, and the casts between a
-- 64-bit signed offset and a 64-bit unsigned size.
use Prim.Native.Nat.{ℕ, suc, ◌+◌, ◌-◌, ◌%◌, ◌^◌, ◌≤◌, ◌<◌}
use mathlib.Core.Bool.{Bool, true, false}
use libocxl.Base.Tests.{ltb, leb, ◌==◌, if◌then◌else◌}

-- `negsuc n` is -(n + 1).
pub data ℤ : Type 0 where
  pos : ℕ → ℤ
  negsuc : ℕ → ℤ

abbrev pub pos_part : ℤ → ℕ
pos_part (pos n) = n
pos_part (negsuc n) = 0

abbrev pub neg_part : ℤ → ℕ
neg_part (pos n) = 0
neg_part (negsuc n) = suc n

infix 50 ◌≤ℤ◌
abbrev pub ◌≤ℤ◌ : ℤ → ℤ → Type 0
a ≤ℤ b = pos_part a + neg_part b ≤ pos_part b + neg_part a

abbrev pub leb_ℤ : ℤ → ℤ → Bool
leb_ℤ a b = leb (pos_part a + neg_part b) (pos_part b + neg_part a)

-- x < 0
abbrev pub is_neg : ℤ → Bool
is_neg (pos n) = false
is_neg (negsuc n) = true

-- x == -1
abbrev pub is_minus_one : ℤ → Bool
is_minus_one (pos n) = false
is_minus_one (negsuc n) = n == 0

abbrev pub minus_one : ℤ
minus_one = negsuc 0

-- `(off_t) w` of a `size_t`.
abbrev pub to_off_t : ℕ → ℤ
to_off_t w = if ltb w (2 ^ 63) then pos w else negsuc (2 ^ 64 - w - 1)

-- `(size_t) x` of an `off_t`.
abbrev pub to_size_t : ℤ → ℕ
to_size_t (pos n) = n % 2 ^ 64
to_size_t (negsuc n) = 2 ^ 64 - 1 - n % 2 ^ 64

-- The values of an `off_t`.
abbrev pub IsOffT : ℤ → Type 0
IsOffT (pos n) = n < 2 ^ 63
IsOffT (negsuc n) = n < 2 ^ 63
