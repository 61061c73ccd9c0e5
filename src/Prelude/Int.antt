-- ===== src/Prelude/Int.antt =====
-- Signed integers over the native numbers, and the C type `int` of 32 bits among them.
use bhuna.Prelude.Tests.{ltb, leb, if◌then◌else◌}
use Prim.Native.Nat.{ℕ, suc, ◌+◌, ◌-◌, ◌*◌, ◌/◌, ◌%◌, ◌^◌, ◌≤◌}
use mathlib.Core.Path.{◌≡◌}
use mathlib.Core.Bool.{Bool, ◌&&◌}
use native.Mathlib.Omega.{arith}

-- `negsuc n` is -(n + 1).
pub data ℤ : Type 0 where
  pos : ℕ → ℤ
  negsuc : ℕ → ℤ

abbrev pub pos_part : ℤ → ℕ
pos_part (pos n) = n
pos_part (negsuc n) = 0

abbrev pub neg_part : ℤ → ℕ
neg_part (pos n) = 0
neg_part (negsuc n) = suc n

-- a - b, as an integer.
abbrev pub sub_ℕ : ℕ → ℕ → ℤ
sub_ℕ a b = if leb b a then pos (a - b) else negsuc (b - a - 1)

infixl 65 ◌+ℤ◌ ◌-ℤ◌
infixl 70 ◌*ℤ◌
infix 50 ◌≤ℤ◌
unfoldable pub ◌+ℤ◌ : ℤ → ℤ → ℤ
a +ℤ b = sub_ℕ (pos_part a + pos_part b) (neg_part a + neg_part b)

unfoldable pub ◌-ℤ◌ : ℤ → ℤ → ℤ
a -ℤ b = sub_ℕ (pos_part a + neg_part b) (neg_part a + pos_part b)

unfoldable pub ◌*ℤ◌ : ℤ → ℤ → ℤ
a *ℤ b =
    sub_ℕ (pos_part a * pos_part b + neg_part a * neg_part b)
      (pos_part a * neg_part b + neg_part a * pos_part b)

abbrev pub ◌≤ℤ◌ : ℤ → ℤ → Type 0
a ≤ℤ b = pos_part a + neg_part b ≤ pos_part b + neg_part a

abbrev pub ltb_ℤ : ℤ → ℤ → Bool
ltb_ℤ a b = ltb (pos_part a + neg_part b) (pos_part b + neg_part a)

abbrev pub leb_ℤ : ℤ → ℤ → Bool
leb_ℤ a b = leb (pos_part a + neg_part b) (pos_part b + neg_part a)

abbrev pub eqb_ℤ : ℤ → ℤ → Bool
eqb_ℤ a b = leb_ℤ a b && leb_ℤ b a

pub eqb_ℤ-sound : (a b : ℤ) → eqb_ℤ a b ≡ Bool.true → a ≡ b
eqb_ℤ-sound a b h = ground arith

pub eqb_ℤ-refl : (a : ℤ) → eqb_ℤ a a ≡ Bool.true
eqb_ℤ-refl a = ground arith

-- The range of a 32-bit `int`.
abbrev pub int_max : ℤ
int_max = pos (2 ^ 31 - 1)

abbrev pub int_min : ℤ
int_min = negsuc (2 ^ 31 - 1)

abbrev pub IsInt : ℤ → Type 0
IsInt z = (int_min ≤ℤ z) × (z ≤ℤ int_max)

-- The bit pattern of an `int` as a number below 2 ^ 32 (two's complement).
abbrev pub bits : ℤ → ℕ
bits (pos n) = n % 2 ^ 32
bits (negsuc n) = 2 ^ 32 - 1 - n % 2 ^ 32

-- The absolute value, and C's division, which rounds to 0; the remainder has the dividend's sign.
abbrev pub abs_ℤ : ℤ → ℕ
abs_ℤ z = pos_part z + neg_part z

unfoldable pub quot_ℤ : ℤ → ℤ → ℤ
quot_ℤ (pos a) b = sub_ℕ (a / pos_part b) (a / neg_part b)
quot_ℤ (negsuc a) b = sub_ℕ (suc a / neg_part b) (suc a / pos_part b)

unfoldable pub rem_ℤ : ℤ → ℤ → ℤ
rem_ℤ (pos a) b = pos (a % abs_ℤ b)
rem_ℤ (negsuc a) b = sub_ℕ 0 (suc a % abs_ℤ b)

-- Whether a result fits an `int`.
abbrev pub is_int : ℤ → Bool
is_int z = leb_ℤ int_min z && leb_ℤ z int_max
