-- ===== src/Prelude/Int.antt =====
-- Go's `int` where a sign matters: the integers over the native numbers. The code compares such
-- values, takes maxima, and adds times, which stay far below the bounds of 64 bits.
use Prim.Native.Nat.{ℕ, suc, ◌+◌, ◌-◌}
use mathlib.Core.Path.{◌≡◌}
use native.Mathlib.Omega.{arith}
use mathlib.Core.Bool.{Bool, true, false}
use st_air_case.Prelude.Tests.{ltb, leb, ◌==◌, if◌then◌else◌}

-- `negsuc n` is -(n + 1).
pub data ℤ : Type 0 where
  pos : ℕ → ℤ
  negsuc : ℕ → ℤ

abbrev pub pos_part : ℤ → ℕ
pos_part (pos n) = n
pos_part (negsuc n) = 0

abbrev pub neg_part : ℤ → ℕ
neg_part (pos n) = 0
neg_part (negsuc n) = suc n

abbrev pub ltb_ℤ : ℤ → ℤ → Bool
ltb_ℤ a b = ltb (pos_part a + neg_part b) (pos_part b + neg_part a)

abbrev pub eqb_ℤ : ℤ → ℤ → Bool
eqb_ℤ a b = pos_part a + neg_part b == pos_part b + neg_part a

-- The difference of two native numbers.
abbrev pub diff : ℕ → ℕ → ℤ
diff a b = if leb b a then pos (a - b) else negsuc (b - a - 1)

infixl 60 ◌+ℤ◌
abbrev pub ◌+ℤ◌ : ℤ → ℤ → ℤ
a +ℤ b = diff (pos_part a + pos_part b) (neg_part a + neg_part b)

pub ltb_ℤ-irrefl : (a : ℤ) → ltb_ℤ a a ≡ false
ltb_ℤ-irrefl a = ground arith

pub ltb_ℤ-asym : (a b : ℤ) → ltb_ℤ a b ≡ true → ltb_ℤ b a ≡ false
ltb_ℤ-asym a b l = ground arith

-- `b ≤ a` and `a < c`.
pub ltb_ℤ-mixed : (a b c : ℤ) → ltb_ℤ a b ≡ false → ltb_ℤ a c ≡ true → ltb_ℤ b c ≡ true
ltb_ℤ-mixed a b c l m = ground arith
