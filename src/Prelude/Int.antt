-- ===== src/Prelude/Int.antt =====
-- Signed integers over the native numbers, as far as an `i32` priority needs them.
use Prim.Native.Nat.{ℕ, suc, ◌+◌}
use mathlib.Core.Bool.{Bool}
use cogito_ai.Prelude.Tests.{leb, ◌==◌, if◌then◌else◌}

-- `negsuc n` is -(n + 1).
pub data ℤ : Type 0 where
  pos : ℕ → ℤ
  negsuc : ℕ → ℤ

abbrev pub pos_part : ℤ → ℕ
pos_part (pos n) = n
pos_part (negsuc n) = 0

abbrev pub neg_part : ℤ → ℕ
neg_part (pos n) = 0
neg_part (negsuc n) = suc n

abbrev pub leb_ℤ : ℤ → ℤ → Bool
leb_ℤ a b = leb (pos_part a + neg_part b) (pos_part b + neg_part a)

abbrev pub eq_ℤ : ℤ → ℤ → Bool
eq_ℤ a b = (pos_part a + neg_part b) == (pos_part b + neg_part a)

-- Negation of an `i32` as a release build computes it: the least value is its own negation.
unfoldable pub wrapping_neg_i32 : ℤ → ℤ
wrapping_neg_i32 (pos ℕ.zero) = pos 0
wrapping_neg_i32 (pos (suc n)) = negsuc n
wrapping_neg_i32 (negsuc n) = if n == 2147483647 then negsuc n else pos (suc n)
