-- ===== src/Prelude/Int.antt =====
-- Signed integers over the native numbers, and Go's int64 by two's complement.
use Prim.Native.Nat.{ℕ, suc, ◌+◌, ◌-◌, ◌%◌, ◌^◌, ◌≤◌, ◌<◌}
use mathlib.Core.Path.{◌≡◌}
use mathlib.Core.Bool.{Bool}
use native.Mathlib.Omega.{arith}
use package.gritz.Prelude.{ltb, leb, if◌then◌else◌}

-- `negsuc n` is -(n + 1).
pub data ℤ : Type 0 where
  pos : ℕ → ℤ
  negsuc : ℕ → ℤ

abbrev pub pos_part : ℤ → ℕ
pos_part (pos n) = n
pos_part (negsuc n) = 0

abbrev pub neg_part : ℤ → ℕ
neg_part (pos n) = 0
neg_part (negsuc n) = suc n

-- a - b, as an integer.
abbrev pub sub_ℕ : ℕ → ℕ → ℤ
sub_ℕ a b = if leb b a then pos (a - b) else negsuc (b - a - 1)

infix 50 ◌≤ℤ◌
abbrev pub ◌≤ℤ◌ : ℤ → ℤ → Type 0
a ≤ℤ b = pos_part a + neg_part b ≤ pos_part b + neg_part a

abbrev pub leb_ℤ : ℤ → ℤ → Bool
leb_ℤ a b = leb (pos_part a + neg_part b) (pos_part b + neg_part a)

abbrev pub ltb_ℤ : ℤ → ℤ → Bool
ltb_ℤ a b = ltb (pos_part a + neg_part b) (pos_part b + neg_part a)

-- The 64-bit pattern of an integer, and the int64 that a pattern stands for.
abbrev pub to_word : ℤ → ℕ
to_word (pos n) = n % 2 ^ 64
to_word (negsuc n) = 2 ^ 64 - 1 - n % 2 ^ 64

abbrev pub of_word : ℕ → ℤ
of_word w = if ltb w (2 ^ 63) then pos w else negsuc (2 ^ 64 - 1 - w)

abbrev pub InRange : ℤ → Type 0
InRange (pos n) = n < 2 ^ 63
InRange (negsuc n) = n < 2 ^ 63

-- int64 addition and subtraction wrap around.
unfoldable pub add_i64 : ℤ → ℤ → ℤ
add_i64 a b = of_word (to_word (sub_ℕ (pos_part a + pos_part b) (neg_part a + neg_part b)))

unfoldable pub sub_i64 : ℤ → ℤ → ℤ
sub_i64 a b = of_word (to_word (sub_ℕ (pos_part a + neg_part b) (neg_part a + pos_part b)))

pub add_i64-exact :
    (a b : ℤ)
    → pos_part a + pos_part b < 2 ^ 63 + (neg_part a + neg_part b)
    → neg_part a + neg_part b ≤ 2 ^ 63 + (pos_part a + pos_part b)
    → add_i64 a b ≡ sub_ℕ (pos_part a + pos_part b) (neg_part a + neg_part b)
unfolding add_i64
add_i64-exact a b h k = ground arith
