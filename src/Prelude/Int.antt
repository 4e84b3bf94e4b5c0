-- ===== src/Prelude/Int.antt =====
-- Signed integers over the native numbers, and the 64-bit `int` of Go.
use skiffdb.Prelude.{ℕ, suc, ◌+◌, ◌-◌, ◌%◌, ◌^◌, ◌≤◌, ◌<◌, ◌≡◌, arith, ltb, leb, if◌then◌else◌}

-- `negsuc n` is -(n + 1).
pub data ℤ : Type 0 where
  pos : ℕ → ℤ
  negsuc : ℕ → ℤ

abbrev pub pos_part : ℤ → ℕ
pos_part (pos n) = n
pos_part (negsuc n) = 0

abbrev pub neg_part : ℤ → ℕ
neg_part (pos n) = 0
neg_part (negsuc n) = suc n

abbrev pub sub_ℕ : ℕ → ℕ → ℤ
sub_ℕ a b = if leb b a then pos (a - b) else negsuc (b - a - 1)

infixl 65 ◌+ℤ◌
unfoldable pub ◌+ℤ◌ : ℤ → ℤ → ℤ
a +ℤ b = sub_ℕ (pos_part a + pos_part b) (neg_part a + neg_part b)

-- The values of an `int`.
abbrev pub IsInt64 : ℤ → Type 0
IsInt64 z = (pos_part z < 2 ^ 63) × (neg_part z ≤ 2 ^ 63)

-- The two's complement pattern of an integer, and the integer that a pattern stands for.
abbrev pub to_word : ℤ → ℕ
to_word (pos n) = n % 2 ^ 64
to_word (negsuc n) = 2 ^ 64 - 1 - n % 2 ^ 64

abbrev pub of_word : ℕ → ℤ
of_word w = if ltb w (2 ^ 63) then pos w else negsuc (2 ^ 64 - 1 - w)

-- `a + b` on `int`: two's complement, with wrap-around.
unfoldable pub add_int : ℤ → ℤ → ℤ
unfolding ◌+ℤ◌
add_int a b = of_word (to_word (a +ℤ b))

-- Every sum is an `int`, and a sum that fits is exact.
pub add_int-IsInt64 : (a b : ℤ) → IsInt64 (add_int a b)
unfolding add_int
add_int-IsInt64 a b = ground arith

pub add_int_exact : (a b : ℤ) → IsInt64 (a +ℤ b) → add_int a b ≡ a +ℤ b
unfolding add_int
add_int_exact (pos a) (pos b) h = ground arith
add_int_exact (pos a) (negsuc b) h = ground arith
add_int_exact (negsuc a) b h = ground arith

pub add_int_pos : (a b : ℕ) → a + b < 2 ^ 63 → add_int (pos a) (pos b) ≡ pos (a + b)
unfolding add_int
add_int_pos a b h = ground arith
