-- ===== src/Prelude/Int.antt =====
-- Go's `int` on a 64-bit machine: ℤ over the native numbers, with wrap-around written out.
use Prim.Native.Nat.{ℕ, zero, suc, ◌+◌, ◌-◌, ◌*◌, ◌/◌, ◌%◌, ◌^◌, ◌≤◌, ◌<◌}
use mathlib.Core.Path.{◌≡◌, ap, ap₂, ◌∙◌}
use mathlib.Core.Bool.{Bool}
use native.Mathlib.Omega.{arith}
use todo_chat_app.Prelude.Tests.{ltb, if◌then◌else◌}

-- `negsuc n` is -(n + 1).
pub data ℤ : Type 0 where
  pos : ℕ → ℤ
  negsuc : ℕ → ℤ

abbrev pub pos_part : ℤ → ℕ
pos_part (pos n) = n
pos_part (negsuc n) = 0

abbrev pub neg_part : ℤ → ℕ
neg_part (pos n) = 0
neg_part (negsuc n) = suc n

abbrev pub ltb_ℤ : ℤ → ℤ → Bool
ltb_ℤ a b = ltb (pos_part a + neg_part b) (pos_part b + neg_part a)

abbrev pub word : ℕ
word = 2 ^ 64

-- The bit pattern of an integer, and the integer of a bit pattern.
unfoldable pub to_pattern : ℤ → ℕ
to_pattern (pos n) = n % word
to_pattern (negsuc n) = word - 1 - n % word

unfoldable pub of_pattern : ℕ → ℤ
of_pattern n = if ltb (n % word) (2 ^ 63) then pos (n % word) else negsuc (word - 1 - n % word)

unfoldable pub sub_int : ℤ → ℤ → ℤ
unfolding to_pattern of_pattern
sub_int a b = of_pattern (to_pattern a + word - to_pattern b)

unfoldable pub mul_int : ℤ → ℤ → ℤ
unfolding to_pattern of_pattern
mul_int a b = of_pattern (to_pattern a * to_pattern b)

unfoldable pub add_int : ℤ → ℤ → ℤ
unfolding to_pattern of_pattern
add_int a b = of_pattern (to_pattern a + to_pattern b)

abbrev opposite : ℕ → ℤ
opposite zero = pos 0
opposite (suc n) = negsuc n

-- Go's division, which rounds towards zero, for a divisor that is not 0.
unfoldable pub div_int : ℤ → ℤ → ℤ
unfolding of_pattern
div_int (pos a) (pos b) = pos (a / b)
div_int (pos a) (negsuc b) = opposite (a / suc b)
div_int (negsuc a) (pos b) = opposite (suc a / b)
div_int (negsuc a) (negsuc b) = of_pattern (suc a / suc b)

pub sub_int_exact : (a b : ℕ) → b ≤ a → a < 2 ^ 63 → sub_int (pos a) (pos b) ≡ pos (a - b)
unfolding sub_int
sub_int_exact a b h k = ground arith

pub of_pattern_small : (n : ℕ) → n < 2 ^ 63 → of_pattern n ≡ pos n
unfolding of_pattern
of_pattern_small n h = ground arith

pub to_pattern_small : (n : ℕ) → n < 2 ^ 63 → to_pattern (pos n) ≡ n
unfolding to_pattern
to_pattern_small n h = omega arith

pub add_int_exact :
    (a b : ℕ) → a < 2 ^ 63 → b < 2 ^ 63 → a + b < 2 ^ 63 → add_int (pos a) (pos b) ≡ pos (a + b)
unfolding add_int
add_int_exact a b ha hb h =
    ap of_pattern (ap₂ (λ x y. x + y) (to_pattern_small a ha) (to_pattern_small b hb))
    ∙ of_pattern_small (a + b) h

pub mul_int_exact :
    (a b : ℕ) → a < 2 ^ 63 → b < 2 ^ 63 → a * b < 2 ^ 63 → mul_int (pos a) (pos b) ≡ pos (a * b)
unfolding mul_int
mul_int_exact a b ha hb h =
    ap of_pattern (ap₂ (λ x y. x * y) (to_pattern_small a ha) (to_pattern_small b hb))
    ∙ of_pattern_small (a * b) h
