-- ===== src/Prelude/Int.antt =====
-- Signed integers over the native numbers, under the library's names, and Go's 64-bit `int`.
use Prim.Native.Nat.{ℕ, suc, ◌+◌, ◌-◌, ◌%◌, ◌≤◌, ◌<◌}
use mathlib.Core.Bool.{Bool}
use fastgql.Prelude.Tests.{ltb, leb, if◌then◌else◌}

-- `negsuc n` is -(n + 1).
pub data ℤ : Type 0 where
  pos : ℕ → ℤ
  negsuc : ℕ → ℤ

abbrev pub pos_part : ℤ → ℕ
pos_part (pos n) = n
pos_part (negsuc n) = 0

abbrev pub neg_part : ℤ → ℕ
neg_part (pos n) = 0
neg_part (negsuc n) = suc n

abbrev pub sub_ℕ : ℕ → ℕ → ℤ
sub_ℕ a b = if leb b a then pos (a - b) else negsuc (b - a - 1)

abbrev pub ltb_ℤ : ℤ → ℤ → Bool
ltb_ℤ a b = ltb (pos_part a + neg_part b) (pos_part b + neg_part a)

infix 50 ◌≤ℤ◌
abbrev pub ◌≤ℤ◌ : ℤ → ℤ → Type 0
a ≤ℤ b = pos_part a + neg_part b ≤ pos_part b + neg_part a

-- 2 ^ 63 and 2 ^ 64.
abbrev pub half_range : ℕ
half_range = 9_223_372_036_854_775_808

abbrev pub full_range : ℕ
full_range = 18_446_744_073_709_551_616

-- The 64-bit integer with the low bits of a - b.
abbrev pub of_word : ℕ → ℤ
of_word w = if ltb w half_range then pos w else negsuc (full_range - w - 1)

-- `a + b` of Go: the sum modulo 2 ^ 64, read as a signed number.
infixl 65 ◌+int◌
abbrev pub ◌+int◌ : ℤ → ℤ → ℤ
a +int b = of_word (
    (pos_part a
      + pos_part b
      + (full_range - neg_part a % full_range)
      + (full_range - neg_part b % full_range))
    % full_range)

-- The values of a Go `int` on a 64-bit machine.
abbrev pub IsInt : ℤ → Type 0
IsInt a = (pos_part a < half_range) × (neg_part a ≤ half_range)
