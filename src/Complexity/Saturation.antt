-- ===== src/Complexity/Saturation.antt =====
-- The laws of `safeAdd` (complexity/complexity.go).
use Prim.Native.Nat.{max}
use fastgql.Prelude.{ℕ, ◌+◌, ◌-◌, ◌≡◌, arith, if◌then◌else◌, leb, refl}
use fastgql.Prelude.Int.{ℤ, pos, negsuc, half_range, IsInt, ltb_ℤ}
use fastgql.Complexity.{safe_add}

-- A number, capped at the largest `int`.
unfoldable pub sat : ℕ → ℕ
sat n = if leb n (half_range - 1) then n else half_range - 1

-- The sum of the operands that are not negative, computed without a bound and capped; 1 if there
-- is none.
unfoldable pub capped_sum : ℤ → ℤ → ℤ
capped_sum (pos m) (pos n) = pos (sat (m + n))
capped_sum (pos m) (negsuc _) = pos m
capped_sum (negsuc _) (pos n) = pos n
capped_sum (negsuc _) (negsuc _) = pos 1

-- For any two `int` operands `safeAdd` is the exact sum of those that are not negative, capped at
-- the largest `int` (and 1 if both are negative); it commutes and its result is again an `int`.
safe_add_lem :
    (a b : ℤ)
    → IsInt a
    → IsInt b
    → (safe_add a b ≡ capped_sum a b) × (safe_add a b ≡ safe_add b a) × IsInt (safe_add a b)
unfolding safe_add sat capped_sum
safe_add_lem a b ha hb = ground arith

pub safe_add-sat : (m n : ℕ) → safe_add (pos (sat m)) (pos (sat n)) ≡ pos (sat (m + n))
unfolding safe_add sat capped_sum
safe_add-sat m n = ground arith

one-safe_add : (n : ℕ) → safe_add (pos 1) (pos (sat n)) ≡ pos (sat (1 + n))
unfolding safe_add sat
one-safe_add n = ground arith

pub sat-max :
    (m n : ℕ)
    → (if ltb_ℤ (pos (sat m)) (pos (sat n)) then pos (sat n) else pos (sat m)) ≡ pos (sat (max m n))
unfolding sat
sat-max m n = ground arith

pub sat-zero : sat 0 ≡ 0
unfolding sat
sat-zero = refl
