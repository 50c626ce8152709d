-- ===== src/Extension/ComplexityLimit.antt =====
-- graphql/handler/extension/complexity.go.
use fastgql.Prelude.{ℕ, ◌+◌, ◌<◌, ◌≡◌, refl, arith, String, Option, none, some, if◌then◌else◌}
use fastgql.Prelude.Int.{negsuc, pos_part, ℤ, pos, ltb_ℤ, half_range}
use fastgql.Prelude.Outcome.{Outcome, ok, ◌>>=◌}
use fastgql.Ast.{Selections}
use fastgql.Graphql.Errors.{GqlError, set_code}
use fastgql.Complexity.{Walker, calculate}
use fastgql.Complexity.Saturation.{sat}
use fastgql.Complexity.Ideal.{CustomIsInt, ideal, calculate-ideal}

pub record ComplexityStats : Type 0 where
  pub complexity : ℤ
  pub complexity_limit : ℤ

-- `text` is fmt's: the message with the complexity and the limit in it.
module _ (text : ℤ → ℤ → String) where
  unfoldable pub exceeded : ℤ → ℤ → Option GqlError
  exceeded complexity limit =
      if ltb_ℤ limit complexity
      then some (
          set_code (record { message = text complexity limit; path = none; code = none })
            "COMPLEXITY_LIMIT_EXCEEDED")
      else none

  -- The statistics that are set and the error; `Calculate` panics at a nil pointer.
  unfoldable pub mutate_operation_context :
      Walker → Selections → ℤ → Outcome (ComplexityStats × Option GqlError)
  unfolding exceeded
  mutate_operation_context cw op limit = calculate cw op >>= λ complexity.
      ok (record { complexity = complexity; complexity_limit = limit }, exceeded complexity limit)

  exceeds-sat :
      (limit : ℤ) (cost : ℕ)
      → pos_part limit + 1 < half_range
      → ltb_ℤ limit (pos (sat cost)) ≡ ltb_ℤ limit (pos cost)
  unfolding sat
  exceeds-sat (pos n) cost fits = ground arith
  exceeds-sat (negsuc n) cost fits = ground arith

  -- With custom complexities that are ints and a limit below the largest `int`, which may be negative,
  -- an operation is refused exactly if its cost, computed in numbers without a bound, is above the
  -- limit, and the code of the error tells so.
  pub mutate_operation_context-ideal :
      (cw : Walker) (op : Selections) (limit : ℤ) (cost : ℕ)
      → CustomIsInt cw
      → pos_part limit + 1 < half_range
      → ideal cw op ≡ ok cost
      → (mutate_operation_context cw op limit >>= λ r. ok r.1)
        ≡ ok (
            if ltb_ℤ limit (pos cost)
            then some (
                set_code
                  (record { message = text (pos (sat cost)) limit; path = none; code = none })
                  "COMPLEXITY_LIMIT_EXCEEDED")
            else none)
  unfolding mutate_operation_context exceeded
  mutate_operation_context-ideal cw op limit cost ints fits e =
      rw (calculate-ideal cw ints op, e, exceeds-sat limit cost fits) refl
