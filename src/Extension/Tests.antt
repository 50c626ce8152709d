-- ===== src/Extension/Tests.antt =====
-- The extensions' theorems at inputs.
use fastgql.Prelude.{◌≡◌, refl, arith, String, Bool, true, false, none, some, [], if◌then◌else◌}
use fastgql.Prelude.Int.{ℤ, pos, negsuc, ltb_ℤ}
use fastgql.Prelude.Outcome.{ok, ◌>>=◌, Ensures}
use fastgql.Ast.{Selections, object, field, nil, cons}
use fastgql.Graphql.Errors.{set_code}
use fastgql.Complexity.{Walker, field_kind}
use fastgql.Complexity.Saturation.{sat}
use fastgql.Complexity.Ideal.{CustomIsInt, ideal, ideal_cost, ideal_field}
use fastgql.Extension.Caches.{lookup, map_cache}
use fastgql.Extension.Apq.{
  Extension, State, mutate_operation_parameters, IsHashed, Agrees, seen,
  mutate_operation_parameters-Agrees,
}
use fastgql.Extension.ComplexityLimit.{mutate_operation_context, mutate_operation_context-ideal}

-- A hash of texts: every text is its own.
abbrev own : String → String
own s = s

abbrev request : Extension
request = record { sha256 = "{ a }"; version = pos 1 }

abbrev empty : (b : Bool) → String → State map_cache own b
empty b query = record { query = query; cache = []; stats = none }

empty-IsHashed : (b : Bool) → IsHashed map_cache own b []
unfolding lookup
empty-IsHashed b sha query found = cc

runs :
    (mutate_operation_parameters map_cache own true (some (some request)) (empty true "{ a }")
      >>= seen map_cache own)
    ≡ ok ("{ a }", none)
unfolding mutate_operation_parameters
runs = refl

mutate_operation_parameters-Agrees_example :
    Ensures
      (Agrees map_cache own true "{ a }")
      (mutate_operation_parameters map_cache own true (some (some request)) (empty true "{ a }"))
mutate_operation_parameters-Agrees_example =
    mutate_operation_parameters-Agrees map_cache own true request (empty true "{ a }")
      (empty-IsHashed true)

abbrev plain : Walker
plain = record {
  Arguments = Unit {0};
  types = λ t. some (record { name = "String"; kind = object });
  possible_types = λ d. [];
  argument_map = λ f. tt;
  complexity = λ obj name child args. (pos 0, false);
}

abbrev title : Selections
title =
    cons
      (field
        (record {
          name = "title";
          alias = "title";
          directives = [];
          object_definition = some (record { name = "Item"; kind = object });
          type_name = some "String";
        })
        nil)
      nil

plain-CustomIsInt : CustomIsInt plain
plain-CustomIsInt obj name child args = omega arith

title_cost : ideal plain title ≡ ok 1
unfolding ideal field_kind ideal_cost ideal_field
title_cost = refl

abbrev text : ℤ → ℤ → String
text a b = "operation has complexity"

mutate_operation_context-ideal_example :
    (mutate_operation_context text plain title (negsuc 0) >>= λ r. ok r.1)
    ≡ ok (
        if ltb_ℤ (negsuc 0) (pos 1)
        then some (
            set_code
              (record { message = text (pos (sat 1)) (negsuc 0); path = none; code = none })
              "COMPLEXITY_LIMIT_EXCEEDED")
        else none)
mutate_operation_context-ideal_example =
    mutate_operation_context-ideal text plain title (negsuc 0) 1 plain-CustomIsInt (omega arith)
      title_cost
