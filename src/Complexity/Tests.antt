-- ===== src/Complexity/Tests.antt =====
-- Runs of the complexity walker, and its theorems at inputs.
use fastgql.Prelude.{◌≡◌, refl, arith, String, none, some, [], ◌∷◌, if◌then◌else◌, str_eq}
use fastgql.Prelude.Int.{pos}
use fastgql.Prelude.Outcome.{ok, panic}
use fastgql.Ast.{
  Definition, object, interface, scalar, Field, Selections, field, inline_fragment, fragment_spread,
  nil, cons,
}
use fastgql.Complexity.{Walker, max_int, calculate}
use fastgql.Complexity.Ideal.{CustomIsInt, capped, ideal, calculate-ideal}

abbrev item : Definition
item = record { name = "Item"; kind = object }

abbrev node : Definition
node = record { name = "Node"; kind = interface }

-- `Item.list` costs as much as an `int` can hold; nothing else has a custom complexity.
abbrev sample : Walker
sample = record {
  Arguments = Unit {0};
  types = λ t.
      if str_eq t "Item"
      then some item
      else if str_eq t "Node"
      then some node
      else some (record { name = "String"; kind = scalar });
  possible_types = λ d. item ∷ [];
  argument_map = λ f. tt;
  complexity = λ obj name child args. (max_int, str_eq name "list");
}

abbrev plain : String → String → Definition → Field
plain name t owner = record {
  name = name;
  alias = name;
  directives = [];
  object_definition = some owner;
  type_name = some t;
}

abbrev title : Selections
title = cons (field (plain "title" "String" item) nil) nil

-- { item { title ... on Item { title } } node { title } }
abbrev query : Selections
query =
    cons (field (plain "item" "Item" item) (cons (inline_fragment "Item" [] title) title))
      (cons (field (plain "node" "Node" node) (cons (fragment_spread "f" [] title) nil)) nil)

-- Two fields that cost as much as an `int` can hold.
abbrev heavy : Selections
heavy =
    cons (field (plain "list" "Item" item) title)
      (cons (field (plain "list" "Item" node) title) nil)

runs :
    (calculate sample query ≡ ok (pos 5))
    × (calculate sample heavy ≡ ok max_int)
    × (calculate sample
          (cons (field (record (plain "x" "Item" item) { object_definition = none }) nil) nil)
        ≡ panic "nil ObjectDefinition")
unfolding calculate
runs = (refl, refl, refl)

sample-CustomIsInt : CustomIsInt sample
sample-CustomIsInt obj name child args = omega arith

calculate-ideal_example : calculate sample heavy ≡ capped (ideal sample heavy)
calculate-ideal_example = calculate-ideal sample sample-CustomIsInt heavy
