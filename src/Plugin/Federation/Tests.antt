-- ===== src/Plugin/Federation/Tests.antt =====
-- A federated schema, and the theorems at it.
use mathlib.Core.List.{Permᴰ}
use fastgql.Prelude.{◌⊎◌, ◌≡◌, refl, true, Option, none, some, List, [], ◌∷◌, All, if◌then◌else◌}
use fastgql.Prelude.Outcome.{ok, panic}
use fastgql.Prelude.Text.{Bytes, codes, bytes_eq}
use fastgql.Prelude.Sorting.{sort, insert}
use fastgql.Templates.{to_go, is_common}
use fastgql.Plugin.Federation.{
  Directive, FieldDefinition, Definition, Entity, Lookups, set_entities, new_entity, collect, split,
  contains_brace, requires_of, key_fields_of, entity_of,
}
use mathlib.Core.Quot
use fastgql.Plugin.Federation.Unordered.{returned, set_entities-unordered, entities_of}
use fastgql.Plugin.Federation.Sources.{inject_source_late, resolvers_of, union_members}
use fastgql.Plugin.Federation.Sources.Defined.{IsComplete, inject_source_late-IsComplete}
use fastgql.Plugin.Federation.Reserved
use fastgql.Plugin.Federation.Reserved.{mutate_config, reserved, IsFree, mutate_config-IsFree}
use fastgql.Plugin.Federation.Keys.{ObjectField}

abbrev directive_for_name : List Directive → Bytes → Option Directive
directive_for_name [] name = none
directive_for_name (d ∷ ds) name =
    let rest = directive_for_name ds name in if bytes_eq d.name name then some d else rest

abbrev field_for_name : List FieldDefinition → Bytes → Option FieldDefinition
field_for_name [] name = none
field_for_name (f ∷ fs) name =
    let rest = field_for_name fs name in if bytes_eq f.name name then some f else rest

abbrev lookups : Lookups
lookups = record { directive_for_name = directive_for_name; field_for_name = field_for_name }

abbrev name_field : FieldDefinition
name_field = record { name = codes "name"; type_text = codes "String!"; directives = [] }

abbrev type_with : Bytes → Bytes → Definition
type_with name key = record {
  name = name;
  is_object = true;
  directives = record { name = codes "key"; arguments = key ∷ [] } ∷ [];
  fields = name_field ∷ [];
}

abbrev hello : Definition
hello = type_with (codes "Hello") (codes "name")

abbrev world : Definition
world = type_with (codes "World") (codes "name")

abbrev hello_entity : Entity
unfolding new_entity
hello_entity = new_entity lookups hello (codes "name") []

abbrev world_entity : Entity
unfolding new_entity
world_entity = new_entity lookups world (codes "name") []

resolver : hello_entity.resolver_name ≡ codes "findHelloByName"
unfolding new_entity split to_go is_common
resolver = refl

-- Two spaces in a key name a field without a name, which is a nil pointer.
spaced :
    inject_source_late lookups [] (type_with (codes "Hello") (codes "name  id") ∷ [])
    ≡ panic "nil pointer dereference"
unfolding inject_source_late set_entities collect entity_of split contains_brace requires_of
    key_fields_of resolvers_of union_members sort insert to_go is_common
spaced = refl

set_entities-unordered_example :
    returned (set_entities lookups [] (world ∷ hello ∷ []))
    ≡ returned (set_entities lookups [] (hello ∷ world ∷ []))
set_entities-unordered_example =
    set_entities-unordered lookups (world ∷ hello ∷ []) (hello ∷ world ∷ []) (Permᴰ.swap refl refl)
      ((refl, tt), (tt, tt)) ((refl, tt), (tt, tt))

-- The map of both types has both entities.
from_map :
    entities_of lookups (Quot.mk (world ∷ hello ∷ [], ((refl, tt), (tt, tt))))
    ≡ some (hello_entity ∷ world_entity ∷ [])
unfolding entities_of set_entities collect sort insert
from_map = refl

inject_source_late-IsComplete_example :
    (((source : List Entity × Option Bytes) × (inject_source_late lookups [] (hello ∷ [])
          ≡ ok source))
      × All IsComplete (hello_entity ∷ []))
    ⊎ ((inject_source_late lookups [] (hello ∷ []) ≡ panic "nil pointer dereference")
        × (¬ All IsComplete (hello_entity ∷ [])))
unfolding set_entities collect sort insert
inject_source_late-IsComplete_example =
    inject_source_late-IsComplete lookups [] (hello_entity ∷ []) (hello ∷ []) refl

abbrev object_field : ObjectField
object_field = record {
  name = codes "name";
  go_field_name = codes "Name";
  type_reference = some (codes "string");
}

abbrev with_any : Reserved.Config
with_any = record {
  models = (codes "_Any", record { model = []; fields = [] }) ∷ [];
  directives = [];
}
