-- ===== src/Graphql/Introspection/Tests.antt =====
-- A schema with one type, and the theorems at it.
use fastgql.Prelude.{
  ◌≡◌, refl, true, false, Option, none, some, List, [], ◌∷◌, String, str_eq, if◌then◌else◌,
}
use fastgql.Prelude.Outcome.{ok}
use fastgql.Ast.{object, Directive}
use fastgql.Graphql.Introspection.{
  AstType, leaf, wrap, FieldDefinition, TypeDefinition, Schema, WrappedType, wrap_type_from_type,
}
use fastgql.Graphql.Introspection.Wrapping.{type_text, size, read, read-wrap_type_from_type}

abbrev field_named : String → List Directive → FieldDefinition
field_named name directives = record {
  name = name;
  description = "";
  arguments = [];
  default_value = none;
  type = some (leaf "Query" false);
  directives = directives;
}

abbrev query : TypeDefinition
query = record {
  name = "Query";
  description = "";
  kind = object;
  fields =
      field_named "__schema" []
      ∷ field_named "old" (record { name = "deprecated"; arguments = [] } ∷ [])
      ∷ field_named "new" []
      ∷ [];
  interfaces = [];
  enum_values = [];
}

abbrev schema : Schema
schema = record {
  query = some query;
  mutation = none;
  subscription = none;
  type_named = λ name. some query;
  types = query ∷ [];
  directives = [];
  possible_types = λ def. [];
}

abbrev directive_for_name : List Directive → String → Option Directive
directive_for_name [] name = none
directive_for_name (d ∷ ds) name =
    let rest = directive_for_name ds name in if str_eq d.name name then some d else rest

abbrev queries : AstType
queries = wrap "" (leaf "Query" true) true

read-wrap_type_from_type_example :
    read schema (size queries) (wrap_type_from_type schema (some queries)) ≡ ok (type_text queries)
read-wrap_type_from_type_example =
    read-wrap_type_from_type schema queries (refl, (refl, (query, refl, refl)))

abbrev wrapped : WrappedType
wrapped = record { def = some query; typ = none }
