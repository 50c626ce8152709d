-- ===== src/Graphql/Introspection/Listing.antt =====
-- graphql/introspection/type.go and schema.go: the lists that a type and a schema have.
use fastgql.Prelude.{
  String, Bool, true, false, not, ◌&&◌, Option, none, some, List, [], ◌∷◌, if◌then◌else◌,
}
use fastgql.Prelude.Outcome.{Outcome, ok, panic, ◌>>=◌}
use fastgql.Ast.{Kind, object, interface, union, enum, input_object, Directive}
use fastgql.Graphql.Introspection.{
  ArgumentDefinition, FieldDefinition, EnumValueDefinition, TypeDefinition, DirectiveDefinition,
  Schema, WrappedType, InputValue, EnumValue, FieldValue, DirectiveValue, is_set, is_hidden,
  wrap_type_from_def, wrap_type_from_type,
}

abbrev pub has_fields : Kind → Bool
has_fields object = true
has_fields interface = true
has_fields _ = false

abbrev pub is_enum : Kind → Bool
is_enum enum = true
is_enum _ = false

-- `Directives.ForName` is gqlparser's.
module _ (directive_for_name : List Directive → String → Option Directive) where
  unfoldable pub enum_values_of : Bool → List EnumValueDefinition → List EnumValue
  enum_values_of include [] = []
  enum_values_of include (val ∷ vals) =
      let rest = enum_values_of include vals in
      if not include && is_set (directive_for_name val.directives "deprecated")
      then rest
      else record {
        name = val.name;
        description = val.description;
        deprecation = directive_for_name val.directives "deprecated";
      }
        ∷ rest

  unfoldable pub enum_values_def : Bool → Option TypeDefinition → List EnumValue
  unfolding enum_values_of
  enum_values_def include none = []
  enum_values_def include (some def) =
      if is_enum def.kind then enum_values_of include def.enum_values else []

  -- `EnumValues`.
  unfoldable pub enum_values : WrappedType → Bool → List EnumValue
  unfolding enum_values_def
  enum_values t include_deprecated = enum_values_def include_deprecated t.def

module _ (schema : Schema) where
  unfoldable pub arg_values : List ArgumentDefinition → List InputValue
  unfolding wrap_type_from_type
  arg_values [] = []
  arg_values (arg ∷ args) =
      record {
        name = arg.name;
        description = arg.description;
        default_value = arg.default_value;
        type = wrap_type_from_type schema arg.type;
      }
      ∷ arg_values args

  unfoldable pub input_fields_of : List FieldDefinition → List InputValue
  unfolding wrap_type_from_type
  input_fields_of [] = []
  input_fields_of (f ∷ fs) =
      record {
        name = f.name;
        description = f.description;
        default_value = f.default_value;
        type = wrap_type_from_type schema f.type;
      }
      ∷ input_fields_of fs

  unfoldable pub input_fields_def : Option TypeDefinition → List InputValue
  unfolding input_fields_of
  input_fields_def none = []
  input_fields_def (some def) = elim def.kind [ input_object ↦ input_fields_of def.fields | _ ↦ [] ]

  -- `InputFields`.
  unfoldable pub input_fields : WrappedType → List InputValue
  unfolding input_fields_def
  input_fields t = input_fields_def t.def

  -- The loops that dereference what WrapTypeFromDef returns.
  dereferenced : Option WrappedType → Outcome (List WrappedType) → Outcome (List WrappedType)
  dereferenced none rest = panic "nil pointer dereference"
  dereferenced (some t) rest = rest >>= λ ts. ok (t ∷ ts)

  unfoldable pub named_types : List String → Outcome (List WrappedType)
  unfolding dereferenced wrap_type_from_def
  named_types [] = ok []
  named_types (name ∷ names) =
      dereferenced (wrap_type_from_def (schema.type_named name)) (named_types names)

  unfoldable pub wrapped_types : List (Option TypeDefinition) → Outcome (List WrappedType)
  unfolding dereferenced wrap_type_from_def
  wrapped_types [] = ok []
  wrapped_types (def ∷ defs) = dereferenced (wrap_type_from_def def) (wrapped_types defs)

  unfoldable pub interfaces_def : Option TypeDefinition → Outcome (List WrappedType)
  unfolding named_types
  interfaces_def none = ok []
  interfaces_def (some def) = elim def.kind [ object ↦ named_types def.interfaces | _ ↦ ok [] ]

  -- `Interfaces`.
  unfoldable pub interfaces : WrappedType → Outcome (List WrappedType)
  unfolding interfaces_def
  interfaces t = interfaces_def t.def

  unfoldable pub possible_types_def : Option TypeDefinition → Outcome (List WrappedType)
  unfolding wrapped_types
  possible_types_def none = ok []
  possible_types_def (some def) = elim def.kind [
    | interface ↦ wrapped_types (schema.possible_types def)
    | union ↦ wrapped_types (schema.possible_types def)
    | _ ↦ ok []
  ]

  -- `PossibleTypes`.
  unfoldable pub possible_types : WrappedType → Outcome (List WrappedType)
  unfolding possible_types_def
  possible_types t = possible_types_def t.def

  -- `Schema.Types`, and the three roots.
  unfoldable pub types_of : List TypeDefinition → List WrappedType
  types_of [] = []
  types_of (def ∷ defs) =
      let rest = types_of defs in
      if is_hidden def.name then rest else record { def = some def; typ = none } ∷ rest

  unfoldable pub schema_types : List WrappedType
  unfolding types_of
  schema_types = types_of schema.types

  unfoldable pub query_type : Option WrappedType
  unfolding wrap_type_from_def
  query_type = wrap_type_from_def schema.query

  unfoldable pub mutation_type : Option WrappedType
  unfolding wrap_type_from_def
  mutation_type = wrap_type_from_def schema.mutation

  unfoldable pub subscription_type : Option WrappedType
  unfolding wrap_type_from_def
  subscription_type = wrap_type_from_def schema.subscription

  unfoldable pub directive_from_def : DirectiveDefinition → DirectiveValue
  unfolding arg_values
  directive_from_def d = record {
    name = d.name;
    description = d.description;
    locations = d.locations;
    args = arg_values d.arguments;
  }

  unfoldable pub directives_of : List DirectiveDefinition → List DirectiveValue
  unfolding directive_from_def
  directives_of [] = []
  directives_of (d ∷ ds) = directive_from_def d ∷ directives_of ds

  -- `Schema.Directives`.
  unfoldable pub schema_directives : List DirectiveValue
  unfolding directives_of
  schema_directives = directives_of schema.directives

  module _ (directive_for_name : List Directive → String → Option Directive) where
    unfoldable pub fields_of : Bool → List FieldDefinition → List FieldValue
    unfolding arg_values wrap_type_from_type
    fields_of include [] = []
    fields_of include (f ∷ fs) =
        let rest = fields_of include fs in
        if is_hidden f.name
        then rest
        else if not include && is_set (directive_for_name f.directives "deprecated")
        then rest
        else record {
          name = f.name;
          description = f.description;
          type = wrap_type_from_type schema f.type;
          args = arg_values f.arguments;
          deprecation = directive_for_name f.directives "deprecated";
        }
          ∷ rest

    unfoldable pub fields_def : Bool → Option TypeDefinition → List FieldValue
    unfolding fields_of
    fields_def include none = []
    fields_def include (some def) = if has_fields def.kind then fields_of include def.fields else []

    -- `Fields`.
    unfoldable pub fields : WrappedType → Bool → List FieldValue
    unfolding fields_def
    fields t include_deprecated = fields_def include_deprecated t.def
