-- ===== src/Codegen/Directives.antt =====
-- codegen/directive.go: `buildDirectives` and `getDirectives`, and `ImplDirectives` of arguments.
-- `value_of` is `Value.Value(nil)` of gqlparser for the text of a value.
pub mod Applied
pub mod Ends
mod Tests
use fastgql.Prelude.{
  String, Bool, true, false, not, ◌&&◌, Option, none, some, List, [], ◌∷◌, ◌⊎◌, inl, inr,
  if◌then◌else◌,
}
use fastgql.Prelude.Outcome.{ok, panic, out_of_fuel}
use fastgql.Prelude.Text.{Bytes}
use fastgql.Prelude.Maps.{Map, find, put, is_some}
use fastgql.Templates.{to_go_private}
use fastgql.Codegen.Builder.{Build, ◌>>=◌, ◌>>◌, pure, checked, each, after}
use fastgql.Codegen.Fields.{is_location}
use fastgql.Config.Binder.{GqlType, TypeReference}
use fastgql.Code.{GoType}

-- An `ast.ArgumentDefinition` of a directive, and an `ast.DirectiveDefinition`.
pub record ArgumentDefinition : Type 0 where
  pub name : Bytes
  pub type : GqlType
  pub default_value : Option Bytes

pub record DirectiveDefinition : Type 0 where
  pub name : Bytes
  pub arguments : List ArgumentDefinition
  pub locations : List String

-- A value that is nil is none.
pub record DirectiveArgument : Type 0 where
  pub name : Bytes
  pub var_name : Bytes
  pub type_reference : TypeReference
  pub default : Option Bytes
  pub value : Option Bytes

pub record Directive : Type 0 where
  pub name : Bytes
  pub args : List DirectiveArgument
  pub locations : List String
  pub builtin : Bool

-- An `ast.Directive`; the locations are those of its definition.
pub record DirectiveUse : Type 0 where
  pub name : Bytes
  pub arguments : List (Bytes × Bytes)
  pub locations : List String

unfoldable pub impl_directives : List Directive → List Directive
unfolding is_location
impl_directives [] = []
impl_directives (d ∷ ds) =
    let rest = impl_directives ds in
    if not d.builtin && is_location d.locations ("ARGUMENT_DEFINITION" ∷ []) then d ∷ rest else rest

-- `locationDirectives`, which `LocationDirectives` calls with one location.
unfoldable pub location_directives : Map Directive → List String → Map Directive
unfolding is_location
location_directives [] location = []
location_directives ((name, d) ∷ ds) location =
    let rest = location_directives ds location in
    if is_location d.locations location then (name, d) ∷ rest else rest

abbrev pub applied_value : DirectiveArgument → Option (Option Bytes) → Option Bytes
applied_value a none = a.default
applied_value a (some value) = value

unfoldable pub applied : List DirectiveArgument → Map (Option Bytes) → List DirectiveArgument
unfolding find
applied [] values = []
applied (a ∷ args) values =
    record a { value = applied_value a (find a.name values); default = none } ∷ applied args values

abbrev pub declared : Option Directive → String ⊎ Directive
declared none = inl "directive not found"
declared (some def) = inr def

module _ (value_of : Bytes → String ⊎ Option Bytes) where
  -- The map of the values that are given.
  unfoldable pub arg_values : List (Bytes × Bytes) → Map (Option Bytes) → Build (Map (Option Bytes))
  unfolding put
  arg_values [] m = pure m
  arg_values ((name, raw) ∷ args) m = do
    value ← checked (value_of raw)
    arg_values args (put name value m)

  abbrev pub default_of : Option Bytes → Build (Option Bytes)
  default_of none = pure none
  default_of (some raw) = checked (value_of raw)

  module _ (skip_runtime : Bytes → Bool) where
    abbrev pub instantiated : DirectiveUse → Map (Option Bytes) → Directive → Directive
    instantiated d values def = record {
      name = d.name;
      args = applied def.args values;
      locations = d.locations;
      builtin = skip_runtime d.name;
    }

    unfoldable pub get_directive : Map Directive → DirectiveUse → Build Directive
    unfolding arg_values find applied
    get_directive directives d = do
      values ← arg_values d.arguments []
      def ← checked (declared (find d.name directives))
      pure (instantiated d values def)

    -- `getDirectives`.
    unfoldable pub get_directives : Map Directive → List DirectiveUse → Build (List Directive)
    unfolding get_directive each
    get_directives directives uses = each (get_directive directives) uses

    module _ (type_reference : GqlType → Option GoType → Build TypeReference) where
      unfoldable pub build_argument : ArgumentDefinition → Build DirectiveArgument
      build_argument arg = do
        ref ← type_reference arg.type none
        default ← default_of arg.default_value
        pure (record {
          name = arg.name;
          var_name = to_go_private arg.name;
          type_reference = ref;
          default = default;
          value = none;
        })

      abbrev pub unique : Bool → String ⊎ Unit {0}
      unique true = inl "directive already exists"
      unique false = inr tt

      -- `buildDirectives`, over the map of the schema.
      unfoldable pub build_directives :
          List (Bytes × DirectiveDefinition) → Map Directive → Build (Map Directive)
      unfolding build_argument each find put
      build_directives [] directives = pure directives
      build_directives ((name, dir) ∷ dirs) directives = do
        checked (unique (is_some (find name directives)))
        args ← each build_argument dir.arguments
        build_directives dirs (
            put name
              (record {
                name = name;
                args = args;
                locations = dir.locations;
                builtin = skip_runtime name;
              })
              directives)
