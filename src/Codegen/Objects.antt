-- ===== src/Codegen/Objects.antt =====
-- codegen/object.go, `buildField` of codegen/field.go and `buildArg` of codegen/args.go.
pub mod Ends
use fastgql.Prelude.{
  ℕ, String, Bool, true, false, not, ◌&&◌, ◌||◌, Option, none, some, List, [], ◌∷◌, ◌⊎◌, inr,
  if◌then◌else◌,
}
use fastgql.Prelude.Outcome.{Outcome, ok, panic, out_of_fuel}
use fastgql.Prelude.Text.{Bytes, codes, bytes_eq, has_prefix}
use fastgql.Prelude.Maps.{Map}
use fastgql.Templates.{to_go, to_go_private}
use fastgql.Code.{GoType, named}
use fastgql.Config.{TypeMapField}
use fastgql.Config.Binder.{GqlType, TypeReference}
use fastgql.Config.Binder.Lookup.{Binder, Known, type_reference, default_user_object}
use fastgql.Codegen.Builder.{Build, ◌>>=◌, pure, checked, each}
use fastgql.Codegen.Binding.{Method, StructField, Declaration, Found, find_bind_target}
use fastgql.Codegen.Directives.{Directive, DirectiveUse, get_directives, default_of}
use fastgql.Codegen.Arguments.{Argument}
use fastgql.Codegen.Building.{Kind, Field, Done, Signature, bind_field, built, field_variable}
use fastgql.Codegen.Building

-- Definitions of gqlparser: an `ast.ArgumentDefinition`, an `ast.FieldDefinition` and an
-- `ast.Definition`.
pub record ArgumentDefinition : Type 0 where
  pub name : Bytes
  pub type : GqlType
  pub default_value : Option Bytes
  pub directives : List DirectiveUse

pub record FieldDefinition : Type 0 where
  pub name : Bytes
  pub type : GqlType
  pub arguments : List ArgumentDefinition
  pub default_value : Option Bytes
  pub directives : List DirectiveUse

pub data DefinitionKind : Type 0 where
  object input_object interface union scalar enum : DefinitionKind

pub record Definition : Type 0 where
  pub name : Bytes
  pub kind : DefinitionKind
  pub fields : List FieldDefinition
  pub directives : List DirectiveUse

pub record Object : Type 0 where
  pub name : Bytes
  pub type : Option GoType
  pub root : Bool
  pub fields : List Field
  pub implements : List Bytes
  pub disable_concurrency : Bool
  pub stream : Bool
  pub directives : List Directive

-- What the builder reads: of the binder, of gqlparser (values, the directives of types, implemented
-- interfaces, the names of the root types), of the configuration and of Go packages.
pub record Program : Type 0 where
  pub known : Known
  pub value_of : Bytes → String ⊎ Option Bytes
  pub uses_of : Bytes → List DirectiveUse
  pub implemented : Bytes → List Bytes
  pub query : Option Bytes
  pub mutation : Option Bytes
  pub subscription : Option Bytes
  pub skip_runtime : Bytes → Bool
  pub uses_tags : Bool
  pub field_config : Bytes → Bytes → TypeMapField
  pub type_string : GoType → Bytes
  pub signature_of : Method → Signature
  pub type_of : StructField → GoType
  pub declared : Bytes → Option Declaration
  pub string_fuel : ℕ
  pub embed_fuel : ℕ

-- Whether that is the root type; a schema without it has a nil pointer there.
abbrev is_root : Option Bytes → Bytes → Bool
is_root none name = false
is_root (some root) name = bytes_eq root name

abbrev maps : List Bytes → Bool
maps [] = false
maps (model ∷ models) = bytes_eq model (codes "map[string]interface{}")

-- The fields that `buildObject` does not skip.
unfoldable pub unreserved : List FieldDefinition → List FieldDefinition
unreserved [] = []
unreserved (f ∷ fs) =
    let rest = unreserved fs in if has_prefix f.name (codes "__") then rest else f ∷ rest

abbrev new_field : FieldDefinition → List Directive → Option Bytes → List Argument → Field
new_field f directives default args = record {
  name = f.name;
  type = f.type;
  type_reference = none;
  go_field_type = field_variable;
  go_receiver_name = codes "obj";
  go_field_name = to_go f.name;
  is_resolver = false;
  args = args;
  method_has_context = false;
  no_err = false;
  stream = false;
  directives = directives;
  default = default;
}

abbrev finished : Outcome (Binder × Field) → Outcome (Binder × (String ⊎ Field))
finished (ok (b, f)) = ok (b, inr f)
finished (panic text) = panic text
finished out_of_fuel = out_of_fuel

module _ (program : Program) where
  abbrev refer : GqlType → Option GoType → Build TypeReference
  refer = type_reference program.known program.string_fuel

  -- `findBindTarget` for the type of an object, which is asserted to be a named type.
  abbrev bind_target_of : Option GoType → Bytes → Outcome Found
  bind_target_of (some (named p n)) name =
      find_bind_target program.uses_tags name program.declared program.embed_fuel
        (program.type_string (named p n))
  bind_target_of _ name = panic "interface conversion"

  abbrev binding_of : Object → Bytes → Building.Object
  binding_of obj name = record {
    root = obj.root;
    stream = obj.stream;
    is_map = not obj.root && maps (program.known.models obj.name);
    resolver = (program.field_config obj.name name).resolver;
    field_name = (program.field_config obj.name name).field_name;
  }

  abbrev built_field : Outcome Done → Outcome (Binder × (String ⊎ Field))
  built_field (ok d) = finished (built program.known.underlying d)
  built_field (panic text) = panic text
  built_field out_of_fuel = out_of_fuel

  abbrev type_of_object : Bool → Bytes → Build (Option GoType)
  type_of_object true name = pure none
  type_of_object false name = do
    go ← checked (default_user_object program.known.load_with_types (program.known.models name))
    pure (some go)

  abbrev new_object : Definition → Option GoType → List Directive → Object
  new_object typ go uses = record {
    name = typ.name;
    type = go;
    root =
        is_root program.query typ.name
        || is_root program.mutation typ.name
        || is_root program.subscription typ.name;
    fields = [];
    implements = program.implemented typ.name;
    disable_concurrency = is_root program.mutation typ.name;
    stream = is_root program.subscription typ.name;
    directives = uses;
  }

  module _ (directives : Map Directive) where
    abbrev directives_of : List DirectiveUse → Build (List Directive)
    directives_of uses = get_directives program.value_of program.skip_runtime directives uses

    -- `buildArg`.
    unfoldable pub build_arg : ArgumentDefinition → Build Argument
    unfolding get_directives type_reference
    build_arg arg = do
      ref ← refer arg.type none
      uses ← directives_of arg.directives
      default ← default_of program.value_of arg.default_value
      pure (record {
        name = arg.name;
        type = arg.type;
        type_reference = some ref;
        var_name = to_go_private arg.name;
        default = default;
        directives = uses;
      })

    -- `buildField`.
    unfoldable pub build_field : Object → FieldDefinition → Build Field
    unfolding build_arg bind_field built find_bind_target each
    build_field obj f = do
      uses ← directives_of f.directives
      default ← default_of program.value_of f.default_value
      args ← each build_arg f.arguments
      λ b. built_field (
          bind_field refer program.type_string program.signature_of program.type_of
            (bind_target_of obj.type) (λ def. directives_of (program.uses_of def.name))
            (binding_of obj f.name) (new_field f uses default args) b)

    -- `buildObject`.
    unfoldable pub build_object : Definition → Build Object
    unfolding build_field unreserved default_user_object each
    build_object typ = do
      uses ← directives_of typ.directives
      go ← type_of_object (new_object typ none uses).root typ.name
      fields ← each (build_field (new_object typ go uses)) (unreserved typ.fields)
      pure (record (new_object typ go uses) { fields = fields })
