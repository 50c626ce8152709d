-- ===== src/Codegen/Data.antt =====
-- codegen/data.go: `BuildData` and `injectIntrospectionRoots`.
-- Parameters besides those of objects: `types.Implements`, the possible types of the schema, whether the
-- type map has a type, the names of basic types, and the errors of the loaded packages.
pub mod Complete
pub mod Ends
mod Tests
use fastgql.Prelude.{
  ℕ, String, Bool, true, false, not, Option, none, some, List, [], ◌∷◌, ◌++◌, ◌⊎◌, inl, inr,
  if◌then◌else◌,
}
use fastgql.Prelude.Outcome.{Outcome, ok, panic, out_of_fuel}
use fastgql.Prelude.Text.{Bytes, codes}
use fastgql.Prelude.Maps.{Map, put}
use fastgql.Prelude.Sorting.{sort}
use fastgql.Code.{GoType}
use fastgql.Config.Binder.{named_type, TypeReference, build_types}
use fastgql.Config.Binder.Lookup.{Binder, type_reference, default_user_object}
use fastgql.Codegen.Builder.{Build, ◌>>=◌, pure, checked, after}
use fastgql.Codegen.Binding.{equal_fold}
use fastgql.Codegen.Building.{Field}
use fastgql.Codegen.Directives.{Directive, DirectiveDefinition, build_directives}
use fastgql.Codegen.Interfaces.{Interface, build_interface}
use fastgql.Codegen.Objects.{
  DefinitionKind, Definition, object, input_object, interface, union, scalar, enum, FieldDefinition,
  ArgumentDefinition, Object, Program, build_object, build_field,
}

pub record Data : Type 0 where
  pub directives : Map Directive
  pub objects : List Object
  pub inputs : List Object
  pub interfaces : Map Interface
  pub referenced_types : Map TypeReference
  pub query_root : Option Object
  pub mutation_root : Option Object
  pub subscription_root : Option Object

-- The directives that are not builtin.
unfoldable pub data_directives : Map Directive → Map Directive
data_directives [] = []
data_directives ((name, d) ∷ ds) =
    let rest = data_directives ds in if d.builtin then rest else (name, d) ∷ rest

unfoldable pub by_name : Bytes → List Object → Option Object
by_name name [] = none
by_name name (o ∷ os) =
    let rest = by_name name os in if equal_fold o.name name then some o else rest

-- The fields are appended to the object that `ByName` finds, which the list shares.
unfoldable pub append_fields : Bytes → List Field → List Object → List Object
append_fields name fields [] = []
append_fields name fields (o ∷ os) =
    let rest = append_fields name fields os in
    if equal_fold o.name name then record o { fields = o.fields ++ fields } ∷ os else o ∷ rest

abbrev pub object_name : Object → Bytes
object_name o = o.name

abbrev pub type_field : FieldDefinition
type_field = record {
  name = codes "__type";
  type = named_type (codes "__Type") false;
  arguments =
      record {
        name = codes "name";
        type = named_type (codes "String") true;
        default_value = none;
        directives = [];
      }
      ∷ [];
  default_value = none;
  directives = [];
}

abbrev pub schema_field : FieldDefinition
schema_field = record {
  name = codes "__schema";
  type = named_type (codes "__Schema") false;
  arguments = [];
  default_value = none;
  directives = [];
}

abbrev pub or_error {ℓ} : {A : Type ℓ} → String → Option A → String ⊎ A
or_error text none = inl text
or_error text (some a) = inr a

abbrev root_of : Option Bytes → List Object → Option Object
root_of none objects = none
root_of (some name) objects = by_name name objects

abbrev interface_step : Outcome (String ⊎ Interface) → Build Interface
interface_step (ok r) b = ok (b, r)
interface_step (panic text) b = panic text
interface_step out_of_fuel b = out_of_fuel

abbrev referenced : Outcome (Map TypeReference) → Build (Map TypeReference)
referenced (ok m) b = ok (b, inr m)
referenced (panic text) b = panic text
referenced out_of_fuel b = out_of_fuel

abbrev invalid_error : List String → String
invalid_error [] = "invalid types were encountered while traversing the go source code"
invalid_error (err ∷ errs) = err

abbrev start : Map Directive → Data
start directives = record {
  directives = data_directives directives;
  objects = [];
  inputs = [];
  interfaces = [];
  referenced_types = [];
  query_root = none;
  mutation_root = none;
  subscription_root = none;
}

abbrev pub types_built : (ℕ → Bytes) → Build (Map TypeReference)
types_built basic_name b = referenced (build_types basic_name b.references []) b

-- An error if an invalid type was seen.
abbrev all_valid : List String → Data → Bool → String ⊎ Data
all_valid package_errors s true = inl (invalid_error package_errors)
all_valid package_errors s false = inr s

abbrev if_valid : List String → Data → Build Data
if_valid package_errors s b = ok (b, all_valid package_errors s b.saw_invalid)

-- The roots are the objects as they are after the injection, to which they point.
abbrev finished : Program → Bytes → Data → Map TypeReference → Data
finished program query s types = record s {
  objects = sort object_name s.objects;
  inputs = sort object_name s.inputs;
  referenced_types = types;
  query_root = by_name query s.objects;
  mutation_root = root_of program.mutation s.objects;
  subscription_root = root_of program.subscription s.objects;
}

module _ (program : Program) (implements : GoType → GoType → Bool)
    (possible_types : Bytes → List Bytes) (user_defined : Bytes → Bool) where
  module _ (directives : Map Directive) where
    abbrev built_interface : Definition → Build Interface
    built_interface typ = interface_step (
        build_interface program.known.underlying implements
          (λ name. default_user_object program.known.load_with_types (program.known.models name))
          possible_types user_defined typ.name)

    -- A round of the loop over the types of the schema.
    unfoldable pub add_type : DefinitionKind → Definition → Data → Build Data
    unfolding build_object build_interface put
    add_type object typ s = do
      obj ← build_object program directives typ
      pure (record s { objects = s.objects ++ obj ∷ [] })
    add_type input_object typ s = do
      input ← build_object program directives typ
      pure (record s { inputs = s.inputs ++ input ∷ [] })
    add_type interface typ s = do
      i ← built_interface typ
      pure (record s { interfaces = put typ.name i s.interfaces })
    add_type union typ s = do
      i ← built_interface typ
      pure (record s { interfaces = put typ.name i s.interfaces })
    add_type kind typ s = pure s

    unfoldable pub add_types : List Definition → Data → Build Data
    unfolding add_type
    add_types [] s = pure s
    add_types (typ ∷ types) s = do s' ← add_type typ.kind typ s; add_types types s'

    unfoldable pub inject_introspection_roots : Bytes → Data → Build Data
    unfolding by_name append_fields build_field
    inject_introspection_roots query s = do
      obj ← checked (or_error "root query type must be defined" (by_name query s.objects))
      type ← build_field program directives obj type_field
      schema ← build_field program directives obj schema_field
      pure (record s { objects = append_fields query (type ∷ schema ∷ []) s.objects })

  module _ (basic_name : ℕ → Bytes) (package_errors : List String) where
    -- `BuildData`, over the directives and types of the schema.
    unfoldable pub build_data : List (Bytes × DirectiveDefinition) → List Definition → Build Data
    unfolding build_directives data_directives add_types inject_introspection_roots build_types sort
        by_name type_reference
    build_data schema_directives types = do
      directives ←
          build_directives program.value_of program.skip_runtime
            (type_reference program.known program.string_fuel) schema_directives []
      s ← add_types directives types (start directives)
      query ← checked (or_error "query entry point missing" program.query)
      s' ← inject_introspection_roots directives query s
      refs ← types_built basic_name
      if_valid package_errors (finished program query s' refs)
