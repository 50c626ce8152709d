-- ===== src/Config/Binder/Lookup.antt =====
-- codegen/config/binder.go: `TypeReference`.
-- The loaded packages, the methods and underlying types of named types, and the schema are parameters.
pub mod Objects
pub use fastgql.Config.Binder.Lookup.Objects.{
  Object, Def, string_kind, map_of_any, any_type, function_or_type, in_package, type_of_object,
  is_map, is_intf,
}
unfoldable pub use fastgql.Config.Binder.Lookup.Objects.{
  find_def, find_object, default_user_object, is_valid, has_method, basic_underlying,
}
use fastgql.Prelude.{
  ℕ, zero, suc, String, Bool, true, false, not, ◌&&◌, ◌||◌, Option, none, some, List, [], ◌∷◌, ◌++◌,
  if◌then◌else◌, ◌==◌, ◌⊎◌, inl, inr,
}
use fastgql.Prelude.Outcome.{Outcome, ok, panic, out_of_fuel, ◌>>=◌}
use fastgql.Prelude.Text.{Bytes, codes, bytes_eq}
use fastgql.Code.{
  GoType, pointer, basic, interface_type, map_type, named, nil, compatible_types, invalid,
}
use fastgql.Code.Dirs.{pkg_and_type}
use fastgql.Config.Binder.{
  GqlType, named_type, list_of, Definition, TypeReference, copy_modifiers_from_ast,
}

-- The state of the binder.
pub record Binder : Type 0 where
  pub references : List TypeReference
  pub saw_invalid : Bool

abbrev pub Result : Type 0
Result = Outcome (Binder × (String ⊎ TypeReference))

abbrev pub wraps_string : Option Definition → Option ℕ → Outcome Bool
wraps_string none kind = panic "nil pointer dereference"
wraps_string (some def) none = ok false
wraps_string (some def) (some kind) = ok (def.leaf_type && kind == string_kind)

abbrev pub plain : Option Definition → GqlType → GoType → TypeReference
plain def q go = record {
  definition = def;
  gql = q;
  go = go;
  target = none;
  cast_type = none;
  marshaler = none;
  unmarshaler = none;
  is_marshaler = false;
}

-- `Name` of an `ast.Type`.
abbrev pub type_name_of : GqlType → Bytes
type_name_of (named_type name non_null) = name
type_name_of (list_of q non_null) = type_name_of q

abbrev pub string_type : GqlType
string_type = named_type (codes "String") false

-- `PushRef` on success.
abbrev pub pushed : Binder × (String ⊎ TypeReference) → Binder × (String ⊎ TypeReference)
pushed (b, inl err) = (b, inl err)
pushed (b, inr ref) = (record b { references = b.references ++ ref ∷ [] }, inr ref)

-- The reference with its type as a target, with the type that is bound.
abbrev pub targeted : TypeReference → GoType → TypeReference
targeted ref go = record ref { go = go; target = some ref.go }

abbrev pub or_next : TypeReference → GoType → Option String → (Binder → Result) → Binder → Result
or_next ref t none next b = ok (b, inr (targeted ref t))
or_next ref t (some err) next b = next b

-- What a binder reads: the declarations of Go packages as go/types has them, the types of the schema,
-- and the configuration.
pub record Known : Type 0 where
  pub underlying : Bytes → Bytes → GoType
  pub methods : Bytes → Bytes → List Bytes
  pub load_with_types : Bytes → Option (List Def)
  pub omit_slice_element_pointers : Bool
  pub types : Bytes → Option Definition
  pub models : Bytes → List Bytes

-- `CopyModifiersFromAst`.
abbrev pub modified : Known → GqlType → GoType → GoType
modified known = copy_modifiers_from_ast known.underlying known.omit_slice_element_pointers

module _ (known : Known) (q : GqlType) (def : Option Definition) (bind_target : Option GoType) where
  -- The end of a round.
  unfoldable pub fitted : Option GoType → TypeReference → (Binder → Result) → Binder → Result
  unfolding copy_modifiers_from_ast compatible_types
  fitted none ref next b = ok (b, inr (targeted ref (modified known q ref.go)))
  fitted (some t) ref next b = or_next ref t (compatible_types (modified known q ref.go) t) next b

  abbrev pub casting : Object → (Binder → Result) → Binder × (String ⊎ TypeReference) → Result
  casting object next (b, inl err) = ok (b, inl err)
  casting object next (b, inr underlying_ref) =
      fitted bind_target
        (record {
          definition = def;
          gql = q;
          go = object.type;
          target = none;
          cast_type = some (basic string_kind);
          marshaler = underlying_ref.marshaler;
          unmarshaler = underlying_ref.unmarshaler;
          is_marshaler = false;
        })
        next b

  module _ (string_ref : Binder → Result) where
    abbrev pub by_kind : Object → (Binder → Result) → Binder → Bool → Result
    by_kind object next b true = string_ref b >>= casting object next
    by_kind object next b false = fitted bind_target (plain def q object.type) next b

    abbrev pub of_type : Object → (Binder → Result) → Binder → Bool → Result
    of_type object next b true =
        fitted bind_target
          (record {
            definition = def;
            gql = q;
            go = object.type;
            target = none;
            cast_type = none;
            marshaler = none;
            unmarshaler = none;
            is_marshaler = true;
          })
          next b
    of_type object next b false =
        wraps_string def (basic_underlying known.underlying object.type) >>= by_kind object next b

    -- The object of a model: a function, or a type.
    abbrev pub of_object :
        Bytes → Object → Option (List GoType) → (Binder → Result) → Binder → Result
    of_object type_name object (some []) next b = panic "index out of range"
    of_object type_name object (some (param ∷ params)) next b =
        fitted bind_target
          (record {
            definition = def;
            gql = q;
            go = param;
            target = none;
            cast_type = none;
            marshaler = some object.name;
            unmarshaler = some (codes "Unmarshal" ++ type_name);
            is_marshaler = false;
          })
          next b
    of_object type_name object none next b = of_type object next b (
        has_method known.methods object.type (codes "MarshalGQL")
        && has_method known.methods object.type (codes "UnmarshalGQL"))

    abbrev pub of_found : Bytes → String ⊎ Object → (Binder → Result) → Binder → Result
    of_found type_name (inl err) next b = ok (b, inl err)
    of_found type_name (inr object) next b = of_object type_name object object.params next b

    abbrev pub incompatible : Option GoType → Binder → Result
    incompatible none b = panic "nil pointer dereference"
    incompatible (some t) b = ok (b, inl "incompatible")

    -- The loop over the models.
    unfoldable pub bind_models : List Bytes → Binder → Result
    unfolding find_object pkg_and_type fitted has_method basic_underlying
    bind_models [] b = incompatible bind_target b
    bind_models (model ∷ models) b =
        let next = bind_models models in
        let (pkg_name, type_name) = pkg_and_type model in
        if bytes_eq model (codes "map[string]interface{}")
        then if is_map bind_target then ok (b, inr (plain def q map_of_any)) else next b
        else if bytes_eq model (codes "interface{}")
        then if is_intf bind_target then ok (b, inr (plain def q any_type)) else next b
        else if bytes_eq pkg_name []
        then ok (b, inl "missing package name")
        else of_found type_name (find_object known.load_with_types pkg_name type_name) next b

module _ (known : Known) where
  abbrev pub with_models :
      GqlType → Option GoType → (Binder → Result) → List Bytes → Binder → Result
  with_models q bind_target string_ref [] b = ok (b, inl "was not found")
  with_models q bind_target string_ref (model ∷ more) b =
      bind_models known q (known.types (type_name_of q)) bind_target string_ref (model ∷ more) b
      >>= λ r. ok (pushed r)

  -- `TypeReference`.
  unfoldable pub type_reference : ℕ → GqlType → Option GoType → Binder → Result
  unfolding bind_models is_valid
  type_reference zero q bind_target b = out_of_fuel
  type_reference (suc fuel) q bind_target b =
      let string_ref = type_reference fuel string_type none in
      if is_valid bind_target
      then with_models q bind_target string_ref (known.models (type_name_of q)) b
      else ok (record b { saw_invalid = true }, inl "has an invalid type")
