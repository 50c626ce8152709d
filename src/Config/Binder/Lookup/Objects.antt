-- ===== src/Config/Binder/Lookup/Objects.antt =====
-- codegen/config/binder.go: `FindObject`, `DefaultUserObject` and the tests on Go types that `TypeReference`
-- makes.
use fastgql.Prelude.{
  ℕ, String, Bool, true, false, not, ◌&&◌, ◌||◌, Option, none, some, List, [], ◌∷◌, ◌++◌,
  if◌then◌else◌, ◌==◌, ◌⊎◌, inl, inr,
}
use fastgql.Prelude.Text.{Bytes, codes, bytes_eq}
use fastgql.Code.{GoType, pointer, basic, interface_type, map_type, named, nil, invalid}
use fastgql.Code.Dirs.{pkg_and_type}

-- A types.Object: its name, the types of its parameters if it is a function, and its type.
pub record Object : Type 0 where
  pub name : Bytes
  pub params : Option (List GoType)
  pub type : GoType

-- An entry of `TypesInfo.Defs`; it is in the scope of the package or not.
pub record Def : Type 0 where
  pub ident : Bytes
  pub top_scope : Bool
  pub object : Option Object

abbrev pub string_kind : ℕ
string_kind = 17

abbrev pub map_of_any : GoType
map_of_any = map_type (basic string_kind) (interface_type nil)

abbrev pub any_type : GoType
any_type = interface_type nil

abbrev if_top : Bool → Option Object → Option Object → Option Object
if_top true (some object) rest = some object
if_top true none rest = rest
if_top false object rest = rest

-- A loop of `FindObject`.
unfoldable pub find_def : Bytes → List Def → Option Object
find_def name [] = none
find_def name (d ∷ defs) =
    if_top (d.top_scope && bytes_eq d.ident name) d.object (find_def name defs)

abbrev pub function_or_type : Option Object → Option Object → String ⊎ Object
function_or_type (some function) type = inr function
function_or_type none (some type) = inr type
function_or_type none none = inl "unable to find type"

abbrev pub in_package : Bytes → Option (List Def) → String ⊎ Object
in_package type_name none = inl "required package was not loaded"
in_package type_name (some defs) =
    function_or_type (find_def (codes "Marshal" ++ type_name) defs) (find_def type_name defs)

module _ (load_with_types : Bytes → Option (List Def)) where
  -- `FindObject`.
  unfoldable pub find_object : Bytes → Bytes → String ⊎ Object
  unfolding find_def
  find_object pkg_name type_name =
      if bytes_eq pkg_name []
      then inl "package cannot be nil"
      else in_package type_name (load_with_types pkg_name)

  abbrev pub type_of_object : String ⊎ Object → String ⊎ GoType
  type_of_object (inl err) = inl err
  type_of_object (inr object) = inr object.type

  -- `DefaultUserObject`, of the models of the name.
  unfoldable pub default_user_object : List Bytes → String ⊎ GoType
  unfolding find_object pkg_and_type
  default_user_object [] = inl "not found in typemap"
  default_user_object (model ∷ models) =
      let (pkg_name, type_name) = pkg_and_type model in
      if bytes_eq model (codes "map[string]interface{}")
      then inr map_of_any
      else if bytes_eq model (codes "interface{}")
      then inr any_type
      else if bytes_eq pkg_name []
      then inl "missing package name"
      else type_of_object (find_object pkg_name type_name)

abbrev pub is_map : Option GoType → Bool
is_map none = true
is_map (some (map_type k t)) = true
is_map (some t) = false

abbrev pub is_intf : Option GoType → Bool
is_intf none = true
is_intf (some (interface_type ms)) = true
is_intf (some t) = false

unfoldable pub is_valid : Option GoType → Bool
is_valid (some (basic k)) = not (k == invalid)
is_valid t = true

abbrev dereferenced : GoType → GoType
dereferenced (pointer t) = t
dereferenced t = t

abbrev one_named : List Bytes → Bytes → Bool
one_named [] name = false
one_named (method ∷ methods) name = bytes_eq method name || one_named methods name

abbrev methods_of : (Bytes → Bytes → List Bytes) → GoType → List Bytes
methods_of methods (named p n) = methods p n
methods_of methods t = []

unfoldable pub has_method : (Bytes → Bytes → List Bytes) → GoType → Bytes → Bool
has_method methods t name = one_named (methods_of methods (dereferenced t)) name

abbrev basic_kind : GoType → Option ℕ
basic_kind (basic k) = some k
basic_kind t = none

abbrev named_kind : (Bytes → Bytes → GoType) → GoType → Option ℕ
named_kind underlying (named p n) = basic_kind (underlying p n)
named_kind underlying t = none

unfoldable pub basic_underlying : (Bytes → Bytes → GoType) → GoType → Option ℕ
basic_underlying underlying t = named_kind underlying (dereferenced t)
