-- ===== src/Config/Binder.antt =====
-- codegen/config/binder.go, `TypeIdentifier` of codegen/templates/templates.go, and codegen/type.go: Go types
-- for GraphQL types. A character above ASCII is one code. The declarations of Go packages, as
-- go/types has them, are parameters: the underlying type of a named type, which is never named.
pub mod Lookup
pub mod Nilable
pub mod Registry
pub mod Rounds
pub mod Bound
pub mod Ends
mod Tests
use Prim.Native.Char.{code}
use fastgql.Prelude.{
  ℕ, String, Bool, true, false, not, ◌&&◌, ◌||◌, Option, none, some, List, [], ◌∷◌, ◌++◌,
  if◌then◌else◌, ◌==◌,
}
use fastgql.Prelude.Outcome.{Outcome, ok, panic, out_of_fuel, ◌>>=◌}
use fastgql.Prelude.Text.{Bytes, codes, bytes_eq}
use fastgql.Prelude.Maps.{Map, find, put}
use fastgql.Code.{
  GoType, pointer, slice, array, basic, struct_type, tuple, signature, interface_type, map_type,
  chan, named, other,
}

-- An `ast.Type`; the Boolean is `NonNull`.
pub data GqlType : Type 0 where
  named_type : Bytes → Bool → GqlType
  list_of : GqlType → Bool → GqlType

-- What the code reads of an `ast.Definition`; the last three are whether it is an input object, its
-- `IsInputType` and its `IsLeafType`.
pub record Definition : Type 0 where
  pub name : Bytes
  pub input_object : Bool
  pub input_type : Bool
  pub leaf_type : Bool

-- The functions are given by their names.
pub record TypeReference : Type 0 where
  pub definition : Option Definition
  pub gql : GqlType
  pub go : GoType
  pub target : Option GoType
  pub cast_type : Option GoType
  pub marshaler : Option Bytes
  pub unmarshaler : Option Bytes
  pub is_marshaler : Bool

abbrev pub with_types : GoType → GqlType → TypeReference → TypeReference
with_types go gql ref = record ref { gql = gql; go = go }

unfoldable pub elem_at : GoType → GqlType → TypeReference → Option TypeReference
elem_at (pointer e) q ref = some (with_types e q ref)
elem_at (slice e) (list_of q non_null) ref = some (with_types e q ref)
elem_at g q ref = none

-- `Elem`.
unfoldable pub elem : TypeReference → Option TypeReference
unfolding elem_at
elem ref = elem_at ref.go ref.gql ref

-- `PointerTo`, which leaves the target out.
unfoldable pub pointer_to : TypeReference → TypeReference
pointer_to ref = record ref { go = pointer ref.go; target = none }

abbrev pub non_null_of : GqlType → Bool
non_null_of (named_type name non_null) = non_null
non_null_of (list_of q non_null) = non_null

abbrev pub is_interface : GoType → Bool
is_interface (interface_type ms) = true
is_interface t = false

abbrev pub is_struct : GoType → Bool
is_struct (struct_type ms) = true
is_struct t = false

abbrev pub nilable_kind : GoType → Bool
nilable_kind (pointer t) = true
nilable_kind (map_type k t) = true
nilable_kind (interface_type ms) = true
nilable_kind (slice t) = true
nilable_kind (chan t) = true
nilable_kind t = false

module _ (underlying : Bytes → Bytes → GoType) where
  abbrev pub underlying_of : GoType → GoType
  underlying_of (named p n) = underlying p n
  underlying_of t = t

  -- `IsNilable`.
  unfoldable pub is_nilable : GoType → Bool
  is_nilable t = nilable_kind (underlying_of t)

  unfoldable pub is_target_nilable : TypeReference → Bool
  unfolding is_nilable
  is_target_nilable ref = elim ref.target [ none ↦ false | some t ↦ is_nilable t ]

  abbrev pub is_named_interface : GoType → Bool
  is_named_interface (named p n) = is_interface (underlying p n)
  is_named_interface t = false

  module _ (omit_slice_element_pointers : Bool) where
    -- `CopyModifiersFromAst`.
    unfoldable pub copy_modifiers_from_ast : GqlType → GoType → GoType
    unfolding is_nilable
    copy_modifiers_from_ast (list_of q non_null) base =
        let child = copy_modifiers_from_ast q base in
        slice (
          if is_struct (underlying_of child) && not omit_slice_element_pointers
          then pointer child
          else child)
    copy_modifiers_from_ast (named_type name non_null) base =
        if not (is_named_interface base) && not (is_nilable base) && not non_null
        then pointer base
        else base

abbrev replaced : ℕ → ℕ
replaced c =
    if c == b'/'
    then 0x168B
    else if c == b'.'
    then 0x1697
    else if c == b'-'
    then 0x1691
    else if c == b'~'
    then 0x5D0
    else c

-- `pkgReplacer.Replace`.
unfoldable pub replace_pkg : Bytes → Bytes
replace_pkg [] = []
replace_pkg (c ∷ s) = replaced c ∷ replace_pkg s

-- The text of an `ast.Type`.
unfoldable pub gql_string : GqlType → Bytes
gql_string (named_type name non_null) = name ++ (if non_null then codes "!" else [])
gql_string (list_of q non_null) =
    codes "[" ++ gql_string q ++ codes "]" ++ (if non_null then codes "!" else [])

abbrev pub checked :
    Option TypeReference → TypeReference → Map TypeReference → Outcome (Map TypeReference)
checked none ref m = ok m
checked (some existing) ref m =
    if bytes_eq (gql_string existing.gql) (gql_string ref.gql) then ok m else panic "non-unique key"

abbrev pub slice_elem : GoType → Option GoType
slice_elem (slice e) = some e
slice_elem t = none

abbrev pub if_slice :
    Option GoType
    → (GoType → Map TypeReference → Outcome (Map TypeReference))
    → Map TypeReference
    → Outcome (Map TypeReference)
if_slice none next ret = ok ret
if_slice (some e) next ret = next e ret

abbrev elem_nullability : GqlType → Bytes
elem_nullability (named_type name non_null) = []
elem_nullability (list_of q non_null) = if non_null_of q then codes "ᚄ" else []

-- The name of a basic type is that of go/types.
module _ (basic_name : ℕ → Bytes) where
  -- `TypeIdentifier`.
  unfoldable pub type_identifier : GoType → Outcome Bytes
  unfolding replace_pkg
  type_identifier (pointer t) = type_identifier t >>= λ s. ok (codes "ᚖ" ++ s)
  type_identifier (slice t) = type_identifier t >>= λ s. ok (codes "ᚕ" ++ s)
  type_identifier (named p n) = ok (replace_pkg p ++ codes "ᚐ" ++ n)
  type_identifier (basic k) = ok (basic_name k)
  type_identifier (map_type k t) = ok (codes "map")
  type_identifier (interface_type ms) = ok (codes "interface")
  type_identifier t = panic "unexpected type"

  unfoldable pub key_of : Option Definition → GqlType → GoType → Outcome Bytes
  unfolding type_identifier
  key_of none q g = panic "nil pointer dereference"
  key_of (some def) q g = type_identifier g >>= λ s. ok (
      codes (if non_null_of q then "N" else "O")
      ++ def.name
      ++ codes "2"
      ++ s
      ++ elem_nullability q)

  -- `UniquenessKey`.
  unfoldable pub uniqueness_key : TypeReference → Outcome Bytes
  unfolding key_of
  uniqueness_key ref = key_of ref.definition ref.gql ref.go

  -- `MarshalFunc` and `UnmarshalFunc`.
  unfoldable pub marshal_func : TypeReference → Outcome Bytes
  unfolding uniqueness_key
  marshal_func ref = elim ref.definition [
    | none ↦ panic "Definition missing"
    | some def ↦
        if def.input_object
        then ok []
        else uniqueness_key ref >>= λ key. ok (codes "marshal" ++ key)
  ]

  unfoldable pub unmarshal_func : TypeReference → Outcome Bytes
  unfolding uniqueness_key
  unmarshal_func ref = elim ref.definition [
    | none ↦ panic "Definition missing"
    | some def ↦
        if def.input_type
        then (uniqueness_key ref >>= λ key. ok (codes "unmarshal" ++ key))
        else ok []
  ]

  -- `processType` up to the element.
  unfoldable pub entered : TypeReference → Map TypeReference → Outcome (Map TypeReference)
  unfolding uniqueness_key find put gql_string
  entered ref ret = uniqueness_key ref >>= λ key. checked (find key ret) ref (put key ref ret)

  -- `processType` of a reference with those types.
  unfoldable pub process_at :
      GqlType → GoType → TypeReference → Map TypeReference → Outcome (Map TypeReference)
  unfolding entered
  process_at (named_type name non_null) g ref ret =
      entered (with_types g (named_type name non_null) ref) ret
  process_at (list_of q non_null) g ref ret =
      entered (with_types g (list_of q non_null) ref) ret
      >>= if_slice (slice_elem g) (λ e. process_at q e ref)

  -- `buildTypes`, over the references of the binder.
  unfoldable pub build_types : List TypeReference → Map TypeReference → Outcome (Map TypeReference)
  unfolding process_at
  build_types [] ret = ok ret
  build_types (ref ∷ refs) ret = process_at ref.gql ref.go ref ret >>= build_types refs
