-- ===== src/Plugin/Federation.antt =====
-- plugin/federation/federation.go: the entities of a federated schema. Files and templates are not
-- modelled.
pub mod Ordering
pub mod Unordered
pub mod Sources
pub mod Keys
pub mod Reserved
mod Tests
use fastgql.Prelude.{
  ℕ, String, Bool, true, false, not, ◌&&◌, ◌||◌, Option, none, some, List, [], ◌∷◌, ◌++◌,
  if◌then◌else◌, ◌==◌,
}
use fastgql.Prelude.Outcome.{Outcome, ok, panic, ◌>>=◌}
use fastgql.Prelude.Text.{Bytes, codes, bytes_eq}
use fastgql.Prelude.Sorting.{sort}
use fastgql.Templates.{to_go}

-- The raw values of a directive's arguments.
pub record Directive : Type 0 where
  pub name : Bytes
  pub arguments : List Bytes

-- `type_text` is `Type.String()`.
pub record FieldDefinition : Type 0 where
  pub name : Bytes
  pub type_text : Bytes
  pub directives : List Directive

pub record Definition : Type 0 where
  pub name : Bytes
  pub is_object : Bool
  pub directives : List Directive
  pub fields : List FieldDefinition

-- A reference to a Go type is its text, none if it is nil.
pub record KeyField : Type 0 where
  pub field : Option FieldDefinition
  pub type_reference : Option Bytes

pub record RequireField : Type 0 where
  pub name : Bytes
  pub name_go : Bytes
  pub type_reference : Option Bytes

pub record Requires : Type 0 where
  pub name : Bytes
  pub fields : List RequireField

pub record Entity : Type 0 where
  pub name : Bytes
  pub key_fields : List KeyField
  pub resolver_name : Bytes
  pub def : Definition
  pub requires : List Requires

abbrev pub entity_name : Entity → Bytes
entity_name e = e.name

-- `strings.Split(s, " ")`.
split_from : Bytes → Bytes → List Bytes
split_from [] part = part ∷ []
split_from (c ∷ s) part =
    let next = split_from s [] in
    let more = split_from s (part ++ c ∷ []) in if c == b' ' then part ∷ next else more

unfoldable pub split : Bytes → List Bytes
unfolding split_from
split s = split_from s []

unfoldable pub contains_brace : Bytes → Bool
contains_brace [] = false
contains_brace (c ∷ s) = c == b'{' || contains_brace s

-- `ForName` of gqlparser, on directives and on fields.
pub record Lookups : Type 0 where
  pub directive_for_name : List Directive → Bytes → Option Directive
  pub field_for_name : List FieldDefinition → Bytes → Option FieldDefinition

abbrev is_none {ℓ} : {A : Type ℓ} → Option A → Bool
is_none none = true
is_none (some a) = false

require_fields : List Bytes → List RequireField
require_fields [] = []
require_fields (f ∷ fs) =
    record { name = f; name_go = []; type_reference = none } ∷ require_fields fs

add_requires : FieldDefinition → List Bytes → Outcome (List Requires) → Outcome (List Requires)
unfolding require_fields split
add_requires f [] rest = panic "index out of range"
add_requires f (raw ∷ raws) rest = rest >>= λ requires.
    ok (record { name = f.name; fields = require_fields (split raw) } ∷ requires)

-- The rest of the resolver's name: the Go names of the key fields, with And between them.
unfoldable pub resolver_suffix : List Bytes → Bytes
resolver_suffix [] = []
resolver_suffix (f ∷ []) = to_go f
resolver_suffix (f ∷ g ∷ fs) = to_go f ++ codes "And" ++ resolver_suffix (g ∷ fs)

module _ (lookups : Lookups) where
  open lookups use {directive_for_name, field_for_name}

  requires_at :
      FieldDefinition → Option Directive → Outcome (List Requires) → Outcome (List Requires)
  unfolding add_requires
  requires_at f none rest = rest
  requires_at f (some dir) rest = add_requires f dir.arguments rest

  unfoldable pub requires_of : List FieldDefinition → Outcome (List Requires)
  unfolding requires_at
  requires_of [] = ok []
  requires_of (f ∷ fs) =
      requires_at f (directive_for_name f.directives (codes "requires")) (requires_of fs)

  unfoldable pub key_fields_of : List FieldDefinition → List Bytes → List KeyField
  key_fields_of fields [] = []
  key_fields_of fields (f ∷ fs) =
      record { field = field_for_name fields f; type_reference = none } ∷ key_fields_of fields fs

  -- `allFieldsAreExternal`.
  unfoldable pub all_fields_are_external : List FieldDefinition → Bool
  all_fields_are_external [] = true
  all_fields_are_external (f ∷ fs) =
      let rest = all_fields_are_external fs in
      if is_none (directive_for_name f.directives (codes "external")) then false else rest

  unfoldable pub new_entity : Definition → Bytes → List Requires → Entity
  unfolding key_fields_of resolver_suffix split all_fields_are_external
  new_entity type field_name requires = record {
    name = type.name;
    key_fields = key_fields_of type.fields (split field_name);
    resolver_name =
        if all_fields_are_external type.fields
        then []
        else codes "find" ++ type.name ++ codes "By" ++ resolver_suffix (split field_name);
    def = type;
    requires = requires;
  }

  unfoldable pub keyed_entity : Definition → List Bytes → Outcome (List Entity)
  unfolding new_entity contains_brace requires_of
  keyed_entity type [] = panic "index out of range"
  keyed_entity type (a ∷ b ∷ more) =
      panic "Multiple arguments are not currently supported in @key declaration."
  keyed_entity type (field_name ∷ []) =
      if contains_brace field_name
      then panic "Nested fields are not currently supported in @key declaration."
      else (requires_of type.fields >>= λ requires. ok (new_entity type field_name requires ∷ []))

  unfoldable pub entity_at : Definition → Option Directive → Outcome (List Entity)
  unfolding keyed_entity
  entity_at type none = ok []
  entity_at type (some dir) = keyed_entity type dir.arguments

  -- The entity of a type, if it is one.
  unfoldable pub entity_of : Definition → Outcome (List Entity)
  unfolding entity_at
  entity_of type =
      if type.is_object
      then entity_at type (directive_for_name type.directives (codes "key"))
      else ok []

  unfoldable pub collect : List Definition → Outcome (List Entity)
  unfolding entity_of
  collect [] = ok []
  collect (type ∷ types) = do here ← entity_of type; rest ← collect types; ok (here ++ rest)

  -- `setEntities` of a plugin with these entities; the types in an order of the schema's map.
  unfoldable pub set_entities : List Entity → List Definition → Outcome (List Entity)
  unfolding collect
  set_entities entities types = collect types >>= λ es. ok (sort entity_name (entities ++ es))
