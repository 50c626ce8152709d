-- ===== src/Graphql/Introspection.antt =====
-- Package introspection (graphql/introspection/): what a query learns of the schema. The texts of
-- `Query` and of `Value.String` are not modelled.
pub mod Listing
pub mod Wrapping
pub mod Deprecation
mod Tests
use fastgql.Prelude.{
  String, Bool, true, false, not, ◌&&◌, ◌||◌, Option, none, some, List, [], ◌∷◌, ◌++◌,
  if◌then◌else◌, str_eq,
}
use fastgql.Prelude.Outcome.{Outcome, ok, panic, ◌>>=◌}
use fastgql.Prelude.Text.{codes, has_prefix}
use fastgql.Ast.{Kind, scalar, object, interface, union, enum, input_object, Argument, Directive}

-- `ast.Type`: NamedType, Elem and NonNull. `leaf` has no Elem.
pub data AstType : Type 0 where
  leaf : String → Bool → AstType
  wrap : String → AstType → Bool → AstType

-- An `ast.ArgumentDefinition`. A default value is the text of its `String`.
pub record ArgumentDefinition : Type 0 where
  pub name : String
  pub description : String
  pub default_value : Option String
  pub type : Option AstType

pub record FieldDefinition : Type 0 where
  pub name : String
  pub description : String
  pub arguments : List ArgumentDefinition
  pub default_value : Option String
  pub type : Option AstType
  pub directives : List Directive

pub record EnumValueDefinition : Type 0 where
  pub name : String
  pub description : String
  pub directives : List Directive

-- `ast.Definition`.
pub record TypeDefinition : Type 0 where
  pub name : String
  pub description : String
  pub kind : Kind
  pub fields : List FieldDefinition
  pub interfaces : List String
  pub enum_values : List EnumValueDefinition

pub record DirectiveDefinition : Type 0 where
  pub name : String
  pub description : String
  pub locations : List String
  pub arguments : List ArgumentDefinition

-- `ast.Schema`: its map of types by key, and in an order of the map. `possible_types` is gqlparser's.
pub record Schema : Type 0 where
  pub query : Option TypeDefinition
  pub mutation : Option TypeDefinition
  pub subscription : Option TypeDefinition
  pub type_named : String → Option TypeDefinition
  pub types : List TypeDefinition
  pub directives : List DirectiveDefinition
  pub possible_types : TypeDefinition → List (Option TypeDefinition)

-- `introspection.Type` without its schema, which is that of every call.
pub record WrappedType : Type 0 where
  pub def : Option TypeDefinition
  pub typ : Option AstType

pub record InputValue : Type 0 where
  pub name : String
  pub description : String
  pub default_value : Option String
  pub type : Option WrappedType

pub record EnumValue : Type 0 where
  pub name : String
  pub description : String
  pub deprecation : Option Directive

pub record FieldValue : Type 0 where
  pub name : String
  pub description : String
  pub type : Option WrappedType
  pub args : List InputValue
  pub deprecation : Option Directive

pub record DirectiveValue : Type 0 where
  pub name : String
  pub description : String
  pub locations : List String
  pub args : List InputValue

abbrev pub is_set {ℓ} : {A : Type ℓ} → Option A → Bool
is_set none = false
is_set (some a) = true

-- `IsDeprecated` of fields and of enum values, of their deprecation.
abbrev pub is_deprecated : Option Directive → Bool
is_deprecated deprecation = is_set deprecation

reason_of : Option Argument → Option String
reason_of none = none
reason_of (some reason) = some reason.raw

-- `DeprecationReason` of both.
unfoldable pub deprecation_reason :
    (List Argument → String → Option Argument) → Option Directive → Option String
unfolding reason_of
deprecation_reason argument_for_name none = none
deprecation_reason argument_for_name (some d) = reason_of (argument_for_name d.arguments "reason")

unfoldable pub wrap_type_from_def : Option TypeDefinition → Option WrappedType
wrap_type_from_def none = none
wrap_type_from_def (some def) = some (record { def = some def; typ = none })

abbrev pub non_null : AstType → Bool
non_null (leaf name b) = b
non_null (wrap name elem b) = b

abbrev pub named_type : AstType → String
named_type (leaf name b) = name
named_type (wrap name elem b) = name

abbrev pub elem_of : AstType → Option AstType
elem_of (leaf name b) = none
elem_of (wrap name elem b) = some elem

-- A copy with NonNull reset.
abbrev pub nullable : AstType → AstType
nullable (leaf name b) = leaf name false
nullable (wrap name elem b) = wrap name elem false

abbrev pub kind_name : Kind → String
kind_name scalar = "SCALAR"
kind_name object = "OBJECT"
kind_name interface = "INTERFACE"
kind_name union = "UNION"
kind_name enum = "ENUM"
kind_name input_object = "INPUT_OBJECT"

abbrev pub is_hidden : String → Bool
is_hidden name = has_prefix (codes name) (codes "__")

module _ (schema : Schema) where
  open schema use {type_named}

  unfoldable pub wrap_type_from_type : Option AstType → Option WrappedType
  wrap_type_from_type none = none
  wrap_type_from_type (some t) =
      if not (non_null t) && not (str_eq (named_type t) "")
      then some (record { def = type_named (named_type t); typ = none })
      else some (record { def = none; typ = some t })

  of_typ : Option AstType → Option WrappedType
  unfolding wrap_type_from_type
  of_typ none = none
  of_typ (some t) =
      if non_null t
      then wrap_type_from_type (some (nullable t))
      else wrap_type_from_type (elem_of t)

  -- `OfType`.
  unfoldable pub of_type : WrappedType → Option WrappedType
  unfolding of_typ
  of_type t = of_typ t.typ

kind_of_def : Option TypeDefinition → Outcome String
kind_of_def none = panic "nil pointer dereference"
kind_of_def (some def) = ok (kind_name def.kind)

kind_of : Option AstType → Option TypeDefinition → Outcome String
unfolding kind_of_def
kind_of none def = kind_of_def def
kind_of (some t) def =
    if non_null t then ok "NON_NULL" else if is_set (elem_of t) then ok "LIST" else panic "UNKNOWN"

-- `Kind`, `Name` and `Description`.
unfoldable pub kind : WrappedType → Outcome String
unfolding kind_of
kind t = kind_of t.typ t.def

name_of : Option TypeDefinition → Option String
name_of none = none
name_of (some def) = some def.name

unfoldable pub name : WrappedType → Option String
unfolding name_of
name t = name_of t.def

description_of : Option TypeDefinition → String
description_of none = ""
description_of (some def) = def.description

unfoldable pub description : WrappedType → String
unfolding description_of
description t = description_of t.def
