-- ===== src/Ast.antt =====
-- What the code reads of the GraphQL syntax tree (gqlparser's package ast): selections with their
-- directives and arguments, fragments and type definitions. Pointers that can be nil are options.
use fastgql.Prelude.{String, Option, List, [], ◌∷◌}

pub data Kind : Type 0 where
  scalar object interface union enum input_object : Kind

pub record Definition : Type 0 where
  pub name : String
  pub kind : Kind

-- The text of an argument's value, `Value.Raw`.
pub record Argument : Type 0 where
  pub name : String
  pub raw : String

pub record Directive : Type 0 where
  pub name : String
  pub arguments : List Argument

-- A field of a query without its selection set. `type_name` is `Definition.Type.Name()`.
pub record Field : Type 0 where
  pub name : String
  pub alias : String
  pub directives : List Directive
  pub object_definition : Option Definition
  pub type_name : Option String

-- An `ast.SelectionSet`. A spread holds the selection set of the fragment's definition, which the
-- validator links to it.
mutual
  pub data Selection : Type 0 where
    field : Field → Selections → Selection
    inline_fragment : String → List Directive → Selections → Selection
    fragment_spread : String → List Directive → Selections → Selection

  pub data Selections : Type 0 where
    nil : Selections
    cons : Selection → Selections → Selections

pub record Fragment : Type 0 where
  pub name : String
  pub type_condition : String
  pub selection_set : Selections

abbrev pub to_list : Selections → List Selection
to_list nil = []
to_list (cons s ss) = s ∷ to_list ss

abbrev pub of_list : List Selection → Selections
of_list [] = nil
of_list (s ∷ ss) = cons s (of_list ss)
