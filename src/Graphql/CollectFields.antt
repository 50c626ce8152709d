-- ===== src/Graphql/CollectFields.antt =====
-- graphql/executable_schema.go: the fields that a selection set asks for on a type.
-- `map[string]bool` is the list of its keys. A walk goes through fragments on fuel.
pub mod Termination
pub mod Walks
pub mod Reach
pub mod Sound
pub mod Covers
pub mod Complete
pub mod Copies
pub mod Grouping
mod Tests
use fastgql.Prelude.{
  ℕ, zero, suc, String, Bool, true, false, not, ◌&&◌, ◌||◌, Option, none, some, List, [], ◌∷◌, ◌++◌,
  if◌then◌else◌, str_eq, has, length,
}
use fastgql.Prelude.Outcome.{Outcome, ok, panic, out_of_fuel, ◌>>=◌}
use fastgql.Ast.{
  Definition, Argument, Directive, Field, Selection, Selections, field, inline_fragment,
  fragment_spread, nil, cons, Fragment, to_list,
}

-- What `Value.Value(variables)` gives: an error, a Boolean, or another value.
pub data Evaluated : Type 0 where
  failed : Evaluated
  boolean : Bool → Evaluated
  other : Evaluated

-- A request: its fragments, and gqlparser's look-ups. `value` is taken with the request's variables.
pub record Request : Type 0 where
  pub fragments : List Fragment
  pub fragment_for_name : List Fragment → String → Option Fragment
  pub directive_for_name : List Directive → String → Option Directive
  pub argument_for_name : List Argument → String → Option Argument
  pub value : Argument → Evaluated

pub record CollectedField : Type 0 where
  pub field : Field
  pub selections : List Selection

abbrev pub instance_of : String → List String → Bool
instance_of val satisfies = has satisfies val

-- Equal pointers, or two definitions of one name.
unfoldable pub same_definition : Option Definition → Option Definition → Bool
same_definition none none = true
same_definition (some a) (some b) = str_eq a.name b.name
same_definition none (some _) = false
same_definition (some _) none = false

unfoldable pub is_same : CollectedField → String → String → Option Definition → Bool
unfolding same_definition
is_same cf name alias def =
    str_eq cf.field.name name
    && str_eq cf.field.alias alias
    && same_definition cf.field.object_definition def

abbrev add_selections : List Selection → CollectedField → CollectedField
add_selections more cf = record cf { selections = cf.selections ++ more }

-- The callers append to the selections of the field that the returned pointer is to: the last
-- argument is what they append.
unfoldable pub get_or_create_and_append_field :
    List CollectedField
    → String
    → String
    → Option Definition
    → CollectedField
    → List Selection
    → List CollectedField
unfolding is_same
get_or_create_and_append_field [] name alias def creator more = add_selections more creator ∷ []
get_or_create_and_append_field (cf ∷ c) name alias def creator more =
    if is_same cf name alias def
    then add_selections more cf ∷ c
    else cf ∷ get_or_create_and_append_field c name alias def creator more

-- One round of the loops over the fields of a fragment.
unfoldable pub append_child : List CollectedField → CollectedField → List CollectedField
unfolding get_or_create_and_append_field
append_child c child =
    get_or_create_and_append_field c child.field.name child.field.alias
      child.field.object_definition child child.selections

unfoldable pub append_children : List CollectedField → List CollectedField → List CollectedField
unfolding append_child
append_children c [] = c
append_children c (child ∷ children) = append_children (append_child c child) children

abbrev pub Walked : Type 0
Walked = List CollectedField × List String

module _ (q : Request) where
  open q use {fragments, fragment_for_name, directive_for_name, argument_for_name, value}

  bool_of : Evaluated → Outcome Bool
  bool_of failed = panic "error of Value"
  bool_of (boolean b) = ok b
  bool_of other = panic "argument 'if' is not a boolean"

  bool_argument : Option Argument → Outcome Bool
  unfolding bool_of
  bool_argument none = panic "argument 'if' not defined"
  bool_argument (some arg) = bool_of (value arg)

  resolve_if_argument : Directive → Outcome Bool
  unfolding bool_argument
  resolve_if_argument d = bool_argument (argument_for_name d.arguments "if")

  resolve_or : Bool → Option Directive → Outcome Bool
  unfolding resolve_if_argument
  resolve_or default none = ok default
  resolve_or default (some d) = resolve_if_argument d

  unfoldable pub should_include_node : List Directive → Outcome Bool
  unfolding resolve_or
  should_include_node [] = ok true
  should_include_node (d ∷ ds) = do
    skip ← resolve_or false (directive_for_name (d ∷ ds) "skip")
    include ← resolve_or true (directive_for_name (d ∷ ds) "include")
    ok (not skip && include)

  module _ (satisfies : List String) where
    -- `len(satisfies) > 0 && !instanceOf(…)` passes a fragment over.
    unfoldable pub applies : String → Bool
    applies condition = elim satisfies [ [] ↦ true | s ∷ ss ↦ instance_of condition (s ∷ ss) ]

    -- The fields of a fragment join those so far.
    unfoldable pub join : List CollectedField → Walked → Walked
    unfolding append_children
    join grouped w = (append_children grouped w.0, w.1)

    -- `rec` is the walk of another fragment's selection set.
    module _ (rec : Selections → List String → Outcome Walked) where
      unfoldable pub enter_fragment :
          String → Option Fragment → List CollectedField → List String → Outcome Walked
      unfolding applies join
      enter_fragment name none grouped visited = panic "missing fragment"
      enter_fragment name (some fragment) grouped visited =
          if applies fragment.type_condition
          then (rec fragment.selection_set (name ∷ visited) >>= λ w. ok (join grouped w))
          else ok (grouped, name ∷ visited)

      unfoldable pub spread_fields : String → List CollectedField → List String → Outcome Walked
      unfolding enter_fragment
      spread_fields name grouped visited =
          if has visited name
          then ok (grouped, visited)
          else enter_fragment name (fragment_for_name fragments name) grouped visited

      unfoldable pub walk : Selections → List CollectedField → List String → Outcome Walked
      unfolding spread_fields
      walk nil grouped visited = ok (grouped, visited)
      walk (cons (field f ss) rest) grouped visited = do
        include ← should_include_node f.directives
        let next =
            if include
            then get_or_create_and_append_field grouped f.name f.alias f.object_definition
                (record { field = f; selections = [] }) (to_list ss)
            else grouped
        walk rest next visited
      walk (cons (inline_fragment condition ds ss) rest) grouped visited = do
        include ← should_include_node ds
        let inner = walk ss [] visited
        w ←
            (if include && applies condition
              then (inner >>= λ w. ok (join grouped w))
              else ok (grouped, visited))
        walk rest w.0 w.1
      walk (cons (fragment_spread name ds ss) rest) grouped visited = do
        include ← should_include_node ds
        w ← (if include then spread_fields name grouped visited else ok (grouped, visited))
        walk rest w.0 w.1

    unfoldable pub collect : ℕ → Selections → List String → Outcome Walked
    unfolding walk
    collect zero ss visited = out_of_fuel
    collect (suc fuel) ss visited = walk (collect fuel) ss [] visited

  -- `CollectFields`: there is fuel for each fragment to be entered once.
  unfoldable pub collect_fields : Selections → List String → Outcome (List CollectedField)
  unfolding collect
  collect_fields ss satisfies = collect satisfies (suc (length fragments)) ss [] >>= λ w. ok w.0
