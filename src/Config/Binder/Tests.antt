-- ===== src/Config/Binder/Tests.antt =====
-- A package with a few types, and the theorems at it.
use fastgql.Prelude.{
  ◌≡◌, refl, Bool, true, false, Option, none, some, List, [], ◌∷◌, inr, ℕ, if◌then◌else◌,
}
use fastgql.Prelude.Outcome.{ok, panic, out_of_fuel}
use fastgql.Prelude.Text.{Bytes, bytes_eq, codes}
use fastgql.Prelude.Maps.{Map, find, put}
use fastgql.Code.{GoType, pointer, slice, basic, struct_type, interface_type, named, nil}
use fastgql.Code.Dirs.{pkg_and_type}
use fastgql.Config.Binder.{
  GqlType, named_type, list_of, Definition, TypeReference, uniqueness_key, build_types,
  copy_modifiers_from_ast, is_nilable, non_null_of,
}
use fastgql.Config.Binder.Lookup.{
  Def, Known, Binder, find_object, type_reference, string_type, has_method, basic_underlying,
  fitted,
}
use fastgql.Config.Binder.Nilable.{copy_modifiers_from_ast-is_nilable}
use fastgql.Config.Binder.Bound.{IsLast, type_reference-IsLast}
use fastgql.Config.Binder.Ends.{type_reference-loops}

abbrev in_model : Bytes → GoType
in_model name = named (codes "app/model") name

-- Todo is a struct, Node an interface, and MyString a string.
abbrev underlying : Bytes → Bytes → GoType
underlying p n =
    if bytes_eq n (codes "Todo")
    then struct_type nil
    else if bytes_eq n (codes "Node")
    then interface_type nil
    else basic 17

abbrev declares : Bytes → Def
declares name = record {
  ident = name;
  top_scope = true;
  object = some (record { name = name; params = none; type = in_model name });
}

abbrev load : Bytes → Option (List Def)
load p = some (declares (codes "Todo") ∷ declares (codes "Node") ∷ declares (codes "MyString") ∷ [])

abbrev methods : Bytes → Bytes → List Bytes
methods p n = []

abbrev types : Bytes → Option Definition
types name = some (record {
  name = name;
  input_object = false;
  input_type = false;
  leaf_type = bytes_eq name (codes "String");
})

abbrev models : Bytes → List Bytes
models name =
    if bytes_eq name (codes "String")
    then codes "app/model.MyString" ∷ []
    else codes "app/model.Todo" ∷ []

abbrev known : Known
known = record {
  underlying = underlying;
  methods = methods;
  load_with_types = load;
  omit_slice_element_pointers = false;
  types = types;
  models = models;
}

abbrev empty : Binder
empty = record { references = []; saw_invalid = false }

abbrev todos : GqlType
todos = list_of (named_type (codes "Todo") true) false

abbrev todos_ref : TypeReference
todos_ref = record {
  definition = types (codes "Todo");
  gql = todos;
  go = slice (pointer (in_model (codes "Todo")));
  target = some (in_model (codes "Todo"));
  cast_type = none;
  marshaler = none;
  unmarshaler = none;
  is_marshaler = false;
}

binds_list :
    type_reference known 1 todos none empty
    ≡ ok (record { references = todos_ref ∷ []; saw_invalid = false }, inr todos_ref)
unfolding type_reference find_object fitted copy_modifiers_from_ast has_method basic_underlying
binds_list = refl

type_reference-IsLast_example :
    IsLast known todos none
      (record { references = todos_ref ∷ []; saw_invalid = false }, inr todos_ref)
type_reference-IsLast_example =
    type_reference-IsLast known 1 todos none empty
      (record { references = todos_ref ∷ []; saw_invalid = false }) todos_ref binds_list

string_loops : type_reference known 50 string_type none empty ≡ out_of_fuel
unfolding find_object has_method basic_underlying pkg_and_type
string_loops =
    type_reference-loops known 50 empty (codes "app/model.MyString") []
      (record { name = codes "MyString"; params = none; type = in_model (codes "MyString") }) refl
      refl refl refl refl refl refl refl

copy_modifiers_from_ast-is_nilable_example :
    ((q' : GqlType) (non_null : Bool)
      → named_type (codes "Node") false ≡ list_of q' non_null
      → is_nilable underlying (
          copy_modifiers_from_ast underlying false
            (named_type (codes "Node") false)
            (in_model (codes "Node")))
        ≡ true)
    × (non_null_of (named_type (codes "Node") false) ≡ false
        → is_nilable underlying (
            copy_modifiers_from_ast underlying false
              (named_type (codes "Node") false)
              (in_model (codes "Node")))
          ≡ true)
    × ((name : Bytes)
        → named_type (codes "Node") false ≡ named_type name true
        → copy_modifiers_from_ast underlying false
            (named_type (codes "Node") false)
            (in_model (codes "Node"))
          ≡ in_model (codes "Node"))
copy_modifiers_from_ast-is_nilable_example =
    copy_modifiers_from_ast-is_nilable underlying false (named_type (codes "Node") false)
      (in_model (codes "Node"))

abbrev basic_name : ℕ → Bytes
basic_name k = codes "string"

abbrev at_types : GqlType → GoType → TypeReference
at_types q go = record {
  definition = types (codes "Node");
  gql = q;
  go = go;
  target = none;
  cast_type = none;
  marshaler = none;
  unmarshaler = none;
  is_marshaler = false;
}

abbrev nodes_ref : TypeReference
nodes_ref =
    at_types (list_of (named_type (codes "Node") true) true) (slice (in_model (codes "Node")))

abbrev node_ref : TypeReference
node_ref = at_types (named_type (codes "Node") true) (in_model (codes "Node"))

abbrev registry : Map TypeReference
registry =
    (codes "NNode2ᚕappᚋmodelᚐNodeᚄ", nodes_ref) ∷ (codes "NNode2appᚋmodelᚐNode", node_ref) ∷ []

registers : build_types basic_name (nodes_ref ∷ []) [] ≡ ok registry
unfolding build_types uniqueness_key find put
registers = refl

-- The key tells only the innermost list's element apart from one that can be null if the list is not
-- nested: two schema types over an interface have one key.
collides :
    build_types basic_name
      (at_types
          (list_of (list_of (named_type (codes "Node") true) true) true)
          (slice (slice (in_model (codes "Node"))))
        ∷ at_types
            (list_of (list_of (named_type (codes "Node") false) true) true)
            (slice (slice (in_model (codes "Node"))))
        ∷ [])
      []
    ≡ panic "non-unique key"
unfolding build_types uniqueness_key find put
collides = refl
