-- ===== src/Codegen/Interfaces.antt =====
-- codegen/interface.go and codegen/util.go: `buildInterface`. `types.Implements` and the possible types of
-- the schema are parameters.
pub mod Implementing
mod Tests
use fastgql.Prelude.{
  String, Bool, true, false, not, Option, none, some, List, [], ◌∷◌, ◌++◌, ◌⊎◌, inl, inr,
  if◌then◌else◌,
}
use fastgql.Prelude.Outcome.{Outcome, ok, panic, ◌>>=◌}
use fastgql.Prelude.Text.{Bytes}
use fastgql.Code.{GoType, pointer, named, interface_type}
use fastgql.Config.Binder.{is_interface, underlying_of, is_nilable}

pub record InterfaceImplementor : Type 0 where
  pub definition : Bytes
  pub type : GoType
  pub take_ref : Bool

pub record Interface : Type 0 where
  pub definition : Bytes
  pub type : GoType
  pub implementors : List InterfaceImplementor
  pub in_typemap : Bool

abbrev pub named_or_error : GoType → String ⊎ Option GoType
named_or_error (named p n) = inr (some (named p n))
named_or_error t = inl "expected a named type"

-- `findGoNamedType`.
unfoldable pub find_go_named_type : Option GoType → String ⊎ Option GoType
find_go_named_type none = inr none
find_go_named_type (some t) = named_or_error t

abbrev pub by_pointer : Bytes → GoType → Bool → List InterfaceImplementor
by_pointer name obj false = []
by_pointer name obj true = record { definition = name; type = pointer obj; take_ref = false } ∷ []

abbrev pub any_valid : List InterfaceImplementor → String ⊎ List InterfaceImplementor
any_valid [] = inl "does not satisfy the interface"
any_valid (i ∷ is) = inr (i ∷ is)

abbrev pub joined :
    String ⊎ List InterfaceImplementor
    → String ⊎ List InterfaceImplementor
    → String ⊎ List InterfaceImplementor
joined (inl err) rest = inl err
joined (inr is) (inl err) = inl err
joined (inr is) (inr rest) = inr (is ++ rest)

module _ (underlying : Bytes → Bytes → GoType) where
  abbrev pub interface_of : GoType → String ⊎ Option GoType
  interface_of (interface_type ms) = inr (some (interface_type ms))
  interface_of t = inl "expected a named interface"

  abbrev pub named_interface : String ⊎ Option GoType → String ⊎ Option GoType
  named_interface (inl err) = inl err
  named_interface (inr none) = inr none
  named_interface (inr (some t)) = interface_of (underlying_of underlying t)

  -- `findGoInterface`.
  unfoldable pub find_go_interface : Option GoType → String ⊎ Option GoType
  unfolding find_go_named_type
  find_go_interface none = inr none
  find_go_interface (some t) = named_interface (find_go_named_type (some t))

  -- `CanBeNil`.
  unfoldable pub can_be_nil : InterfaceImplementor → Bool
  unfolding is_nilable
  can_be_nil i = is_nilable underlying i.type

  abbrev pub by_value : Bytes → GoType → Bool → List InterfaceImplementor
  by_value name obj false = []
  by_value name obj true =
      record {
        definition = name;
        type = obj;
        take_ref = not (is_interface (underlying_of underlying obj));
      }
      ∷ []

  module _ (implements : GoType → GoType → Bool) where
    -- The entries of a possible type, or an error if there is none.
    abbrev pub entries :
        Bytes → GoType → GoType → String ⊎ Option GoType → String ⊎ List InterfaceImplementor
    entries name iface obj (inl err) = inl "can not find backing go type"
    entries name iface obj (inr none) = inl "can not find backing go type"
    entries name iface obj (inr (some t)) = any_valid (
        by_value name obj (implements t iface)
        ++ by_pointer name obj (implements (pointer t) iface))

    abbrev pub backed : Bytes → GoType → String ⊎ GoType → String ⊎ List InterfaceImplementor
    backed name iface (inl err) = inl "has no backing go type"
    backed name iface (inr obj) = entries name iface obj (find_go_named_type (some obj))

    module _ (default_user_object : Bytes → String ⊎ GoType) where
      -- The loop over the possible types.
      unfoldable pub implementors_of : GoType → List Bytes → String ⊎ List InterfaceImplementor
      unfolding find_go_named_type
      implementors_of iface [] = inr []
      implementors_of iface (name ∷ names) =
          joined (backed name iface (default_user_object name)) (implementors_of iface names)

      module _ (possible_types : Bytes → List Bytes) (user_defined : Bytes → Bool) where
        abbrev pub with_implementors :
            Bytes → GoType → String ⊎ List InterfaceImplementor → String ⊎ Interface
        with_implementors name obj (inl err) = inl err
        with_implementors name obj (inr is) = inr (record {
          definition = name;
          type = obj;
          implementors = is;
          in_typemap = user_defined name;
        })

        abbrev pub of_interface : Bytes → GoType → String ⊎ Option GoType → String ⊎ Interface
        of_interface name obj (inr (some iface)) =
            with_implementors name obj (implementors_of iface (possible_types name))
        of_interface name obj _ = inl "is not an interface"

        abbrev pub of_user_object : Bytes → String ⊎ GoType → Outcome (String ⊎ Interface)
        of_user_object name (inl err) = panic err
        of_user_object name (inr obj) = ok (of_interface name obj (find_go_interface (some obj)))

        -- `buildInterface`.
        unfoldable pub build_interface : Bytes → Outcome (String ⊎ Interface)
        unfolding find_go_interface implementors_of
        build_interface name = of_user_object name (default_user_object name)
