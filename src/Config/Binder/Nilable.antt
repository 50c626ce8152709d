-- ===== src/Config/Binder/Nilable.antt =====
-- codegen/config/binder.go: what the modifiers of a GraphQL type make of a Go type.
use fastgql.Prelude.{
  ◌≡◌, refl, ap, Bool, true, false, not, ◌&&◌, ◌⊎◌, inl, inr, Bool-cases, if◌then◌else◌,
}
use fastgql.Prelude.{some, arith}
use fastgql.Prelude.Text.{Bytes}
use fastgql.Code.{
  GoType, pointer, slice, array, basic, struct_type, tuple, signature, interface_type, map_type,
  chan, named, other,
}
use fastgql.Config.Binder.{
  GqlType, named_type, list_of, TypeReference, with_types, elem_at, elem, non_null_of,
  underlying_of, is_interface, is_struct, nilable_kind, is_nilable, is_named_interface,
  copy_modifiers_from_ast,
}

module _ (underlying : Bytes → Bytes → GoType) (omit_slice_element_pointers : Bool) where
  interface-nilable : (t : GoType) → is_interface t ≡ true → nilable_kind t ≡ true
  interface-nilable (interface_type ms) e = refl
  interface-nilable (pointer _) e = refl
  interface-nilable (slice _) e = refl
  interface-nilable (map_type _ _) e = refl
  interface-nilable (chan _) e = refl
  interface-nilable (array _ _) e = cc
  interface-nilable (basic _) e = cc
  interface-nilable (struct_type _) e = cc
  interface-nilable (tuple _) e = cc
  interface-nilable (signature _ _) e = cc
  interface-nilable (named _ _) e = cc
  interface-nilable other e = cc

  -- Only a named type is a named interface.
  named_interface-interface :
      (t : GoType)
      → is_named_interface underlying t ≡ true
      → is_interface (underlying_of underlying t) ≡ true
  named_interface-interface (named p n) e = e
  named_interface-interface (interface_type ms) e = refl
  named_interface-interface (pointer _) e = cc
  named_interface-interface (slice _) e = cc
  named_interface-interface (map_type _ _) e = cc
  named_interface-interface (chan _) e = cc
  named_interface-interface (array _ _) e = cc
  named_interface-interface (basic _) e = cc
  named_interface-interface (struct_type _) e = cc
  named_interface-interface (tuple _) e = cc
  named_interface-interface (signature _ _) e = cc
  named_interface-interface other e = cc

  -- The Go type that a schema type gives is nilable if the schema type is a list or can be null, and
  -- is the type of the model itself if the schema type is neither.
  pub copy_modifiers_from_ast-is_nilable :
      (q : GqlType) (base : GoType)
      → ((q' : GqlType) (non_null : Bool)
          → q ≡ list_of q' non_null
          → is_nilable underlying
              (copy_modifiers_from_ast underlying omit_slice_element_pointers q base)
            ≡ true)
        × (non_null_of q ≡ false
            → is_nilable underlying
                (copy_modifiers_from_ast underlying omit_slice_element_pointers q base)
              ≡ true)
        × ((name : Bytes)
            → q ≡ named_type name true
            → copy_modifiers_from_ast underlying omit_slice_element_pointers q base ≡ base)
  unfolding copy_modifiers_from_ast is_nilable
  copy_modifiers_from_ast-is_nilable (list_of q n) base =
      (λ q' non_null e. refl, λ e. refl, λ name e. cc)
  copy_modifiers_from_ast-is_nilable (named_type name n) base =
      (λ q' non_null e. cc, λ e. nullable n e, λ name' e. at_non_null n (ap non_null_of e))
    where
      nullable :
          (b : Bool)
          → b ≡ false
          → nilable_kind (
              underlying_of underlying (
                if not (is_named_interface underlying base)
                  && not (nilable_kind (underlying_of underlying base))
                  && not b
                then pointer base
                else base))
            ≡ true
      nullable true e = cc
      nullable false e = elim (Bool-cases (is_named_interface underlying base)) [
        | inl intf ↦ rw intf (
            interface-nilable (underlying_of underlying base) (named_interface-interface base intf))
        | inr not_intf ↦ elim (Bool-cases (nilable_kind (underlying_of underlying base))) [
          | inl nils ↦ rw (not_intf, nils) nils
          | inr never ↦ rw (not_intf, never) refl
        ]
      ]

      at_non_null :
          (b : Bool)
          → b ≡ true
          → (if not (is_named_interface underlying base)
                && not (nilable_kind (underlying_of underlying base))
                && not b
              then pointer base
              else base)
            ≡ base
      at_non_null false e = cc
      at_non_null true e = ground arith

  -- The element of a list, or what the element points to, is the Go type of the list's element type.
  copy_modifiers_from_ast-elem :
      (q : GqlType) (non_null : Bool) (base : GoType) (ref : TypeReference)
      → ref.gql ≡ list_of q non_null
      → ref.go
        ≡ copy_modifiers_from_ast underlying omit_slice_element_pointers (list_of q non_null) base
      → (r : TypeReference) × (elem ref ≡ some r)
        × (r.gql ≡ q)
        × ((r.go ≡ copy_modifiers_from_ast underlying omit_slice_element_pointers q base)
            ⊎ ((r' : TypeReference) × (elem r ≡ some r')
                × (r'.gql ≡ q)
                × (r'.go ≡ copy_modifiers_from_ast underlying omit_slice_element_pointers q base)))
  unfolding elem elem_at copy_modifiers_from_ast
  copy_modifiers_from_ast-elem q non_null base ref is_list go =
      let child = copy_modifiers_from_ast underlying omit_slice_element_pointers q base in
      elim (Bool-cases
        (is_struct (underlying_of underlying child) && not omit_slice_element_pointers)) [
          | inl points ↦ (
            with_types (pointer child) q ref,
            rw (go, is_list, points) refl,
            refl,
            inr (with_types child q ref, refl, refl, refl),
          )
          | inr direct ↦ (with_types child q ref, rw (go, is_list, direct) refl, refl, inl refl)
        ]
