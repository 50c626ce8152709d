-- ===== src/Codegen/Interfaces/Implementing.antt =====
-- codegen/interface.go: the entries that `buildInterface` makes for the possible types.
use fastgql.Prelude.{
  ◌≡◌, refl, sym, ap, String, Bool, true, false, Option, none, some, List, [], ◌∷◌, ◌++◌, ◌⊎◌, inl,
  inr, All, All-append, All-map,
}
use mathlib.Core.Path.{subst}
use fastgql.Prelude.Outcome.{ok}
use fastgql.Prelude.Text.{Bytes}
use fastgql.Code.{
  GoType, pointer, slice, array, basic, struct_type, tuple, signature, interface_type, map_type,
  chan, named, other,
}
use fastgql.Codegen.Interfaces.{
  InterfaceImplementor, Interface, named_or_error, find_go_named_type, find_go_interface, by_value,
  by_pointer, any_valid, entries, backed, joined, implementors_of, with_implementors, of_interface,
  of_user_object, build_interface,
}

inr-injective : {A B : Type 0} {a b : B} → ◌≡◌ {A = A ⊎ B} (inr a) (inr b) → a ≡ b
inr-injective e = cc

named_or_error-eq : (t u : GoType) → named_or_error t ≡ inr (some u) → u ≡ t
named_or_error-eq (named p n) u e = cc
named_or_error-eq (pointer _) u e = cc
named_or_error-eq (slice _) u e = cc
named_or_error-eq (array _ _) u e = cc
named_or_error-eq (basic _) u e = cc
named_or_error-eq (struct_type _) u e = cc
named_or_error-eq (tuple _) u e = cc
named_or_error-eq (signature _ _) u e = cc
named_or_error-eq (interface_type _) u e = cc
named_or_error-eq (map_type _ _) u e = cc
named_or_error-eq (chan _) u e = cc
named_or_error-eq other u e = cc

-- One of the entries is for that type.
abbrev pub HasEntry : Bytes → List InterfaceImplementor → Type 0
HasEntry name [] = ⊥
HasEntry name (m ∷ ms) = (m.definition ≡ name) ⊎ HasEntry name ms

HasEntry-append_left :
    (name : Bytes) (ms ms' : List InterfaceImplementor)
    → HasEntry name ms
    → HasEntry name (ms ++ ms')
HasEntry-append_left name [] ms' h = elim h [ ]
HasEntry-append_left name (m ∷ ms) ms' (inl e) = inl e
HasEntry-append_left name (m ∷ ms) ms' (inr h) = inr (HasEntry-append_left name ms ms' h)

HasEntry-append_right :
    (name : Bytes) (ms ms' : List InterfaceImplementor)
    → HasEntry name ms'
    → HasEntry name (ms ++ ms')
HasEntry-append_right name [] ms' h = h
HasEntry-append_right name (m ∷ ms) ms' h = inr (HasEntry-append_right name ms ms' h)

module _ (underlying : Bytes → Bytes → GoType) (implements : GoType → GoType → Bool)
    (default_user_object : Bytes → String ⊎ GoType) where
  abbrev pub AllImplement : GoType → List InterfaceImplementor → Type 0
  AllImplement iface = All (λ m. implements m.type iface ≡ true)

  -- They are entries for the type, at least one, that implement the interface.
  abbrev Serve : Bytes → GoType → List InterfaceImplementor → Type 0
  Serve name iface ms = AllImplement iface ms × HasEntry name ms

  any_valid-Serve :
      (name : Bytes) (iface obj : GoType) (v p : Bool) (ms : List InterfaceImplementor)
      → implements obj iface ≡ v
      → implements (pointer obj) iface ≡ p
      → any_valid (by_value underlying name obj v ++ by_pointer name obj p) ≡ inr ms
      → Serve name iface ms
  any_valid-Serve name iface obj false false ms ev ep e = cc
  any_valid-Serve name iface obj true false ms ev ep e =
      subst (Serve name iface) (inr-injective e) ((ev, tt), inl refl)
  any_valid-Serve name iface obj false true ms ev ep e =
      subst (Serve name iface) (inr-injective e) ((ep, tt), inl refl)
  any_valid-Serve name iface obj true true ms ev ep e =
      subst (Serve name iface) (inr-injective e) ((ev, (ep, tt)), inl refl)

  entries-Serve :
      (name : Bytes) (iface obj : GoType) (o : String ⊎ Option GoType)
      (ms : List InterfaceImplementor)
      → o ≡ find_go_named_type (some obj)
      → entries underlying implements name iface obj o ≡ inr ms
      → Serve name iface ms
  unfolding find_go_named_type
  entries-Serve name iface obj (inl err) ms o e = cc
  entries-Serve name iface obj (inr none) ms o e = cc
  entries-Serve name iface obj (inr (some t)) ms o e =
      let same = named_or_error-eq obj t (sym o) in
      any_valid-Serve name iface obj (implements t iface) (implements (pointer t) iface) ms
        (ap (λ x. implements x iface) (sym same))
        (ap (λ x. implements (pointer x) iface) (sym same)) e

  backed-Serve :
      (name : Bytes) (iface : GoType) (o : String ⊎ GoType) (ms : List InterfaceImplementor)
      → backed underlying implements name iface o ≡ inr ms
      → Serve name iface ms
  backed-Serve name iface (inl err) ms e = cc
  backed-Serve name iface (inr obj) ms e = entries-Serve name iface obj _ ms refl e

  abbrev ServeAll : List Bytes → GoType → List InterfaceImplementor → Type 0
  ServeAll names iface ms = AllImplement iface ms × All (λ n. HasEntry n ms) names

  implementors_of-ServeAll :
      (iface : GoType) (names : List Bytes) (ms : List InterfaceImplementor)
      → implementors_of underlying implements default_user_object iface names ≡ inr ms
      → ServeAll names iface ms
  unfolding implementors_of
  implementors_of-ServeAll iface [] ms e = subst (ServeAll [] iface) (inr-injective e) (tt, tt)
  implementors_of-ServeAll iface (name ∷ names) ms e =
      both (backed underlying implements name iface (default_user_object name))
        (implementors_of underlying implements default_user_object iface names)
        (λ l h. backed-Serve name iface (default_user_object name) l h)
        (λ l h. implementors_of-ServeAll iface names l h) e
    where
      both :
          (first rest : String ⊎ List InterfaceImplementor)
          → ((l : List InterfaceImplementor) → first ≡ inr l → Serve name iface l)
          → ((l : List InterfaceImplementor) → rest ≡ inr l → ServeAll names iface l)
          → joined first rest ≡ inr ms
          → ServeAll (name ∷ names) iface ms
      both (inl err) rest h hs x = cc
      both (inr a) (inl err) h hs x = cc
      both (inr a) (inr l) h hs x =
          let (all_a, has_a) = h a refl in
          let (all_l, has_l) = hs l refl in
          subst (ServeAll (name ∷ names) iface) (inr-injective x) (
            All-append (λ m. implements m.type iface ≡ true) a l all_a all_l,
            (
              HasEntry-append_left name a l has_a,
              All-map (λ n. HasEntry n l) (λ n. HasEntry n (a ++ l)) names
                  (λ n m. HasEntry-append_right n a l m) has_l,
            ),
          )

  module _ (possible_types : Bytes → List Bytes) (user_defined : Bytes → Bool) where
    -- An interface whose entries implement it, with one at least for each possible type.
    pub record IsServed (name : Bytes) (i : Interface) : Type 0 where
      pub definition : i.definition ≡ name
      pub iface : GoType
      pub is_iface : find_go_interface underlying (some i.type) ≡ inr (some iface)
      pub implement : AllImplement iface i.implementors
      pub cover : All (λ n. HasEntry n i.implementors) (possible_types name)

    of_interface-IsServed :
        (name : Bytes) (obj : GoType) (o : String ⊎ Option GoType) (i : Interface)
        → o ≡ find_go_interface underlying (some obj)
        → of_interface underlying implements default_user_object possible_types user_defined name
            obj o
          ≡ inr i
        → IsServed name i
    of_interface-IsServed name obj (inl err) i o e = cc
    of_interface-IsServed name obj (inr none) i o e = cc
    of_interface-IsServed name obj (inr (some iface)) i o e =
        served
          (implementors_of underlying implements default_user_object iface (possible_types name))
          refl e
      where
        served :
            (r : String ⊎ List InterfaceImplementor)
            → r
              ≡ implementors_of underlying implements default_user_object iface
                  (possible_types name)
            → with_implementors underlying implements default_user_object possible_types
                user_defined name obj r
              ≡ inr i
            → IsServed name i
        served (inl err) h x = cc
        served (inr ms) h x =
            let (implement, cover) =
              implementors_of-ServeAll iface (possible_types name) ms (sym h) in
            subst (IsServed name) (inr-injective x) (record {
              definition = refl;
              iface = iface;
              is_iface = sym o;
              implement = implement;
              cover = cover;
            })

    -- The interface that buildInterface returns is bound to a named Go interface; each of its entries
    -- implements that interface, and each possible type has an entry.
    pub build_interface-IsServed :
        (name : Bytes) (i : Interface)
        → build_interface underlying implements default_user_object possible_types user_defined name
          ≡ ok (inr i)
        → IsServed name i
    unfolding build_interface
    build_interface-IsServed name i e = at_object (default_user_object name) e
      where
        at_object :
            (o : String ⊎ GoType)
            → of_user_object underlying implements default_user_object possible_types user_defined
                name o
              ≡ ok (inr i)
            → IsServed name i
        at_object (inl err) x = cc
        at_object (inr obj) x = of_interface-IsServed name obj _ i refl (cc)
