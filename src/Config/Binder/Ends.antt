-- ===== src/Config/Binder/Ends.antt =====
-- codegen/config/binder.go and codegen/type.go: when `TypeReference` ends, the model for String with which
-- it does not, and that `buildTypes` ends.
use fastgql.Prelude.{
  inl, Bool-cases, some, String, ◌≡◌, refl, true, false, Option, none, List, [], ◌∷◌, inr, ℕ, zero,
  suc,
}
use fastgql.Prelude.Outcome.{Halts-bind, Halts, ok, out_of_fuel}
use fastgql.Prelude.Text.{Bytes, bytes_eq, codes}
use fastgql.Code.{
  GoType, pointer, slice, array, basic, struct_type, tuple, signature, interface_type, map_type,
  chan, named, other,
}
use fastgql.Prelude.Maps.{Map, find, put}
use fastgql.Code.Dirs.{pkg_and_type}
use fastgql.Config.Binder.{
  GqlType, named_type, list_of, Definition, TypeReference, with_types, type_identifier, key_of,
  uniqueness_key, entered, checked, slice_elem, if_slice, process_at, build_types, gql_string,
}
use fastgql.Config.Binder.Lookup.{
  Object, Binder, Result, Known, find_object, is_valid, has_method, basic_underlying, wraps_string,
  pushed, or_next, fitted, bind_models, with_models, type_reference, string_type, type_name_of,
}
use fastgql.Config.Binder.Rounds.{bind_models-Kept}

module _ (known : Known) where
  or_next-Halts :
      (ref : TypeReference) (t : GoType) (o : Option String) (next : Binder → Result) (b : Binder)
      → ((b' : Binder) → Halts (next b'))
      → Halts (or_next ref t o next b)
  or_next-Halts ref t none next b h = tt
  or_next-Halts ref t (some err) next b h = h b

  fitted-Halts :
      (q : GqlType) (def : Option Definition) (bind_target o : Option GoType) (ref : TypeReference)
      (next : Binder → Result) (b : Binder)
      → ((b' : Binder) → Halts (next b'))
      → Halts (fitted known q def bind_target o ref next b)
  unfolding fitted
  fitted-Halts q def bind_target none ref next b h = tt
  fitted-Halts q def bind_target (some t) ref next b h = or_next-Halts ref t _ next b h

  bind_models-Halts :
      (q : GqlType) (def : Option Definition) (bind_target : Option GoType)
      (string_ref : Binder → Result)
      → ((b : Binder) → Halts (string_ref b))
      → (models : List Bytes) (b : Binder)
      → Halts (bind_models known q def bind_target string_ref models b)
  bind_models-Halts q def bind_target string_ref ends models b =
      bind_models-Kept known q def bind_target string_ref models Halts
        (record {
          at_error = λ b err. tt;
          at_panic = λ text. tt;
          at_map = λ b listed map. tt;
          at_any = λ b listed intf. tt;
          at_fitted =
              λ ref next b of same h. fitted-Halts q def bind_target bind_target ref next b h;
          at_string = λ b next h. Halts-bind (string_ref b) next (ends b) h;
        })
        models b (λ model h. h)

  -- If the first model of the scalar String is a named Go type that wraps a string and does not marshal
  -- itself, TypeReference of String asks for the reference of String again and never returns.
  pub type_reference-loops :
      (fuel : ℕ) (b : Binder) (model : Bytes) (more : List Bytes) (object : Object)
      → known.models (codes "String") ≡ model ∷ more
      → bytes_eq model (codes "map[string]interface{}") ≡ false
      → bytes_eq model (codes "interface{}") ≡ false
      → bytes_eq (pkg_and_type model).0 [] ≡ false
      → find_object known.load_with_types (pkg_and_type model).0 (pkg_and_type model).1 ≡ inr object
      → object.params ≡ none
      → has_method known.methods object.type (codes "MarshalGQL") ≡ false
      → wraps_string (known.types (codes "String")) (basic_underlying known.underlying object.type)
        ≡ ok true
      → type_reference known fuel string_type none b ≡ out_of_fuel
  unfolding type_reference bind_models is_valid
  type_reference-loops zero b model more object has no_map no_any pkg here type plain wraps = refl
  type_reference-loops (suc fuel) b model more object has no_map no_any pkg here type plain wraps =
      rw
        (
          has,
          here,
          no_map,
          no_any,
          pkg,
          type,
          plain,
          wraps,
          type_reference-loops fuel b model more object has no_map no_any pkg here type plain wraps,
        )
        refl

  with_models-Halts :
      (q : GqlType) (bind_target : Option GoType) (string_ref : Binder → Result) (ms : List Bytes)
      (b : Binder)
      → ((b' : Binder) → Halts (string_ref b'))
      → Halts (with_models known q bind_target string_ref ms b)
  with_models-Halts q bind_target string_ref [] b h = tt
  with_models-Halts q bind_target string_ref (model ∷ more) b h =
      Halts-bind
        (bind_models known q (known.types (type_name_of q)) bind_target string_ref (model ∷ more) b)
        (λ r. ok (pushed r))
        (bind_models-Halts q (known.types (type_name_of q)) bind_target string_ref h (model ∷ more)
          b)
        (λ r. tt)

  -- If a call for String ends with some fuel, TypeReference ends with one round more for every schema
  -- type and Go type.
  pub type_reference-Halts :
      (fuel : ℕ) (q : GqlType) (bind_target : Option GoType) (b : Binder)
      → ((b' : Binder) → Halts (type_reference known fuel string_type none b'))
      → Halts (type_reference known (suc fuel) q bind_target b)
  unfolding type_reference
  type_reference-Halts fuel q bind_target b h = elim (Bool-cases (is_valid bind_target)) [
    | inl valid ↦
        rw (Halts, valid)
          (with_models-Halts q bind_target (type_reference known fuel string_type none)
            (known.models (type_name_of q)) b h)
    | inr not_valid ↦ rw (Halts, not_valid) tt
  ]

module _ (basic_name : ℕ → Bytes) where
  type_identifier-Halts : (t : GoType) → Halts (type_identifier basic_name t)
  unfolding type_identifier
  type_identifier-Halts (pointer t) =
      Halts-bind (type_identifier basic_name t) _ (type_identifier-Halts t) (λ s. tt)
  type_identifier-Halts (slice t) =
      Halts-bind (type_identifier basic_name t) _ (type_identifier-Halts t) (λ s. tt)
  type_identifier-Halts (named p n) = tt
  type_identifier-Halts (basic k) = tt
  type_identifier-Halts (map_type k t) = tt
  type_identifier-Halts (interface_type ms) = tt
  type_identifier-Halts (array _ _) = tt
  type_identifier-Halts (struct_type _) = tt
  type_identifier-Halts (tuple _) = tt
  type_identifier-Halts (signature _ _) = tt
  type_identifier-Halts (chan _) = tt
  type_identifier-Halts other = tt

  key_of-Halts :
      (def : Option Definition) (q : GqlType) (t : GoType) → Halts (key_of basic_name def q t)
  unfolding key_of
  key_of-Halts none q t = tt
  key_of-Halts (some def) q t =
      Halts-bind (type_identifier basic_name t) _ (type_identifier-Halts t) (λ s. tt)

  entered-Halts :
      (ref : TypeReference) (ret : Map TypeReference) → Halts (entered basic_name ref ret)
  unfolding entered uniqueness_key
  entered-Halts ref ret =
      Halts-bind (key_of basic_name ref.definition ref.gql ref.go) _
        (key_of-Halts ref.definition ref.gql ref.go)
        (λ key. at_entry (find key ret) (put key ref ret))
    where
      at_entry : (o : Option TypeReference) (m : Map TypeReference) → Halts (checked o ref m)
      at_entry none m = tt
      at_entry (some existing) m =
          elim (Bool-cases (bytes_eq (gql_string existing.gql) (gql_string ref.gql))) [
            | inl same ↦ rw (Halts, same) tt
            | inr differs ↦ rw (Halts, differs) tt
          ]

  process_at-Halts :
      (q : GqlType) (g : GoType) (ref : TypeReference) (ret : Map TypeReference)
      → Halts (process_at basic_name q g ref ret)
  unfolding process_at
  process_at-Halts (named_type name non_null) g ref ret =
      entered-Halts (with_types g (named_type name non_null) ref) ret
  process_at-Halts (list_of q non_null) g ref ret =
      Halts-bind (entered basic_name (with_types g (list_of q non_null) ref) ret) _
        (entered-Halts (with_types g (list_of q non_null) ref) ret)
        (at_elem (slice_elem g) (λ t m. process_at-Halts q t ref m))
    where
      at_elem :
          (o : Option GoType)
          → ((t : GoType) (m : Map TypeReference) → Halts (process_at basic_name q t ref m))
          → (m : Map TypeReference) → Halts (if_slice o (λ t. process_at basic_name q t ref) m)
      at_elem none h m = tt
      at_elem (some t) h m = h t m

  pub build_types-Halts :
      (refs : List TypeReference) (ret : Map TypeReference)
      → Halts (build_types basic_name refs ret)
  unfolding build_types
  build_types-Halts [] ret = tt
  build_types-Halts (ref ∷ refs) ret =
      Halts-bind (process_at basic_name ref.gql ref.go ref ret) _
        (process_at-Halts ref.gql ref.go ref ret) (λ m. build_types-Halts refs m)
