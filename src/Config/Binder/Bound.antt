-- ===== src/Config/Binder/Bound.antt =====
-- codegen/config/binder.go: the reference that `TypeReference` returns fits the Go type to bind to.
use mathlib.Core.Path.{subst}
use fastgql.Prelude.{
  IsIn, zero, [], Bool-cases, ◌∷◌, ◌++◌, suc, ℕ, ◌≡◌, refl, true, Option, none, some, List, ◌⊎◌,
  inl, inr, String,
}
use fastgql.Prelude.Outcome.{Ensures-bind, Ensures-then, Ensures-eq, Ensures}
use fastgql.Prelude.Text.{Bytes, codes}
use fastgql.Code.{GoType, compatible_types}
use fastgql.Config.Binder.{ok, GqlType, Definition, TypeReference}
use fastgql.Config.Binder.Lookup.{
  string_type, is_valid, type_name_of, with_models, type_reference, pushed, bind_models, Known,
  modified, Binder, Result, map_of_any, any_type, is_map, is_intf, or_next, fitted,
}
use fastgql.Config.Binder.Rounds.{IsModel, bind_models-Kept}

module _ (known : Known) where
  -- A type that the model stands for was bound: that type with the modifiers of the schema type, or a
  -- given type that is compatible with it.
  abbrev pub FitsTarget : GqlType → Option GoType → GoType → GoType → Type 0
  FitsTarget q none go u = go ≡ modified known q u
  FitsTarget q (some t) go u = (go ≡ t) × (compatible_types (modified known q u) t ≡ none)

  pub data Fits (q : GqlType) (bind_target : Option GoType) (ref : TypeReference) : Type 0 where
    a_map :
        IsIn (codes "map[string]interface{}") (known.models (type_name_of q))
        → is_map bind_target ≡ true
        → ref.go ≡ map_of_any
        → Fits q bind_target ref
    anything :
        IsIn (codes "interface{}") (known.models (type_name_of q))
        → is_intf bind_target ≡ true
        → ref.go ≡ any_type
        → Fits q bind_target ref
    a_model :
        (u : GoType)
        → IsModel known (known.models (type_name_of q)) u
        → ref.target ≡ some u
        → FitsTarget q bind_target ref.go u
        → Fits q bind_target ref

  -- An error, or a fitting reference for the schema type.
  abbrev IsFine : GqlType → Option GoType → Binder × (String ⊎ TypeReference) → Type 0
  IsFine q bind_target (b, inl err) = Unit
  IsFine q bind_target (b, inr ref) = (ref.gql ≡ q) × Fits q bind_target ref

  module _ (q : GqlType) (def : Option Definition) where
    or_next-IsFine :
        (ref : TypeReference) (t : GoType) (o : Option String) (next : Binder → Result) (b : Binder)
        → IsModel known (known.models (type_name_of q)) ref.go
        → ref.gql ≡ q
        → compatible_types (modified known q ref.go) t ≡ o
        → ((b' : Binder) → Ensures (IsFine q (some t)) (next b'))
        → Ensures (IsFine q (some t)) (or_next ref t o next b)
    or_next-IsFine ref t none next b of same e h = (same, a_model ref.go of refl (refl, e))
    or_next-IsFine ref t (some err) next b of same e h = h b

    fitted-IsFine :
        (bind_target o : Option GoType) (ref : TypeReference) (next : Binder → Result) (b : Binder)
        → IsModel known (known.models (type_name_of q)) ref.go
        → ref.gql ≡ q
        → ((b' : Binder) → Ensures (IsFine q o) (next b'))
        → Ensures (IsFine q o) (fitted known q def bind_target o ref next b)
    unfolding fitted
    fitted-IsFine bind_target none ref next b of same h = (same, a_model ref.go of refl refl)
    fitted-IsFine bind_target (some t) ref next b of same h =
        or_next-IsFine ref t _ next b of same refl h

    bind_models-IsFine :
        (bind_target : Option GoType) (string_ref : Binder → Result) (b : Binder)
        → Ensures
            (IsFine q bind_target)
            (bind_models known q def bind_target string_ref (known.models (type_name_of q)) b)
    bind_models-IsFine bind_target string_ref b =
        bind_models-Kept known q def bind_target string_ref (known.models (type_name_of q))
          (Ensures (IsFine q bind_target))
          (record {
            at_error = λ b err. tt;
            at_panic = λ text. tt;
            at_map = λ b listed map. (refl, a_map listed map refl);
            at_any = λ b listed intf. (refl, anything listed intf refl);
            at_fitted = fitted-IsFine bind_target bind_target;
            at_string =
                λ b next h. Ensures-bind (IsFine q bind_target) (string_ref b) next (λ r e. h r);
          })
          (known.models (type_name_of q)) b (λ model h. h)

  -- The reference is the last one of the binder.
  abbrev pub IsLast : GqlType → Option GoType → Binder × (String ⊎ TypeReference) → Type 0
  IsLast q bind_target (b, inl err) = Unit
  IsLast q bind_target (b, inr ref) =
      (ref.gql ≡ q)
      × Fits q bind_target ref
      × ((before : List TypeReference) × (b.references ≡ before ++ ref ∷ []))

  pushed-IsLast :
      (q : GqlType) (o : Option GoType) (r : Binder × (String ⊎ TypeReference))
      → IsFine q o r
      → IsLast q o (pushed r)
  pushed-IsLast q o (b, inl err) h = tt
  pushed-IsLast q o (b, inr ref) h = (h.0, h.1, (b.references, refl))

  with_models-IsLast :
      (q : GqlType) (bind_target : Option GoType) (string_ref : Binder → Result) (ms : List Bytes)
      (b : Binder)
      → known.models (type_name_of q) ≡ ms
      → Ensures (IsLast q bind_target) (with_models known q bind_target string_ref ms b)
  with_models-IsLast q bind_target string_ref [] b e = tt
  with_models-IsLast q bind_target string_ref (model ∷ more) b e =
      let def = known.types (type_name_of q) in
      Ensures-then (IsFine q bind_target) (IsLast q bind_target)
        (bind_models known q def bind_target string_ref (model ∷ more) b) (λ r. ok (pushed r))
        (pushed-IsLast q bind_target)
        (subst
          (λ ms.
            Ensures (IsFine q bind_target) (bind_models known q def bind_target string_ref ms b))
          e (bind_models-IsFine q def bind_target string_ref b))

  type_reference-Ensures :
      (fuel : ℕ) (q : GqlType) (bind_target : Option GoType) (b : Binder)
      → Ensures (IsLast q bind_target) (type_reference known fuel q bind_target b)
  unfolding type_reference
  type_reference-Ensures zero q bind_target b = tt
  type_reference-Ensures (suc fuel) q bind_target b = elim (Bool-cases (is_valid bind_target)) [
    | inl valid ↦
        rw (Ensures, valid)
          (with_models-IsLast q bind_target (type_reference known fuel string_type none)
            (known.models (type_name_of q)) b refl)
    | inr not_valid ↦ rw (Ensures, not_valid) tt
  ]

  -- What TypeReference returns is for the schema type and is added to the references. Its Go type is the
  -- map or the interface type, if that is a model of the schema type's name and nothing or such a type is
  -- to be bound; or else there is a model of that name, found among the declarations of its package,
  -- which stands for a Go type: the reference has that type with the modifiers of the schema type, if
  -- nothing is to be bound, or the type to be bound, which is compatible with it.
  pub type_reference-IsLast :
      (fuel : ℕ) (q : GqlType) (bind_target : Option GoType) (b b' : Binder) (ref : TypeReference)
      → type_reference known fuel q bind_target b ≡ ok (b', inr ref)
      → IsLast q bind_target (b', inr ref)
  type_reference-IsLast fuel q bind_target b b' ref e =
      Ensures-eq (IsLast q bind_target) _ (b', inr ref) e
        (type_reference-Ensures fuel q bind_target b)
