-- ===== src/Config/Binder/Rounds.antt =====
-- codegen/config/binder.go: a rule for the rounds of `TypeReference` over the models.
use mathlib.Core.Path.{subst}
use fastgql.Prelude.Maps.{bytes_eq-eq}
use fastgql.Prelude.{
  IsIn, ◌≡◌, refl, Bool, true, false, Option, none, some, List, [], ◌∷◌, ◌⊎◌, inl, inr, String,
  if◌then◌else◌, ℕ,
}
use fastgql.Prelude.Outcome.{Outcome, ok, panic, out_of_fuel, ◌>>=◌}
use fastgql.Prelude.Text.{Bytes, bytes_eq, codes}
use fastgql.Code.{GoType}
use fastgql.Code.Dirs.{pkg_and_type}
use fastgql.Config.Binder.{GqlType, Definition, TypeReference}
use fastgql.Config.Binder.Lookup.{
  Object, Binder, Result, Known, map_of_any, any_type, is_map, is_intf, find_object,
  basic_underlying, wraps_string, plain, fitted, casting, by_kind, of_type, of_object, of_found,
  incompatible, bind_models,
}

-- The Go type that a model's object stands for: its type, or that of the first parameter of a function.
abbrev pub Denotes : Option (List GoType) → GoType → GoType → Type 0
Denotes none type u = u ≡ type
Denotes (some []) type u = ⊥
Denotes (some (param ∷ params)) type u = u ≡ param

-- The Go type is that of one of the models.
pub record IsModel (known : Known) (models : List Bytes) (u : GoType) : Type 0 where
  pub model : Bytes
  pub listed : IsIn model models
  pub object : Object
  pub found :
      find_object known.load_with_types (pkg_and_type model).0 (pkg_and_type model).1 ≡ inr object
  pub denotes : Denotes object.params object.type u

-- What a property of results needs to hold of all rounds.
pub record Kept (known : Known) (q : GqlType) (def : Option Definition)
    (bind_target : Option GoType) (string_ref : Binder → Result) (all : List Bytes)
    (P : Result → Type 0) : Type 0 where
  pub at_error : (b : Binder) (err : String) → P (ok (b, inl err))
  pub at_panic : (text : String) → P (panic text)
  pub at_map :
      (b : Binder)
      → IsIn (codes "map[string]interface{}") all
      → is_map bind_target ≡ true
      → P (ok (b, inr (plain def q map_of_any)))
  pub at_any :
      (b : Binder)
      → IsIn (codes "interface{}") all
      → is_intf bind_target ≡ true
      → P (ok (b, inr (plain def q any_type)))
  pub at_fitted :
      (ref : TypeReference) (next : Binder → Result) (b : Binder)
      → IsModel known all ref.go
      → ref.gql ≡ q
      → ((b' : Binder) → P (next b'))
      → P (fitted known q def bind_target bind_target ref next b)
  pub at_string :
      (b : Binder) (next : Binder × (String ⊎ TypeReference) → Result)
      → ((r : Binder × (String ⊎ TypeReference)) → P (next r))
      → P (string_ref b >>= next)

module _ (known : Known) (q : GqlType) (def : Option Definition) (bind_target : Option GoType)
    (string_ref : Binder → Result) (all : List Bytes) (P : Result → Type 0)
    (keeps : Kept known q def bind_target string_ref all P) where
  casting-Kept :
      (object : Object) (next : Binder → Result) (r : Binder × (String ⊎ TypeReference))
      → IsModel known all object.type
      → ((b' : Binder) → P (next b'))
      → P (casting known q def bind_target object next r)
  casting-Kept object next (b, inl err) of h = keeps.at_error b err
  casting-Kept object next (b, inr ref) of h = keeps.at_fitted _ next b of refl h

  by_kind-Kept :
      (object : Object) (next : Binder → Result) (b : Binder) (wraps : Outcome Bool)
      → IsModel known all object.type
      → ((b' : Binder) → P (next b'))
      → wraps ≡ wraps_string def (basic_underlying known.underlying object.type)
      → P (wraps >>= by_kind known q def bind_target string_ref object next b)
  by_kind-Kept object next b (ok true) of h e =
      keeps.at_string b (casting known q def bind_target object next)
        (λ r. casting-Kept object next r of h)
  by_kind-Kept object next b (ok false) of h e =
      keeps.at_fitted (plain def q object.type) next b of refl h
  by_kind-Kept object next b (panic text) of h e = keeps.at_panic text
  by_kind-Kept object next b out_of_fuel of h e =
      absurd (computed def (basic_underlying known.underlying object.type) e)
    where
      computed : (d : Option Definition) (kind : Option ℕ) → out_of_fuel ≡ wraps_string d kind → ⊥
      computed none kind x = cc
      computed (some d) none x = cc
      computed (some d) (some kind) x = cc

  of_type-Kept :
      (object : Object) (next : Binder → Result) (b : Binder) (marshals : Bool)
      → IsModel known all object.type
      → ((b' : Binder) → P (next b'))
      → P (of_type known q def bind_target string_ref object next b marshals)
  of_type-Kept object next b true of h = keeps.at_fitted _ next b of refl h
  of_type-Kept object next b false of h = by_kind-Kept object next b _ of h refl

  of_object-Kept :
      (type_name : Bytes) (object : Object) (params : Option (List GoType)) (next : Binder → Result)
      (b : Binder)
      → ((u : GoType) → Denotes params object.type u → IsModel known all u)
      → ((b' : Binder) → P (next b'))
      → P (of_object known q def bind_target string_ref type_name object params next b)
  of_object-Kept type_name object (some []) next b of h = keeps.at_panic "index out of range"
  of_object-Kept type_name object (some (param ∷ params)) next b of h =
      keeps.at_fitted _ next b (of param refl) refl h
  of_object-Kept type_name object none next b of h =
      of_type-Kept object next b _ (of object.type refl) h

  of_found-Kept :
      (model : Bytes) (found : String ⊎ Object) (next : Binder → Result) (b : Binder)
      → IsIn model all
      → find_object known.load_with_types (pkg_and_type model).0 (pkg_and_type model).1 ≡ found
      → ((b' : Binder) → P (next b'))
      → P (of_found known q def bind_target string_ref (pkg_and_type model).1 found next b)
  of_found-Kept model (inl err) next b listed e h = keeps.at_error b err
  of_found-Kept model (inr object) next b listed e h =
      of_object-Kept (pkg_and_type model).1 object object.params next b
        (λ u denotes. record {
          model = model;
          listed = listed;
          object = object;
          found = e;
          denotes = denotes;
        })
        h

  incompatible-Kept :
      (o : Option GoType) (b : Binder) → P (incompatible known q def bind_target string_ref o b)
  incompatible-Kept none b = keeps.at_panic "nil pointer dereference"
  incompatible-Kept (some t) b = keeps.at_error b "incompatible"

  either : (test : Bool) (x y : Result) → (test ≡ true → P x) → P y → P (if test then x else y)
  either true x y h k = h refl
  either false x y h k = k

  -- The cases of a round.
  round-Kept :
      (model : Bytes) (map_model any_model no_package : Bool) (next found : Result) (b : Binder)
      → IsIn model all
      → bytes_eq model (codes "map[string]interface{}") ≡ map_model
      → bytes_eq model (codes "interface{}") ≡ any_model
      → P next
      → P found
      → P (
          if map_model
          then if is_map bind_target then ok (b, inr (plain def q map_of_any)) else next
          else if any_model
          then if is_intf bind_target then ok (b, inr (plain def q any_type)) else next
          else if no_package
          then ok (b, inl "missing package name")
          else found)
  round-Kept model true any_model no_package next found b listed em ea h k =
      either (is_map bind_target) (ok (b, inr (plain def q map_of_any))) next
        (keeps.at_map b
          (subst (λ m. IsIn m all) (bytes_eq-eq model (codes "map[string]interface{}") em) listed))
        h
  round-Kept model false true no_package next found b listed em ea h k =
      either (is_intf bind_target) (ok (b, inr (plain def q any_type))) next
        (keeps.at_any b
          (subst (λ m. IsIn m all) (bytes_eq-eq model (codes "interface{}") ea) listed))
        h
  round-Kept model false false true next found b listed em ea h k =
      keeps.at_error b "missing package name"
  round-Kept model false false false next found b listed em ea h k = k

  -- The rounds over the last models.
  pub bind_models-Kept :
      (models : List Bytes) (b : Binder)
      → ((model : Bytes) → IsIn model models → IsIn model all)
      → P (bind_models known q def bind_target string_ref models b)
  unfolding bind_models
  bind_models-Kept [] b last = incompatible-Kept bind_target b
  bind_models-Kept (model ∷ models) b last =
      let rest = λ (b' : Binder). bind_models-Kept models b' (λ m h. last m (inr h)) in
      round-Kept model (bytes_eq model (codes "map[string]interface{}"))
        (bytes_eq model (codes "interface{}")) (bytes_eq (pkg_and_type model).0 []) _ _ b
        (last model (inl refl)) refl refl (rest b)
        (of_found-Kept model
          (find_object known.load_with_types (pkg_and_type model).0 (pkg_and_type model).1) _ b
          (last model (inl refl)) refl rest)
