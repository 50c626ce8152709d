-- ===== src/Codegen/Building.antt =====
-- codegen/field.go: `bindField` and what `buildField` does with its result.
-- Parameters: `TypeReference` of the binder, the directives of a definition, the text of a Go type, and
-- the signatures and types of methods and fields. Errors are without their arguments.
pub mod Ends
pub mod Usable
mod Tests
use fastgql.Prelude.{
  ℕ, String, Bool, true, false, not, ◌&&◌, ◌||◌, Option, none, some, List, [], ◌∷◌, ◌++◌,
  if◌then◌else◌, get_elem?, ◌⊎◌, inl, inr,
}
use fastgql.Prelude.Outcome.{Outcome, ok, panic, out_of_fuel, ◌>>=◌}
use fastgql.Prelude.Text.{Bytes, codes, bytes_eq}
use fastgql.Code.{GoType, pointer}
use fastgql.Codegen.Binding.{Method, StructField, method, variable, Found, missing, failed, found}
use fastgql.Codegen.Arguments.{Argument, Param, ArgState, bind_args}
use fastgql.Config.Binder.{GqlType, Definition, TypeReference, pointer_to, is_struct, underlying_of}
use fastgql.Config.Binder.Lookup.{Binder}
use fastgql.Codegen.Builder.{Build}
use fastgql.Codegen.Directives.{Directive}

pub record Signature : Type 0 where
  pub params : List Param
  pub results : List GoType

pub data Kind : Type 0 where
  field_method field_variable field_map : Kind

-- What the code reads and sets of a `Field`.
pub record Field : Type 0 where
  pub name : Bytes
  pub type : GqlType
  pub type_reference : Option TypeReference
  pub go_field_type : Kind
  pub go_receiver_name : Bytes
  pub go_field_name : Bytes
  pub is_resolver : Bool
  pub args : List Argument
  pub method_has_context : Bool
  pub no_err : Bool
  pub stream : Bool
  pub directives : List Directive
  pub default : Option Bytes

-- The object, with its entry of the type map for the field.
pub record Object : Type 0 where
  pub root : Bool
  pub stream : Bool
  pub is_map : Bool
  pub resolver : Bool
  pub field_name : Bytes

pub record Done : Type 0 where
  pub binder : Binder
  pub field : Field
  pub err : Option String

abbrev pub failing : Binder → Field → String → Done
failing b f err = record { binder = b; field = f; err = some err }

abbrev pub succeeding : Binder → Field → Done
succeeding b f = record { binder = b; field = f; err = none }

abbrev pub bound_to : Field → Kind → Bytes → Bytes → Bool → Field
bound_to f kind receiver go_name has_context = record f {
  go_field_type = kind;
  go_receiver_name = receiver;
  go_field_name = go_name;
  method_has_context = has_context;
}

abbrev pub resolving : Field → Field
resolving f = record f { is_resolver = true }

abbrev pub with_reference : Field → Option TypeReference → List Directive → Field
with_reference f ref directives = record f { type_reference = ref; directives = directives }

abbrev pub called : Field → List Argument → Bool → Bool → Field
called f args has_context no_err = record f {
  args = args;
  method_has_context = has_context;
  no_err = no_err;
}

abbrev pub streaming : Field → Bool → Field
streaming f stream = record f { stream = stream }

abbrev cons_some {ℓ} : {A : Type ℓ} → Option A → List A → List A
cons_some none rest = rest
cons_some (some a) rest = a ∷ rest

-- The new list of arguments.
unfoldable pub picked : List Argument → List ℕ → List Argument
picked args [] = []
picked args (i ∷ is) = cons_some (get_elem? args i) (picked args is)

module _ (type_reference : GqlType → Option GoType → Build TypeReference)
    (type_string : GoType → Bytes) (signature_of : Method → Signature)
    (type_of : StructField → GoType) where
  abbrev pub takes_context : List Param → Bool
  takes_context [] = false
  takes_context (p ∷ params) = bytes_eq (type_string p.type) (codes "context.Context")

  abbrev pub without_context : List Param → List Param
  without_context [] = []
  without_context (p ∷ params) =
      if bytes_eq (type_string p.type) (codes "context.Context") then params else p ∷ params

  abbrev pub referred_to : Field → Kind → Bytes → Binder × (String ⊎ TypeReference) → Outcome Done
  referred_to f kind go_name (b, inl err) = ok (failing b f err)
  referred_to f kind go_name (b, inr ref) = ok (
      succeeding b (
        with_reference (bound_to f kind (codes "obj") go_name f.method_has_context) (some ref)
          f.directives))

  abbrev pub after_args :
      Field → Bytes → GoType → Bool → Bool → ArgState → Option String → Outcome Done
  after_args f go_name result has_context no_err s (some err) =
      ok (failing s.binder (called f s.args has_context no_err) err)
  after_args f go_name result has_context no_err s none =
      type_reference f.type (some result) s.binder
      >>= referred_to (called f (picked s.args s.new_args) has_context no_err) field_method go_name

  abbrev pub with_result : Field → Bytes → List Param → GoType → Bool → Binder → Outcome Done
  with_result f go_name params result no_err b =
      bind_args type_reference (without_context params)
        (record { binder = b; args = f.args; new_args = []; err = none })
      >>= λ s.
          after_args f go_name result (f.method_has_context || takes_context params) no_err s s.err

  abbrev pub with_results : Field → Bytes → List Param → List GoType → Binder → Outcome Done
  with_results f go_name params (r ∷ []) b = with_result f go_name params r true b
  with_results f go_name params (r ∷ err ∷ []) b = with_result f go_name params r f.no_err b
  with_results f go_name params _ b = ok (failing b f "method has wrong number of args")

  abbrev pub bind_found : Field → Found → Binder → Outcome Done
  bind_found f failed b = ok (failing b f "found more than one way to bind")
  bind_found f missing b = ok (failing b f "nothing matched")
  bind_found f (found (method m)) b =
      let s = signature_of m in with_results f m.name s.params s.results b
  bind_found f (found (variable v)) b =
      type_reference f.type (some (type_of v)) b >>= referred_to f field_variable v.name

  module _ (find_bind_target : Bytes → Outcome Found) where
    unfoldable pub bind_go : Field → Binder → Outcome Done
    unfolding bind_args picked
    bind_go f b = find_bind_target f.go_field_name >>= λ target. bind_found f target b

    -- `bindField` without what is deferred.
    unfoldable pub bind_switch : Object → Field → Binder → Outcome Done
    unfolding bind_go
    bind_switch obj f b =
        if bytes_eq f.name (codes "__schema")
        then ok (
            succeeding b (
              bound_to f field_method (codes "ec") (codes "introspectSchema") f.method_has_context))
        else if bytes_eq f.name (codes "__type")
        then ok (
            succeeding b
              (bound_to f field_method (codes "ec") (codes "introspectType") f.method_has_context))
        else if bytes_eq f.name (codes "_entities")
        then ok
            (succeeding b (bound_to f field_method (codes "ec") (codes "__resolve_entities") true))
        else if bytes_eq f.name (codes "_service")
        then ok
            (succeeding b (bound_to f field_method (codes "ec") (codes "__resolve__service") true))
        else if obj.root || obj.resolver
        then ok (succeeding b (resolving f))
        else if obj.is_map
        then ok (
            succeeding b
              (bound_to f field_map f.go_receiver_name f.go_field_name f.method_has_context))
        else if not (bytes_eq obj.field_name [])
        then bind_go
            (bound_to f f.go_field_type f.go_receiver_name obj.field_name f.method_has_context) b
        else bind_go f b

    module _ (get_directives : Definition → Build (List Directive)) where
      abbrev pub directed : Done → TypeReference → Binder × (String ⊎ List Directive) → Done
      directed d ref (b, inl err) =
          failing b (with_reference d.field (some ref) d.field.directives) err
      directed d ref (b, inr dirs) = record d {
        binder = b;
        field = with_reference d.field (some ref) (dirs ++ d.field.directives);
      }

      abbrev pub with_definition : Done → TypeReference → Option Definition → Outcome Done
      with_definition d ref none = panic "nil pointer dereference"
      with_definition d ref (some def) = get_directives def d.binder >>= λ r. ok (directed d ref r)

      abbrev pub given_reference : Done → Binder × (String ⊎ TypeReference) → Outcome Done
      given_reference d (b, inl err) = ok (failing b d.field err)
      given_reference d (b, inr ref) = with_definition (record d { binder = b }) ref ref.definition

      -- What `bindField` defers.
      abbrev pub deferred : Done → Option TypeReference → Outcome Done
      deferred d none = type_reference d.field.type none d.binder >>= given_reference d
      deferred d (some ref) = with_definition d ref ref.definition

      unfoldable pub bind_field : Object → Field → Binder → Outcome Done
      unfolding bind_switch
      bind_field obj f b =
          bind_switch obj (streaming f obj.stream) b >>= λ d. deferred d d.field.type_reference

abbrev pub resolving_if : Option String → Field → Field
resolving_if none f = f
resolving_if (some err) f = resolving f

abbrev pub is_pointer : GoType → Bool
is_pointer (pointer t) = true
is_pointer t = false

-- The test is whether the reference is to a struct, not to a pointer.
abbrev pub pointing : Binder → Field → TypeReference → Bool → Binder × Field
pointing b f ref false = (b, f)
pointing b f ref true = (
  record { references = b.references ++ pointer_to ref ∷ []; saw_invalid = b.saw_invalid },
  with_reference f (some (pointer_to ref)) f.directives,
)

module _ (underlying : Bytes → Bytes → GoType) where
  abbrev pub resolved : Binder → Field → Bool → Option TypeReference → Outcome (Binder × Field)
  resolved b f false ref = ok (b, f)
  resolved b f true none = panic "nil pointer dereference"
  resolved b f true (some ref) =
      ok (pointing b f ref (not (is_pointer ref.go) && is_struct (underlying_of underlying ref.go)))

  -- The end of `buildField`.
  unfoldable pub built : Done → Outcome (Binder × Field)
  unfolding pointer_to
  built d = let f = resolving_if d.err d.field in resolved d.binder f f.is_resolver f.type_reference
