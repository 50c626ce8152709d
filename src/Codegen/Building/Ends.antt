-- ===== src/Codegen/Building/Ends.antt =====
-- codegen/field.go: `bindField` ends if `TypeReference` and the search for a bind target do.
use fastgql.Prelude.{
  String, Bool, true, false, not, ◌||◌, Option, none, some, List, [], ◌∷◌, ◌⊎◌, inl, inr, ℕ,
  if◌then◌else◌,
}
use fastgql.Prelude.Outcome.{Outcome, Halts, Halts-bind}
use fastgql.Prelude.Text.{Bytes, bytes_eq, codes}
use fastgql.Code.{GoType}
use fastgql.Config.Binder.{GqlType, Definition, TypeReference}
use fastgql.Config.Binder.Lookup.{Binder}
use fastgql.Codegen.Builder.{Build}
use fastgql.Codegen.Builder.Ends.{Ends}
use fastgql.Codegen.Binding.{Method, StructField, Found, missing, failed, found, method, variable}
use fastgql.Codegen.Arguments.{
  Argument, Param, ArgState, names_of, index_of, found_arg, with_arg, referred, bind_args,
}
use fastgql.Codegen.Directives.{Directive}
use fastgql.Codegen.Building.{
  Signature, Field, Object, Done, Kind, bind_go, bind_found, bind_switch, bind_field, with_result,
  with_results, after_args, referred_to, deferred, given_reference, with_definition, streaming,
  built, resolved, resolving_if,
}

if-Halts {ℓ} :
    {A : Type ℓ} (test : Bool) (x y : Outcome A) → Halts x → Halts y → Halts (if test then x else y)
if-Halts true x y h k = h
if-Halts false x y h k = k

module _ (type_reference : GqlType → Option GoType → Build TypeReference)
    (refers : (q : GqlType) (bind_target : Option GoType)
      → Ends (type_reference q bind_target)) where
  with_arg-Halts :
      (p : Param) (s : ArgState) (next : ArgState → Outcome ArgState) (i : Option ℕ)
      (a : Option Argument)
      → ((s' : ArgState) → Halts (next s'))
      → Halts (with_arg type_reference p i a s next)
  with_arg-Halts p s next none a h = tt
  with_arg-Halts p s next (some i) none h = tt
  with_arg-Halts p s next (some i) (some arg) h =
      Halts-bind (type_reference arg.type (some p.type) s.binder) (referred type_reference i s next)
        (refers arg.type (some p.type) s.binder) continued
    where
      continued :
          (r : Binder × (String ⊎ TypeReference)) → Halts (referred type_reference i s next r)
      continued (b, inl err) = tt
      continued (b, inr ref) = h _

  bind_args-Halts : (params : List Param) (s : ArgState) → Halts (bind_args type_reference params s)
  unfolding bind_args
  bind_args-Halts [] s = tt
  bind_args-Halts (p ∷ params) s =
      with_arg-Halts p s (bind_args type_reference params) (index_of p.name (names_of s.args))
        (found_arg s.args (index_of p.name (names_of s.args))) (λ s'. bind_args-Halts params s')

  module _ (type_string : GoType → Bytes) (signature_of : Method → Signature)
      (type_of : StructField → GoType) where
    referred_to-Halts :
        (f : Field) (kind : Kind) (name : Bytes) (r : Binder × (String ⊎ TypeReference))
        → Halts (referred_to type_reference type_string signature_of type_of f kind name r)
    referred_to-Halts f kind name (b, inl err) = tt
    referred_to-Halts f kind name (b, inr ref) = tt

    after_args-Halts :
        (f : Field) (name : Bytes) (result : GoType) (has_context no_err : Bool) (s : ArgState)
        (err : Option String)
        → Halts (
            after_args type_reference type_string signature_of type_of f name result has_context
              no_err s err)
    after_args-Halts f name result has_context no_err s (some err) = tt
    after_args-Halts f name result has_context no_err s none =
        Halts-bind (type_reference f.type (some result) s.binder) _
          (refers f.type (some result) s.binder) (referred_to-Halts _ _ name)

    with_result-Halts :
        (f : Field) (name : Bytes) (params : List Param) (result : GoType) (no_err : Bool)
        (b : Binder)
        → Halts (
            with_result type_reference type_string signature_of type_of f name params result no_err
              b)
    with_result-Halts f name params result no_err b =
        Halts-bind (bind_args type_reference _ _) _ (bind_args-Halts _ _)
          (λ s. after_args-Halts f name result _ no_err s s.err)

    with_results-Halts :
        (f : Field) (name : Bytes) (params : List Param) (results : List GoType) (b : Binder)
        → Halts
            (with_results type_reference type_string signature_of type_of f name params results b)
    with_results-Halts f name params [] b = tt
    with_results-Halts f name params (r ∷ []) b = with_result-Halts f name params r true b
    with_results-Halts f name params (r ∷ err ∷ []) b = with_result-Halts f name params r f.no_err b
    with_results-Halts f name params (r ∷ err ∷ x ∷ more) b = tt

    bind_found-Halts :
        (f : Field) (target : Found) (b : Binder)
        → Halts (bind_found type_reference type_string signature_of type_of f target b)
    bind_found-Halts f failed b = tt
    bind_found-Halts f missing b = tt
    bind_found-Halts f (found (method m)) b =
        with_results-Halts f m.name (signature_of m).params (signature_of m).results b
    bind_found-Halts f (found (variable v)) b =
        Halts-bind (type_reference f.type (some (type_of v)) b) _
          (refers f.type (some (type_of v)) b) (referred_to-Halts f _ v.name)

    module _ (find_bind_target : Bytes → Outcome Found)
        (searches : (name : Bytes) → Halts (find_bind_target name)) where
      bind_go-Halts :
          (f : Field) (b : Binder)
          → Halts (bind_go type_reference type_string signature_of type_of find_bind_target f b)
      unfolding bind_go
      bind_go-Halts f b =
          Halts-bind (find_bind_target f.go_field_name) _ (searches f.go_field_name)
            (λ target. bind_found-Halts f target b)

      bind_switch-Halts :
          (obj : Object) (f : Field) (b : Binder)
          → Halts
              (bind_switch type_reference type_string signature_of type_of find_bind_target obj f b)
      unfolding bind_switch
      bind_switch-Halts obj f b = if-Halts (bytes_eq f.name (codes "__schema")) _ _ tt (
          if-Halts (bytes_eq f.name (codes "__type")) _ _ tt (
            if-Halts (bytes_eq f.name (codes "_entities")) _ _ tt (
              if-Halts (bytes_eq f.name (codes "_service")) _ _ tt (
                if-Halts (obj.root || obj.resolver) _ _ tt (
                  if-Halts obj.is_map _ _ tt (
                    if-Halts (not (bytes_eq obj.field_name [])) _ _ (bind_go-Halts _ b)
                      (bind_go-Halts f b)))))))

      module _ (get_directives : Definition → Build (List Directive))
          (directs : (def : Definition) → Ends (get_directives def)) where
        with_definition-Halts :
            (d : Done) (ref : TypeReference) (def : Option Definition)
            → Halts (
                with_definition type_reference type_string signature_of type_of find_bind_target
                  get_directives d ref def)
        with_definition-Halts d ref none = tt
        with_definition-Halts d ref (some def) =
            Halts-bind (get_directives def d.binder) _ (directs def d.binder) (λ r. tt)

        given_reference-Halts :
            (d : Done) (r : Binder × (String ⊎ TypeReference))
            → Halts (
                given_reference type_reference type_string signature_of type_of find_bind_target
                  get_directives d r)
        given_reference-Halts d (b, inl err) = tt
        given_reference-Halts d (b, inr ref) =
            with_definition-Halts (record d { binder = b }) ref ref.definition

        deferred-Halts :
            (d : Done) (ref : Option TypeReference)
            → Halts (
                deferred type_reference type_string signature_of type_of find_bind_target
                  get_directives d ref)
        deferred-Halts d none =
            Halts-bind (type_reference d.field.type none d.binder) _
              (refers d.field.type none d.binder) (given_reference-Halts d)
        deferred-Halts d (some ref) = with_definition-Halts d ref ref.definition

        pub bind_field-Halts :
            (obj : Object) (f : Field) (b : Binder)
            → Halts (
                bind_field type_reference type_string signature_of type_of find_bind_target
                  get_directives obj f b)
        unfolding bind_field
        bind_field-Halts obj f b =
            Halts-bind
              (bind_switch type_reference type_string signature_of type_of find_bind_target obj
                (streaming f obj.stream) b)
              _ (bind_switch-Halts obj (streaming f obj.stream) b)
              (λ d. deferred-Halts d d.field.type_reference)

pub built-Halts : (underlying : Bytes → Bytes → GoType) (d : Done) → Halts (built underlying d)
unfolding built
built-Halts underlying d = at_end d.binder (resolving_if d.err d.field) _ _
  where
    at_end :
        (b : Binder) (f : Field) (is_resolver : Bool) (ref : Option TypeReference)
        → Halts (resolved underlying b f is_resolver ref)
    at_end b f false ref = tt
    at_end b f true none = tt
    at_end b f true (some ref) = tt
