-- ===== src/Codegen/Data/Ends.antt =====
-- codegen/data.go: `BuildData` ends.
use fastgql.Prelude.{ℕ, suc, String, Bool, none, List, [], ◌∷◌, ◌⊎◌, inl, inr, ◌≡◌, ◌<◌}
use fastgql.Prelude.Outcome.{Outcome, ok, panic, out_of_fuel, Halts}
use fastgql.Prelude.Text.{Bytes}
use fastgql.Prelude.Maps.{Map}
use fastgql.Code.{GoType}
use fastgql.Config.Binder.{TypeReference, build_types}
use fastgql.Config.Binder.Lookup.{type_reference, string_type, default_user_object}
use fastgql.Config.Binder.Ends.{build_types-Halts}
use fastgql.Codegen.Builder.{checked}
use fastgql.Codegen.Builder.Ends.{Ends, Ends-bind, Ends-map}
use fastgql.Codegen.Binding.Ends.{IsRanked}
use fastgql.Codegen.Directives.{Directive, DirectiveDefinition, build_directives}
use fastgql.Codegen.Directives.Ends.{build_directives-Ends}
use fastgql.Codegen.Interfaces.{Interface, build_interface, of_user_object}
use fastgql.Codegen.Objects.{
  DefinitionKind, object, input_object, interface, union, scalar, enum, Definition, Object, Program,
  build_object, build_field,
}
use fastgql.Codegen.Objects.Ends.{refer-Ends, build_field-Ends, build_object-Ends}
use fastgql.Codegen.Data.{
  Data, by_name, or_error, type_field, schema_field, interface_step, built_interface, add_type,
  add_types, inject_introspection_roots, referenced, types_built, start, build_data,
}

module _ (program : Program) (implements : GoType → GoType → Bool)
    (possible_types : Bytes → List Bytes) (user_defined : Bytes → Bool) (basic_name : ℕ → Bytes)
    (package_errors : List String) where
  interface_step-Ends : (r : Outcome (String ⊎ Interface)) → Halts r → Ends (interface_step r)
  interface_step-Ends (ok r) h b = tt
  interface_step-Ends (panic text) h b = tt
  interface_step-Ends out_of_fuel h b = h

  build_interface-Halts :
      (default_user_object : Bytes → String ⊎ GoType) (name : Bytes)
      → Halts (
          build_interface program.known.underlying implements default_user_object possible_types
            user_defined name)
  unfolding build_interface
  build_interface-Halts default_user_object name = at_object (default_user_object name)
    where
      at_object :
          (o : String ⊎ GoType)
          → Halts (
              of_user_object program.known.underlying implements default_user_object possible_types
                user_defined name o)
      at_object (inl err) = tt
      at_object (inr obj) = tt

  types_built-Ends : Ends (types_built basic_name)
  types_built-Ends b =
      at_result (build_types basic_name b.references [])
        (build_types-Halts basic_name b.references [])
    where
      at_result : (r : Outcome (Map TypeReference)) → Halts r → Halts (referenced r b)
      at_result (ok m) h = tt
      at_result (panic text) h = tt
      at_result out_of_fuel h = h

  module _ (directives : Map Directive)
      (objects : (typ : Definition) → Ends (build_object program directives typ)) where
    built_interface-Ends :
        (typ : Definition)
        → Ends (built_interface program implements possible_types user_defined directives typ)
    built_interface-Ends typ = interface_step-Ends _ (build_interface-Halts _ typ.name)

    add_type-Ends :
        (kind : DefinitionKind) (typ : Definition) (s : Data)
        → Ends (add_type program implements possible_types user_defined directives kind typ s)
    unfolding add_type
    add_type-Ends object typ s = Ends-map (build_object program directives typ) _ (objects typ)
    add_type-Ends input_object typ s =
        Ends-map (build_object program directives typ) _ (objects typ)
    add_type-Ends interface typ s = Ends-map _ _ (built_interface-Ends typ)
    add_type-Ends union typ s = Ends-map _ _ (built_interface-Ends typ)
    add_type-Ends scalar typ s = λ b. tt
    add_type-Ends enum typ s = λ b. tt

    add_types-Ends :
        (types : List Definition) (s : Data)
        → Ends (add_types program implements possible_types user_defined directives types s)
    unfolding add_types
    add_types-Ends [] s = λ b. tt
    add_types-Ends (typ ∷ types) s =
        Ends-bind
          (add_type program implements possible_types user_defined directives typ.kind typ s) _
          (add_type-Ends typ.kind typ s) (add_types-Ends types)

  inject_introspection_roots-Ends :
      (directives : Map Directive) (query : Bytes) (s : Data)
      → ((obj : Object) (f : _) → Ends (build_field program directives obj f))
      → Ends (
          inject_introspection_roots program implements possible_types user_defined directives query
            s)
  unfolding inject_introspection_roots
  inject_introspection_roots-Ends directives query s fields =
      Ends-bind (checked (or_error "root query type must be defined" (by_name query s.objects))) _
        (λ b. tt)
        λ obj.
          Ends-bind (build_field program directives obj type_field) _ (fields obj type_field)
            λ type.
              Ends-map (build_field program directives obj schema_field) _ (fields obj schema_field)

  -- If with one round less than there is for TypeReference a call for String ends, and no Go type embeds
  -- itself, directly or through others, so that types have ranks below the rounds for embedding, then
  -- BuildData ends for every schema: it returns data or an error, or it panics.
  pub build_data-Ends :
      (fuel : ℕ) (rank : Bytes → ℕ)
      → program.string_fuel ≡ suc fuel
      → Ends (type_reference program.known fuel string_type none)
      → IsRanked program.uses_tags [] program.declared rank
      → ((t : Bytes) → rank t < program.embed_fuel)
      → (schema_directives : List (Bytes × DirectiveDefinition)) (types : List Definition)
      → Ends (
          build_data program implements possible_types user_defined basic_name package_errors
            schema_directives types)
  unfolding build_data
  build_data-Ends fuel rank same string_ends ranked enough schema_directives types =
      Ends-bind
        (build_directives program.value_of program.skip_runtime
          (type_reference program.known program.string_fuel) schema_directives [])
        _
        (build_directives-Ends program.value_of program.skip_runtime
          (type_reference program.known program.string_fuel)
          (refer-Ends program fuel same string_ends) schema_directives [])
        λ directives.
          let refers = refer-Ends program fuel same string_ends in
          Ends-bind
            (add_types program implements possible_types user_defined directives types
              (start directives))
            _
            (add_types-Ends directives
              (build_object-Ends program directives refers rank ranked enough) types _)
            λ s.
              Ends-bind (checked (or_error "query entry point missing" program.query)) _ (λ b. tt)
                λ query.
                  Ends-bind
                    (inject_introspection_roots program implements possible_types user_defined
                      directives query s)
                    _
                    (inject_introspection_roots-Ends directives query s
                      (build_field-Ends program directives refers rank ranked enough))
                    λ s'. Ends-bind (types_built basic_name) _ types_built-Ends (λ refs b. tt)
