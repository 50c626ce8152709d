-- ===== src/Codegen/Objects/Ends.antt =====
-- codegen/object.go: the builders of arguments, fields and objects end.
use fastgql.Prelude.{ℕ, suc, Bool, true, false, Option, none, some, [], ◌≡◌, sym, ◌<◌}
use mathlib.Core.Path.{subst}
use fastgql.Prelude.Outcome.{Outcome, ok, panic, out_of_fuel, Halts}
use fastgql.Prelude.Text.{Bytes}
use fastgql.Prelude.Maps.{Map}
use fastgql.Code.{
  GoType, pointer, slice, array, basic, struct_type, tuple, signature, interface_type, map_type,
  chan, named, other,
}
use fastgql.Config.Binder.{GqlType}
use fastgql.Config.Binder.Lookup.{Binder, type_reference, string_type, default_user_object}
use fastgql.Config.Binder.Ends.{type_reference-Halts}
use fastgql.Codegen.Builder.{checked, each}
use fastgql.Codegen.Builder.Ends.{Ends, Ends-bind, Ends-map, Ends-each}
use fastgql.Codegen.Binding.Ends.{IsRanked, find_bind_target-IsRanked}
use fastgql.Codegen.Directives.{Directive, default_of}
use fastgql.Codegen.Directives.Ends.{get_directives-Ends, default_of-Ends}
use fastgql.Codegen.Building.{Field, Done, built}
use fastgql.Codegen.Building.Ends.{bind_field-Halts, built-Halts}
use fastgql.Codegen.Objects.{
  ArgumentDefinition, FieldDefinition, Definition, Object, Program, refer, directives_of, build_arg,
  bind_target_of, binding_of, finished, built_field, new_field, build_field, type_of_object,
  new_object, unreserved, build_object,
}

finished-Halts : (r : Outcome (Binder × Field)) → Halts r → Halts (finished r)
finished-Halts (ok (b, f)) h = tt
finished-Halts (panic text) h = tt
finished-Halts out_of_fuel h = h

built_field-Halts : (program : Program) (r : Outcome Done) → Halts r → Halts (built_field program r)
built_field-Halts program (ok d) h =
    finished-Halts (built program.known.underlying d) (built-Halts _ d)
built_field-Halts program (panic text) h = tt
built_field-Halts program out_of_fuel h = h

-- With one round less than the program has for `TypeReference`, a call for String ends.
pub refer-Ends :
    (program : Program) (fuel : ℕ)
    → program.string_fuel ≡ suc fuel
    → Ends (type_reference program.known fuel string_type none)
    → (q : GqlType) (bind_target : Option GoType) → Ends (refer program q bind_target)
refer-Ends program fuel same string_ends q bind_target b =
    subst (λ k. Halts (type_reference program.known k q bind_target b)) (sym same)
      (type_reference-Halts program.known fuel q bind_target b string_ends)

module _ (program : Program) (directives : Map Directive)
    (refers : (q : GqlType) (bind_target : Option GoType) → Ends (refer program q bind_target))
    (rank : Bytes → ℕ) (ranked : IsRanked program.uses_tags [] program.declared rank)
    (enough : (t : Bytes) → rank t < program.embed_fuel) where
  build_arg-Ends : (arg : ArgumentDefinition) → Ends (build_arg program directives arg)
  unfolding build_arg
  build_arg-Ends arg = Ends-bind (refer program arg.type none) _ (refers arg.type none) λ ref.
      Ends-bind (directives_of program directives arg.directives) _
        (get_directives-Ends program.value_of program.skip_runtime directives arg.directives)
        λ uses.
          Ends-bind (default_of program.value_of arg.default_value) _
            (default_of-Ends program.value_of arg.default_value) (λ default b. tt)

  bind_target_of-Halts :
      (go : Option GoType) (name : Bytes) → Halts (bind_target_of program go name)
  bind_target_of-Halts none name = tt
  bind_target_of-Halts (some (named p n)) name =
      (find_bind_target-IsRanked program.uses_tags name program.declared rank program.embed_fuel
        (program.type_string (named p n)) ranked (enough (program.type_string (named p n)))).0
  bind_target_of-Halts (some (pointer _)) name = tt
  bind_target_of-Halts (some (slice _)) name = tt
  bind_target_of-Halts (some (array _ _)) name = tt
  bind_target_of-Halts (some (basic _)) name = tt
  bind_target_of-Halts (some (struct_type _)) name = tt
  bind_target_of-Halts (some (tuple _)) name = tt
  bind_target_of-Halts (some (signature _ _)) name = tt
  bind_target_of-Halts (some (interface_type _)) name = tt
  bind_target_of-Halts (some (map_type _ _)) name = tt
  bind_target_of-Halts (some (chan _)) name = tt
  bind_target_of-Halts (some other) name = tt

  pub build_field-Ends :
      (obj : Object) (f : FieldDefinition) → Ends (build_field program directives obj f)
  unfolding build_field
  build_field-Ends obj f =
      Ends-bind (directives_of program directives f.directives) _
        (get_directives-Ends program.value_of program.skip_runtime directives f.directives)
        λ uses.
          Ends-bind (default_of program.value_of f.default_value) _
            (default_of-Ends program.value_of f.default_value)
            λ default.
              Ends-bind (each (build_arg program directives) f.arguments) _
                (Ends-each (build_arg program directives) build_arg-Ends f.arguments)
                λ args b. built_field-Halts program _ (
                  bind_field-Halts (refer program) refers program.type_string program.signature_of
                    program.type_of (bind_target_of program obj.type)
                    (bind_target_of-Halts obj.type)
                    (λ def. directives_of program directives (program.uses_of def.name))
                    (λ def.
                      get_directives-Ends program.value_of program.skip_runtime directives
                        (program.uses_of def.name))
                    (binding_of program obj f.name) (new_field f uses default args) b)

  type_of_object-Ends : (root : Bool) (name : Bytes) → Ends (type_of_object program root name)
  type_of_object-Ends true name = λ b. tt
  type_of_object-Ends false name =
      Ends-map
        (checked (default_user_object program.known.load_with_types (program.known.models name)))
        (λ go. some go) (λ b. tt)

  pub build_object-Ends : (typ : Definition) → Ends (build_object program directives typ)
  unfolding build_object
  build_object-Ends typ =
      Ends-bind (directives_of program directives typ.directives) _
        (get_directives-Ends program.value_of program.skip_runtime directives typ.directives)
        λ uses.
          Ends-bind (type_of_object program (new_object program typ none uses).root typ.name) _
            (type_of_object-Ends (new_object program typ none uses).root typ.name)
            λ go.
              Ends-map
                (each (build_field program directives (new_object program typ go uses))
                  (unreserved typ.fields))
                (λ fields. record (new_object program typ go uses) { fields = fields })
                (Ends-each (build_field program directives (new_object program typ go uses))
                  (build_field-Ends (new_object program typ go uses)) (unreserved typ.fields))
