-- ===== src/Codegen/Directives/Ends.antt =====
-- codegen/directive.go: the builders of directives end.
use fastgql.Prelude.{String, Bool, Option, none, some, List, [], ◌∷◌, ◌⊎◌}
use fastgql.Prelude.Text.{Bytes}
use fastgql.Prelude.Maps.{Map, find, put, is_some}
use fastgql.Code.{GoType}
use fastgql.Config.Binder.{GqlType, TypeReference}
use fastgql.Codegen.Builder.{Build, checked, each}
use fastgql.Codegen.Builder.Ends.{Ends, Ends-bind, Ends-map, Ends-each}
use fastgql.Codegen.Directives.{
  ArgumentDefinition, DirectiveDefinition, Directive, DirectiveUse, arg_values, default_of,
  declared, instantiated, get_directive, get_directives, build_argument, unique, build_directives,
}

module _ (value_of : Bytes → String ⊎ Option Bytes) where
  arg_values-Ends :
      (args : List (Bytes × Bytes)) (m : Map (Option Bytes)) → Ends (arg_values value_of args m)
  unfolding arg_values
  arg_values-Ends [] m = λ b. tt
  arg_values-Ends ((name, raw) ∷ args) m =
      Ends-bind (checked (value_of raw)) (λ v. arg_values value_of args (put name v m)) (λ b. tt)
        (λ v. arg_values-Ends args (put name v m))

  pub default_of-Ends : (o : Option Bytes) → Ends (default_of value_of o)
  default_of-Ends none b = tt
  default_of-Ends (some raw) b = tt

  module _ (skip_runtime : Bytes → Bool) where
    get_directive-Ends :
        (directives : Map Directive) (d : DirectiveUse)
        → Ends (get_directive value_of skip_runtime directives d)
    unfolding get_directive
    get_directive-Ends directives d =
        Ends-bind (arg_values value_of d.arguments []) _ (arg_values-Ends d.arguments []) (λ values.
          Ends-map (checked (declared (find d.name directives)))
            (λ def. instantiated value_of skip_runtime d values def) (λ b. tt))

    pub get_directives-Ends :
        (directives : Map Directive) (uses : List DirectiveUse)
        → Ends (get_directives value_of skip_runtime directives uses)
    unfolding get_directives
    get_directives-Ends directives uses =
        Ends-each (get_directive value_of skip_runtime directives) (get_directive-Ends directives)
          uses

    module _ (type_reference : GqlType → Option GoType → Build TypeReference)
        (refers : (q : GqlType) (bind_target : Option GoType)
          → Ends (type_reference q bind_target)) where
      build_argument-Ends :
          (arg : ArgumentDefinition)
          → Ends (build_argument value_of skip_runtime type_reference arg)
      unfolding build_argument
      build_argument-Ends arg =
          Ends-bind (type_reference arg.type none) _ (refers arg.type none) (λ ref.
            Ends-bind (default_of value_of arg.default_value) _ (default_of-Ends arg.default_value)
              (λ default b. tt))

      pub build_directives-Ends :
          (dirs : List (Bytes × DirectiveDefinition)) (directives : Map Directive)
          → Ends (build_directives value_of skip_runtime type_reference dirs directives)
      unfolding build_directives
      build_directives-Ends [] directives = λ b. tt
      build_directives-Ends ((name, dir) ∷ dirs) directives =
          Ends-bind
            (checked (unique value_of skip_runtime type_reference (is_some (find name directives))))
            _ (λ b. tt)
            (λ u.
              Ends-bind (each (build_argument value_of skip_runtime type_reference) dir.arguments) _
                (Ends-each _ build_argument-Ends dir.arguments)
                (λ args. build_directives-Ends dirs _))
