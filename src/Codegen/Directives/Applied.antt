-- ===== src/Codegen/Directives/Applied.antt =====
-- codegen/directive.go: what `getDirectives` makes of the directives of a definition.
use mathlib.Core.Path.{subst}
use fastgql.Prelude.{
  ◌≡◌, refl, ap, ◌∙◌, String, Bool, Option, none, some, List, [], ◌∷◌, ◌⊎◌, inl, inr, Bool-cases,
  if◌then◌else◌,
}
use fastgql.Prelude.Outcome.{ok}
use fastgql.Prelude.Text.{Bytes, bytes_eq}
use fastgql.Prelude.Maps.{Map, find, put, find-put_same, find-put_other, bytes_eq-eq}
use fastgql.Config.Binder.Lookup.{Binder}
use fastgql.Codegen.Builder.{pure, checked, each, >>=-eq-ok, pure-eq}
use fastgql.Codegen.Directives.{
  Directive, DirectiveArgument, DirectiveUse, arg_values, applied, applied_value, declared,
  get_directive, get_directives, instantiated,
}

module _ (value_of : Bytes → String ⊎ Option Bytes) where
  -- The value of the last argument of that name, or else what there was.
  abbrev Given :
      Bytes → List (Bytes × Bytes) → Option (Option Bytes) → Option (Option Bytes) → Type 0
  Given name [] before after' = before ≡ after'
  Given name ((n, raw) ∷ args) before after' =
      (value : Option Bytes) × (value_of raw ≡ inr value)
      × Given name args (if bytes_eq name n then some value else before) after'

  find-put :
      (name n : Bytes) (value : Option Bytes) (m : Map (Option Bytes))
      → find name (put n value m) ≡ (if bytes_eq name n then some value else find name m)
  find-put name n value m = elim (Bool-cases (bytes_eq name n)) [
    | inl same ↦
        rw same
          (ap (λ k. find k (put n value m)) (bytes_eq-eq name n same) ∙ find-put_same n value m)
    | inr other ↦ rw other (find-put_other name n value m other)
  ]

  arg_values-Given :
      (name : Bytes) (args : List (Bytes × Bytes)) (m values : Map (Option Bytes)) (b b' : Binder)
      → arg_values value_of args m b ≡ ok (b', inr values)
      → Given name args (find name m) (find name values)
  unfolding arg_values
  arg_values-Given name [] m values b b' e = ap (find name) (pure-eq e).0
  arg_values-Given name ((n, raw) ∷ args) m values b b' e =
      let (between, value, first, rest) =
        >>=-eq-ok (checked (value_of raw)) (λ v. arg_values value_of args (put n v m)) e in
      (
        value,
        value_eq first,
        subst (λ o. Given name args o (find name values)) (find-put name n value m)
            (arg_values-Given name args (put n value m) values between b' rest),
      )
    where
      value_eq :
          {between : Binder} {value : Option Bytes}
          → checked (value_of raw) b ≡ ok (between, inr value)
          → value_of raw ≡ inr value
      value_eq x = cc

  -- The arguments of the definition with the values that are given, or else their defaults.
  abbrev pub HasValues :
      List (Bytes × Bytes) → List DirectiveArgument → List DirectiveArgument → Type 0
  HasValues given [] [] = Unit
  HasValues given (a ∷ args) (a' ∷ args') =
      ((values : Option (Option Bytes)) × Given a.name given none values
        × (a' ≡ record a { value = applied_value a values; default = none }))
      × HasValues given args args'
  HasValues given _ _ = ⊥

  applied-HasValues :
      (given : List (Bytes × Bytes)) (args : List DirectiveArgument) (values : Map (Option Bytes))
      → ((name : Bytes) → Given name given none (find name values))
      → HasValues given args (applied args values)
  unfolding applied
  applied-HasValues given [] values h = tt
  applied-HasValues given (a ∷ args) values h =
      ((find a.name values, h a.name, refl), applied-HasValues given args values h)

  module _ (skip_runtime : Bytes → Bool) (directives : Map Directive) where
    -- A directive is the declared one of its name with those values.
    pub record Applies (use' : DirectiveUse) (d : Directive) : Type 0 where
      pub def : Directive
      pub found : find use'.name directives ≡ some def
      pub name : d.name ≡ use'.name
      pub builtin : d.builtin ≡ skip_runtime use'.name
      pub values : HasValues use'.arguments def.args d.args

    abbrev pub AllApply : List DirectiveUse → List Directive → Type 0
    AllApply [] [] = Unit
    AllApply (u ∷ uses) (d ∷ ds) = Applies u d × AllApply uses ds
    AllApply _ _ = ⊥

    declared-eq :
        {o : Option Directive} {def : Directive} {b b' : Binder}
        → checked (declared o) b ≡ ok (b', inr def)
        → o ≡ some def
    declared-eq {o = none} e = cc
    declared-eq {o = some d} e = cc

    get_directive-Applies :
        (u : DirectiveUse) (d : Directive) (b b' : Binder)
        → get_directive value_of skip_runtime directives u b ≡ ok (b', inr d)
        → Applies u d
    unfolding get_directive
    get_directive-Applies u d b b' e =
        let (b1, values, given, rest) = >>=-eq-ok (arg_values value_of u.arguments []) _ e in
        let (b2, def, found, last) =
          >>=-eq-ok (checked (declared (find u.name directives)))
            (λ found. pure (instantiated value_of skip_runtime u values found)) rest in
        let same = (pure-eq last).0 in
        subst (Applies u) same (record {
          def = def;
          found = declared-eq found;
          name = refl;
          builtin = refl;
          values =
              applied-HasValues u.arguments def.args values
                (λ name. arg_values-Given name u.arguments [] values b b1 given);
        })

    -- If getDirectives returns without an error, it returns one directive for each use, in their order:
    -- the declared directive of that name, whose arguments have the value of the last argument of
    -- their name that is given, or else their default.
    pub get_directives-AllApply :
        (uses : List DirectiveUse) (ds : List Directive) (b b' : Binder)
        → get_directives value_of skip_runtime directives uses b ≡ ok (b', inr ds)
        → AllApply uses ds
    unfolding get_directives each
    get_directives-AllApply [] ds b b' e = subst (AllApply []) (pure-eq e).0 tt
    get_directives-AllApply (u ∷ uses) ds b b' e =
        let (b1, d, first, rest) =
          >>=-eq-ok (get_directive value_of skip_runtime directives u) _ e in
        let (b2, others, found, last) =
          >>=-eq-ok (get_directives value_of skip_runtime directives uses) (λ more. pure (d ∷ more))
            rest in
        subst (AllApply (u ∷ uses)) (pure-eq last).0
          (get_directive-Applies u d b b1 first, get_directives-AllApply uses others b1 b2 found)
