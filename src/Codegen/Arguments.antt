-- ===== src/Codegen/Arguments.antt =====
-- codegen/args.go: `bindArgs`, over `TypeReference` of the binder. Errors are without
-- their arguments.
pub mod Matching
mod Tests
use fastgql.Prelude.{
  ℕ, zero, suc, String, Option, none, some, List, [], ◌∷◌, ◌++◌, if◌then◌else◌, get_elem?, ◌⊎◌, inl,
  inr,
}
use fastgql.Prelude.Outcome.{Outcome, ok, ◌>>=◌}
use fastgql.Prelude.Text.{Bytes}
use fastgql.Code.{GoType}
use fastgql.Codegen.Binding.{equal_fold}
use fastgql.Codegen.Builder.{Build}
use fastgql.Codegen.Directives.{Directive}
use fastgql.Config.Binder.{GqlType, TypeReference}
use fastgql.Config.Binder.Lookup.{Binder}

-- What the code reads and sets of a `FieldArgument`.
pub record Argument : Type 0 where
  pub name : Bytes
  pub type : GqlType
  pub type_reference : Option TypeReference
  pub var_name : Bytes
  pub default : Option Bytes
  pub directives : List Directive

abbrev pub names_of : List Argument → List Bytes
names_of [] = []
names_of (a ∷ args) = a.name ∷ names_of args

pub record Param : Type 0 where
  pub name : Bytes
  pub type : GoType

-- The arguments are shared by the old list and the new one, which is given by its indices in the old.
pub record ArgState : Type 0 where
  pub binder : Binder
  pub args : List Argument
  pub new_args : List ℕ
  pub err : Option String

unfoldable pub index_of : Bytes → List Bytes → Option ℕ
index_of name [] = none
index_of name (n ∷ names) =
    let rest = index_of name names in
    if equal_fold n name then some 0 else elim rest [ none ↦ none | some i ↦ some (suc i) ]

abbrev pub referring : Argument → TypeReference → Argument
referring a ref = record a { type_reference = some ref }

unfoldable pub set_reference : ℕ → TypeReference → List Argument → List Argument
set_reference i ref [] = []
set_reference zero ref (a ∷ args) = referring a ref ∷ args
set_reference (suc i) ref (a ∷ args) = a ∷ set_reference i ref args

abbrev pub arg_failed : ArgState → Binder → String → ArgState
arg_failed s b err = record { binder = b; args = s.args; new_args = s.new_args; err = some err }

abbrev pub found_arg : List Argument → Option ℕ → Option Argument
found_arg args none = none
found_arg args (some i) = get_elem? args i

module _ (type_reference : GqlType → Option GoType → Build TypeReference) where
  abbrev pub referred :
      ℕ
      → ArgState
      → (ArgState → Outcome ArgState)
      → Binder × (String ⊎ TypeReference)
      → Outcome ArgState
  referred i s next (b, inl err) = ok (arg_failed s b err)
  referred i s next (b, inr ref) = next (record {
    binder = b;
    args = set_reference i ref s.args;
    new_args = s.new_args ++ i ∷ [];
    err = none;
  })

  abbrev pub with_arg :
      Param
      → Option ℕ
      → Option Argument
      → ArgState
      → (ArgState → Outcome ArgState)
      → Outcome ArgState
  with_arg p (some i) (some arg) s next =
      type_reference arg.type (some p.type) s.binder >>= referred i s next
  with_arg p _ _ s next = ok (arg_failed s s.binder "arg not in schema")

  -- The loop of `bindArgs` over the parameters.
  unfoldable pub bind_args : List Param → ArgState → Outcome ArgState
  unfolding index_of set_reference
  bind_args [] s = ok s
  bind_args (p ∷ params) s =
      let i = index_of p.name (names_of s.args) in
      with_arg p i (found_arg s.args i) s (bind_args params)
