-- ===== src/Codegen/Arguments/Tests.antt =====
-- A method with two parameters, and the theorem at it.
use fastgql.Prelude.{◌≡◌, refl, true, false, Option, none, some, List, [], ◌∷◌, inr, ℕ}
use fastgql.Prelude.Outcome.{ok}
use fastgql.Prelude.Text.{Bytes, codes}
use fastgql.Code.{GoType, basic}
use fastgql.Config.Binder.{GqlType, named_type, TypeReference}
use fastgql.Config.Binder.Lookup.{plain}
use fastgql.Codegen.Builder.{Build}
use fastgql.Codegen.Arguments.{Argument, Param, ArgState, names_of, bind_args}
use fastgql.Codegen.Arguments.Matching.{Match, bind_args-Match}

abbrev refer : GqlType → Option GoType → Build TypeReference
refer q o b = ok (b, inr (plain none q (basic 2)))

abbrev int_type : GqlType
int_type = named_type (codes "Int") true

abbrev argument : Bytes → Option TypeReference → Argument
argument name ref = record {
  name = name;
  type = int_type;
  type_reference = ref;
  var_name = name;
  default = none;
  directives = [];
}

abbrev state : List Argument → List ℕ → ArgState
state args new_args = record {
  binder = record { references = []; saw_invalid = false };
  args = args;
  new_args = new_args;
  err = none;
}

abbrev start : ArgState
start = state (argument (codes "first") none ∷ argument (codes "last") none ∷ []) []

abbrev params : List Param
params =
    record { name = codes "Last"; type = basic 2 }
    ∷ record { name = codes "First"; type = basic 2 }
    ∷ []

abbrev int_ref : Option TypeReference
int_ref = some (plain none int_type (basic 2))

abbrev end_state : ArgState
end_state =
    state (argument (codes "first") int_ref ∷ argument (codes "last") int_ref ∷ []) (1 ∷ 0 ∷ [])

binds : bind_args refer params start ≡ ok end_state
unfolding bind_args
binds = refl

bind_args-Match_example : Match (names_of end_state.args) params end_state.new_args
bind_args-Match_example = bind_args-Match refer params start end_state binds refl refl
