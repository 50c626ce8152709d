-- ===== src/Codegen/Directives/Tests.antt =====
-- A directive with a default, used twice, and the theorem at it.
use fastgql.Prelude.{◌≡◌, refl, String, true, false, Option, none, some, List, [], ◌∷◌, ◌⊎◌, inr}
use fastgql.Prelude.Outcome.{ok}
use fastgql.Prelude.Text.{Bytes, codes}
use fastgql.Prelude.Maps.{Map, find, put}
use fastgql.Code.{basic}
use fastgql.Config.Binder.{named_type}
use fastgql.Config.Binder.Lookup.{Binder, plain}
use fastgql.Codegen.Directives.{
  Directive, DirectiveArgument, DirectiveUse, get_directives, get_directive, applied, arg_values,
}
use fastgql.Codegen.Directives.Applied.{AllApply, get_directives-AllApply}

abbrev value_of : Bytes → String ⊎ Option Bytes
value_of raw = inr (some raw)

abbrev max_with : Option Bytes → Option Bytes → DirectiveArgument
max_with value default = record {
  name = codes "max";
  var_name = codes "max";
  type_reference = plain none (named_type (codes "Int") true) (basic 2);
  default = default;
  value = value;
}

abbrev length_with : DirectiveArgument → Directive
length_with arg = record {
  name = codes "length";
  args = arg ∷ [];
  locations = "FIELD_DEFINITION" ∷ [];
  builtin = false;
}

abbrev directives : Map Directive
directives = (codes "length", length_with (max_with none (some (codes "10")))) ∷ []

abbrev use_with : List (Bytes × Bytes) → DirectiveUse
use_with args = record {
  name = codes "length";
  arguments = args;
  locations = "FIELD_DEFINITION" ∷ [];
}

abbrev uses : List DirectiveUse
uses = use_with ((codes "max", codes "5") ∷ []) ∷ use_with [] ∷ []

abbrev found : List Directive
found =
    length_with (max_with (some (codes "5")) none)
    ∷ length_with (max_with (some (codes "10")) none)
    ∷ []

abbrev empty : Binder
empty = record { references = []; saw_invalid = false }

gets : get_directives value_of (λ name. false) directives uses empty ≡ ok (empty, inr found)
unfolding get_directives get_directive arg_values applied find put
gets = refl

get_directives-AllApply_example : AllApply value_of (λ name. false) directives uses found
get_directives-AllApply_example =
    get_directives-AllApply value_of (λ name. false) directives uses found empty empty gets
