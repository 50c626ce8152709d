-- ===== src/Codegen/Data/Tests.antt =====
-- A schema with the type Query, and the theorems at it.
use fastgql.Prelude.{arith, ◌≡◌, refl, String, true, false, none, some, [], ◌∷◌, ◌++◌, ◌⊎◌, inr}
use fastgql.Prelude.Outcome.{Outcome, ok, Halts}
use fastgql.Prelude.Text.{Bytes, codes}
use fastgql.Prelude.Maps.{find, put}
use fastgql.Prelude.Sorting.{sort}
use fastgql.Code.{named, nil, struct_type}
use fastgql.Code.Dirs.{pkg_and_type}
use fastgql.Config.Binder.{uniqueness_key, build_types}
use fastgql.Config.Binder.Lookup.{
  string_type, Def, Known, Binder, find_object, type_reference, has_method, basic_underlying,
}
use fastgql.Codegen.Objects
use fastgql.Codegen.Objects.{Program, build_object, build_field, object}
use fastgql.Codegen.Data.{Data, by_name, build_data, start}
use fastgql.Codegen.Builder.Ends.{Ends}
use fastgql.Codegen.Data.Ends.{build_data-Ends}
use fastgql.Codegen.Data.Complete.{IsComplete, build_data-IsComplete}

abbrev declares : Bytes → Def
declares name = record {
  ident = name;
  top_scope = true;
  object = some (record { name = name; params = none; type = named (codes "model") name });
}

abbrev known : Known
known = record {
  underlying = λ p n. struct_type nil;
  methods = λ p n. codes "MarshalGQL" ∷ codes "UnmarshalGQL" ∷ [];
  load_with_types = λ p.
      some
        (declares (codes "String") ∷ declares (codes "__Type") ∷ declares (codes "__Schema") ∷ []);
  omit_slice_element_pointers = false;
  types = λ name.
      some (record { name = name; input_object = false; input_type = false; leaf_type = false });
  models = λ name. (codes "model." ++ name) ∷ [];
}

abbrev program : Program
program = record {
  known = known;
  value_of = λ raw. inr (some raw);
  uses_of = λ name. [];
  implemented = λ name. [];
  query = some (codes "Query");
  mutation = none;
  subscription = none;
  skip_runtime = λ name. true;
  uses_tags = false;
  field_config = λ obj name. record { resolver = false; field_name = [] };
  type_string = λ t. codes "model.T";
  signature_of = λ m. record { params = []; results = [] };
  type_of = λ f. struct_type nil;
  declared = λ t. none;
  string_fuel = 2;
  embed_fuel = 1;
}

abbrev empty : Binder
empty = record { references = []; saw_invalid = false }

abbrev query : Objects.Definition
query = record { name = codes "Query"; kind = object; fields = []; directives = [] }

abbrev result : Outcome (Binder × (String ⊎ Data))
result =
    build_data program (λ t i. true) (λ name. []) (λ name. false) (λ k. codes "string") [] []
      (query ∷ []) empty

abbrev data_of : Outcome (Binder × (String ⊎ Data)) → Data
data_of (ok (b, inr d)) = d
data_of _ = start []

abbrev binder_of : Outcome (Binder × (String ⊎ Data)) → Binder
binder_of (ok (b, r)) = b
binder_of _ = empty

builds : result ≡ ok (binder_of result, inr (data_of result))
unfolding build_data build_object build_field type_reference find_object has_method basic_underlying
    pkg_and_type uniqueness_key build_types find put sort
builds = refl

build_data-IsComplete_example :
    IsComplete program
      (λ t i. true)
      (λ name. [])
      (λ name. false)
      (λ k. codes "string")
      []
      (binder_of result)
      (data_of result)
build_data-IsComplete_example =
    build_data-IsComplete program (λ t i. true) (λ name. []) (λ name. false) (λ k. codes "string")
      [] [] (query ∷ []) empty (binder_of result) (data_of result) builds

type_reference-Ends : Ends (type_reference known 1 string_type none)
unfolding type_reference find_object has_method basic_underlying pkg_and_type
type_reference-Ends b = tt

build_data-Ends_example : Halts (
    build_data program
      (λ t i. true)
      (λ name. [])
      (λ name. false)
      (λ k. codes "string")
      []
      []
      (query ∷ [])
      empty)
build_data-Ends_example =
    build_data-Ends program (λ t i. true) (λ name. []) (λ name. false) (λ k. codes "string") [] 1
      (λ t. 0) refl type_reference-Ends (λ t d none_declared. cc) (λ t. omega arith) [] (query ∷ [])
      empty

abbrev named_object : Bytes → Objects.Object
named_object name = record {
  name = name;
  type = none;
  root = false;
  fields = [];
  implements = [];
  disable_concurrency = false;
  stream = false;
  directives = [];
}

-- An object type query that comes before Query is taken for the root.
wrong_root :
    by_name (codes "Query") (named_object (codes "query") ∷ named_object (codes "Query") ∷ [])
    ≡ some (named_object (codes "query"))
unfolding by_name
wrong_root = refl
