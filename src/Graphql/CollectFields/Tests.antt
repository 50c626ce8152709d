-- ===== src/Graphql/CollectFields/Tests.antt =====
-- Runs of `CollectFields`, and its theorems at inputs.
use fastgql.Prelude.{
  ◌*◌, ◌^◌, ◌≡◌, ◌≢◌, refl, String, true, false, Option, none, some, List, [], ◌∷◌, ◌++◌,
  if◌then◌else◌, str_eq, has, length, All, inl, inr, Bool-cases,
}
use fastgql.Prelude.Outcome.{ok, panic, out_of_fuel}
use fastgql.Ast.{
  Definition, object, Argument, Directive, Field, Selection, Selections, field, inline_fragment,
  fragment_spread, nil, cons, Fragment,
}
use fastgql.Graphql.CollectFields.{
  boolean, other, Request, CollectedField, applies, should_include_node, collect_fields,
}
use fastgql.Graphql.CollectFields.Termination.{FindsListed, names, collect_fields-ne-out_of_fuel}
use fastgql.Graphql.CollectFields.Grouping.{Distinct}
use fastgql.Graphql.CollectFields.Reach.{Asks, direct, through}
use fastgql.Graphql.CollectFields.Sound.{Rooted, collect_fields-Rooted}
use fastgql.Graphql.CollectFields.Complete.{collect_fields-Covers}
use fastgql.Graphql.CollectFields.Covers.{Covers}
use fastgql.Graphql.CollectFields.Copies.{nest, copies, collect_fields-nest}

abbrev find_fragment : List Fragment → String → Option Fragment
find_fragment [] name = none
find_fragment (f ∷ fs) name = if str_eq f.name name then some f else find_fragment fs name

abbrev find_directive : List Directive → String → Option Directive
find_directive [] name = none
find_directive (d ∷ ds) name = if str_eq d.name name then some d else find_directive ds name

abbrev find_argument : List Argument → String → Option Argument
find_argument [] name = none
find_argument (a ∷ as_) name = if str_eq a.name name then some a else find_argument as_ name

abbrev user : Definition
user = record { name = "User"; kind = object }

abbrev plain : String → List Directive → Field
plain name ds = record {
  name = name;
  alias = name;
  directives = ds;
  object_definition = some user;
  type_name = some "String";
}

abbrev when : String → String → List Directive
when name raw = record { name = name; arguments = record { name = "if"; raw = raw } ∷ [] } ∷ []

abbrev leaf : String → Selections → Selections
leaf name = cons (field (plain name []) nil)

-- Two fragments that spread each other.
abbrev first : Fragment
first = record {
  name = "first";
  type_condition = "User";
  selection_set = leaf "id" (cons (fragment_spread "second" [] nil) nil);
}

abbrev second : Fragment
second = record {
  name = "second";
  type_condition = "User";
  selection_set =
      cons (field (plain "friend" []) (leaf "name" nil))
        (cons (fragment_spread "first" [] nil) nil);
}

abbrev sample : Request
sample = record {
  fragments = first ∷ second ∷ [];
  fragment_for_name = find_fragment;
  directive_for_name = find_directive;
  argument_for_name = find_argument;
  value = λ a.
      if str_eq a.raw "true"
      then boolean true
      else if str_eq a.raw "false"
      then boolean false
      else other;
}

-- { friend { id } ...first ... on Dog { id } secret @skip(if: true) }
abbrev query : Selections
query = cons (field (plain "friend" []) (leaf "id" nil)) (
    cons (fragment_spread "first" [] nil) (
      cons (inline_fragment "Dog" [] (leaf "tail" nil))
        (cons (field (plain "secret" (when "skip" "true")) nil) nil)))

abbrev leaf_name : String → List Selection
leaf_name name = field (plain name []) nil ∷ []

-- `friend` of the fragments joins the first `friend`; the selection there stands twice.
abbrev friends : List CollectedField
friends =
    record {
      field = plain "friend" [];
      selections = leaf_name "id" ++ leaf_name "name" ++ leaf_name "name";
    }
    ∷ record { field = plain "id" []; selections = [] }
    ∷ []

runs :
    (collect_fields sample query ("User" ∷ []) ≡ ok friends)
    × (collect_fields sample (cons (fragment_spread "third" [] nil) nil) []
        ≡ panic "missing fragment")
    × (collect_fields sample (cons (field (plain "x" (when "include" "yes")) nil) nil) []
        ≡ panic "argument 'if' is not a boolean")
unfolding collect_fields should_include_node
runs = (refl, refl, refl)

find_fragment-has :
    (fs : List Fragment) (name : String) (f : Fragment)
    → find_fragment fs name ≡ some f
    → has (names fs) name ≡ true
find_fragment-has [] name f e = cc
find_fragment-has (g ∷ fs) name f e = elim (Bool-cases (str_eq g.name name)) [
  | inl same ↦ rw same refl
  | inr other_name ↦ rw other_name (find_fragment-has fs name f (rw other_name at e))
]

sample-FindsListed : FindsListed sample
sample-FindsListed = find_fragment-has sample.fragments

collect_fields-ne-out_of_fuel_example : collect_fields sample query ("User" ∷ []) ≢ out_of_fuel
collect_fields-ne-out_of_fuel_example =
    collect_fields-ne-out_of_fuel sample sample-FindsListed query ("User" ∷ [])

collect_fields-Rooted_example :
    All (Rooted (λ f sub. Asks sample ("User" ∷ []) f sub query)) friends
collect_fields-Rooted_example = collect_fields-Rooted sample query ("User" ∷ []) friends runs.0

friend_asked : Asks sample ("User" ∷ []) (plain "friend" []) (leaf "name" nil) query
unfolding should_include_node applies
friend_asked =
    through "first" first (inl (refl, refl)) refl refl
      (through "second" second (inl (refl, refl)) refl refl (direct (inl (refl, refl, refl))))

collect_fields-Covers_example :
    Distinct friends × Covers friends (plain "friend" []) (leaf "name" nil)
collect_fields-Covers_example =
    collect_fields-Covers sample query ("User" ∷ []) friends runs.0 (plain "friend" [])
      (leaf "name" nil) friend_asked

included : should_include_node sample [] ≡ ok true
unfolding should_include_node
included = refl

no_condition : applies sample [] "User" ≡ true
unfolding applies
no_condition = refl

collect_fields-nest_example :
    (collect_fields sample (nest 3 "User" (plain "friend" []) (leaf "name" nil)) []
      ≡ ok (record { field = plain "friend" []; selections = copies 3 (leaf_name "name") } ∷ []))
    × (length (copies 3 (leaf_name "name")) ≡ 2 ^ 3 * length (leaf_name "name"))
collect_fields-nest_example =
    collect_fields-nest sample [] "User" (plain "friend" []) (leaf "name" nil) included no_condition
      3
