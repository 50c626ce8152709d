-- ===== src/Graphql/CollectFields/Copies.antt =====
-- graphql/executable_schema.go: a field that comes out of a fragment is created with its selections
-- and then has them appended once more.
use native.Mathlib.Nat.{pow-suc}
use fastgql.Prelude.{
  ℕ, zero, suc, ◌*◌, ◌^◌, ◌≡◌, refl, ◌∙◌, arith, String, List, [], ◌∷◌, ◌++◌, length, length-append,
}
use fastgql.Prelude.Outcome.{Outcome, ok}
use fastgql.Ast.{Field, Selection, Selections, field, inline_fragment, nil, cons, to_list}
use fastgql.Graphql.CollectFields.{Request, Walked, should_include_node, walk, collect_fields}
use fastgql.Graphql.CollectFields.Walks.{Included, Applies}

-- One field in n inline fragments, one in the other, that have no directives.
abbrev pub nest : ℕ → String → Field → Selections → Selections
nest zero condition f ss = cons (field f ss) nil
nest (suc n) condition f ss = cons (inline_fragment condition [] (nest n condition f ss)) nil

abbrev pub copies : ℕ → List Selection → List Selection
copies zero xs = xs
copies (suc n) xs = copies n xs ++ copies n xs

length-copies : (n : ℕ) (xs : List Selection) → length (copies n xs) ≡ 2 ^ n * length xs
length-copies zero xs = omega arith
length-copies (suc n) xs =
    length-append (copies n xs) (copies n xs)
    ∙ rw (length-copies n xs) (rw (pow-suc 2 n) (omega arith))

module _ (q : Request) (satisfies : List String) (condition : String) (f : Field)
    (included : Included q satisfies f.directives) (fits : Applies q satisfies condition)
    (rec : Selections → List String → Outcome Walked) where
  walk-nest :
      (n : ℕ) (ss : Selections) (v : List String)
      → walk q satisfies rec (nest n condition f ss) [] v
        ≡ ok (record { field = f; selections = copies n (to_list ss) } ∷ [], v)
  unfolding walk should_include_node
  walk-nest zero ss v = rw included refl
  walk-nest (suc n) ss v = rw (fits, walk-nest n ss v) refl

-- A field in n nested inline fragments is collected with 2 ^ n copies of its selection set, one
-- after the other, where the selection set itself was meant.
pub collect_fields-nest :
    (q : Request) (satisfies : List String) (condition : String) (f : Field) (ss : Selections)
    → Included q satisfies f.directives
    → Applies q satisfies condition
    → (n : ℕ)
    → (collect_fields q (nest n condition f ss) satisfies
        ≡ ok (record { field = f; selections = copies n (to_list ss) } ∷ []))
      × (length (copies n (to_list ss)) ≡ 2 ^ n * length (to_list ss))
unfolding collect_fields
collect_fields-nest q satisfies condition f ss included fits n = (
  rw (walk-nest q satisfies condition f included fits _ n ss []) refl,
  length-copies n (to_list ss),
)
