-- ===== src/Graphql/CollectFields/Reach.antt =====
-- What a selection set asks for, said without the algorithm of graphql/executable_schema.go: a field
-- that can be reached through included inline fragments and spreads whose type condition applies.
use fastgql.Prelude.{◌≡◌, String, ◌⊎◌, inr, some, List}
use fastgql.Ast.{
  Field, Selection, Selections, field, inline_fragment, fragment_spread, nil, cons, Fragment,
}
use fastgql.Graphql.CollectFields.{Request}
use fastgql.Graphql.CollectFields.Walks.{Included, Applies}

module _ (q : Request) (satisfies : List String) where
  -- A field with its selection set, through inline fragments only.
  abbrev pub Direct : Selections → Field → Selections → Type 0
  Direct nil f sub = ⊥
  Direct (cons (field g ss) rest) f sub =
      (Included q satisfies g.directives × (g ≡ f) × (ss ≡ sub)) ⊎ Direct rest f sub
  Direct (cons (inline_fragment condition ds ss) rest) f sub =
      (Included q satisfies ds × Applies q satisfies condition × Direct ss f sub)
      ⊎ Direct rest f sub
  Direct (cons (fragment_spread name ds ss) rest) f sub = Direct rest f sub

  -- The name of a fragment that is spread, through inline fragments only.
  abbrev pub Spreads : Selections → String → Type 0
  Spreads nil name = ⊥
  Spreads (cons (field g ss) rest) name = Spreads rest name
  Spreads (cons (inline_fragment condition ds ss) rest) name =
      (Included q satisfies ds × Applies q satisfies condition × Spreads ss name)
      ⊎ Spreads rest name
  Spreads (cons (fragment_spread n ds ss) rest) name =
      (Included q satisfies ds × (n ≡ name)) ⊎ Spreads rest name

  pub data Asks (f : Field) (sub : Selections) : Selections → Type 0 where
    direct : {ss : Selections} → Direct ss f sub → Asks f sub ss
    through :
        {ss : Selections} (name : String) (g : Fragment)
        → Spreads ss name
        → q.fragment_for_name q.fragments name ≡ some g
        → Applies q satisfies g.type_condition
        → Asks f sub g.selection_set
        → Asks f sub ss

  -- What a part asks for, the whole asks for.
  pub Asks-mono :
      {f : Field} {sub : Selections} (ss ss' : Selections)
      → (Direct ss f sub → Direct ss' f sub)
      → ((name : String) → Spreads ss name → Spreads ss' name)
      → Asks f sub ss
      → Asks f sub ss'
  Asks-mono ss ss' d s (direct h) = direct (d h)
  Asks-mono ss ss' d s (through name g h e a r) = through name g (s name h) e a r

  pub Asks-rest :
      {f : Field} {sub : Selections} (s : Selection) (rest : Selections)
      → Asks f sub rest
      → Asks f sub (cons s rest)
  Asks-rest (field g ss) rest = Asks-mono rest (cons (field g ss) rest) (λ h. inr h) (λ n h. h)
  Asks-rest (inline_fragment condition ds ss) rest =
      Asks-mono rest (cons (inline_fragment condition ds ss) rest) (λ h. inr h) (λ n h. inr h)
  Asks-rest (fragment_spread name ds ss) rest =
      Asks-mono rest (cons (fragment_spread name ds ss) rest) (λ h. h) (λ n h. inr h)
