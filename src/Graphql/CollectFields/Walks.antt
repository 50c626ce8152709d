-- ===== src/Graphql/CollectFields/Walks.antt =====
-- graphql/executable_schema.go: the runs of `collectFields` that return, as a relation with a rule
-- for each branch of the loop. The proofs about results are by induction on it, with no fuel.
use mathlib.Core.Path.{subst}
use fastgql.Prelude.{
  ℕ, zero, suc, ◌≡◌, refl, String, Bool, true, false, ◌&&◌, ◌⊎◌, inl, inr, Option, none, some, List,
  [], ◌∷◌, if◌then◌else◌, has, Bool-cases, length,
}
use fastgql.Prelude.Outcome.{
  Outcome, ok, ◌>>=◌, Ensures, Ensures-bind, Ensures-eq, Ensures-map, Ensures-bind_twice, >>=-eq-ok,
  ok-injective,
}
use fastgql.Ast.{
  Directive, Field, Selection, Selections, field, inline_fragment, fragment_spread, nil, cons,
  Fragment, to_list,
}
use fastgql.Graphql.CollectFields.{
  Request, CollectedField, Walked, get_or_create_and_append_field, append_children,
  should_include_node, applies, join, enter_fragment, spread_fields, walk, collect, collect_fields,
}

-- A field put into its group.
abbrev pub put : List CollectedField → CollectedField → List Selection → List CollectedField
put c creator more =
    get_or_create_and_append_field c creator.field.name creator.field.alias
      creator.field.object_definition creator more

module _ (q : Request) (satisfies : List String) where
  abbrev pub Included : List Directive → Type 0
  Included ds = should_include_node q ds ≡ ok true

  abbrev pub Excluded : List Directive → Type 0
  Excluded ds = should_include_node q ds ≡ ok false

  abbrev pub Applies : String → Type 0
  Applies condition = applies q satisfies condition ≡ true

  -- Why the loop goes on to the next selection at once.
  abbrev pub Omitted : Selection → List String → Type 0
  Omitted (field f ss) v = Excluded f.directives
  Omitted (inline_fragment condition ds ss) v =
      Excluded ds ⊎ (applies q satisfies condition ≡ false)
  Omitted (fragment_spread name ds ss) v = Excluded ds ⊎ (has v name ≡ true)

  pub data Walks
      : Selections
        → List CollectedField
        → List String
        → List CollectedField
        → List String
        → Type 0 where
    done : {c : List CollectedField} {v : List String} → Walks nil c v c v
    omitted :
        {rest : Selections} {c c' : List CollectedField} {v v' : List String} (s : Selection)
        → Omitted s v
        → Walks rest c v c' v'
        → Walks (cons s rest) c v c' v'
    kept :
        {rest : Selections} {c c' : List CollectedField} {v v' : List String} (f : Field)
        (ss : Selections)
        → Included f.directives
        → Walks rest (put c (record { field = f; selections = [] }) (to_list ss)) v c' v'
        → Walks (cons (field f ss) rest) c v c' v'
    inside :
        {rest : Selections} {c c₁ c' : List CollectedField} {v v₁ v' : List String}
        (condition : String) (ds : List Directive) (ss : Selections)
        → Included ds
        → Applies condition
        → Walks ss [] v c₁ v₁
        → Walks rest (append_children c c₁) v₁ c' v'
        → Walks (cons (inline_fragment condition ds ss) rest) c v c' v'
    entered :
        {rest : Selections} {c c₁ c' : List CollectedField} {v v₁ v' : List String} (name : String)
        (ds : List Directive) (ss : Selections) (f : Fragment)
        → Included ds
        → has v name ≡ false
        → q.fragment_for_name q.fragments name ≡ some f
        → Applies f.type_condition
        → Walks f.selection_set [] (name ∷ v) c₁ v₁
        → Walks rest (append_children c c₁) v₁ c' v'
        → Walks (cons (fragment_spread name ds ss) rest) c v c' v'
    passed :
        {rest : Selections} {c c' : List CollectedField} {v v' : List String} (name : String)
        (ds : List Directive) (ss : Selections) (f : Fragment)
        → Included ds
        → has v name ≡ false
        → q.fragment_for_name q.fragments name ≡ some f
        → applies q satisfies f.type_condition ≡ false
        → Walks rest c (name ∷ v) c' v'
        → Walks (cons (fragment_spread name ds ss) rest) c v c' v'

  abbrev WalksTo : Selections → List CollectedField → List String → Walked → Type 0
  WalksTo ss c v w = Walks ss c v w.0 w.1

  module _ (rec : Selections → List String → Outcome Walked)
      (rec_walks : (ss : Selections) (v : List String) → Ensures (WalksTo ss [] v) (rec ss v)) where
    -- What the loop does with a spread, and then with the rest.
    enter-Walks :
        (name : String) (ds : List Directive) (ss rest : Selections) (c : List CollectedField)
        (v : List String) (found : Option Fragment)
        → q.fragment_for_name q.fragments name ≡ found
        → Included ds
        → has v name ≡ false
        → ((c' : List CollectedField) (v' : List String)
            → Ensures (WalksTo rest c' v') (walk q satisfies rec rest c' v'))
        → Ensures (WalksTo (cons (fragment_spread name ds ss) rest) c v) (
            enter_fragment q satisfies rec name found c v >>= λ w.
            walk q satisfies rec rest w.0 w.1)
    unfolding enter_fragment join
    enter-Walks name ds ss rest c v none e i new next = tt
    enter-Walks name ds ss rest c v (some f) e i new next =
        elim (Bool-cases (applies q satisfies f.type_condition)) [
          | inl fit ↦ rw fit (
              Ensures-bind_twice _ (rec f.selection_set (name ∷ v)) _ _ λ w r.
                Ensures-map _ _ (walk q satisfies rec rest (append_children c w.0) w.1)
                  (λ w' h.
                    entered name ds ss f i new e fit
                      (Ensures-eq _ _ w r (rec_walks f.selection_set (name ∷ v))) h)
                  (next (append_children c w.0) w.1))
          | inr other ↦ rw other (
              Ensures-map _ _ (walk q satisfies rec rest c (name ∷ v))
                (λ w' h. passed name ds ss f i new e other h) (next c (name ∷ v)))
        ]

    abbrev Next : Selections → Type 0
    Next rest =
        (c : List CollectedField) (v : List String)
        → Ensures (WalksTo rest c v) (walk q satisfies rec rest c v)

    omit :
        (s : Selection) (rest : Selections) (c : List CollectedField) (v : List String)
        → Next rest
        → Omitted s v
        → Ensures (WalksTo (cons s rest) c v) (walk q satisfies rec rest c v)
    omit s rest c v next o =
        Ensures-map _ _ (walk q satisfies rec rest c v) (λ w h. omitted s o h) (next c v)

    spread-Walks :
        (name : String) (ds : List Directive) (ss rest : Selections) (c : List CollectedField)
        (v : List String)
        → Next rest
        → (b : Bool) → should_include_node q ds ≡ ok b
        → Ensures (WalksTo (cons (fragment_spread name ds ss) rest) c v) (
            (if b then spread_fields q satisfies rec name c v else ok (c, v)) >>= λ w.
            walk q satisfies rec rest w.0 w.1)
    unfolding spread_fields
    spread-Walks name ds ss rest c v next true e = elim (Bool-cases (has v name)) [
      | inl seen ↦ rw seen (omit (fragment_spread name ds ss) rest c v next (inr seen))
      | inr new ↦
          rw new
            (enter-Walks name ds ss rest c v (q.fragment_for_name q.fragments name) refl e new next)
    ]
    spread-Walks name ds ss rest c v next false e =
        omit (fragment_spread name ds ss) rest c v next (inl e)

    inline-Walks :
        (condition : String) (ds : List Directive) (ss rest : Selections) (c : List CollectedField)
        (v : List String)
        → Next ss
        → Next rest
        → (b : Bool) → should_include_node q ds ≡ ok b
        → Ensures (WalksTo (cons (inline_fragment condition ds ss) rest) c v) (
            (if b && applies q satisfies condition
              then (walk q satisfies rec ss [] v >>= λ w. ok (join q satisfies c w))
              else ok (c, v))
            >>= λ w. walk q satisfies rec rest w.0 w.1)
    unfolding join
    inline-Walks condition ds ss rest c v below next true e =
        elim (Bool-cases (applies q satisfies condition)) [
          | inl fit ↦ rw fit (
              Ensures-bind_twice _ (walk q satisfies rec ss [] v) _ _ λ w r.
                Ensures-map _ _ (walk q satisfies rec rest (append_children c w.0) w.1)
                  (λ w' h. inside condition ds ss e fit (Ensures-eq _ _ w r (below [] v)) h)
                  (next (append_children c w.0) w.1))
          | inr other ↦ rw other (omit (inline_fragment condition ds ss) rest c v next (inr other))
        ]
    inline-Walks condition ds ss rest c v below next false e =
        omit (inline_fragment condition ds ss) rest c v next (inl e)

    field-Walks :
        (f : Field) (ss rest : Selections) (c : List CollectedField) (v : List String)
        → Next rest
        → (b : Bool) → should_include_node q f.directives ≡ ok b
        → Ensures (WalksTo (cons (field f ss) rest) c v) (
            walk q satisfies rec rest
              (if b then put c (record { field = f; selections = [] }) (to_list ss) else c)
              v)
    field-Walks f ss rest c v next true e =
        let c' = put c (record { field = f; selections = [] }) (to_list ss) in
        Ensures-map _ _ (walk q satisfies rec rest c' v) (λ w h. kept f ss e h) (next c' v)
    field-Walks f ss rest c v next false e = omit (field f ss) rest c v next e

    walk-Walks :
        (ss : Selections) (c : List CollectedField) (v : List String)
        → Ensures (WalksTo ss c v) (walk q satisfies rec ss c v)
    unfolding walk
    walk-Walks nil c v = done
    walk-Walks (cons (field f ss) rest) c v =
        Ensures-bind _ (should_include_node q f.directives) _
          (field-Walks f ss rest c v (walk-Walks rest))
    walk-Walks (cons (inline_fragment condition ds ss) rest) c v =
        Ensures-bind _ (should_include_node q ds) _
          (inline-Walks condition ds ss rest c v (walk-Walks ss) (walk-Walks rest))
    walk-Walks (cons (fragment_spread name ds ss) rest) c v =
        Ensures-bind _ (should_include_node q ds) _
          (spread-Walks name ds ss rest c v (walk-Walks rest))

  collect-Walks :
      (fuel : ℕ) (ss : Selections) (v : List String)
      → Ensures (WalksTo ss [] v) (collect q satisfies fuel ss v)
  unfolding collect
  collect-Walks zero ss v = tt
  collect-Walks (suc fuel) ss v = walk-Walks (collect q satisfies fuel) (collect-Walks fuel) ss [] v

-- A call of `CollectFields` that returns is a walk from no group and no visited fragment.
pub collect_fields-Walks :
    (q : Request) (ss : Selections) (satisfies : List String) (fs : List CollectedField)
    → collect_fields q ss satisfies ≡ ok fs
    → (visited : List String) × Walks q satisfies ss [] [] fs visited
unfolding collect_fields
collect_fields-Walks q ss satisfies fs e =
    let (w, r, same) = >>=-eq-ok (collect q satisfies (suc (length q.fragments)) ss []) _ e in
    (
      w.1,
      subst (λ g. Walks q satisfies ss [] [] g w.1) (ok-injective same)
          (Ensures-eq _ _ w r (collect-Walks q satisfies (suc (length q.fragments)) ss [])),
    )
