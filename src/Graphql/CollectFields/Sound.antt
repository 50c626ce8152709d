-- ===== src/Graphql/CollectFields/Sound.antt =====
-- graphql/executable_schema.go: `CollectFields` collects nothing that the selection set does not ask
-- for.
use mathlib.Core.List.{Memᴰ}
use fastgql.Prelude.{◌≡◌, refl, String, true, inl, inr, List, [], ◌∷◌, All, All-append, Bool-cases}
use fastgql.Prelude.Outcome.{ok}
use fastgql.Ast.{
  Field, Selection, Selections, field, inline_fragment, fragment_spread, cons, to_list,
}
use fastgql.Graphql.CollectFields.{
  Request, CollectedField, get_or_create_and_append_field, append_child, append_children,
  collect_fields,
}
use fastgql.Graphql.CollectFields.Walks.{
  put, Walks, done, omitted, kept, inside, entered, passed, collect_fields-Walks,
}
use fastgql.Graphql.CollectFields.Grouping.{groups, groups_self, groups_trans}
use fastgql.Graphql.CollectFields.Reach.{Asks, direct, through, Asks-mono, Asks-rest}

Memᴰ-all : {A : Type 0} (P : A → Type 0) (xs : List A) → ((x : A) → Memᴰ x xs → P x) → All P xs
Memᴰ-all P [] h = tt
Memᴰ-all P (x ∷ xs) h = (h x (Memᴰ.head refl), Memᴰ-all P xs λ y m. h y (Memᴰ.tail m))

All-map :
    {A : Type 0} (P Q : A → Type 0) (xs : List A) → ((x : A) → P x → Q x) → All P xs → All Q xs
All-map P Q [] f h = tt
All-map P Q (x ∷ xs) f (hx, hs) = (f x hx, All-map P Q xs f hs)

-- `Asked` says which fields, with which selection sets, may be collected.
module _ (Asked : Field → Selections → Type 0) where
  -- A selection comes from a field of the group that is asked for.
  abbrev pub Origin : CollectedField → Selection → Type 0
  Origin cf s =
      (f : Field) × (sub : Selections) × Asked f sub × (groups cf f ≡ true) × Memᴰ s (to_list sub)

  abbrev pub Rooted : CollectedField → Type 0
  Rooted cf = ((sub : Selections) × Asked cf.field sub) × All (Origin cf) cf.selections

  Origin-join :
      (cf creator : CollectedField)
      → groups cf creator.field ≡ true
      → (s : Selection) → Origin creator s
      → Origin cf s
  Origin-join cf creator same s (f, sub, a, g, m) = (f, sub, a, groups_trans cf creator f same g, m)

  put-Rooted :
      (c : List CollectedField) (creator : CollectedField) (more : List Selection)
      → Rooted creator
      → All (Origin creator) more
      → All Rooted c
      → All Rooted (put c creator more)
  unfolding get_or_create_and_append_field
  put-Rooted [] creator more (root, old) new h =
      ((root, All-append (Origin creator) creator.selections more old new), tt)
  put-Rooted (d ∷ c) creator more r new ((root, old), hc) =
      elim (Bool-cases (groups d creator.field)) [
        | inl same ↦ rw same (
          (
            root,
            All-append (Origin d) d.selections more old
                (All-map (Origin creator) (Origin d) more (Origin-join d creator same) new),
          ),
          hc,
        )
        | inr different ↦ rw different ((root, old), put-Rooted c creator more r new hc)
      ]

  append_children-Rooted :
      (children c : List CollectedField)
      → All Rooted children
      → All Rooted c
      → All Rooted (append_children c children)
  unfolding append_children append_child
  append_children-Rooted [] c hs h = h
  append_children-Rooted (child ∷ children) c (hchild, hs) h =
      append_children-Rooted children (append_child c child) hs
        (put-Rooted c child child.selections hchild hchild.1 h)

module _ (q : Request) (satisfies : List String) where
  Walks-Rooted :
      {ss : Selections} {c c' : List CollectedField} {v v' : List String}
      (Asked : Field → Selections → Type 0)
      → Walks q satisfies ss c v c' v'
      → ((f : Field) (sub : Selections) → Asks q satisfies f sub ss → Asked f sub)
      → All (Rooted Asked) c
      → All (Rooted Asked) c'
  Walks-Rooted A done asks h = h
  Walks-Rooted A (omitted {rest = rest} s o w) asks h =
      Walks-Rooted A w (λ f sub a. asks f sub (Asks-rest q satisfies s rest a)) h
  Walks-Rooted A (kept {rest = rest} f ss i w) asks h =
      let creator : CollectedField = record { field = f; selections = [] } in
      let asked = asks f ss (direct (inl (i, refl, refl))) in
      Walks-Rooted A w (λ g sub a. asks g sub (Asks-rest q satisfies (field f ss) rest a))
        (put-Rooted A _ creator (to_list ss) ((ss, asked), tt)
          (Memᴰ-all (Origin A creator) (to_list ss) λ s m. (f, ss, asked, groups_self creator, m))
          h)
  Walks-Rooted A (inside {rest = rest} condition ds ss i a inner w) asks h =
      Walks-Rooted A w
        (λ g sub r. asks g sub (Asks-rest q satisfies (inline_fragment condition ds ss) rest r))
        (append_children-Rooted A _ _
          (Walks-Rooted A inner
            (λ g sub r. asks g sub (
              Asks-mono q satisfies ss (cons (inline_fragment condition ds ss) rest)
                (λ d. inl (i, a, d)) (λ n d. inl (i, a, d)) r))
            tt)
          h)
  Walks-Rooted A (entered {rest = rest} name ds ss g i n e a inner w) asks h =
      Walks-Rooted A w
        (λ f sub r. asks f sub (Asks-rest q satisfies (fragment_spread name ds ss) rest r))
        (append_children-Rooted A _ _
          (Walks-Rooted A inner (λ f sub r. asks f sub (through name g (inl (i, refl)) e a r)) tt)
          h)
  Walks-Rooted A (passed {rest = rest} name ds ss g i n e a w) asks h =
      Walks-Rooted A w
        (λ f sub r. asks f sub (Asks-rest q satisfies (fragment_spread name ds ss) rest r)) h

-- Whatever `CollectFields` returns is asked for: each collected field can be reached in the
-- selection set through included nodes whose type condition applies, and each of its selections
-- stands in the selection set of such a field of the same name, alias and object definition.
pub collect_fields-Rooted :
    (q : Request) (ss : Selections) (satisfies : List String) (fs : List CollectedField)
    → collect_fields q ss satisfies ≡ ok fs
    → All (Rooted (λ f sub. Asks q satisfies f sub ss)) fs
collect_fields-Rooted q ss satisfies fs e =
    let (visited, w) = collect_fields-Walks q ss satisfies fs e in
    Walks-Rooted q satisfies (λ f sub. Asks q satisfies f sub ss) w (λ f sub a. a) tt
