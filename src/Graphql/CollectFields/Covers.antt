-- ===== src/Graphql/CollectFields/Covers.antt =====
-- graphql/executable_schema.go: what a list of groups covers, and that joining groups loses nothing.
use fastgql.Prelude.{
  ◌≡◌, refl, sym, String, true, ◌⊎◌, inl, inr, List, [], ◌∷◌, ◌++◌, append_assoc, append-nil, has,
  Bool-cases, str_eq, str_eq_iff,
}
use fastgql.Ast.{Field, Selection, Selections, to_list}
use fastgql.Graphql.CollectFields.{
  CollectedField, get_or_create_and_append_field, append_child, append_children,
}
use fastgql.Graphql.CollectFields.Walks.{put}
use fastgql.Graphql.CollectFields.Grouping.{groups, groups_trans}

-- The first list stands in the second, in one piece.
abbrev pub Segment : List Selection → List Selection → Type 0
Segment xs ys = (before : List Selection) × (after : List Selection) × (ys ≡ before ++ xs ++ after)

-- The field has a group, which holds its selection set.
abbrev pub Covers : List CollectedField → Field → Selections → Type 0
Covers [] f sub = ⊥
Covers (cf ∷ c) f sub =
    ((groups cf f ≡ true) × Segment (to_list sub) cf.selections) ⊎ Covers c f sub

pub Segment-self : (xs : List Selection) → Segment xs xs
Segment-self xs = ([], [], sym (append-nil xs))

Segment-left : (xs ys zs : List Selection) → Segment xs zs → Segment xs (ys ++ zs)
Segment-left xs ys zs (before, after, e) = (ys ++ before, after, rw e (simp append_assoc))

Segment-right : (xs ys zs : List Selection) → Segment xs ys → Segment xs (ys ++ zs)
Segment-right xs ys zs (before, after, e) = (before, after ++ zs, rw e (simp append_assoc))

pub put-Covers_old :
    (c : List CollectedField) (creator : CollectedField) (more : List Selection) (f : Field)
    (sub : Selections)
    → Covers c f sub
    → Covers (put c creator more) f sub
unfolding get_or_create_and_append_field
put-Covers_old [] creator more f sub h = absurd h
put-Covers_old (d ∷ c) creator more f sub h = elim (Bool-cases (groups d creator.field)) [
  | inl same ↦ rw same (elim h [
    | inl (g, s) ↦ inl (g, Segment-right (to_list sub) d.selections more s)
    | inr r ↦ inr r
  ])
  | inr different ↦
      rw different (elim h [ inl g ↦ inl g | inr r ↦ inr (put-Covers_old c creator more f sub r) ])
]

pub put-Covers_new :
    (c : List CollectedField) (creator : CollectedField) (more : List Selection) (f : Field)
    (sub : Selections)
    → groups creator f ≡ true
    → Segment (to_list sub) more
    → Covers (put c creator more) f sub
unfolding get_or_create_and_append_field
put-Covers_new [] creator more f sub g s =
    inl (g, Segment-left (to_list sub) creator.selections more s)
put-Covers_new (d ∷ c) creator more f sub g s = elim (Bool-cases (groups d creator.field)) [
  | inl same ↦
      rw same
        (inl (groups_trans d creator f same g, Segment-left (to_list sub) d.selections more s))
  | inr different ↦ rw different (inr (put-Covers_new c creator more f sub g s))
]

pub append_children-Covers_old :
    (children c : List CollectedField) (f : Field) (sub : Selections)
    → Covers c f sub
    → Covers (append_children c children) f sub
unfolding append_children append_child
append_children-Covers_old [] c f sub h = h
append_children-Covers_old (child ∷ children) c f sub h =
    append_children-Covers_old children (append_child c child) f sub
      (put-Covers_old c child child.selections f sub h)

pub append_children-Covers_new :
    (children c : List CollectedField) (f : Field) (sub : Selections)
    → Covers children f sub
    → Covers (append_children c children) f sub
unfolding append_children append_child
append_children-Covers_new [] c f sub h = absurd h
append_children-Covers_new (child ∷ children) c f sub h = elim h [
  | inl (g, s) ↦
      append_children-Covers_old children (append_child c child) f sub
        (put-Covers_new c child child.selections f sub g s)
  | inr r ↦ append_children-Covers_new children (append_child c child) f sub r
]

pub has_self : (name : String) (v : List String) → has (name ∷ v) name ≡ true
has_self name v = rw ((str_eq_iff name name).1 refl) refl

pub has-other :
    (n name : String) (v : List String) → has (n ∷ v) name ≡ true → (n ≡ name) ⊎ (has v name ≡ true)
has-other n name v h = elim (Bool-cases (str_eq n name)) [
  | inl same ↦ inl ((str_eq_iff n name).0 same)
  | inr other ↦ inr (rw other at h)
]

pub has-older : (n name : String) (v : List String) → has v name ≡ true → has (n ∷ v) name ≡ true
has-older n name v h = elim (Bool-cases (str_eq n name)) [
  | inl same ↦ rw same refl
  | inr other ↦ rw other h
]
