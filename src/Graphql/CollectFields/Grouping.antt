-- ===== src/Graphql/CollectFields/Grouping.antt =====
-- graphql/executable_schema.go: how `getOrCreateAndAppendField` groups fields.
use text.Mathlib.TextPositions.{eq_refl}
use fastgql.Prelude.{
  ◌≡◌, refl, String, Bool, true, false, ◌&&◌, Option, none, some, List, [], ◌∷◌, str_eq, str_eq_iff,
  ◌∙◌, All, Bool-cases, inl, inr,
}
use fastgql.Prelude.Outcome.{ok}
use fastgql.Ast.{Definition, Field, Selection, Selections, to_list}
use fastgql.Graphql.CollectFields.{
  Request, CollectedField, is_same, same_definition, get_or_create_and_append_field, append_child,
  append_children, collect_fields,
}
use fastgql.Graphql.CollectFields.Walks.{
  put, Walks, done, omitted, kept, inside, entered, passed, collect_fields-Walks,
}

-- Whether a field belongs to a group.
abbrev pub groups : CollectedField → Field → Bool
groups cf f = is_same cf f.name f.alias f.object_definition

-- No group's field belongs to an earlier group.
abbrev pub Distinct : List CollectedField → Type 0
Distinct [] = Unit
Distinct (c ∷ cs) = All (λ d. groups c d.field ≡ false) cs × Distinct cs

str_eq_trans : (a b c : String) → str_eq a b ≡ true → str_eq b c ≡ true → str_eq a c ≡ true
str_eq_trans a b c h k = (str_eq_iff a c).1 ((str_eq_iff a b).0 h ∙ (str_eq_iff b c).0 k)

same_definition_self : (d : Option Definition) → same_definition d d ≡ true
unfolding same_definition
same_definition_self none = refl
same_definition_self (some d) = eq_refl d.name

same_definition_trans :
    (a b c : Option Definition)
    → same_definition a b ≡ true
    → same_definition b c ≡ true
    → same_definition a c ≡ true
unfolding same_definition
same_definition_trans none none none h k = refl
same_definition_trans (some a) (some b) (some c) h k = str_eq_trans a.name b.name c.name h k
same_definition_trans none none (some c) h k = k
same_definition_trans none (some b) c h k = cc
same_definition_trans (some a) none c h k = cc
same_definition_trans (some a) (some b) none h k = k

and_true : (a b : Bool) → (a && b) ≡ true → (a ≡ true) × (b ≡ true)
and_true true b h = (refl, h)
and_true false b h = cc

and_intro : {a b : Bool} → a ≡ true → b ≡ true → (a && b) ≡ true
and_intro h k = rw h k

pub groups_self : (cf : CollectedField) → groups cf cf.field ≡ true
unfolding is_same
groups_self cf =
    and_intro (and_intro (eq_refl cf.field.name) (eq_refl cf.field.alias))
      (same_definition_self cf.field.object_definition)

pub groups_trans :
    (a b : CollectedField) (f : Field)
    → groups a b.field ≡ true
    → groups b f ≡ true
    → groups a f ≡ true
unfolding is_same
groups_trans a b f h k =
    let (hna, hd) = and_true _ _ h in
    let (hn, ha) = and_true _ _ hna in
    let (kna, kd) = and_true _ _ k in
    let (kn, ka) = and_true _ _ kna in
    and_intro
      (and_intro (str_eq_trans a.field.name b.field.name f.name hn kn)
        (str_eq_trans a.field.alias b.field.alias f.alias ha ka))
      (same_definition_trans a.field.object_definition b.field.object_definition f.object_definition
        hd kd)

others-put :
    (x : CollectedField) (c : List CollectedField) (creator : CollectedField)
    (more : List Selection)
    → groups x creator.field ≡ false
    → All (λ d. groups x d.field ≡ false) c
    → All (λ d. groups x d.field ≡ false) (put c creator more)
unfolding get_or_create_and_append_field
others-put x [] creator more new h = (new, tt)
others-put x (d ∷ c) creator more new (hd, hc) = elim (Bool-cases (groups d creator.field)) [
  | inl same ↦ rw same (hd, hc)
  | inr different ↦ rw different (hd, others-put x c creator more new hc)
]

put-Distinct :
    (c : List CollectedField) (creator : CollectedField) (more : List Selection)
    → Distinct c
    → Distinct (put c creator more)
unfolding get_or_create_and_append_field
put-Distinct [] creator more h = (tt, tt)
put-Distinct (d ∷ c) creator more (hd, hc) = elim (Bool-cases (groups d creator.field)) [
  | inl same ↦ rw same (hd, hc)
  | inr different ↦
      rw different (others-put d c creator more different hd, put-Distinct c creator more hc)
]

append_children-Distinct :
    (c children : List CollectedField) → Distinct c → Distinct (append_children c children)
unfolding append_children append_child
append_children-Distinct c [] h = h
append_children-Distinct c (child ∷ children) h =
    append_children-Distinct (append_child c child) children
      (put-Distinct c child child.selections h)

Walks-Distinct :
    (q : Request) (satisfies : List String) {ss : Selections} {c c' : List CollectedField}
    {v v' : List String}
    → Walks q satisfies ss c v c' v'
    → Distinct c
    → Distinct c'
Walks-Distinct q sat done h = h
Walks-Distinct q sat (omitted s o w) h = Walks-Distinct q sat w h
Walks-Distinct q sat (kept f ss i w) h =
    Walks-Distinct q sat w (put-Distinct _ (record { field = f; selections = [] }) (to_list ss) h)
Walks-Distinct q sat (inside condition ds ss i a inner w) h =
    Walks-Distinct q sat w (append_children-Distinct _ _ h)
Walks-Distinct q sat (entered name ds ss f i n e a inner w) h =
    Walks-Distinct q sat w (append_children-Distinct _ _ h)
Walks-Distinct q sat (passed name ds ss f i n e a w) h = Walks-Distinct q sat w h

pub collect_fields-Distinct :
    (q : Request) (ss : Selections) (satisfies : List String) (fs : List CollectedField)
    → collect_fields q ss satisfies ≡ ok fs
    → Distinct fs
collect_fields-Distinct q ss satisfies fs e =
    let (visited, w) = collect_fields-Walks q ss satisfies fs e in Walks-Distinct q satisfies w tt
