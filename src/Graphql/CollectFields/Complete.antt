-- ===== src/Graphql/CollectFields/Complete.antt =====
-- graphql/executable_schema.go: `CollectFields` misses nothing that the selection set asks for,
-- although it enters a fragment only once.
use mathlib.Core.Path.{subst}
use fastgql.Graphql.CollectFields.Grouping.{Distinct, collect_fields-Distinct}
use fastgql.Prelude.{
  ◌≡◌, refl, ap, ◌∙◌, String, true, false, ◌⊎◌, inl, inr, some, List, [], ◌∷◌, has, Bool-cases,
}
use fastgql.Prelude.Outcome.{ok}
use fastgql.Ast.{
  Field, Selection, Selections, field, inline_fragment, fragment_spread, cons, to_list, Fragment,
}
use fastgql.Graphql.CollectFields.{Request, CollectedField, append_children, collect_fields}
use fastgql.Graphql.CollectFields.Walks.{
  put, Applies, Omitted, Walks, done, omitted, kept, inside, entered, passed, collect_fields-Walks,
}
use fastgql.Graphql.CollectFields.Grouping.{groups_self}
use fastgql.Graphql.CollectFields.Reach.{Direct, Spreads, Asks, direct, through}
use fastgql.Graphql.CollectFields.Covers.{
  Covers, Segment-self, put-Covers_old, put-Covers_new, append_children-Covers_old,
  append_children-Covers_new, has_self, has-other, has-older,
}

module _ (q : Request) (satisfies : List String) where
  -- What a walk leaves behind. `D` are the fields and `S` the spreads that it was to go through;
  -- a fragment that it has visited is covered, and the fragments which that one spreads are visited.
  record Post (D : Field → Selections → Type 0) (S : String → Type 0) (c : List CollectedField)
      (v : List String) (c' : List CollectedField) (v' : List String) : Type 0 where
    keeps : (f : Field) (sub : Selections) → Covers c f sub → Covers c' f sub
    covers : (f : Field) (sub : Selections) → D f sub → Covers c' f sub
    spreads : (name : String) → S name → has v' name ≡ true
    remembers : (name : String) → has v name ≡ true → has v' name ≡ true
    closed :
        (name : String) (g : Fragment)
        → has v' name ≡ true
        → has v name ≡ false
        → q.fragment_for_name q.fragments name ≡ some g
        → Applies q satisfies g.type_condition
        → ((f : Field) (sub : Selections)
            → Direct q satisfies g.selection_set f sub
            → Covers c' f sub)
          × ((m : String) → Spreads q satisfies g.selection_set m → has v' m ≡ true)

  abbrev PostOf :
      Selections → List CollectedField → List String → List CollectedField → List String → Type 0
  PostOf ss = Post (Direct q satisfies ss) (Spreads q satisfies ss)

  -- A walk with its groups joined to the earlier ones, and then another walk.
  module _ {D D' : Field → Selections → Type 0} {S S' : String → Type 0}
      (c c₁ : List CollectedField) {c' : List CollectedField} {v v₁ v' : List String}
      (first : Post D S [] v c₁ v₁) (second : Post D' S' (append_children c c₁) v₁ c' v') where
    carry : (f : Field) (sub : Selections) → Covers c₁ f sub → Covers c' f sub
    carry f sub h = Post.keeps second f sub (append_children-Covers_new c₁ c f sub h)

    join-closed :
        (name : String) (g : Fragment)
        → has v' name ≡ true
        → has v name ≡ false
        → q.fragment_for_name q.fragments name ≡ some g
        → Applies q satisfies g.type_condition
        → ((f : Field) (sub : Selections)
            → Direct q satisfies g.selection_set f sub
            → Covers c' f sub)
          × ((m : String) → Spreads q satisfies g.selection_set m → has v' m ≡ true)
    join-closed name g h new e a = elim (Bool-cases (has v₁ name)) [
      | inl old ↦
          let (fields, names) = Post.closed first name g old new e a in
          ((λ f sub d. carry f sub (fields f sub d)), (λ m s. Post.remembers second m (names m s)))
      | inr later ↦ Post.closed second name g h later e a
    ]

    Post-join : Post (λ f sub. D f sub ⊎ D' f sub) (λ m. S m ⊎ S' m) c v c' v'
    Post-join = record {
      keeps = λ f sub h. Post.keeps second f sub (append_children-Covers_old c₁ c f sub h);
      covers = λ f sub. elim [
        | inl d ↦ carry f sub (Post.covers first f sub d)
        | inr d ↦ Post.covers second f sub d
      ];
      spreads = λ m. elim [
        | inl s ↦ Post.remembers second m (Post.spreads first m s)
        | inr s ↦ Post.spreads second m s
      ];
      remembers = λ m h. Post.remembers second m (Post.remembers first m h);
      closed = join-closed;
    }

  -- A walk that was to go through less.
  Post-weaken :
      {D D' : Field → Selections → Type 0} {S S' : String → Type 0} {c c' : List CollectedField}
      {v v' : List String}
      → ((f : Field) (sub : Selections) → D' f sub → D f sub)
      → ((m : String) → S' m → S m)
      → Post D S c v c' v'
      → Post D' S' c v c' v'
  Post-weaken d s p = record {
    keeps = p.keeps;
    covers = λ f sub h. p.covers f sub (d f sub h);
    spreads = λ m h. p.spreads m (s m h);
    remembers = p.remembers;
    closed = p.closed;
  }

  -- A walk from where a fragment counts as visited, for a fragment that is dealt with.
  module _ {D : Field → Selections → Type 0} {S : String → Type 0} {c c' : List CollectedField}
      {v v' : List String} (name : String) (p : Post D S c (name ∷ v) c' v')
      (own : (g : Fragment)
        → q.fragment_for_name q.fragments name ≡ some g
        → Applies q satisfies g.type_condition
        → ((f : Field) (sub : Selections)
            → Direct q satisfies g.selection_set f sub
            → Covers c' f sub)
          × ((m : String) → Spreads q satisfies g.selection_set m → has v' m ≡ true)) where
    visit-closed :
        (n : String) (g : Fragment)
        → has v' n ≡ true
        → has v n ≡ false
        → q.fragment_for_name q.fragments n ≡ some g
        → Applies q satisfies g.type_condition
        → ((f : Field) (sub : Selections)
            → Direct q satisfies g.selection_set f sub
            → Covers c' f sub)
          × ((m : String) → Spreads q satisfies g.selection_set m → has v' m ≡ true)
    visit-closed n g h new e a = elim (Bool-cases (has (name ∷ v) n)) [
      | inr later ↦ Post.closed p n g h later e a
      | inl now ↦ elim (has-other name n v now) [
        | inl same ↦ own g (ap (q.fragment_for_name q.fragments) same ∙ e) a
        | inr old ↦ cc
      ]
    ]

    visit-Post : Post D (λ m. (name ≡ m) ⊎ S m) c v c' v'
    visit-Post = record {
      keeps = Post.keeps p;
      covers = Post.covers p;
      spreads = λ m. elim [
        | inl e ↦ subst (λ n. has v' n ≡ true) e (Post.remembers p name (has_self name v))
        | inr s ↦ Post.spreads p m s
      ];
      remembers = λ m h. Post.remembers p m (has-older name m v h);
      closed = visit-closed;
    }

  Omitted-Post :
      (rest : Selections) {c c' : List CollectedField} {v v' : List String} (s : Selection)
      → Omitted q satisfies s v
      → PostOf rest c v c' v'
      → PostOf (cons s rest) c v c' v'
  Omitted-Post rest (field f ss) o p =
      Post-weaken (λ g sub. elim [ inl (i, _, _) ↦ cc | inr d ↦ d ]) (λ m s. s) p
  Omitted-Post rest (inline_fragment condition ds ss) (inl o) p =
      Post-weaken (λ g sub. elim [ inl (i, _, _) ↦ cc | inr d ↦ d ])
        (λ m. elim [ inl (i, _, _) ↦ cc | inr s ↦ s ]) p
  Omitted-Post rest (inline_fragment condition ds ss) (inr o) p =
      Post-weaken (λ g sub. elim [ inl (i, a, _) ↦ cc | inr d ↦ d ])
        (λ m. elim [ inl (i, a, _) ↦ cc | inr s ↦ s ]) p
  Omitted-Post rest (fragment_spread name ds ss) (inl o) p =
      Post-weaken (λ g sub d. d) (λ m. elim [ inl (i, _) ↦ cc | inr s ↦ s ]) p
  Omitted-Post rest {v} (fragment_spread name ds ss) (inr o) p = record {
    keeps = p.keeps;
    covers = p.covers;
    spreads = λ m. elim [
      | inl (i, e) ↦ p.remembers m (subst (λ n. has v n ≡ true) e o)
      | inr s ↦ p.spreads m s
    ];
    remembers = p.remembers;
    closed = p.closed;
  }

  kept-Post :
      (rest : Selections) (c : List CollectedField) {c' : List CollectedField} {v v' : List String}
      (f : Field) (ss : Selections)
      → PostOf rest (put c (record { field = f; selections = [] }) (to_list ss)) v c' v'
      → PostOf (cons (field f ss) rest) c v c' v'
  kept-Post rest c {c'} f ss p = record {
    keeps = λ g sub h. p.keeps g sub (put-Covers_old c creator (to_list ss) g sub h);
    covers = λ g sub. elim [
      | inl (i, same, set) ↦
          subst (λ x. Covers c' x sub) same
            (subst (λ x. Covers c' f x) set
              (p.keeps f ss (
                put-Covers_new c creator (to_list ss) f ss (groups_self creator)
                  (Segment-self (to_list ss)))))
      | inr d ↦ p.covers g sub d
    ];
    spreads = p.spreads;
    remembers = p.remembers;
    closed = p.closed;
  }
    where
      creator : CollectedField
      creator = record { field = f; selections = [] }

  -- A look-up finds one fragment.
  found_once :
      (name : String) (g g' : Fragment)
      → q.fragment_for_name q.fragments name ≡ some g
      → q.fragment_for_name q.fragments name ≡ some g'
      → g ≡ g'
  found_once name g g' e e' = cc

  entered_own :
      {c₁ : List CollectedField} {v v₁ : List String} (name : String) (g : Fragment)
      → q.fragment_for_name q.fragments name ≡ some g
      → PostOf g.selection_set [] v c₁ v₁
      → (g' : Fragment) → q.fragment_for_name q.fragments name ≡ some g'
      → Applies q satisfies g'.type_condition
      → ((f : Field) (sub : Selections)
          → Direct q satisfies g'.selection_set f sub
          → Covers c₁ f sub)
        × ((m : String) → Spreads q satisfies g'.selection_set m → has v₁ m ≡ true)
  entered_own {c₁} {v₁ = v₁} name g e p g' e' a =
      subst
        (λ x.
          ((f : Field) (sub : Selections)
            → Direct q satisfies x.selection_set f sub
            → Covers c₁ f sub)
          × ((m : String) → Spreads q satisfies x.selection_set m → has v₁ m ≡ true))
        (found_once name g g' e e') (p.covers, p.spreads)

  Walks-Post :
      {ss : Selections} {c c' : List CollectedField} {v v' : List String}
      → Walks q satisfies ss c v c' v'
      → PostOf ss c v c' v'
  Walks-Post done = record {
    keeps = λ f sub h. h;
    covers = λ f sub h. absurd h;
    spreads = λ m h. absurd h;
    remembers = λ m h. h;
    closed = λ m g h new e a. cc;
  }
  Walks-Post (omitted {rest = rest} s o w) = Omitted-Post rest s o (Walks-Post w)
  Walks-Post (kept {rest = rest} {c = c} f ss i w) = kept-Post rest c f ss (Walks-Post w)
  Walks-Post (inside {c = c} {c₁ = c₁} condition ds ss i a inner w) =
      Post-weaken (λ f sub. elim [ inl (_, _, d) ↦ inl d | inr d ↦ inr d ])
        (λ m. elim [ inl (_, _, s) ↦ inl s | inr s ↦ inr s ])
        (Post-join c c₁ (Walks-Post inner) (Walks-Post w))
  Walks-Post (entered {c = c} {c₁ = c₁} name ds ss g i n e a inner w) =
      let p = Walks-Post inner in
      Post-weaken (λ f sub d. inr d) (λ m. elim [ inl (_, s) ↦ inl (inl s) | inr s ↦ inr s ])
        (Post-join c c₁ (visit-Post name p (entered_own name g e p)) (Walks-Post w))
  Walks-Post (passed name ds ss g i n e a w) =
      Post-weaken (λ f sub d. d) (λ m. elim [ inl (_, s) ↦ inl s | inr s ↦ inr s ])
        (visit-Post name (Walks-Post w) (λ g' e' a'. cc (found_once name g g' e e')))

  Asks-Covers :
      {c : List CollectedField} {v : List String} (D : Field → Selections → Type 0)
      (S : String → Type 0)
      → Post D S [] [] c v
      → {f : Field} {sub ss : Selections} → Asks q satisfies f sub ss
      → ((g : Field) (set : Selections) → Direct q satisfies ss g set → Covers c g set)
      → ((m : String) → Spreads q satisfies ss m → has v m ≡ true)
      → Covers c f sub
  Asks-Covers D S p (direct d) fields names = fields _ _ d
  Asks-Covers D S p (through name g s e a r) fields names =
      let (fields', names') = p.closed name g (names name s) refl e a in
      Asks-Covers D S p r fields' names'

-- `CollectFields` misses nothing, and merges: no two collected fields have the same name, alias and object
-- definition; and every field that the selection set asks for, directly or through fragments, belongs
-- to a collected field, whose selections hold the field's own selection set in one piece. So all
-- fields of one key are in one collected field, with the selections of each of them.
pub collect_fields-Covers :
    (q : Request) (ss : Selections) (satisfies : List String) (fs : List CollectedField)
    → collect_fields q ss satisfies ≡ ok fs
    → (f : Field) (sub : Selections) → Asks q satisfies f sub ss
    → Distinct fs × Covers fs f sub
collect_fields-Covers q ss satisfies fs e f sub a =
    let (visited, w) = collect_fields-Walks q ss satisfies fs e in
    let p = Walks-Post q satisfies w in
    (
      collect_fields-Distinct q ss satisfies fs e,
      Asks-Covers q satisfies _ _ p a (Post.covers p) (Post.spreads p),
    )
