-- ===== src/Graphql/CollectFields/Termination.antt =====
-- graphql/executable_schema.go: the set of visited fragments makes the walk end, also on documents
-- whose fragments spread one another in a circle.
use fastgql.Prelude.{
  ℕ, zero, suc, ◌+◌, ◌≤◌, ◌<◌, ◌≡◌, ◌≢◌, refl, arith, String, Bool, true, false, ◌&&◌, Option, none,
  some, List, [], ◌∷◌, if◌then◌else◌, str_eq_iff, has, length, Bool-cases, inl, inr,
}
use fastgql.Prelude.Outcome.{Outcome, ok, panic, out_of_fuel, ◌>>=◌}
use fastgql.Ast.{
  Argument, Directive, Selections, field, inline_fragment, fragment_spread, nil, cons, Fragment,
}
use fastgql.Graphql.CollectFields.{
  Request, CollectedField, Walked, should_include_node, applies, enter_fragment, spread_fields,
  walk, collect, collect_fields, Evaluated, failed, boolean, other, bool_of, bool_argument,
  resolve_or,
}

abbrev pub names : List Fragment → List String
names [] = []
names (f ∷ fs) = f.name ∷ names fs

-- `ForName` finds a fragment of the document, of that name.
abbrev pub FindsListed : Request → Type 0
FindsListed q =
    (name : String) (f : Fragment)
    → q.fragment_for_name q.fragments name ≡ some f
    → has (names q.fragments) name ≡ true

-- How many of the names are not visited yet.
unvisited : List String → List String → ℕ
unvisited [] visited = 0
unvisited (n ∷ ns) visited = (if has visited n then 0 else 1) + unvisited ns visited

unvisited-le-length :
    (fs : List Fragment) (visited : List String) → unvisited (names fs) visited ≤ length fs
unfolding unvisited
unvisited-le-length [] visited = omega arith
unvisited-le-length (f ∷ fs) visited = ground (arith, unvisited-le-length fs visited)

unvisited-visit :
    (ns : List String) (n : String) (visited : List String)
    → unvisited ns (n ∷ visited) ≤ unvisited ns visited
unfolding unvisited
unvisited-visit [] n visited = omega arith
unvisited-visit (m ∷ ns) n visited = ground (arith, unvisited-visit ns n visited)

unvisited-visit_new :
    (ns : List String) (n : String) (visited : List String)
    → has ns n ≡ true
    → has visited n ≡ false
    → unvisited ns (n ∷ visited) < unvisited ns visited
unfolding unvisited
unvisited-visit_new [] n visited listed new = cc
unvisited-visit_new (m ∷ ns) n visited listed new = ground (
  arith,
  unvisited-visit_new ns n visited,
  unvisited-visit ns n visited,
  str_eq_iff m n,
  str_eq_iff n m,
)

module _ (q : Request) (satisfies : List String) where
  abbrev left : List String → ℕ
  left visited = unvisited (names q.fragments) visited

  -- A result that did not run out of fuel and forgot no visited fragment.
  abbrev Ends : List String → Outcome Walked → Type 0
  Ends visited (ok w) = left w.1 ≤ left visited
  Ends visited (panic m) = Unit
  Ends visited out_of_fuel = ⊥

  -- The conditions to include a node never run out of fuel.
  abbrev EndsIf : Outcome Bool → Type 0
  EndsIf out_of_fuel = ⊥
  EndsIf _ = Unit

  EndsIf-bind :
      (r : Outcome Bool) (k : Bool → Outcome Bool)
      → EndsIf r
      → ((b : Bool) → EndsIf (k b))
      → EndsIf (r >>= k)
  EndsIf-bind (ok b) k h next = next b
  EndsIf-bind (panic m) k h next = tt
  EndsIf-bind out_of_fuel k h next = h

  bool_ends : (e : Evaluated) → EndsIf (bool_of q e)
  unfolding bool_of
  bool_ends failed = tt
  bool_ends (boolean b) = tt
  bool_ends other = tt

  argument_ends : (arg : Option Argument) → EndsIf (bool_argument q arg)
  unfolding bool_argument
  argument_ends none = tt
  argument_ends (some arg) = bool_ends (q.value arg)

  resolve_ends : (b : Bool) (d : Option Directive) → EndsIf (resolve_or q b d)
  unfolding resolve_or
  resolve_ends b none = tt
  resolve_ends b (some d) = argument_ends (q.argument_for_name d.arguments "if")

  include_ends : (ds : List Directive) → EndsIf (should_include_node q ds)
  unfolding should_include_node
  include_ends [] = tt
  include_ends (d ∷ ds) =
      EndsIf-bind (resolve_or q false (q.directive_for_name (d ∷ ds) "skip")) _
        (resolve_ends false (q.directive_for_name (d ∷ ds) "skip"))
        λ skip.
          EndsIf-bind (resolve_or q true (q.directive_for_name (d ∷ ds) "include")) _
            (resolve_ends true (q.directive_for_name (d ∷ ds) "include")) λ include. tt

  module _ (rec : Selections → List String → Outcome Walked) (bound : ℕ)
      (rec_ends : (ss : Selections) (v : List String) → left v < bound → Ends v (rec ss v))
      (listed : FindsListed q) where
    Ends-bind :
        (v : List String) (r : Outcome Walked) (k : Walked → Outcome Walked)
        → Ends v r
        → ((w : Walked) → left w.1 ≤ left v → Ends v (k w))
        → Ends v (r >>= k)
    Ends-bind v (ok w) k h next = next w h
    Ends-bind v (panic m) k h next = tt
    Ends-bind v out_of_fuel k h next = h

    Ends-if :
        (v : List String) (r : Outcome Bool) (k : Bool → Outcome Walked)
        → EndsIf r
        → ((b : Bool) → Ends v (k b))
        → Ends v (r >>= k)
    Ends-if v (ok b) k h next = next b
    Ends-if v (panic m) k h next = tt
    Ends-if v out_of_fuel k h next = h

    Ends-le : (v v' : List String) (r : Outcome Walked) → left v' ≤ left v → Ends v' r → Ends v r
    Ends-le v v' (ok w) le h = omega arith
    Ends-le v v' (panic m) le h = tt
    Ends-le v v' out_of_fuel le h = h

    Ends-cond :
        (v : List String) (b : Bool) (r : Outcome Walked) (grouped : List CollectedField)
        → Ends v r
        → Ends v (if b then r else ok (grouped, v))
    Ends-cond v true r grouped h = h
    Ends-cond v false r grouped h = omega arith

    enter-Ends :
        (name : String) (found : Option Fragment) (grouped : List CollectedField) (v : List String)
        → left v ≤ bound
        → has v name ≡ false
        → ((f : Fragment) → found ≡ some f → has (names q.fragments) name ≡ true)
        → Ends v (enter_fragment q satisfies rec name found grouped v)
    unfolding enter_fragment
    enter-Ends name none grouped v fits new known = tt
    enter-Ends name (some f) grouped v fits new known =
        let less = unvisited-visit_new (names q.fragments) name v (known f refl) new in
        elim (Bool-cases (applies q satisfies f.type_condition)) [
          | inl fits_type ↦ rw fits_type (
              Ends-bind v (rec f.selection_set (name ∷ v)) _
                (Ends-le v (name ∷ v) _ (omega arith)
                  (rec_ends f.selection_set (name ∷ v) (omega arith)))
                λ w le. le)
          | inr other_type ↦ rw other_type (omega arith)
        ]

    spread-Ends :
        (name : String) (grouped : List CollectedField) (v : List String)
        → left v ≤ bound
        → Ends v (spread_fields q satisfies rec name grouped v)
    unfolding spread_fields
    spread-Ends name grouped v fits = elim (Bool-cases (has v name)) [
      | inl seen ↦ rw seen (omega arith)
      | inr new ↦
          rw new (
            enter-Ends name (q.fragment_for_name q.fragments name) grouped v fits new (listed name))
    ]

    walk-Ends :
        (ss : Selections) (grouped : List CollectedField) (v : List String)
        → left v ≤ bound
        → Ends v (walk q satisfies rec ss grouped v)
    unfolding walk
    walk-Ends nil grouped v fits = omega arith
    walk-Ends (cons (field f ss) rest) grouped v fits =
        Ends-if v (should_include_node q f.directives) _ (include_ends f.directives)
          λ b. walk-Ends rest _ v fits
    walk-Ends (cons (inline_fragment condition ds ss) rest) grouped v fits =
        Ends-if v (should_include_node q ds) _ (include_ends ds) λ b.
          Ends-bind v _ _
            (Ends-cond v (b && applies q satisfies condition) _ grouped
              (Ends-bind v (walk q satisfies rec ss [] v) _ (walk-Ends ss [] v fits) λ w le. le))
            λ w le. Ends-le v w.1 _ le (walk-Ends rest w.0 w.1 (omega arith))
    walk-Ends (cons (fragment_spread name ds ss) rest) grouped v fits =
        Ends-if v (should_include_node q ds) _ (include_ends ds) λ b.
          Ends-bind v _ _ (Ends-cond v b _ grouped (spread-Ends name grouped v fits))
            λ w le. Ends-le v w.1 _ le (walk-Ends rest w.0 w.1 (omega arith))

  collect-Ends :
      (listed : FindsListed q) (fuel : ℕ) (ss : Selections) (v : List String)
      → left v < fuel
      → Ends v (collect q satisfies fuel ss v)
  unfolding collect
  collect-Ends listed zero ss v fits = absurd (omega arith)
  collect-Ends listed (suc fuel) ss v fits =
      walk-Ends (collect q satisfies fuel) fuel (collect-Ends listed fuel) listed ss [] v
        (omega arith)

-- If the look-up of fragments finds those of the document, `CollectFields` ends on every selection
-- set and every document, fragments that spread one another included: it enters each fragment once
-- at most.
pub collect_fields-ne-out_of_fuel :
    (q : Request)
    → FindsListed q
    → (ss : Selections) (satisfies : List String) → collect_fields q ss satisfies ≢ out_of_fuel
unfolding collect_fields
collect_fields-ne-out_of_fuel q listed ss satisfies =
    elim (collect q satisfies (suc (length q.fragments)) ss [])
        as (λ r. Ends q satisfies [] r → (r >>= λ w. ok w.0) ≢ out_of_fuel) [
          | ok w ↦ λ h e. cc
          | panic m ↦ λ h e. cc
          | out_of_fuel ↦ λ h e. h
        ]
      (collect-Ends q satisfies listed (suc (length q.fragments)) ss []
        (omega (arith, unvisited-le-length q.fragments [])))
