-- ===== src/Complexity/Ideal.antt =====
-- The walker of complexity/complexity.go against a cost in numbers without a bound.
use Prim.Native.Nat.{max}
use fastgql.Prelude.{
  ℕ, ◌+◌, ◌<◌, ◌≡◌, refl, arith, if◌then◌else◌, String, not, ◌&&◌, Option, none, some, List, [],
  ◌∷◌, Bool-cases, inl, inr, ◌∙◌, sym, ap,
}
use fastgql.Prelude.Int.{ℤ, pos, pos_part, ltb_ℤ, ◌≤ℤ◌, half_range, IsInt}
use fastgql.Prelude.Outcome.{Outcome, ok, panic, out_of_fuel, ◌>>=◌}
use fastgql.Ast.{Definition, Field, Selections, field, inline_fragment, fragment_spread, nil, cons}
use fastgql.Complexity.{
  Walker, is_composite, is_interface, field_complexity, max_complexity, interface_field_complexity,
  safe_add, field_kind, cost_of, walk, selection_set_complexity, calculate,
}
use fastgql.Complexity.Saturation.{sat, sat-max, sat-zero, safe_add-sat}

-- The results of Go's `int`: capped.
abbrev pub capped : Outcome ℕ → Outcome ℤ
capped r = r >>= λ n. ok (pos (sat n))

-- A bind can be taken through an equation between its continuations.
through :
    {A : Type 0} (r : Outcome A) (k : A → Outcome ℤ) (m : A → Outcome ℕ) (g : ℕ → Outcome ℤ)
    → ((a : A) → k a ≡ (m a >>= g))
    → (r >>= k) ≡ ((r >>= m) >>= g)
through (ok a) k m g h = h a
through (panic e) k m g h = refl
through out_of_fuel k m g h = refl

module _ (cw : Walker) where
  open cw use {Arguments, types, possible_types, argument_map, complexity}

  -- Custom complexities are Go ints.
  abbrev pub CustomIsInt : Type 0
  CustomIsInt =
      (obj name : String) (child : ℤ) (args : Arguments) → IsInt (complexity obj name child args).0

  unfoldable pub ideal_field : String → String → ℕ → Arguments → ℕ
  ideal_field obj name child args =
      let custom = complexity obj name (pos (sat child)) args in
      if custom.1 && not (ltb_ℤ custom.0 (pos (sat child))) then pos_part custom.0 else 1 + child

  unfoldable pub ideal_worst : List Definition → String → ℕ → Arguments → ℕ
  ideal_worst [] name child args = 0
  ideal_worst (t ∷ ts) name child args =
      max (ideal_field t.name name child args) (ideal_worst ts name child args)

  unfoldable pub ideal_cost : Option Definition → Field → ℕ → Outcome ℕ
  ideal_cost none f child = panic "nil ObjectDefinition"
  ideal_cost (some d) f child = ok (
      if is_interface d.kind
      then ideal_worst (possible_types d) f.name child (argument_map f)
      else ideal_field d.name f.name child (argument_map f))

  -- The cost of a selection set: the sum over its selections, with no bound on numbers.
  unfoldable pub ideal : Selections → Outcome ℕ
  ideal nil = ok 0
  ideal (cons (field f ss) rest) = do
    kind ← field_kind cw f
    child ← (let below = ideal ss in if is_composite kind then below else ok 0)
    cost ← ideal_cost f.object_definition f child
    more ← ideal rest
    ok (cost + more)
  ideal (cons (inline_fragment cond ds ss) rest) = do
    cost ← ideal ss
    more ← ideal rest
    ok (cost + more)
  ideal (cons (fragment_spread name ds ss) rest) = do
    cost ← ideal ss
    more ← ideal rest
    ok (cost + more)

  module _ (ints : CustomIsInt) where
    field_complexity-sat :
        (obj name : String) (child : ℕ) (args : Arguments)
        → field_complexity cw obj name (pos (sat child)) args
          ≡ pos (sat (ideal_field obj name child args))
    unfolding field_complexity ideal_field sat safe_add
    field_complexity-sat obj name child args = ground (arith, ints obj name (pos (sat child)) args)

    max_complexity-sat :
        (ts : List Definition) (name : String) (child : ℕ) (args : Arguments) (best : ℕ)
        → max_complexity cw ts name (pos (sat child)) args (pos (sat best))
          ≡ pos (sat (max best (ideal_worst ts name child args)))
    unfolding max_complexity ideal_worst
    max_complexity-sat [] name child args best = ground arith
    max_complexity-sat (t ∷ ts) name child args best =
        rw
          (
            field_complexity-sat t.name name child args,
            sat-max,
            max_complexity-sat ts name child args,
          )
          (ap (λ n. pos (sat n)) (omega arith))

    worst-sat :
        (ts : List Definition) (name : String) (child : ℕ) (args : Arguments)
        → max_complexity cw ts name (pos (sat child)) args (pos 0)
          ≡ pos (sat (ideal_worst ts name child args))
    worst-sat ts name child args =
        ap (λ n. max_complexity cw ts name (pos (sat child)) args (pos n)) (sym sat-zero)
        ∙ max_complexity-sat ts name child args 0
        ∙ ap (λ n. pos (sat n)) (omega arith)

    cost_of-sat :
        (owner : Option Definition) (f : Field) (child : ℕ)
        → cost_of cw owner f (pos (sat child)) ≡ capped (ideal_cost owner f child)
    unfolding cost_of ideal_cost interface_field_complexity
    cost_of-sat none f child = refl
    cost_of-sat (some d) f child = elim (Bool-cases (is_interface d.kind)) [
      | inl worst ↦ rw worst (ap ok (worst-sat (possible_types d) f.name child (argument_map f)))
      | inr own ↦ rw (own, field_complexity-sat d.name f.name child (argument_map f))
    ]

    regroup :
        (r : Outcome ℕ) (sum c : ℕ)
        → (r >>= λ n. ok (pos (sat (sum + c + n))))
          ≡ ((r >>= λ more. ok (c + more)) >>= λ n. ok (pos (sat (sum + n))))
    regroup (ok n) sum c = ap (λ k. ok (pos (sat k))) (omega arith)
    regroup (panic m) sum c = refl
    regroup out_of_fuel sum c = refl

    from_zero : (r : Outcome ℕ) → (r >>= λ n. ok (pos (sat (0 + n)))) ≡ capped r
    from_zero (ok n) = ap (λ k. ok (pos (sat k))) (omega arith)
    from_zero (panic m) = refl
    from_zero out_of_fuel = refl

    abbrev RestSat : Selections → Type 0
    RestSat rest =
        (sum : ℕ) → walk cw rest (pos (sat sum)) ≡ (ideal rest >>= λ n. ok (pos (sat (sum + n))))

    below-sat : (ss : Selections) → RestSat ss → walk cw ss (pos 0) ≡ capped (ideal ss)
    below-sat ss ih = ap (λ n. walk cw ss (pos n)) (sym sat-zero) ∙ ih 0 ∙ from_zero (ideal ss)

    leaf_cost :
        (f : Field) (k : ℤ → Outcome ℤ)
        → (cost_of cw f.object_definition f (pos 0) >>= k)
          ≡ (capped (ideal_cost f.object_definition f 0) >>= k)
    leaf_cost f k =
        ap (λ n. cost_of cw f.object_definition f (pos n) >>= k) (sym sat-zero)
        ∙ ap (λ r. r >>= k) (cost_of-sat f.object_definition f 0)

    through_capped :
        (r : Outcome ℕ) (k : ℤ → Outcome ℤ) (m : ℕ → Outcome ℕ) (g : ℕ → Outcome ℤ)
        → ((n : ℕ) → k (pos (sat n)) ≡ (m n >>= g))
        → (capped r >>= k) ≡ ((r >>= m) >>= g)
    through_capped (ok n) k m g h = h n
    through_capped (panic e) k m g h = refl
    through_capped out_of_fuel k m g h = refl

    add_rest :
        (r : Outcome ℕ) (rest : Selections) (sum : ℕ)
        → RestSat rest
        → (capped r >>= λ cost. walk cw rest (safe_add (pos (sat sum)) cost)) ≡ (
            (r >>= λ cost. ideal rest >>= λ more. ok (cost + more)) >>= λ n.
            ok (pos (sat (sum + n))))
    add_rest (ok c) rest sum ih = rw (safe_add-sat, ih (sum + c)) (regroup (ideal rest) sum c)
    add_rest (panic m) rest sum ih = refl
    add_rest out_of_fuel rest sum ih = refl

    walk-sat :
        (ss : Selections) (sum : ℕ)
        → walk cw ss (pos (sat sum)) ≡ (ideal ss >>= λ n. ok (pos (sat (sum + n))))
    unfolding walk ideal
    walk-sat nil sum = ap (λ k. ok (pos (sat k))) (omega arith)
    walk-sat (cons (field f ss) rest) sum = through (field_kind cw f) _ _ _ λ kind.
        elim (Bool-cases (is_composite kind)) [
          | inl deep ↦
              rw (deep, below-sat ss (walk-sat ss))
                (through_capped (ideal ss) _ _ _ λ child.
                  rw (cost_of-sat f.object_definition f child)
                    (add_rest (ideal_cost f.object_definition f child) rest sum (walk-sat rest)))
          | inr leaf ↦ rw leaf (
              leaf_cost f (λ cost. walk cw rest (safe_add (pos (sat sum)) cost))
              ∙ add_rest (ideal_cost f.object_definition f 0) rest sum (walk-sat rest))
        ]
    walk-sat (cons (inline_fragment cond ds ss) rest) sum =
        rw (below-sat ss (walk-sat ss)) (add_rest (ideal ss) rest sum (walk-sat rest))
    walk-sat (cons (fragment_spread name ds ss) rest) sum =
        rw (below-sat ss (walk-sat ss)) (add_rest (ideal ss) rest sum (walk-sat rest))

-- A field never costs less than its children, whatever the custom complexity is: for a child cost
-- that is an `int` and not negative.
le-field_complexity :
    (cw : Walker) (obj name : String) (child : ℕ) (args : Walker.Arguments cw)
    → child < half_range
    → CustomIsInt cw
    → pos child ≤ℤ field_complexity cw obj name (pos child) args
unfolding field_complexity safe_add
le-field_complexity cw obj name child args fits ints =
    ground (arith, ints obj name (pos child) args)

-- With custom complexities that are ints, `Calculate` returns the cost of the query computed with
-- no bound, capped at the largest `int`, and panics exactly where that computation meets a nil
-- pointer: no query overflows the calculation.
pub calculate-ideal :
    (cw : Walker)
    → CustomIsInt cw
    → (operation : Selections) → calculate cw operation ≡ capped (ideal cw operation)
unfolding calculate selection_set_complexity
calculate-ideal cw ints operation = below-sat cw ints operation (walk-sat cw ints operation)
