-- ===== src/Complexity.antt =====
-- complexity/complexity.go: the cost of a query, with saturating addition of Go's `int`.
-- A nil pointer that the code reads through is a panic.
pub mod Saturation
pub mod Ideal
mod Tests
use fastgql.Prelude.{
  ℕ, ◌-◌, String, Bool, true, false, ◌&&◌, Option, none, some, List, [], ◌∷◌, if◌then◌else◌, not,
}
use fastgql.Prelude.Int.{ℤ, pos, negsuc, ltb_ℤ, ◌+int◌, half_range}
use fastgql.Prelude.Outcome.{Outcome, ok, panic, ◌>>=◌}
use fastgql.Ast.{
  Kind, scalar, object, interface, union, enum, input_object, Definition, Field, Selections, field,
  inline_fragment, fragment_spread, nil, cons,
}

-- `int(^uint(0) >> 1)`.
abbrev pub max_int : ℤ
max_int = pos (half_range - 1)

unfoldable pub safe_add : ℤ → ℤ → ℤ
safe_add a b =
    if ltb_ℤ a (pos 0)
    then if ltb_ℤ b (pos 0) then pos 1 else b
    else if ltb_ℤ b (pos 0)
    then a
    else let c = a +int b in if ltb_ℤ c a then max_int else c

abbrev is_composite : Kind → Bool
is_composite object = true
is_composite interface = true
is_composite union = true
is_composite _ = false

abbrev is_interface : Kind → Bool
is_interface interface = true
is_interface _ = false

-- What the walker uses of the schema and of the generated code: `schema.Types`,
-- `schema.GetPossibleTypes`, `Field.ArgumentMap` with the variables of the request, and
-- `ExecutableSchema.Complexity`, whose second result tells whether there is a custom complexity.
pub record Walker : Type 1 where
  pub Arguments : Type 0
  pub types : String → Option Definition
  pub possible_types : Definition → List Definition
  pub argument_map : Field → Arguments
  pub complexity : String → String → ℤ → Arguments → ℤ × Bool

module _ (cw : Walker) where
  open cw use {Arguments, types, possible_types, argument_map, complexity}

  unfoldable pub field_complexity : String → String → ℤ → Arguments → ℤ
  unfolding safe_add
  field_complexity obj name child args =
      let custom = complexity obj name child args in
      if custom.1 && not (ltb_ℤ custom.0 child) then custom.0 else safe_add (pos 1) child

  max_complexity : List Definition → String → ℤ → Arguments → ℤ → ℤ
  max_complexity [] name child args best = best
  max_complexity (t ∷ ts) name child args best =
      let cost = field_complexity t.name name child args in
      max_complexity ts name child args (if ltb_ℤ best cost then cost else best)

  unfoldable pub interface_field_complexity : Definition → String → ℤ → Arguments → ℤ
  unfolding max_complexity
  interface_field_complexity def name child args =
      max_complexity (possible_types def) name child args (pos 0)

  -- `fieldDefinition.Kind`, and `s.ObjectDefinition`.
  unfoldable pub field_kind : Field → Outcome Kind
  field_kind f = elim f.type_name [
    | none ↦ panic "nil Definition"
    | some t ↦ elim (types t) [ none ↦ panic "nil Definition" | some d ↦ ok d.kind ]
  ]

  unfoldable pub cost_of : Option Definition → Field → ℤ → Outcome ℤ
  cost_of none f child = panic "nil ObjectDefinition"
  cost_of (some d) f child = ok (
      if is_interface d.kind
      then interface_field_complexity d f.name child (argument_map f)
      else field_complexity d.name f.name child (argument_map f))

  -- The loop over a selection set; the last argument is the complexity so far.
  unfoldable pub walk : Selections → ℤ → Outcome ℤ
  walk nil sum = ok sum
  walk (cons (field f ss) rest) sum = do
    kind ← field_kind f
    child ← (let below = walk ss (pos 0) in if is_composite kind then below else ok (pos 0))
    cost ← cost_of f.object_definition f child
    walk rest (safe_add sum cost)
  walk (cons (inline_fragment cond ds ss) rest) sum = do
    cost ← walk ss (pos 0)
    walk rest (safe_add sum cost)
  walk (cons (fragment_spread name ds ss) rest) sum = do
    cost ← walk ss (pos 0)
    walk rest (safe_add sum cost)

  unfoldable pub selection_set_complexity : Selections → Outcome ℤ
  unfolding walk
  selection_set_complexity ss = walk ss (pos 0)

-- `Calculate` builds the walker and starts it on the operation's selection set.
unfoldable pub calculate : Walker → Selections → Outcome ℤ
unfolding selection_set_complexity field_kind cost_of interface_field_complexity field_complexity
calculate cw operation = selection_set_complexity cw operation
