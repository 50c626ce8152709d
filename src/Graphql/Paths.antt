-- ===== src/Graphql/Paths.antt =====
-- graphql/context_field.go and graphql/context_path.go: the path of a field or of an input value.
pub mod Flipping
use fastgql.Prelude.{
  ℕ, zero, suc, ◌+◌, ◌-◌, ◌/◌, ◌≡◌, String, Bool, true, false, ◌&&◌, Option, none, some, List, [],
  ◌∷◌, ◌++◌, if◌then◌else◌, str_eq, ◌==◌, length, get_elem?, set,
}
use fastgql.Prelude.Int.{ℤ, pos, negsuc}
use fastgql.Graphql.Errors.{PathElement, path_name, path_index}

-- A `FieldContext` with its parents: the alias of `Field`, if it is not nil, and the index.
pub record FieldContext : Type 0 where
  pub alias : Option String
  pub index : Option ℤ

-- A `PathContext` without its links.
pub record PathContext : Type 0 where
  pub field : Option String
  pub index : Option ℤ

-- One round of the loops up the chain.
abbrev pub element : Option ℤ → Option String → List PathElement
element (some i) name = path_index i ∷ []
element none (some name) = path_name name ∷ []
element none none = []

module _ {ℓ} {A : Type ℓ} where
  abbrev pub swapped : List A → ℕ → ℕ → Option A → Option A → List A
  swapped xs i j (some a) (some b) = set (set xs i b) j a
  swapped xs i j _ _ = xs

  -- `path[i], path[opp] = path[opp], path[i]`.
  abbrev pub swap : List A → ℕ → ℕ → List A
  swap xs i j = swapped xs i j (get_elem? xs i) (get_elem? xs j)

  -- The loop from `i = n - 1` down to 0.
  unfoldable pub flip_from : ℕ → List A → List A
  flip_from zero xs = xs
  flip_from (suc i) xs = flip_from i (swap xs i (length xs - 1 - i))

  unfoldable pub flip : List A → List A
  unfolding flip_from
  flip xs = flip_from (length xs / 2) xs

-- The elements up the chain, this one first.
unfoldable pub up_field : List FieldContext → List PathElement
up_field [] = []
up_field (r ∷ rs) = element r.index r.alias ++ up_field rs

unfoldable pub up_path : List PathContext → List PathElement
up_path [] = []
up_path (c ∷ cs) = element c.index c.field ++ up_path cs

-- `FieldContext.Path` of the innermost field, which stands first.
unfoldable pub field_path : List FieldContext → List PathElement
unfolding up_field flip
field_path rs = flip (up_field rs)

-- `PathContext.Path`, with the chain of `ParentField` if there is one.
unfoldable pub path_of : List PathContext → Option (List FieldContext) → List PathElement
unfolding up_path flip field_path
path_of cs none = flip (up_path cs)
path_of cs (some rs) = field_path rs ++ flip (up_path cs)

abbrev pub same_int : ℤ → ℤ → Bool
same_int (pos a) (pos b) = a == b
same_int (negsuc a) (negsuc b) = a == b
same_int _ _ = false

abbrev pub same_element : PathElement → PathElement → Bool
same_element (path_name a) (path_name b) = str_eq a b
same_element (path_index a) (path_index b) = same_int a b
same_element _ _ = false

abbrev pub same_from : List PathElement → List PathElement → Bool
same_from [] ys = true
same_from (x ∷ xs) [] = true
same_from (x ∷ xs) (y ∷ ys) = same_element x y && same_from xs ys

unfoldable pub equal_path : List PathElement → List PathElement → Bool
equal_path a b = if length a == length b then same_from a b else false
