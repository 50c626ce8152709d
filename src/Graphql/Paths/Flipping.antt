-- ===== src/Graphql/Paths/Flipping.antt =====
-- graphql/context_field.go and graphql/context_path.go: the paths run from the outside to the inside.
use fastgql.Prelude.{
  ℕ, zero, suc, ◌+◌, ◌-◌, ◌/◌, ◌<◌, ◌≤◌, ◌≡◌, refl, sym, ap, ◌∙◌, arith, String, ◌||◌, inl, inr,
  Option, none, some, List, [], ◌∷◌, ◌++◌, append_assoc, append-nil, if◌then◌else◌, ◌==◌, ltb,
  length, length-append, get_elem?, set, Bool-cases, some-injective,
}
use fastgql.Prelude.Int.{ℤ}
use fastgql.Graphql.Errors.{PathElement}
use fastgql.Graphql.Paths.{
  FieldContext, PathContext, element, swapped, swap, flip_from, flip, up_field, up_path, field_path,
  path_of,
}

module _ {A : Type 0} where
  abbrev pub reversed : List A → List A
  reversed [] = []
  reversed (x ∷ xs) = reversed xs ++ x ∷ []

  length-set : (xs : List A) (i : ℕ) (v : A) → length (set xs i v) ≡ length xs
  length-set [] i v = refl
  length-set (x ∷ xs) zero v = refl
  length-set (x ∷ xs) (suc i) v = ap suc (length-set xs i v)

  get_elem?-set :
      (xs : List A) (i k : ℕ) (v : A)
      → i < length xs
      → get_elem? (set xs i v) k ≡ (if k == i then some v else get_elem? xs k)
  get_elem?-set [] i k v fits = ground arith
  get_elem?-set (x ∷ xs) zero zero v fits = refl
  get_elem?-set (x ∷ xs) zero (suc k) v fits = ground arith
  get_elem?-set (x ∷ xs) (suc i) zero v fits = ground arith
  get_elem?-set (x ∷ xs) (suc i) (suc k) v fits = ground (arith, get_elem?-set xs i k v)

  get_elem?-bound : (xs : List A) (i : ℕ) → i < length xs → (a : A) × (get_elem? xs i ≡ some a)
  get_elem?-bound [] i fits = ground arith
  get_elem?-bound (x ∷ xs) zero fits = (x, refl)
  get_elem?-bound (x ∷ xs) (suc i) fits = get_elem?-bound xs i (omega (arith, fits))

  -- Lists with equal entries are equal.
  list_eq :
      (xs ys : List A)
      → length xs ≡ length ys
      → ((k : ℕ) → k < length xs → get_elem? xs k ≡ get_elem? ys k)
      → xs ≡ ys
  list_eq [] [] e h = refl
  list_eq [] (y ∷ ys) e h = ground arith
  list_eq (x ∷ xs) [] e h = ground arith
  list_eq (x ∷ xs) (y ∷ ys) e h =
      rw
        (
          some-injective (h 0 (omega arith)),
          list_eq xs ys (omega (arith, e)) (λ k fits. h (suc k) (omega (arith, fits))),
        )
        refl

  get_elem?-append :
      (xs ys : List A) (k : ℕ)
      → get_elem? (xs ++ ys) k
        ≡ (if ltb k (length xs) then get_elem? xs k else get_elem? ys (k - length xs))
  get_elem?-append [] ys k = ground arith
  get_elem?-append (x ∷ xs) ys zero = ground arith
  get_elem?-append (x ∷ xs) ys (suc k) = ground (arith, get_elem?-append xs ys k)

  length-reversed : (xs : List A) → length (reversed xs) ≡ length xs
  length-reversed [] = refl
  length-reversed (x ∷ xs) =
      length-append (reversed xs) (x ∷ []) ∙ omega (arith, length-reversed xs)

  get_elem?-suc :
      (x : A) (xs : List A) (n m : ℕ) → n ≡ suc m → get_elem? (x ∷ xs) n ≡ get_elem? xs m
  get_elem?-suc x xs n m e = rw e refl

  get_elem?-first : (x : A) (xs : List A) (n : ℕ) → n ≡ 0 → get_elem? (x ∷ xs) n ≡ some x
  get_elem?-first x xs n e = rw e refl

  get_elem?-reversed :
      (xs : List A) (k : ℕ)
      → k < length xs
      → get_elem? (reversed xs) k ≡ get_elem? xs (length xs - 1 - k)
  get_elem?-reversed [] k fits = ground arith
  get_elem?-reversed (x ∷ xs) k fits =
      rw (get_elem?-append (reversed xs) (x ∷ []) k, length-reversed xs)
        (elim (Bool-cases (ltb k (length xs))) [
          | inl e ↦
              rw
                (
                  e,
                  get_elem?-reversed xs k (ground arith),
                  get_elem?-suc x xs (suc (length xs) - 1 - k) (length xs - 1 - k) (ground arith),
                )
                refl
          | inr e ↦
              rw
                (
                  e,
                  get_elem?-first x xs (suc (length xs) - 1 - k) (ground arith),
                  get_elem?-first x [] (k - length xs) (ground arith),
                )
                refl
        ])

  length-swapped :
      (xs : List A) (i j : ℕ) (p q : Option A) → length (swapped xs i j p q) ≡ length xs
  length-swapped xs i j (some a) (some b) = length-set (set xs i b) j a ∙ length-set xs i b
  length-swapped xs i j none q = refl
  length-swapped xs i j (some a) none = refl

  length-swap : (xs : List A) (i j : ℕ) → length (swap xs i j) ≡ length xs
  length-swap xs i j = length-swapped xs i j (get_elem? xs i) (get_elem? xs j)

  get_elem?-swap :
      (xs : List A) (i j k : ℕ)
      → i < length xs
      → j < length xs
      → get_elem? (swap xs i j) k
        ≡ (if k == j then get_elem? xs i else if k == i then get_elem? xs j else get_elem? xs k)
  get_elem?-swap xs i j k fits fits' =
      let (a, ea) = get_elem?-bound xs i fits in
      let (b, eb) = get_elem?-bound xs j fits' in
      rw (ea, eb)
        (rw
          (
            get_elem?-set (set xs i b) j k a (omega (arith, fits', length-set xs i b)),
            get_elem?-set xs i k b fits,
          )
          refl)

  -- What the loop has turned round: the ends, up to n from either side.
  get_elem?-flip_from :
      (n : ℕ) (xs : List A) (k : ℕ)
      → n + n ≤ length xs
      → k < length xs
      → get_elem? (flip_from n xs) k ≡ (
          if ltb k n || ltb (length xs - 1 - k) n
          then get_elem? xs (length xs - 1 - k)
          else get_elem? xs k)
  unfolding flip_from
  get_elem?-flip_from zero xs k fits fits' = ground arith
  get_elem?-flip_from (suc n) xs k fits fits' =
      let j = length xs - 1 - n in
      rw
        (
          get_elem?-flip_from n (swap xs n j) k (omega (arith, fits, length-swap xs n j))
              (omega (arith, fits', length-swap xs n j)),
          length-swap xs n j,
          get_elem?-swap xs n j k (omega (arith, fits)) (omega (arith, fits)),
          get_elem?-swap xs n j (length xs - 1 - k) (omega (arith, fits)) (omega (arith, fits)),
        )
        (ground (arith, fits, fits'))

  length-flip_from : (n : ℕ) (xs : List A) → length (flip_from n xs) ≡ length xs
  unfolding flip_from
  length-flip_from zero xs = refl
  length-flip_from (suc n) xs =
      length-flip_from n (swap xs n (length xs - 1 - n)) ∙ length-swap xs n (length xs - 1 - n)

  flip-reversed : (xs : List A) → flip xs ≡ reversed xs
  unfolding flip
  flip-reversed xs =
      list_eq (flip_from (length xs / 2) xs) (reversed xs)
        (length-flip_from (length xs / 2) xs ∙ sym (length-reversed xs))
        (λ k fits.
          let fits' : k < length xs = omega (arith, fits, length-flip_from (length xs / 2) xs) in
          rw
            (
              get_elem?-flip_from (length xs / 2) xs k (omega arith) fits',
              get_elem?-reversed xs k fits',
            )
            (ground (arith, fits')))

-- The elements from the outermost context to the innermost.
abbrev pub down_field : List FieldContext → List PathElement
down_field [] = []
down_field (r ∷ rs) = down_field rs ++ element r.index r.alias

abbrev pub down_path : List PathContext → List PathElement
down_path [] = []
down_path (c ∷ cs) = down_path cs ++ element c.index c.field

reversed-append : (xs ys : List PathElement) → reversed (xs ++ ys) ≡ reversed ys ++ reversed xs
reversed-append [] ys = sym (append-nil (reversed ys))
reversed-append (x ∷ xs) ys =
    rw (reversed-append xs ys) (append_assoc (reversed ys) (reversed xs) (x ∷ []))

reversed-element : (i : Option ℤ) (n : Option String) → reversed (element i n) ≡ element i n
reversed-element (some i) n = refl
reversed-element none (some n) = refl
reversed-element none none = refl

reversed-up_field : (rs : List FieldContext) → reversed (up_field rs) ≡ down_field rs
unfolding up_field
reversed-up_field [] = refl
reversed-up_field (r ∷ rs) =
    reversed-append (element r.index r.alias) (up_field rs)
    ∙ rw (reversed-up_field rs, reversed-element r.index r.alias) refl

reversed-up_path : (cs : List PathContext) → reversed (up_path cs) ≡ down_path cs
unfolding up_path
reversed-up_path [] = refl
reversed-up_path (c ∷ cs) =
    reversed-append (element c.index c.field) (up_path cs)
    ∙ rw (reversed-up_path cs, reversed-element c.index c.field) refl

-- The paths of a field and of an input value list the contexts from the outermost to the innermost,
-- the parent field's first: the swaps in place turn the list round.
pub path_of-down :
    (cs : List PathContext) (rs : List FieldContext)
    → (field_path rs ≡ down_field rs)
      × (path_of cs none ≡ down_path cs)
      × (path_of cs (some rs) ≡ down_field rs ++ down_path cs)
unfolding field_path path_of
path_of-down cs rs =
    let field = flip-reversed (up_field rs) ∙ reversed-up_field rs in
    let input = flip-reversed (up_path cs) ∙ reversed-up_path cs in
    (field, input, rw (field, input) refl)
