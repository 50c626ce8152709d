-- ===== src/Graphql/Responses.antt =====
-- graphql/context_response.go: the response context, and `ErrorOnPath` of graphql/error.go. Its mutexes
-- make each operation one step.
use fastgql.Prelude.{
  ◌≡◌, refl, ap, arith, String, Bool, true, false, ◌||◌, ◌⊎◌, ◌↔◌, inl, inr, Option, none, some,
  List, [], ◌∷◌, ◌++◌, if◌then◌else◌, str_eq, str_eq_iff, ◌==◌, length, Bool-cases, All,
}
use fastgql.Prelude.Int.{ℤ, pos, negsuc}
use fastgql.Prelude.Outcome.{Outcome, ok, panic}
use fastgql.Graphql.Errors.{GqlError, PathElement, path_name, path_index}
use fastgql.Graphql.Paths.{same_int, same_element, same_from, equal_path}

-- An error with no path gets the path of the context.
unfoldable pub error_on_path : List PathElement → GqlError → GqlError
error_on_path here err = elim err.path [ none ↦ record err { path = some here } | some path ↦ err ]

-- `present` is the error presenter.
abbrev path_or_nil : Option (List PathElement) → List PathElement
path_or_nil none = []
path_or_nil (some path) = path

abbrev pub is_on : List PathElement → GqlError → Bool
is_on path err = equal_path (path_or_nil err.path) path

unfoldable pub has_field_error : List GqlError → List PathElement → Bool
has_field_error [] path = false
has_field_error (err ∷ errs) path = if is_on path err then true else has_field_error errs path

unfoldable pub get_field_errors : List GqlError → List PathElement → List GqlError
get_field_errors [] path = []
get_field_errors (err ∷ errs) path =
    if is_on path err then err ∷ get_field_errors errs path else get_field_errors errs path

-- `V` is the type of the extensions' values.
module _ (V : Type 0) where
  pub record ResponseContext : Type 0 where
    pub errors : List GqlError
    pub extensions : List (String × V)

  unfoldable pub add_error :
      (GqlError → GqlError) → List PathElement → ResponseContext → GqlError → ResponseContext
  unfolding error_on_path
  add_error present here c err = record c {
    errors = c.errors ++ present (error_on_path here err) ∷ [];
  }

  unfoldable pub get_extension : List (String × V) → String → Option V
  get_extension [] name = none
  get_extension ((k, v) ∷ m) name = if str_eq k name then some v else get_extension m name

  abbrev put_extension : ResponseContext → String → V → Option V → Outcome (ResponseContext)
  put_extension c key value (some old) = panic "extension already registered"
  put_extension c key value none = ok (record c { extensions = (key, value) ∷ c.extensions })

  unfoldable pub register_extension : ResponseContext → String → V → Outcome (ResponseContext)
  unfolding get_extension
  register_extension c key value = put_extension c key value (get_extension c.extensions key)

same_int-eq : (a b : ℤ) → same_int a b ≡ true → a ≡ b
same_int-eq (pos a) (pos b) e = ap pos (ground arith)
same_int-eq (negsuc a) (negsuc b) e = ap negsuc (ground arith)
same_int-eq (pos a) (negsuc b) e = cc
same_int-eq (negsuc a) (pos b) e = cc

same_element-eq : (x y : PathElement) → same_element x y ≡ true → x ≡ y
same_element-eq (path_name a) (path_name b) e = ap path_name ((str_eq_iff a b).0 e)
same_element-eq (path_index a) (path_index b) e = ap path_index (same_int-eq a b e)
same_element-eq (path_name a) (path_index b) e = cc
same_element-eq (path_index a) (path_name b) e = cc

same_element_refl : (x : PathElement) → same_element x x ≡ true
same_element_refl (path_name a) = (str_eq_iff a a).1 refl
same_element_refl (path_index (pos n)) = ground arith
same_element_refl (path_index (negsuc n)) = ground arith

same_from_refl : (a : List PathElement) → same_from a a ≡ true
same_from_refl [] = refl
same_from_refl (x ∷ a) = rw (same_element_refl x) (same_from_refl a)

same_from-eq : (a b : List PathElement) → length a ≡ length b → same_from a b ≡ true → a ≡ b
same_from-eq [] [] e h = refl
same_from-eq [] (y ∷ b) e h = ground arith
same_from-eq (x ∷ a) [] e h = ground arith
same_from-eq (x ∷ a) (y ∷ b) e h = elim (Bool-cases (same_element x y)) [
  | inl same ↦
      rw (same_element-eq x y same, same_from-eq a b (omega (arith, e)) (ground arith)) refl
  | inr other ↦ ground arith
]

equal_path_iff : (a b : List PathElement) → (equal_path a b ≡ true) ↔ (a ≡ b)
unfolding equal_path
equal_path_iff a b = (
  (λ e. elim (Bool-cases (length a == length b)) [
    | inl same ↦ same_from-eq a b (ground arith) (ground arith)
    | inr other ↦ ground arith
  ]),
  (λ e. rw (← e) (ground (arith, same_from_refl a))),
)

has_field_error-append :
    (errs : List GqlError) (err : GqlError) (path : List PathElement)
    → has_field_error (errs ++ err ∷ []) path ≡ (has_field_error errs path || is_on path err)
unfolding has_field_error
has_field_error-append [] err path = ground arith
has_field_error-append (e ∷ errs) err path = ground (arith, has_field_error-append errs err path)

or_iff : {P : Type 0} (a b : Bool) → (b ≡ true) ↔ P → ((a || b) ≡ true) ↔ ((a ≡ true) ⊎ P)
or_iff true b h = ((λ e. inl refl), (λ e. refl))
or_iff false b h = ((λ e. inr (h.0 e)), (λ s. elim s [ inl e ↦ cc | inr p ↦ h.1 p ]))

is_on-shown :
    (present : GqlError → GqlError) (here : List PathElement) (err : GqlError)
    (path : List PathElement)
    → ((e : GqlError) → GqlError.path (present e) ≡ e.path)
    → err.path ≡ none
    → is_on path (present (error_on_path here err)) ≡ equal_path here path
unfolding error_on_path
is_on-shown present here err path keeps no_path =
    rw (keeps (error_on_path here err), error_on_path) (rw no_path refl)

-- After `AddError` at a field, for an error with no path and a presenter that keeps paths, a field has
-- an error exactly if it had one before or has the path of that field.
has_field_error-add_error :
    (V : Type 0) (present : GqlError → GqlError) (here : List PathElement) (c : ResponseContext V)
    (err : GqlError) (path : List PathElement)
    → ((e : GqlError) → GqlError.path (present e) ≡ e.path)
    → err.path ≡ none
    → (has_field_error (ResponseContext.errors (add_error V present here c err)) path ≡ true)
      ↔ ((has_field_error c.errors path ≡ true) ⊎ (here ≡ path))
unfolding add_error
has_field_error-add_error V present here c err path keeps no_path =
    let shown = present (error_on_path here err) in
    rw (has_field_error-append c.errors shown path, is_on-shown present here err path keeps no_path)
      (or_iff (has_field_error c.errors path) (equal_path here path) (equal_path_iff here path))

abbrev pub not_empty : List GqlError → Bool
not_empty [] = false
not_empty (err ∷ errs) = true

-- `GetFieldErrors` returns only errors that are on the path, and `HasFieldError` tells whether it
-- returns one.
get_field_errors-is_on :
    (errs : List GqlError) (path : List PathElement)
    → All (λ err. is_on path err ≡ true) (get_field_errors errs path)
      × (has_field_error errs path ≡ not_empty (get_field_errors errs path))
unfolding get_field_errors has_field_error
get_field_errors-is_on [] path = (tt, refl)
get_field_errors-is_on (err ∷ errs) path =
    let (on, same) = get_field_errors-is_on errs path in
    elim (Bool-cases (is_on path err)) [ inl e ↦ rw e ((e, on), refl) | inr e ↦ rw e (on, same) ]
