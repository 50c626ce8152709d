-- ===== src/Graphql/Errors.antt =====
-- graphql/errcode/codes.go, and what the code reads of an error of package gqlerror: the message, the
-- path and the string under "code" in the extensions.
use fastgql.Prelude.{
  ◌≡◌, ◌↔◌, refl, arith, String, Bool, true, false, Option, none, some, List, [], ◌∷◌,
  if◌then◌else◌, str_eq, All,
}
use fastgql.Prelude.Int.{ℤ}

pub data PathElement : Type 0 where
  path_name : String → PathElement
  path_index : ℤ → PathElement

pub record GqlError : Type 0 where
  pub message : String
  pub path : Option (List PathElement)
  pub code : Option String

pub data ErrorKind : Type 0 where
  protocol : ErrorKind
  user : ErrorKind

abbrev pub validation_failed : String
validation_failed = "GRAPHQL_VALIDATION_FAILED"

abbrev pub parse_failed : String
parse_failed = "GRAPHQL_PARSE_FAILED"

-- The map `codeType`; the last registration of a code stands first.
abbrev pub CodeTypes : Type 0
CodeTypes = List (String × ErrorKind)

abbrev pub code_type : CodeTypes
code_type = (validation_failed, protocol) ∷ (parse_failed, protocol) ∷ []

unfoldable pub register_error_type : CodeTypes → String → ErrorKind → CodeTypes
register_error_type types code kind = (code, kind) ∷ types

unfoldable pub kind_of_code : CodeTypes → String → Option ErrorKind
kind_of_code [] code = none
kind_of_code ((c, kind) ∷ types) code = if str_eq c code then some kind else kind_of_code types code

-- `Set`.
abbrev pub set_code : GqlError → String → GqlError
set_code err code = record err { code = some code }

-- Whether the loop returns at an error of this code.
abbrev stops : Option ErrorKind → Bool
stops (some protocol) = true
stops _ = false

unfoldable pub code_stops : CodeTypes → Option String → Bool
code_stops types none = false
code_stops types (some code) = stops (kind_of_code types code)

-- The only kind but `user` is `protocol`, so that is what a loop that stops returns.
unfoldable pub get_error_kind : CodeTypes → List GqlError → ErrorKind
unfolding code_stops
get_error_kind types [] = user
get_error_kind types (err ∷ errs) =
    if code_stops types err.code then protocol else get_error_kind types errs

-- The kind of a list of errors is `user` exactly when no error of it has a code of kind `protocol`:
-- the errors' order does not matter.
get_error_kind-user :
    (types : CodeTypes) (errs : List GqlError)
    → (get_error_kind types errs ≡ user) ↔ All (λ e. code_stops types e.code ≡ false) errs
unfolding get_error_kind
get_error_kind-user types [] = ((λ e. tt), (λ h. refl))
get_error_kind-user types (err ∷ errs) = ground (arith, get_error_kind-user types errs)
