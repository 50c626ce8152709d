-- ===== src/Executor.antt =====
-- graphql/executor/extensions.go and executor.go. Contexts, documents and responses are the
-- library's; a `*gqlerror.Error` that can be nil is an option.
pub mod Middleware
pub mod Parsing
pub mod Creation
pub mod Dispatch
mod Tests
use fastgql.Prelude.{
  ◌≡◌, refl, String, Bool, true, false, ◌||◌, Option, none, some, List, [], ◌∷◌, ◌++◌,
  if◌then◌else◌, length,
}
use fastgql.Prelude.Outcome.{Outcome, ok, panic, ◌>>=◌}
use fastgql.Graphql.Errors.{GqlError, set_code, parse_failed, validation_failed}

-- The function types of graphql/handler.go, over the types that they pass on.
pub record Types : Type 1 where
  pub Context : Type 0
  pub ResponseHandler : Type 0
  pub Response : Type 0
  pub FieldResult : Type 0

-- Mutators over the request with everything that they may change.
module _ (State : Type 0) where
  abbrev pub Mutator : Type 0
  Mutator = State → State × Option GqlError

  -- The loops over mutators: the first error ends the request.
  unfoldable pub run_mutators : List Mutator → State → State × Option GqlError
  run_mutators [] s = (s, none)
  run_mutators (p ∷ ps) s =
      let (s', err) = p s in
      let rest = run_mutators ps s' in elim err [ none ↦ rest | some e ↦ (s', some e) ]

module _ (t : Types) (State : Type 0) where
  open t use {Context, ResponseHandler, Response, FieldResult}

  -- A middleware over handlers that give an A.
  abbrev pub Around : Type 0 → Type 0
  Around A = Context → (Context → A) → A

  -- A `HandlerExtension` with the hooks that it implements.
  pub record Extension : Type 0 where
    pub validate : Option String
    pub intercept_operation : Option (Around ResponseHandler)
    pub intercept_response : Option (Around Response)
    pub intercept_field : Option (Around FieldResult)
    pub mutate_parameters : Option (Mutator State)
    pub mutate_context : Option (Mutator State)

  pub record Extensions : Type 0 where
    pub operation_middleware : Around ResponseHandler
    pub response_middleware : Around Response
    pub field_middleware : Around FieldResult
    pub operation_parameter_mutators : List (Mutator State)
    pub operation_context_mutators : List (Mutator State)

  abbrev pub pass_on : {A : Type 0} → Around A
  pass_on ctx next = next ctx

  -- One round of the backward loop, for one kind of hook.
  abbrev pub wrap : {A : Type 0} → Option (Around A) → Around A → Around A
  wrap none previous = previous
  wrap (some p) previous = λ ctx next. p ctx (λ ctx'. previous ctx' next)

  abbrev pub appended : {A : Type 0} → List A → Option A → List A
  appended xs none = xs
  appended xs (some x) = xs ++ x ∷ []

  -- The backward loop: the last extension is met first.
  unfoldable pub wrap_all : List Extension → Extensions → Extensions
  wrap_all [] e = e
  wrap_all (p ∷ ps) e =
      let inner = wrap_all ps e in
      record inner {
        operation_middleware = wrap p.intercept_operation inner.operation_middleware;
        response_middleware = wrap p.intercept_response inner.response_middleware;
        field_middleware = wrap p.intercept_field inner.field_middleware;
      }

  -- The forward loop.
  unfoldable pub collect_mutators : List Extension → Extensions → Extensions
  collect_mutators [] e = e
  collect_mutators (p ∷ ps) e = collect_mutators ps (record e {
    operation_parameter_mutators = appended e.operation_parameter_mutators p.mutate_parameters;
    operation_context_mutators = appended e.operation_context_mutators p.mutate_context;
  })

  unfoldable pub process_extensions : List Extension → Extensions
  unfolding wrap_all collect_mutators
  process_extensions exts = collect_mutators exts (
      wrap_all exts (record {
        operation_middleware = pass_on;
        response_middleware = pass_on;
        field_middleware = pass_on;
        operation_parameter_mutators = [];
        operation_context_mutators = [];
      }))

  abbrev given : {A : Type 0} → Option A → Bool
  given none = false
  given (some a) = true

  abbrev has_hook : Extension → Bool
  has_hook p =
      given p.mutate_parameters
      || given p.mutate_context
      || given p.intercept_operation
      || given p.intercept_field
      || given p.intercept_response

  -- `Use`, on the fields `extensions` and `ext`.
  unfoldable pub use_extension :
      List Extension × Extensions → Extension → Outcome (List Extension × Extensions)
  unfolding process_extensions
  use_extension e extension = elim extension.validate [
    | some err ↦ panic err
    | none ↦
        if has_hook extension
        then (let all = e.0 ++ extension ∷ [] in ok (all, process_extensions all))
        else panic "does not implement any extension hooks"
  ]
