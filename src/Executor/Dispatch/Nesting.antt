-- ===== src/Executor/Dispatch/Nesting.antt =====
-- graphql/executor/executor.go: `DispatchOperation` under the extensions of an executor.
use fastgql.Prelude.{zero, suc, none, some, List, [], ◌∷◌}
use fastgql.Graphql.Errors.{GqlError}
use fastgql.Executor.{Types, Extension}
use fastgql.Executor.Middleware.{hooks, onion}
use fastgql.Executor.Dispatch.{ResponseHandler, types, Responses, completed}

module _ (Data Notes Context FieldResult State : Type 0) where
  abbrev pub handled : Types
  handled = types Data Notes Context FieldResult

  -- What the operation interceptors are around, by the errors that `Exec` reports at once. Without any:
  -- each response, with the errors and extensions of its response context, inside the response
  -- interceptors. With some: one response, of the errors alone, outside of them.
  abbrev pub nested :
      List (Extension handled State)
      → Responses Data Notes Context FieldResult
      → List GqlError
      → ResponseHandler Data Notes Context FieldResult
  nested exts responses [] n ctx =
      onion handled State (hooks handled State (λ p. p.intercept_response) exts) ctx
        (λ c. completed Data Notes Context FieldResult (responses n c))
  nested exts responses (err ∷ errs) zero ctx =
      some (record { errors = err ∷ errs; json = none; extensions = none })
  nested exts responses (err ∷ errs) (suc n) ctx = none
