-- ===== src/Executor/Dispatch.antt =====
-- graphql/executor/executor.go: `DispatchOperation` and `DispatchError`, with graphql/oneshot.go.
-- A response handler is asked for one response after the other: its first argument is the number of
-- responses that it was asked for before.
pub mod Nesting
use fastgql.Prelude.{ℕ, zero, suc, Option, none, some, List, [], ◌∷◌, ◌++◌}
use fastgql.Graphql.Errors.{GqlError}
use fastgql.Executor.{Types, Extensions}

-- Data and extensions are passed on as they come.
module _ (Data Notes : Type 0) where
  pub record Response : Type 0 where
    pub errors : List GqlError
    pub json : Option Data  -- the field `Data`
    pub extensions : Option Notes

  module _ (Context FieldResult : Type 0) where
    abbrev pub ResponseHandler : Type 0
    ResponseHandler = ℕ → Context → Option Response

    unfoldable pub one_shot : Response → ResponseHandler
    one_shot r zero ctx = some r
    one_shot r (suc n) ctx = none

    abbrev pub types : Types
    types = record {
      Context = Context;
      ResponseHandler = ResponseHandler;
      Response = Option Response;
      FieldResult = FieldResult;
    }

    -- What the generated code gives: the responses, each with the errors and the extensions that
    -- were put in its response context meanwhile.
    abbrev pub Responses : Type 0
    Responses = ℕ → Context → Option (Response × (List GqlError × Option Notes))

    abbrev pub failed : List GqlError → Option Notes → Response
    failed errs notes = record { errors = errs; json = none; extensions = notes }

    unfoldable pub completed : Option (Response × (List GqlError × Option Notes)) → Option Response
    completed none = none
    completed (some (r, (errs, notes))) =
        some (record r { errors = r.errors ++ errs; extensions = notes })

    module _ {State : Type 0} (e : Extensions types State) where
      -- The inner handler, from what `Exec` gives and the errors that it reports at once.
      unfoldable pub respond : Responses × List GqlError → ResponseHandler
      unfolding completed one_shot
      respond (responses, []) n ctx =
          e.response_middleware ctx (λ ctx'. completed (responses n ctx'))
      respond (responses, err ∷ errs) n ctx = one_shot (failed (err ∷ errs) none) n ctx

      unfoldable pub dispatch_operation :
          (Context → Responses × List GqlError) → Context → ResponseHandler
      unfolding respond
      dispatch_operation exec ctx = e.operation_middleware ctx (λ ctx'. respond (exec ctx'))

      -- `AddError` puts the presented errors in the response context, where nothing reads them but
      -- a middleware: `present` is the context with them, `notes` reads the extensions.
      unfoldable pub dispatch_error :
          (List GqlError → Context → Context)
          → (Context → Option Notes)
          → Context
          → List GqlError
          → Option Response
      dispatch_error present notes ctx list =
          e.response_middleware (present list ctx) (λ ctx'. some (failed list (notes ctx')))
