-- ===== src/Executor/Creation.antt =====
-- graphql/executor/executor.go: `CreateOperationContext`, and `RawParams` and `OperationContext` of
-- graphql/handler.go and graphql/context_operation.go.
pub mod Success
pub mod Caching
use fastgql.Prelude.{
  ◌≡◌, refl, sym, ap, String, Bool, true, false, ◌⊎◌, inl, inr, Option, none, some, List, [], ◌∷◌,
}
use fastgql.Graphql.Errors.{GqlError, set_code, validation_failed}
use fastgql.Executor.{Mutator, run_mutators}
use fastgql.Executor.Parsing.{
  Cache, Parsed, document, errors, parse_source, parse_query, parse_query-fresh, IsCoherent,
}

-- What gqlparser does for the server's schema, and the types that the code passes on.
pub record Host : Type 1 where
  pub Document : Type 0
  pub Operation : Type 0
  pub RawVariables : Type 0
  pub RawExtensions : Type 0
  pub Values : Type 0
  pub World : Type 0  -- statistics, caches of extensions, and all else that mutators reach
  pub parse : String → Document ⊎ GqlError
  pub validate : Document → List GqlError
  pub for_name : Document → String → Option Operation
  pub variable_values : Operation → RawVariables → Values ⊎ GqlError
  pub not_found : String → GqlError

module _ (h : Host) where
  open h use {
    Document, Operation, RawVariables, RawExtensions, Values, World, parse, validate, for_name,
    variable_values, not_found,
  }

  pub record RawParams : Type 0 where
    pub query : String
    pub operation_name : String
    pub variables : RawVariables
    pub extensions : RawExtensions

  pub record OperationContext : Type 0 where
    pub raw_query : String
    pub operation_name : String
    pub doc : Option Document
    pub operation : Option Operation
    pub variables : Option Values
    pub disable_introspection : Bool

  -- What a mutator is given: the parameters, the context and the rest.
  pub record Call : Type 0 where
    pub params : RawParams
    pub context : OperationContext
    pub world : World

  abbrev pub start : RawParams → World → Call
  start p w = record {
    params = p;
    context = record {
      raw_query = "";
      operation_name = "";
      doc = none;
      operation = none;
      variables = none;
      disable_introspection = true;
    };
    world = w;
  }

  abbrev pub listed : Call × Option GqlError → Call × List GqlError
  listed (call, none) = (call, [])
  listed (call, some err) = (call, err ∷ [])

  unfoldable pub with_variables :
      List (Mutator Call) → Call → Values ⊎ GqlError → Call × List GqlError
  with_variables ms call (inl values) = listed (
      run_mutators Call ms
        (record call { context = record call.context { variables = some values } }))
  with_variables ms call (inr err) = (call, set_code err validation_failed ∷ [])

  unfoldable pub with_operation :
      List (Mutator Call) → Call → Option Operation → Call × List GqlError
  unfolding with_variables
  with_operation ms call none = (call, not_found call.params.operation_name ∷ [])
  with_operation ms call (some op) =
      with_variables ms (record call { context = record call.context { operation = some op } })
        (variable_values op call.params.variables)

  unfoldable pub with_document : List (Mutator Call) → Call → Parsed Document → Call × List GqlError
  unfolding with_operation
  with_document ms call (errors e es) = (call, e ∷ es)
  with_document ms call (document doc) =
      with_operation ms (record call { context = record call.context { doc = some doc } })
        (for_name doc call.params.operation_name)

  -- The context once the parameters are settled.
  abbrev pub named : Call → Call
  named call = record call {
    context = record call.context {
      raw_query = call.params.query;
      operation_name = call.params.operation_name;
    };
  }

  module _ (c : Cache Document) where
    -- The steps after the parameter mutators, and their error.
    unfoldable pub after_parameters :
        List (Mutator Call)
        → Cache.Store c
        → Call × Option GqlError
        → Cache.Store c × (Call × List GqlError)
    unfolding with_document
    after_parameters ms s (call, some err) = (s, (call, err ∷ []))
    after_parameters ms s (call, none) =
        let (s', parsed) = parse_query Document parse validate c s call.params.query in
        (s', with_document ms (named call) parsed)

    unfoldable pub create_operation_context :
        List (Mutator Call)
        → List (Mutator Call)
        → Cache.Store c
        → RawParams
        → World
        → Cache.Store c × (Call × List GqlError)
    unfolding after_parameters
    create_operation_context parameter_mutators context_mutators s params world =
        after_parameters context_mutators s
          (run_mutators Call parameter_mutators (start params world))
