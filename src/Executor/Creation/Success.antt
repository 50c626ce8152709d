-- ===== src/Executor/Creation/Success.antt =====
-- graphql/executor/executor.go: when `CreateOperationContext` succeeds.
use fastgql.Prelude.{◌≡◌, refl, sym, ◌⊎◌, inl, inr, Option, none, some, List, []}
use fastgql.Graphql.Errors.{GqlError}
use fastgql.Executor.{Mutator, run_mutators}
use fastgql.Executor.Parsing.{
  Cache, Parsed, document, errors, parse_source, parse_query, parse_query-fresh, IsCoherent,
}
use fastgql.Executor.Creation.{
  Host, RawParams, Call, start, named, listed, with_variables, with_operation, with_document,
  after_parameters, create_operation_context,
}

module _ (h : Host) where
  open h use {Document, Operation, Values, World, parse, validate, for_name, variable_values}

  -- The call that the context mutators are given.
  abbrev pub complete : Call h → Document → Operation → Values → Call h
  complete call doc op values =
      let n = named h call in
      record n {
        context = record n.context { doc = some doc; operation = some op; variables = some values };
      }

  -- All that the operation stands on: the query, as the mutators leave it, is parsed and validated to
  -- the document, which has the operation, for which the variables have values, and no mutator
  -- objects.
  pub record IsCreated (parameter_mutators context_mutators : List (Mutator (Call h)))
      (params : RawParams h) (world : World) (result : Call h) : Type 0 where
    pub call : Call h
    pub doc : Document
    pub op : Operation
    pub values : Values
    pub settled : run_mutators (Call h) parameter_mutators (start h params world) ≡ (call, none)
    pub parsed : parse_source Document parse validate (parse call.params.query) ≡ document doc
    pub found : for_name doc call.params.operation_name ≡ some op
    pub coerced : variable_values op call.params.variables ≡ inl values
    pub accepted :
        run_mutators (Call h) context_mutators (complete call doc op values) ≡ (result, none)

  listed-accepted :
      (r : Call h × Option GqlError) → (listed h r).1 ≡ [] → r ≡ ((listed h r).0, none)
  listed-accepted (call, none) e = refl
  listed-accepted (call, some err) e = cc

  -- What a success shows, step by step from the last.
  module _ (pms ms : List (Mutator (Call h))) (params : RawParams h) (world : World) (call : Call h)
      (settled : run_mutators (Call h) pms (start h params world) ≡ (call, none)) where
    module _ (doc : Document)
        (parsed : parse_source Document parse validate (parse call.params.query)
          ≡ document doc) where
      abbrev with_doc : Call h
      with_doc = let n = named h call in record n { context = record n.context { doc = some doc } }

      with_variables-IsCreated :
          (op : Operation) (v : Values ⊎ GqlError)
          → for_name doc call.params.operation_name ≡ some op
          → variable_values op call.params.variables ≡ v
          → let n = record with_doc { context = record with_doc.context { operation = some op } } in
            ((with_variables h ms n v).1 ≡ []
              → IsCreated pms ms params world (with_variables h ms n v).0)
      unfolding with_variables
      with_variables-IsCreated op (inr err) found coerced e = cc
      with_variables-IsCreated op (inl values) found coerced e = record {
        call = call;
        doc = doc;
        op = op;
        values = values;
        settled = settled;
        parsed = parsed;
        found = found;
        coerced = coerced;
        accepted = listed-accepted (run_mutators (Call h) ms (complete call doc op values)) e;
      }

      with_operation-IsCreated :
          (o : Option Operation)
          → for_name doc call.params.operation_name ≡ o
          → (with_operation h ms with_doc o).1 ≡ []
          → IsCreated pms ms params world (with_operation h ms with_doc o).0
      unfolding with_operation
      with_operation-IsCreated none found e = cc
      with_operation-IsCreated (some op) found e =
          with_variables-IsCreated op (variable_values op call.params.variables) found refl e

    with_document-IsCreated :
        (p : Parsed Document)
        → parse_source Document parse validate (parse call.params.query) ≡ p
        → (with_document h ms (named h call) p).1 ≡ []
        → IsCreated pms ms params world (with_document h ms (named h call) p).0
    unfolding with_document
    with_document-IsCreated (errors err errs) parsed e = cc
    with_document-IsCreated (document doc) parsed e =
        with_operation-IsCreated doc parsed (for_name doc call.params.operation_name) refl e

  module _ (c : Cache Document) (s : Cache.Store c)
      (coherent : IsCoherent Document parse validate c s) (pms ms : List (Mutator (Call h)))
      (params : RawParams h) (world : World) where
    after_parameters-IsCreated :
        (r : Call h × Option GqlError)
        → run_mutators (Call h) pms (start h params world) ≡ r
        → (after_parameters h c ms s r).1.1 ≡ []
        → IsCreated pms ms params world (after_parameters h c ms s r).1.0
    unfolding after_parameters
    after_parameters-IsCreated (call, some err) settled e = cc
    after_parameters-IsCreated (call, none) settled e =
        with_document-IsCreated pms ms params world call settled
          (parse_query Document parse validate c s call.params.query).1
          (sym (parse_query-fresh Document parse validate c s call.params.query coherent).0) e

-- From a coherent query cache, `CreateOperationContext` reports no error only for an operation of a
-- document that the query, as the parameter mutators leave it, is parsed and validated to, whose
-- variables have the values in the context, and which no mutator objects to.
pub create_operation_context-IsCreated :
    (h : Host) (c : Cache (Host.Document h)) (s : Cache.Store c) (pms ms : List (Mutator (Call h)))
    (params : RawParams h) (world : Host.World h)
    → IsCoherent (Host.Document h) h.parse h.validate c s
    → (create_operation_context h c pms ms s params world).1.1 ≡ []
    → IsCreated h pms ms params world (create_operation_context h c pms ms s params world).1.0
unfolding create_operation_context
create_operation_context-IsCreated h c s pms ms params world coherent e =
    after_parameters-IsCreated h c s coherent pms ms params world
      (run_mutators (Call h) pms (start h params world)) refl e
