-- ===== src/Executor/Creation/Caching.antt =====
-- graphql/cache.go `NoCache`, and graphql/executor/executor.go: what the query cache changes.
use fastgql.Prelude.{◌≡◌, refl, inr, Option, none, some, List}
use fastgql.Graphql.Errors.{GqlError}
use fastgql.Executor.{Mutator, run_mutators}
use fastgql.Executor.Parsing.{Cache, parse_query-fresh, IsCoherent}
use fastgql.Executor.Creation.{
  Host, RawParams, Call, start, after_parameters, create_operation_context,
}

abbrev pub no_cache : {V : Type 0} → Cache V
no_cache = record {
  Store = Unit {0};
  get = λ s k. (none, s);
  add = λ s k v. s;
  get_keeps = λ s k j v found. found;
  add_only = λ s k j v w found. inr found;
}

module _ (h : Host) (c : Cache (Host.Document h)) (s : Cache.Store c) where
  open h use {Document, World, parse, validate}

  no_cache-IsCoherent : IsCoherent Document parse validate no_cache tt
  no_cache-IsCoherent query doc found = cc

  after_parameters-eq :
      (ms : List (Mutator (Call h))) (r : Call h × Option GqlError)
      → IsCoherent Document parse validate c s
      → ((after_parameters h c ms s r).1 ≡ (after_parameters h no_cache ms tt r).1)
        × IsCoherent Document parse validate c (after_parameters h c ms s r).0
  unfolding after_parameters
  after_parameters-eq ms (call, some err) coherent = (refl, coherent)
  after_parameters-eq ms (call, none) coherent =
      let query = call.params.query in
      let (same, kept) = parse_query-fresh Document parse validate c s query coherent in
      let (same', kept') =
        parse_query-fresh Document parse validate no_cache tt query no_cache-IsCoherent in
      (rw (same, same') refl, kept)

-- With a coherent query cache, `CreateOperationContext` gives the context and the errors that it
-- gives without a cache, and leaves a coherent cache.
pub create_operation_context-no_cache :
    (h : Host) (c : Cache (Host.Document h)) (s : Cache.Store c) (pms ms : List (Mutator (Call h)))
    (params : RawParams h) (world : Host.World h)
    → IsCoherent (Host.Document h) h.parse h.validate c s
    → ((create_operation_context h c pms ms s params world).1
        ≡ (create_operation_context h no_cache pms ms tt params world).1)
      × IsCoherent
          (Host.Document h)
          h.parse
          h.validate
          c
          (create_operation_context h c pms ms s params world).0
unfolding create_operation_context
create_operation_context-no_cache h c s pms ms params world coherent =
    after_parameters-eq h c s ms (run_mutators (Call h) pms (start h params world)) coherent
