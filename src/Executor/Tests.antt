-- ===== src/Executor/Tests.antt =====
-- Runs of the executor's parts, and its theorems at inputs.
use fastgql.Executor.Dispatch.{types, Responses}
use fastgql.Prelude.{
  zero, suc, ℕ, ◌≡◌, refl, String, inl, inr, none, some, List, [], ◌∷◌, if◌then◌else◌, str_eq,
}
use fastgql.Graphql.Errors.{GqlError}
use fastgql.Extension.Caches.{lookup, map_cache}
use fastgql.Executor.{Types, Extension, Mutator, run_mutators, process_extensions}
use fastgql.Executor.Middleware.{hooks, onion, process_extensions-onion}
use fastgql.Executor.Parsing.{IsCoherent, parse_query, parse_query-fresh}
use fastgql.Executor.Creation.{Host, RawParams, Call, create_operation_context}
use fastgql.Executor.Creation.Success.{IsCreated, create_operation_context-IsCreated}
use fastgql.Executor.Creation.Caching.{no_cache, create_operation_context-no_cache}

-- Handlers that list what has run.
abbrev traced : Types
traced = record { Context = ℕ; ResponseHandler = List ℕ; Response = List ℕ; FieldResult = List ℕ }

abbrev tracing : ℕ → Extension traced ℕ
tracing n = record {
  validate = none;
  intercept_operation = some (λ ctx next. n ∷ next ctx);
  intercept_response = none;
  intercept_field = none;
  mutate_parameters = some (λ s. (s, none));
  mutate_context = none;
}

abbrev two : List (Extension traced ℕ)
two = tracing 1 ∷ tracing 2 ∷ []

runs : (process_extensions traced ℕ two).operation_middleware 7 (λ c. c ∷ []) ≡ 1 ∷ 2 ∷ 7 ∷ []
unfolding process_extensions
runs = refl

process_extensions-onion_example :
    ((process_extensions traced ℕ two).operation_middleware
      ≡ onion traced ℕ (hooks traced ℕ (λ p. p.intercept_operation) two))
    × ((process_extensions traced ℕ two).response_middleware
        ≡ onion traced ℕ (hooks traced ℕ (λ p. p.intercept_response) two))
    × ((process_extensions traced ℕ two).field_middleware
        ≡ onion traced ℕ (hooks traced ℕ (λ p. p.intercept_field) two))
    × ((process_extensions traced ℕ two).operation_parameter_mutators
        ≡ hooks traced ℕ (λ p. p.mutate_parameters) two)
    × ((process_extensions traced ℕ two).operation_context_mutators
        ≡ hooks traced ℕ (λ p. p.mutate_context) two)
process_extensions-onion_example = process_extensions-onion traced ℕ two

abbrev failure : String → GqlError
failure text = record { message = text; path = none; code = none }

-- Every text but "bad" is a document with one operation.
abbrev sample : Host
sample = record {
  Document = String;
  Operation = String;
  RawVariables = ℕ;
  RawExtensions = Unit {0};
  Values = ℕ;
  World = Unit {0};
  parse = λ query. if str_eq query "bad" then inr (failure "no document") else inl query;
  validate = λ doc. [];
  for_name = λ doc name. some doc;
  variable_values = λ op raw. inl raw;
  not_found = failure;
}

nothing-IsCoherent : IsCoherent String (Host.parse sample) (Host.validate sample) map_cache []
unfolding lookup
nothing-IsCoherent query doc found = cc

-- The cache after a query.
abbrev warm : List (String × String)
warm = (parse_query String (Host.parse sample) (Host.validate sample) map_cache [] "{ a }").0

warm-IsCoherent : IsCoherent String (Host.parse sample) (Host.validate sample) map_cache warm
warm-IsCoherent =
    (parse_query-fresh String (Host.parse sample) (Host.validate sample) map_cache [] "{ a }"
      nothing-IsCoherent).1

abbrev params : RawParams sample
params = record { query = "{ a }"; operation_name = ""; variables = 3; extensions = tt }

abbrev allowing : Mutator (Call sample)
allowing call = (call, none)

succeeds :
    (create_operation_context sample map_cache (allowing ∷ []) (allowing ∷ []) warm params tt).1.1
    ≡ []
unfolding create_operation_context run_mutators parse_query lookup
succeeds = refl

create_operation_context-IsCreated_example :
    IsCreated sample
      (allowing ∷ [])
      (allowing ∷ [])
      params
      tt
      (create_operation_context sample map_cache (allowing ∷ []) (allowing ∷ []) warm params tt).1.0
create_operation_context-IsCreated_example =
    create_operation_context-IsCreated sample map_cache warm (allowing ∷ []) (allowing ∷ []) params
      tt warm-IsCoherent succeeds

create_operation_context-no_cache_example :
    ((create_operation_context sample map_cache (allowing ∷ []) [] warm params tt).1
      ≡ (create_operation_context sample no_cache (allowing ∷ []) [] tt params tt).1)
    × IsCoherent String
        (Host.parse sample)
        (Host.validate sample)
        map_cache
        (create_operation_context sample map_cache (allowing ∷ []) [] warm params tt).0
create_operation_context-no_cache_example =
    create_operation_context-no_cache sample map_cache warm (allowing ∷ []) [] params tt
      warm-IsCoherent

abbrev one_response : Responses String ℕ ℕ ℕ
one_response zero ctx =
    some (record { errors = []; json = some "1"; extensions = none }, (failure "late" ∷ [], none))
one_response (suc n) ctx = none

-- Responses are texts; the generated code gives one and an error with it.
abbrev subscription : ℕ → Responses String ℕ ℕ ℕ × List GqlError
subscription ctx = (one_response, [])

abbrev counting : Extension (types String ℕ ℕ ℕ) ℕ
counting = record {
  validate = none;
  intercept_operation = some (λ ctx next. next (suc ctx));
  intercept_response = some (λ ctx next. next (suc ctx));
  intercept_field = none;
  mutate_parameters = none;
  mutate_context = none;
}
