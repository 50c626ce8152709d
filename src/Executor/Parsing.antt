-- ===== src/Executor/Parsing.antt =====
-- graphql/executor/executor.go: `parseQuery`, with the query cache.
use fastgql.Prelude.{◌≡◌, refl, sym, String, ◌⊎◌, inl, inr, Option, none, some, List, [], ◌∷◌}
use fastgql.Graphql.Errors.{GqlError, set_code, parse_failed, validation_failed}

-- A `graphql.Cache` of values V: reading may reorder the entries, adding may evict some. What is
-- relied on: a read gives only what was put under the key.
pub record Cache (V : Type 0) : Type 1 where
  pub Store : Type 0
  pub get : Store → String → Option V × Store
  pub add : Store → String → V → Store
  pub get_keeps :
      (s : Store) (k j : String) (v : V) → (get (get s k).1 j).0 ≡ some v → (get s j).0 ≡ some v
  pub add_only :
      (s : Store) (k j : String) (v w : V)
      → (get (add s k v) j).0 ≡ some w
      → ((k ≡ j) × (v ≡ w)) ⊎ ((get s j).0 ≡ some w)

pub data Parsed (Document : Type 0) : Type 0 where
  document : Document → Parsed Document
  errors : GqlError → List GqlError → Parsed Document

abbrev with_code : List GqlError → String → List GqlError
with_code [] code = []
with_code (e ∷ es) code = set_code e code ∷ with_code es code

-- `parse_query` and `validate` are gqlparser's, for the server's schema.
module _ (Document : Type 0) (parse : String → Document ⊎ GqlError)
    (validate : Document → List GqlError) where
  -- With an error a list that is not empty is returned.
  unfoldable pub validated : Document → List GqlError → Parsed Document
  validated doc [] = document doc
  validated doc (e ∷ es) = errors (set_code e validation_failed) (with_code es validation_failed)

  unfoldable pub parse_source : Document ⊎ GqlError → Parsed Document
  unfolding validated
  parse_source (inl doc) = validated doc (validate doc)
  parse_source (inr err) = errors (set_code err parse_failed) []

  module _ (c : Cache Document) where
    open c use {Store, get, add}

    unfoldable pub store_parsed : Store → String → Parsed Document → Store
    store_parsed s query (document doc) = add s query doc
    store_parsed s query (errors e es) = s

    -- The cached document is used, and anything else is stored.
    unfoldable pub answer :
        Store → String → Option Document → Parsed Document → Store × Parsed Document
    unfolding store_parsed
    answer s query (some doc) fresh = (s, document doc)
    answer s query none fresh = (store_parsed s query fresh, fresh)

    unfoldable pub parse_query : Store → String → Store × Parsed Document
    unfolding parse_source answer
    parse_query s query =
        let (cached, s') = get s query in answer s' query cached (parse_source (parse query))

    -- Every cached document is the one that its query gives.
    abbrev pub IsCoherent : Store → Type 0
    IsCoherent s =
        (query : String) (doc : Document)
        → (get s query).0 ≡ some doc
        → parse_source (parse query) ≡ document doc

    store_parsed-IsCoherent :
        (s : Store) (query : String) (r : Parsed Document)
        → IsCoherent s
        → parse_source (parse query) ≡ r
        → IsCoherent (store_parsed s query r)
    unfolding store_parsed
    store_parsed-IsCoherent s query (errors e es) h fresh j w found = h j w found
    store_parsed-IsCoherent s query (document doc) h fresh j w found =
        elim (c.add_only s query j doc w found) [
          | inl (same, value) ↦ rw (← same, ← value) fresh
          | inr old ↦ h j w old
        ]

    parse_query-cases :
        (s : Store) (query : String) (cached : Option Document)
        → (get s query).0 ≡ cached
        → IsCoherent s
        → ((parse_query s query).1 ≡ parse_source (parse query))
          × IsCoherent (parse_query s query).0
    unfolding parse_query answer
    parse_query-cases s query none miss h = rw miss (
      refl,
      store_parsed-IsCoherent (get s query).1 query (parse_source (parse query))
          (λ j w found. h j w (c.get_keeps s query j w found)) refl,
    )
    parse_query-cases s query (some doc) hit h =
        rw hit (sym (h query doc hit), λ j w found. h j w (c.get_keeps s query j w found))

-- The query cache is never seen: from a coherent cache `parseQuery` returns what parsing and
-- validating the query afresh returns, and leaves a coherent cache.
pub parse_query-fresh :
    (Document : Type 0) (parse : String → Document ⊎ GqlError) (validate : Document → List GqlError)
    (c : Cache Document) (s : Cache.Store c) (query : String)
    → IsCoherent Document parse validate c s
    → ((parse_query Document parse validate c s query).1
        ≡ parse_source Document parse validate (parse query))
      × IsCoherent Document parse validate c (parse_query Document parse validate c s query).0
parse_query-fresh Document parse validate c s query h =
    parse_query-cases Document parse validate c s query (c.get s query).0 refl h
