-- ===== src/Extension/Apq.antt =====
-- graphql/handler/extension/apq.go.
use fastgql.Prelude.{
  ◌≡◌, refl, String, inl, inr, Option, none, some, if◌then◌else◌, str_eq, str_eq_iff, ◌==◌, Bool,
  true, false, Bool-cases,
}
use fastgql.Prelude.Outcome.{Outcome, ok, panic, Ensures}
use fastgql.Prelude.Int.{ℤ, pos, negsuc}
use fastgql.Graphql.Errors.{GqlError, set_code}
use fastgql.Executor.Parsing.{Cache}

abbrev pub not_found_code : String
not_found_code = "PERSISTED_QUERY_NOT_FOUND"

abbrev error : String → GqlError
error text = record { message = text; path = none; code = none }

-- The struct that "persistedQuery" is decoded to.
pub record Extension : Type 0 where
  pub sha256 : String
  pub version : ℤ

pub record ApqStats : Type 0 where
  pub hash : String
  pub sent_query : Bool

abbrev is_one : ℤ → Bool
is_one (pos n) = n == 1
is_one (negsuc n) = false

-- `hash` stands for `computeQueryHash` (crypto/sha256 and encoding/hex). What the mutator reads and
-- changes is the query of the parameters, the cache and the statistics.
-- The statistics are the operation context's, which `GetOperationContext` takes from the context of the
-- call: `in_context` tells whether it is there.
module _ (c : Cache String) (hash : String → String) (in_context : Bool) where
  open c use {Store, get, add}

  pub record State : Type 0 where
    pub query : String
    pub cache : Store
    pub stats : Option ApqStats

  abbrev recorded : State → String → Bool → Outcome (State × Option GqlError)
  recorded s sha full =
      if in_context
      then ok (record s { stats = some (record { hash = sha; sent_query = full }) }, none)
      else panic "missing operation context"

  unfoldable pub optimistic :
      State → String → Option String × Store → Outcome (State × Option GqlError)
  optimistic s sha (none, cache') =
      ok (
        record s { cache = cache' },
        some (set_code (error "PersistedQueryNotFound") not_found_code),
      )
  optimistic s sha (some query, cache') =
      recorded (record s { query = query; cache = cache' }) sha false

  unfoldable pub verified : State → String → Outcome (State × Option GqlError)
  verified s sha =
      if str_eq (hash s.query) sha
      then recorded (record s { cache = add s.cache sha s.query }) sha true
      else ok (s, some (error "provided APQ hash does not match query"))

  -- The entry "persistedQuery": missing, not to be decoded, or decoded.
  unfoldable pub mutate_operation_parameters :
      Option (Option Extension) → State → Outcome (State × Option GqlError)
  unfolding optimistic verified
  mutate_operation_parameters none s = ok (s, none)
  mutate_operation_parameters (some none) s = ok (s, some (error "invalid APQ extension data"))
  mutate_operation_parameters (some (some x)) s =
      if is_one x.version
      then (if str_eq s.query ""
          then optimistic s x.sha256 (get s.cache x.sha256)
          else verified s x.sha256)
      else ok (s, some (error "unsupported APQ version"))

  -- Every query in the cache stands under its hash.
  abbrev pub IsHashed : Store → Type 0
  IsHashed cache = (sha query : String) → (get cache sha).0 ≡ some query → hash query ≡ sha

  add-IsHashed :
      (cache : Store) (query sha : String)
      → IsHashed cache
      → hash query ≡ sha
      → IsHashed (add cache sha query)
  add-IsHashed cache query sha h e sha' query' found =
      elim (c.add_only cache sha sha' query query' found) [
        | inl (same, value) ↦ rw (← same, ← value) e
        | inr old ↦ h sha' query' old
      ]

  -- What the mutator owes: if it reports no error, the query has the hash that was sent.
  abbrev pub Agrees : String → State × Option GqlError → Type 0
  Agrees sha (s, none) = (hash s.query ≡ sha) × IsHashed s.cache
  Agrees sha (s, some e) = IsHashed s.cache

  recorded_lem :
      (s : State) (sha : String) (full : Bool)
      → hash s.query ≡ sha
      → IsHashed s.cache
      → Ensures (Agrees sha) (recorded s sha full)
  recorded_lem s sha full e h = elim (Bool-cases in_context) [
    | inl there ↦ rw there (e, h)
    | inr missing ↦ rw missing tt
  ]

  optimistic_lem :
      (s : State) (sha : String) (r : Option String × Store)
      → ((query : String) → r.0 ≡ some query → hash query ≡ sha)
      → IsHashed r.1
      → Ensures (Agrees sha) (optimistic s sha r)
  unfolding optimistic
  optimistic_lem s sha (none, cache') hit kept = kept
  optimistic_lem s sha (some query, cache') hit kept =
      recorded_lem (record s { query = query; cache = cache' }) sha false (hit query refl) kept

  verified_lem :
      (s : State) (sha : String) → IsHashed s.cache → Ensures (Agrees sha) (verified s sha)
  unfolding verified
  verified_lem s sha h = elim (Bool-cases (str_eq (hash s.query) sha)) [
    | inl same ↦
        let e = (str_eq_iff (hash s.query) sha).0 same in
        rw same (
          recorded_lem (record s { cache = add s.cache sha s.query }) sha true e
            (add-IsHashed s.cache s.query sha h e))
    | inr other ↦ rw other h
  ]

  parameters_lem :
      (x : Extension) (s : State)
      → IsHashed s.cache
      → Ensures (Agrees x.sha256) (mutate_operation_parameters (some (some x)) s)
  unfolding mutate_operation_parameters
  parameters_lem x s h = elim (Bool-cases (is_one x.version)) [
    | inl one ↦ elim (Bool-cases (str_eq s.query "")) [
      | inl absent ↦
          rw (one, absent)
            (optimistic_lem s x.sha256 (get s.cache x.sha256)
              (λ query found. h x.sha256 query found)
              (λ sha query found. h sha query (c.get_keeps s.cache x.sha256 sha query found)))
      | inr sent ↦ rw (one, sent) (verified_lem s x.sha256 h)
    ]
    | inr other ↦ rw other h
  ]

-- With a cache whose queries stand under their hashes: if the mutator reports no error for a
-- persisted query, the query that is run has the hash that the client sent, wherever it came from;
-- and whatever it reports, the cache is left with its queries under their hashes.
pub mutate_operation_parameters-Agrees :
    (c : Cache String) (hash : String → String) (in_context : Bool) (x : Extension)
    (s : State c hash in_context)
    → IsHashed c hash in_context s.cache
    → Ensures
        (Agrees c hash in_context x.sha256)
        (mutate_operation_parameters c hash in_context (some (some x)) s)
mutate_operation_parameters-Agrees c hash in_context x s h = parameters_lem c hash in_context x s h

abbrev pub seen :
    (c : Cache String) (hash : String → String)
    → State c hash true × Option GqlError
    → Outcome (String × Option GqlError)
seen c hash (s, err) = ok (s.query, err)
