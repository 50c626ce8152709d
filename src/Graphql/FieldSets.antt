-- ===== src/Graphql/FieldSets.antt =====
-- graphql/fieldset.go. A marshaler is the text that it writes; a value that is not there yet is a nil
-- marshaler. The delayed functions share a state, as the response context with its errors is; what one of
-- them does with it, under the mutex of that state, and the store of its value are one step.
pub mod Schedules
use fastgql.Prelude.{ℕ, ◌≡◌, Option, none, some, List, [], ◌∷◌, ◌++◌, set, length, ◌<◌}
use fastgql.Prelude.Outcome.{Outcome, ok, panic, ◌>>=◌}
use fastgql.Prelude.Text.{Bytes}
use fastgql.Graphql.Quoting.{write_quoted_string}

abbrev no_values : List Bytes → List (Option Bytes)
no_values [] = []
no_values (x ∷ xs) = none ∷ no_values xs

-- The fields from a position on; a nil marshaler panics.
unfoldable pub marshal_from : List Bytes → List (Option Bytes) → Outcome Bytes
marshal_from [] values = ok []
marshal_from (alias ∷ fields) [] = panic "index out of range"
marshal_from (alias ∷ fields) (none ∷ values) = panic "nil pointer dereference"
marshal_from (alias ∷ fields) (some text ∷ values) = marshal_from fields values >>= λ rest.
    ok (b',' ∷ write_quoted_string alias ++ b':' ∷ text ++ rest)

-- The comma before the first field is not written.
abbrev without_comma : Bytes → Bytes
without_comma [] = []
without_comma (c ∷ s) = s

unfoldable pub marshal_gql : List Bytes → List (Option Bytes) → Outcome Bytes
unfolding marshal_from
marshal_gql fields values =
    marshal_from fields values >>= λ text. ok (b'{' ∷ without_comma text ++ b'}' ∷ [])

module _ (Shared : Type 0) where
  pub record DelayedResult : Type 0 where
    pub i : ℕ
    pub f : Shared → Shared × Bytes

  -- The aliases of the fields, the values, and what is to be done concurrently.
  pub record FieldSet : Type 0 where
    pub fields : List Bytes
    pub values : List (Option Bytes)
    pub delayed : List DelayedResult

  unfoldable pub new_field_set : List Bytes → FieldSet
  new_field_set fields = record { fields = fields; values = no_values fields; delayed = [] }

  unfoldable pub concurrently : FieldSet → ℕ → (Shared → Shared × Bytes) → FieldSet
  concurrently m i f = record m { delayed = m.delayed ++ record { i = i; f = f } ∷ [] }

  -- What goroutines write: the shared state and the values.
  pub record Memory : Type 0 where
    pub shared : Shared
    pub values : List (Option Bytes)

  -- `m.Values[d.i] = d.f()`.
  unfoldable pub run_task : DelayedResult → Memory → Memory
  run_task d m = record {
    shared = (d.f m.shared).0;
    values = set m.values d.i (some (d.f m.shared).1);
  }

  -- `Dispatch` while it runs: what its own goroutine has to do before it waits, and the tasks of the other
  -- goroutines that are not done, which the WaitGroup counts.
  pub record Running : Type 0 where
    pub memory : Memory
    pub own : Option DelayedResult
    pub goroutines : List DelayedResult

  abbrev divided : List DelayedResult → Memory → Running
  divided [] m = record { memory = m; own = none; goroutines = [] }
  divided (d ∷ []) m = record { memory = m; own = some d; goroutines = [] }
  divided (d ∷ e ∷ ds) m = record { memory = m; own = some d; goroutines = e ∷ ds }

  -- The start of `Dispatch`: with one task there is no other goroutine.
  unfoldable pub dispatch : FieldSet → Shared → Running
  dispatch m shared = divided m.delayed (record { shared = shared; values = m.values })

  -- A turn of one goroutine. One whose index is out of range has no turn: it panics, and `Dispatch` does
  -- not return.
  pub data Step : Running → Running → Type 0 where
    own_turn :
        {m : Memory} (d : DelayedResult) (gs : List DelayedResult)
        → d.i < length m.values
        → Step
            (record { memory = m; own = some d; goroutines = gs })
            (record { memory = run_task d m; own = none; goroutines = gs })
    other_turn :
        {m : Memory} {o : Option DelayedResult} (before : List DelayedResult) (d : DelayedResult)
        (behind : List DelayedResult)
        → d.i < length m.values
        → Step
            (record { memory = m; own = o; goroutines = before ++ d ∷ behind })
            (record { memory = run_task d m; own = o; goroutines = before ++ behind })

  -- `Dispatch` has returned: its own task is done and the WaitGroup is at zero.
  abbrev pub ended : Memory → Running
  ended m = record { memory = m; own = none; goroutines = [] }

  -- All turns until `Dispatch` returns.
  pub data Returns : Running → Memory → Type 0 where
    returned : {m : Memory} → Returns (ended m) m
    turn : {r r' : Running} {m : Memory} → Step r r' → Returns r' m → Returns r m
