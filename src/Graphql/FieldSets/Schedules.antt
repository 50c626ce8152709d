-- ===== src/Graphql/FieldSets/Schedules.antt =====
-- graphql/fieldset.go: every schedule of the goroutines of `Dispatch` gives the same values.
use fastgql.Prelude.{ℕ, ◌≡◌, ◌≢◌, none, some, List, [], ◌∷◌, All, ◌<◌}
use fastgql.Graphql.FieldSets.{DelayedResult, Memory, Running, run_task}

module _ (Shared : Type 0) where
  -- Two delayed functions are for different fields, and neither the texts that they give nor the shared
  -- state that they leave depend on which of them runs first.
  pub record Independent (d e : DelayedResult Shared) : Type 0 where
    pub apart : d.i ≢ e.i
    pub shared : (s : Shared) → (e.f (d.f s).0).0 ≡ (d.f (e.f s).0).0
    pub first : (s : Shared) → (d.f (e.f s).0).1 ≡ (d.f s).1
    pub second : (s : Shared) → (e.f (d.f s).0).1 ≡ (e.f s).1

  abbrev pub AreIndependent : List (DelayedResult Shared) → Type 0
  AreIndependent [] = Unit
  AreIndependent (d ∷ ds) = All (Independent d) ds × AreIndependent ds

  -- The tasks one after the other.
  abbrev pub run_all : List (DelayedResult Shared) → Memory Shared → Memory Shared
  run_all [] m = m
  run_all (d ∷ ds) m = run_all ds (run_task Shared d m)

  -- What is not done.
  abbrev left : Running Shared → List (DelayedResult Shared)
  left r = elim r.own [ none ↦ r.goroutines | some d ↦ d ∷ r.goroutines ]

  -- Every function has its field.
  abbrev pub HaveFields : ℕ → List (DelayedResult Shared) → Type 0
  HaveFields n ds = All (λ d. d.i < n) ds
