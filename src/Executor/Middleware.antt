-- ===== src/Executor/Middleware.antt =====
-- graphql/executor/extensions.go: the order in which extensions run.
use fastgql.Prelude.{
  ◌≡◌, refl, ap, sym, ◌∙◌, Option, none, some, List, [], ◌∷◌, ◌++◌, append_assoc, append-nil,
}
use fastgql.Executor.{
  Types, Around, Extension, Extensions, pass_on, wrap, appended, wrap_all, collect_mutators,
  process_extensions,
}

module _ (t : Types) (State : Type 0) where
  -- The hooks of one kind, in the order of the extensions.
  abbrev pub hooks :
      {A : Type 0} → (Extension t State → Option A) → List (Extension t State) → List A
  hooks hook [] = []
  hooks hook (p ∷ ps) = appended t State [] (hook p) ++ hooks hook ps

  -- The first interceptor runs first, around all that follow, and the handler runs last.
  abbrev pub onion : {A : Type 0} → List (Around t State A) → Around t State A
  onion [] ctx next = next ctx
  onion (p ∷ ps) ctx next = p ctx (λ ctx'. onion ps ctx' next)

  wrap-onion :
      {A : Type 0} (p : Option (Around t State A)) (ps : List (Around t State A))
      → wrap t State p (onion ps) ≡ onion (appended t State [] p ++ ps)
  wrap-onion none ps = refl
  wrap-onion (some p) ps = refl

  initial : Extensions t State
  initial = record {
    operation_middleware = pass_on t State;
    response_middleware = pass_on t State;
    field_middleware = pass_on t State;
    operation_parameter_mutators = [];
    operation_context_mutators = [];
  }

  wrap_all-onion :
      (exts : List (Extension t State))
      → ((wrap_all t State exts initial).operation_middleware
          ≡ onion (hooks (λ p. p.intercept_operation) exts))
        × ((wrap_all t State exts initial).response_middleware
            ≡ onion (hooks (λ p. p.intercept_response) exts))
        × ((wrap_all t State exts initial).field_middleware
            ≡ onion (hooks (λ p. p.intercept_field) exts))
        × ((wrap_all t State exts initial).operation_parameter_mutators ≡ [])
        × ((wrap_all t State exts initial).operation_context_mutators ≡ [])
  unfolding wrap_all initial
  wrap_all-onion [] = (refl, refl, refl, refl, refl)
  wrap_all-onion (p ∷ ps) =
      let (o, r, f, m, c) = wrap_all-onion ps in
      (
        ap (wrap t State p.intercept_operation) o ∙ wrap-onion p.intercept_operation _,
        ap (wrap t State p.intercept_response) r ∙ wrap-onion p.intercept_response _,
        ap (wrap t State p.intercept_field) f ∙ wrap-onion p.intercept_field _,
        m,
        c,
      )

  appended-append :
      {A : Type 0} (xs : List A) (x : Option A)
      → appended t State xs x ≡ xs ++ appended t State [] x
  appended-append xs none = sym (append-nil xs)
  appended-append xs (some x) = refl

  collect_mutators-hooks :
      (exts : List (Extension t State)) (e : Extensions t State)
      → ((collect_mutators t State exts e).operation_middleware ≡ e.operation_middleware)
        × ((collect_mutators t State exts e).response_middleware ≡ e.response_middleware)
        × ((collect_mutators t State exts e).field_middleware ≡ e.field_middleware)
        × ((collect_mutators t State exts e).operation_parameter_mutators
            ≡ e.operation_parameter_mutators ++ hooks (λ p. p.mutate_parameters) exts)
        × ((collect_mutators t State exts e).operation_context_mutators
            ≡ e.operation_context_mutators ++ hooks (λ p. p.mutate_context) exts)
  unfolding collect_mutators
  collect_mutators-hooks [] e = (refl, refl, refl, sym (append-nil _), sym (append-nil _))
  collect_mutators-hooks (p ∷ ps) e =
      let (o, r, f, m, c) = collect_mutators-hooks ps _ in
      (
        o,
        r,
        f,
        m
            ∙ rw (appended-append e.operation_parameter_mutators p.mutate_parameters) (
                append_assoc e.operation_parameter_mutators
                  (appended t State [] p.mutate_parameters)
                  (hooks (λ p'. p'.mutate_parameters) ps)),
        c
            ∙ rw (appended-append e.operation_context_mutators p.mutate_context) (
                append_assoc e.operation_context_mutators (appended t State [] p.mutate_context)
                  (hooks (λ p'. p'.mutate_context) ps)),
      )

-- The extensions' interceptors nest in the order in which the extensions were added: the first runs
-- first and around all others, for operations, responses and fields alike; an extension without the
-- hook changes nothing. The mutators run in that order too.
pub process_extensions-onion :
    (t : Types) (State : Type 0) (exts : List (Extension t State))
    → ((process_extensions t State exts).operation_middleware
        ≡ onion t State (hooks t State (λ p. p.intercept_operation) exts))
      × ((process_extensions t State exts).response_middleware
          ≡ onion t State (hooks t State (λ p. p.intercept_response) exts))
      × ((process_extensions t State exts).field_middleware
          ≡ onion t State (hooks t State (λ p. p.intercept_field) exts))
      × ((process_extensions t State exts).operation_parameter_mutators
          ≡ hooks t State (λ p. p.mutate_parameters) exts)
      × ((process_extensions t State exts).operation_context_mutators
          ≡ hooks t State (λ p. p.mutate_context) exts)
unfolding process_extensions initial
process_extensions-onion t State exts =
    let (o, r, f, m, c) = wrap_all-onion t State exts in
    let (o', r', f', m', c') =
      collect_mutators-hooks t State exts (wrap_all t State exts (initial t State)) in
    (
      o' ∙ o,
      r' ∙ r,
      f' ∙ f,
      m' ∙ ap (λ l. l ++ hooks t State (λ p. p.mutate_parameters) exts) m,
      c' ∙ ap (λ l. l ++ hooks t State (λ p. p.mutate_context) exts) c,
    )
