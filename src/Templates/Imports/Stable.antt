-- ===== src/Templates/Imports/Stable.antt =====
-- codegen/templates/import.go: the alias of a package does not change.
use fastgql.Prelude.{
  ℕ, ◌≡◌, ◌≢◌, refl, ap, ◌∙◌, ◌⊎◌, inl, inr, true, false, Option, none, some, List, [], ◌∷◌, ◌++◌,
  Bool-cases, Option-cases,
}
use fastgql.Prelude.Outcome.{
  ok, Ensures, Ensures-bind, Ensures-then, Ensures-eq, Ensures-map, ok-injective,
}
use fastgql.Prelude.Text.{Bytes, bytes_eq, bytes_eq_refl}
use fastgql.Code.{normalize_vendor}
use fastgql.Code.Packages.{Packages, Loaded}
use fastgql.Code.Packages.Naming.{name_for_package}
use fastgql.Templates.Imports.{
  Import, Imports, new_import, find_by_path, find_by_alias, alias_or, at_alias, at_path, free_alias,
  reserve, reserved, added, looked_up, lookup, Call, reserves, looks_up, step, run,
}

-- The imports of the first state are still there.
record Extends (s s' : Imports) : Type 0 where
  own : s'.own ≡ s.own
  kept :
      (path : Bytes) (imp : Import)
      → find_by_path path s.imports ≡ some imp
      → find_by_path path s'.imports ≡ some imp

Extends-refl : (s : Imports) → Extends s s
Extends-refl s = record { own = refl; kept = λ path imp h. h }

Extends-trans : (s t u : Imports) → Extends s t → Extends t u → Extends s u
Extends-trans s t u a b = record {
  own = b.own ∙ a.own;
  kept = λ path imp h. b.kept path imp (a.kept path imp h);
}

find_by_path-snoc :
    (path : Bytes) (imps : List Import) (imp new : Import)
    → find_by_path path imps ≡ some imp
    → find_by_path path (imps ++ new ∷ []) ≡ some imp
unfolding find_by_path
find_by_path-snoc path [] imp new e = cc
find_by_path-snoc path (i ∷ imps) imp new e = elim (Bool-cases (bytes_eq i.path path)) [
  | inl same ↦ rw same (rw same at e)
  | inr other ↦ rw other (find_by_path-snoc path imps imp new (rw other at e))
]

find_by_path-new :
    (imps : List Import) (new : Import)
    → find_by_path new.path imps ≡ none
    → find_by_path new.path (imps ++ new ∷ []) ≡ some new
unfolding find_by_path
find_by_path-new [] new e = rw (bytes_eq_refl new.path) refl
find_by_path-new (i ∷ imps) new e = elim (Bool-cases (bytes_eq i.path new.path)) [
  | inl same ↦ absurd (some≢none (rw same at e))
  | inr other ↦ rw other (find_by_path-new imps new (rw other at e))
]
  where
    some≢none : some i ≢ none
    some≢none x = cc

Extends-snoc :
    (s : Imports) (packages : Packages) (new : Import)
    → Extends s (record s { imports = s.imports ++ new ∷ []; packages = packages })
Extends-snoc s packages new = record {
  own = refl;
  kept = λ path imp h. find_by_path-snoc path s.imports imp new h;
}

Extends-cached : (s : Imports) (packages : Packages) → Extends s (record s { packages = packages })
Extends-cached s packages = record { own = refl; kept = λ path imp h. h }

module _ (load_name : Bytes → Loaded) where
  at_path-Extends :
      (imp : Import) (existing : Option Import) (s : Imports) → Extends s (at_path imp existing s).0
  unfolding at_path at_alias
  at_path-Extends imp none s = elim (Option-cases (find_by_alias imp.alias s.imports)) [
    | inl e ↦ rw e (Extends-snoc s s.packages imp)
    | inr (other, e) ↦ rw e (Extends-refl s)
  ]
  at_path-Extends imp (some existing) s = elim (Bool-cases (bytes_eq existing.alias imp.alias)) [
    | inl e ↦ rw e (Extends-refl s)
    | inr e ↦ rw e (Extends-refl s)
  ]

  reserve-Extends :
      (path : Bytes) (aliases : List Bytes) (s : Imports)
      → Ensures (λ r. Extends s r.0) (reserve load_name path aliases s)
  unfolding reserve reserved
  reserve-Extends [] aliases s = tt
  reserve-Extends (c ∷ path) aliases s = elim (Bool-cases (bytes_eq s.own (c ∷ path))) [
    | inl e ↦ rw (Ensures, e) (Extends-refl s)
    | inr e ↦ rw e (
        Ensures-bind (λ r. Extends s r.0) (name_for_package load_name (c ∷ path) s.packages) _
          λ r _.
            Extends-trans s (record s { packages = r.0 }) _ (Extends-cached s r.0)
              (at_path-Extends (new_import r.1 (c ∷ path) (alias_or r.1 aliases))
                (find_by_path (c ∷ path) s.imports) (record s { packages = r.0 })))
  ]

  -- What a call of Lookup with a normalised path leaves, and what it returns.
  abbrev Found : Bytes → Imports × Bytes → Type 0
  Found path r = (imp : Import) × (find_by_path path r.0.imports ≡ some imp) × (imp.alias ≡ r.1)

  added-Found :
      (path : Bytes) (s : Imports)
      → find_by_path path s.imports ≡ none
      → Ensures (λ r. Extends s r.0 × Found path r) (added load_name path s)
  unfolding added
  added-Found path s gone =
      Ensures-bind (λ r. Extends s r.0 × Found path r) (name_for_package load_name path s.packages)
        _
        λ r _.
          Ensures-bind (λ r. Extends s r.0 × Found path r)
            (free_alias 11 r.1 (s.imports ++ new_import r.1 path [] ∷ []) r.1 1) _
            λ a _. (
              Extends-snoc s r.0 (new_import r.1 path a),
              (
                new_import r.1 path a,
                find_by_path-new s.imports (new_import r.1 path a) gone,
                refl,
              ),
            )

  -- The alias is empty for the own package, and else stands with the path.
  abbrev Answers : Bytes → Imports × Bytes → Type 0
  Answers path r =
      ((bytes_eq r.0.own path ≡ true) × (r.1 ≡ []))
      ⊎ ((bytes_eq r.0.own path ≡ false) × Found path r)

  looked_up-Answers :
      (path : Bytes) (s : Imports) (existing : Option Import)
      → find_by_path path s.imports ≡ existing
      → bytes_eq s.own path ≡ false
      → Ensures (λ r. Extends s r.0 × Answers path r) (looked_up load_name path s existing)
  unfolding looked_up
  looked_up-Answers path s (some existing) e other =
      (Extends-refl s, inr (other, (existing, e, refl)))
  looked_up-Answers path s none e other =
      Ensures-map (λ r. Extends s r.0 × Found path r) (λ r. Extends s r.0 × Answers path r)
        (added load_name path s) (λ r (kept, found). (kept, inr (rw kept.own other, found)))
        (added-Found path s e)

  lookup-Answers :
      (c : ℕ) (path : Bytes) (s : Imports)
      → Ensures
          (λ r. Extends s r.0 × Answers (normalize_vendor (c ∷ path)) r)
          (lookup load_name (c ∷ path) s)
  unfolding lookup
  lookup-Answers c path s = elim (Bool-cases (bytes_eq s.own (normalize_vendor (c ∷ path)))) [
    | inl same ↦ rw (Ensures, same) (Extends-refl s, inl (same, refl))
    | inr other ↦ rw other (
        looked_up-Answers (normalize_vendor (c ∷ path)) s
          (find_by_path (normalize_vendor (c ∷ path)) s.imports) refl other)
  ]

  step-Extends : (call : Call) (s : Imports) → Ensures (Extends s) (step load_name call s)
  unfolding step
  step-Extends (reserves path aliases) s =
      Ensures-then (λ r. Extends s r.0) (Extends s) (reserve load_name path aliases s) _ (λ r h. h)
        (reserve-Extends path aliases s)
  step-Extends (looks_up []) s = unfold lookup in Extends-refl s
  step-Extends (looks_up (c ∷ path)) s =
      Ensures-then (λ r. Extends s r.0 × Answers (normalize_vendor (c ∷ path)) r) (Extends s)
        (lookup load_name (c ∷ path) s) _ (λ r (h, _). h) (lookup-Answers c path s)

  run-Extends : (calls : List Call) (s : Imports) → Ensures (Extends s) (run load_name calls s)
  unfolding run
  run-Extends [] s = Extends-refl s
  run-Extends (call ∷ calls) s =
      Ensures-then (Extends s) (Extends s) (step load_name call s) (run load_name calls)
        (λ s' kept.
          Ensures-map (Extends s') (Extends s) (run load_name calls s')
            (λ u more. Extends-trans s s' u kept more) (run-Extends calls s'))
        (step-Extends call s)

  answered :
      (c : ℕ) (path : Bytes) (r : Imports × Bytes) (s : Imports)
      → Answers (normalize_vendor (c ∷ path)) r
      → Extends r.0 s
      → lookup load_name (c ∷ path) s ≡ ok (s, r.1)
  unfolding lookup looked_up
  answered c path r s (inl (same, empty)) kept = rw (kept.own, same, empty) refl
  answered c path r s (inr (other, (imp, there, alias))) kept =
      rw (kept.own, other, kept.kept (normalize_vendor (c ∷ path)) imp there, alias) refl

  -- The alias that Lookup has returned for a path is what it returns for that path after any further
  -- calls of Reserve and Lookup, and this changes nothing.
  lookup-again :
      (path alias : Bytes) (calls : List Call) (s s' s'' : Imports)
      → lookup load_name path s ≡ ok (s', alias)
      → run load_name calls s' ≡ ok s''
      → lookup load_name path s'' ≡ ok (s'', alias)
  unfolding lookup
  lookup-again [] alias calls s s' s'' e e' = ap (λ r. ok (s'', r.1)) (ok-injective e)
  lookup-again (c ∷ path) alias calls s s' s'' e e' =
      answered c path (s', alias) s''
        (Ensures-eq (λ r. Extends s r.0 × Answers (normalize_vendor (c ∷ path)) r)
          (lookup load_name (c ∷ path) s) (s', alias) e (lookup-Answers c path s)).1
        (Ensures-eq (Extends s') (run load_name calls s') s'' e' (run-Extends calls s'))
