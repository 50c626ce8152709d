-- ===== src/Templates/Imports/Distinct.antt =====
-- codegen/templates/import.go: no path and no alias is imported twice.
use fastgql.Prelude.{
  ℕ, zero, suc, ◌+◌, ◌≤◌, ◌≡◌, ◌≢◌, ◌∙◌, inl, inr, false, none, some, List, [], ◌∷◌, ◌++◌,
  Bool-cases, Option-cases, arith, All, ltb,
}
use fastgql.Prelude.Outcome.{Halts, Ensures, Ensures-bind, Ensures-then}
use fastgql.Prelude.Text.{Bytes, bytes_eq, itoa}
use fastgql.Prelude.Int.{pos}
use fastgql.Prelude.Maps.{bytes_eq-sym}
use fastgql.Code.{normalize_vendor}
use fastgql.Code.Packages.{Packages, Loaded}
use fastgql.Code.Packages.Naming.{name_for_package}
use fastgql.Templates.Imports.{
  Import, Imports, new_import, find_by_path, find_by_alias, alias_or, at_alias, at_path, free_alias,
  reserve, reserved, added, looked_up, lookup, Call, reserves, looks_up, step, run,
}

-- No import has k for f.
abbrev pub Fresh : (Import → Bytes) → Bytes → List Import → Type 0
Fresh f k imps = All (λ imp. bytes_eq (f imp) k ≡ false) imps

abbrev pub Apart : (Import → Bytes) → List Import → Type 0
Apart f [] = Unit
Apart f (imp ∷ imps) = Fresh f (f imp) imps × Apart f imps

abbrev pub path_of : Import → Bytes
path_of imp = imp.path

abbrev pub alias_of : Import → Bytes
alias_of imp = imp.alias

-- No two imports have one path or one alias, and none is of the own package.
pub record IsDistinct (s : Imports) : Type 0 where
  pub paths : Apart path_of s.imports
  pub aliases : Apart alias_of s.imports
  pub foreign : Fresh path_of s.own s.imports

module _ (f : Import → Bytes) where
  Fresh-snoc :
      (k : Bytes) (imps : List Import) (imp : Import)
      → Fresh f k imps
      → bytes_eq (f imp) k ≡ false
      → Fresh f k (imps ++ imp ∷ [])
  Fresh-snoc k [] imp h e = (e, tt)
  Fresh-snoc k (i ∷ imps) imp (h, hs) e = (h, Fresh-snoc k imps imp hs e)

  Apart-snoc :
      (imps : List Import) (imp : Import)
      → Apart f imps
      → Fresh f (f imp) imps
      → Apart f (imps ++ imp ∷ [])
  Apart-snoc [] imp a h = (tt, tt)
  Apart-snoc (i ∷ imps) imp (a, apart) (h, hs) =
      (Fresh-snoc (f i) imps imp a (bytes_eq-sym (f imp) (f i) ∙ h), Apart-snoc imps imp apart hs)

  Fresh-front :
      (k : Bytes) (imps : List Import) (imp : Import)
      → Fresh f k (imps ++ imp ∷ [])
      → Fresh f k imps
  Fresh-front k [] imp h = tt
  Fresh-front k (i ∷ imps) imp (h, hs) = (h, Fresh-front k imps imp hs)

find_by_path-Fresh :
    (path : Bytes) (imps : List Import) → find_by_path path imps ≡ none → Fresh path_of path imps
unfolding find_by_path
find_by_path-Fresh path [] e = tt
find_by_path-Fresh path (imp ∷ imps) e = elim (Bool-cases (bytes_eq imp.path path)) [
  | inl same ↦ absurd (some≢none (rw same at e))
  | inr other ↦ (other, find_by_path-Fresh path imps (rw other at e))
]
  where
    some≢none : some imp ≢ none
    some≢none x = cc

find_by_alias-Fresh :
    (alias : Bytes) (imps : List Import)
    → find_by_alias alias imps ≡ none
    → Fresh alias_of alias imps
unfolding find_by_alias
find_by_alias-Fresh alias [] e = tt
find_by_alias-Fresh alias (imp ∷ imps) e = elim (Bool-cases (bytes_eq imp.alias alias)) [
  | inl same ↦ absurd (some≢none (rw same at e))
  | inr other ↦ (other, find_by_alias-Fresh alias imps (rw other at e))
]
  where
    some≢none : some imp ≢ none
    some≢none x = cc

snoc-IsDistinct :
    (s : Imports) (packages : Packages) (imp : Import)
    → IsDistinct s
    → bytes_eq s.own imp.path ≡ false
    → Fresh path_of imp.path s.imports
    → Fresh alias_of imp.alias s.imports
    → IsDistinct (record s { imports = s.imports ++ imp ∷ []; packages = packages })
snoc-IsDistinct s packages imp d apart p a = record {
  paths = Apart-snoc path_of s.imports imp d.paths p;
  aliases = Apart-snoc alias_of s.imports imp d.aliases a;
  foreign = Fresh-snoc path_of s.own s.imports imp d.foreign (bytes_eq-sym imp.path s.own ∙ apart);
}

cached-IsDistinct :
    (s : Imports) (packages : Packages)
    → IsDistinct s
    → IsDistinct (record s { packages = packages })
cached-IsDistinct s packages d = record {
  paths = d.paths;
  aliases = d.aliases;
  foreign = d.foreign;
}

-- The loop stops at an alias that no import has.
free_alias-Fresh :
    (fuel : ℕ) (name : Bytes) (imps : List Import) (alias : Bytes) (i : ℕ)
    → Ensures (λ a. Fresh alias_of a imps) (free_alias fuel name imps alias i)
unfolding free_alias
free_alias-Fresh zero name imps alias i = tt
free_alias-Fresh (suc fuel) name imps alias i = elim (Option-cases (find_by_alias alias imps)) [
  | inl e ↦ rw (Ensures, e) (find_by_alias-Fresh alias imps e)
  | inr (imp, e) ↦ elim (Bool-cases (ltb 10 (suc i))) [
    | inl stop ↦ rw (Ensures, e, stop) tt
    | inr go ↦ rw (Ensures, e, go) (free_alias-Fresh fuel name imps (name ++ itoa (pos i)) (suc i))
  ]
]

-- Eleven rounds are enough.
free_alias-Halts :
    (fuel : ℕ) (name : Bytes) (imps : List Import) (alias : Bytes) (i : ℕ)
    → 11 ≤ fuel + i
    → i ≤ 10
    → Halts (free_alias fuel name imps alias i)
unfolding free_alias
free_alias-Halts zero name imps alias i enough low = absurd (omega arith)
free_alias-Halts (suc fuel) name imps alias i enough low =
    elim (Option-cases (find_by_alias alias imps)) [
      | inl e ↦ rw (Halts, e) tt
      | inr (imp, e) ↦ elim (Bool-cases (ltb 10 (suc i))) [
        | inl stop ↦ rw (Halts, e, stop) tt
        | inr go ↦
            rw (Halts, e, go)
              (free_alias-Halts fuel name imps (name ++ itoa (pos i)) (suc i)
                (omega (arith, enough)) (ground arith))
      ]
    ]

module _ (load_name : Bytes → Loaded) where
  at_path-IsDistinct :
      (s : Imports) (packages : Packages) (imp : Import)
      → IsDistinct s
      → bytes_eq s.own imp.path ≡ false
      → IsDistinct
          (at_path imp (find_by_path imp.path s.imports) (record s { packages = packages })).0
  unfolding at_path at_alias
  at_path-IsDistinct s packages imp d apart =
      elim (Option-cases (find_by_path imp.path s.imports)) [
        | inl e ↦ elim (Option-cases (find_by_alias imp.alias s.imports)) [
          | inl e' ↦
              rw (e, e')
                (snoc-IsDistinct s packages imp d apart (find_by_path-Fresh imp.path s.imports e)
                  (find_by_alias-Fresh imp.alias s.imports e'))
          | inr (other, e') ↦ rw (e, e') (cached-IsDistinct s packages d)
        ]
        | inr (existing, e) ↦ elim (Bool-cases (bytes_eq existing.alias imp.alias)) [
          | inl same ↦ rw (e, same) (cached-IsDistinct s packages d)
          | inr other ↦ rw (e, other) (cached-IsDistinct s packages d)
        ]
      ]

  reserve-IsDistinct :
      (path : Bytes) (aliases : List Bytes) (s : Imports)
      → IsDistinct s
      → Ensures (λ r. IsDistinct r.0) (reserve load_name path aliases s)
  unfolding reserve reserved
  reserve-IsDistinct [] aliases s d = tt
  reserve-IsDistinct (c ∷ path) aliases s d = elim (Bool-cases (bytes_eq s.own (c ∷ path))) [
    | inl same ↦ rw (Ensures, same) d
    | inr other ↦ rw other (
        Ensures-bind (λ r. IsDistinct r.0) (name_for_package load_name (c ∷ path) s.packages) _
          λ r _.
            at_path-IsDistinct s r.0 (new_import r.1 (c ∷ path) (alias_or r.1 aliases)) d other)
  ]

  added-IsDistinct :
      (path : Bytes) (s : Imports)
      → IsDistinct s
      → bytes_eq s.own path ≡ false
      → find_by_path path s.imports ≡ none
      → Ensures (λ r. IsDistinct r.0) (added load_name path s)
  unfolding added
  added-IsDistinct path s d apart gone =
      Ensures-bind (λ r. IsDistinct r.0) (name_for_package load_name path s.packages) _
        λ r _.
          Ensures-then (λ a. Fresh alias_of a (s.imports ++ new_import r.1 path [] ∷ []))
            (λ r. IsDistinct r.0)
            (free_alias 11 r.1 (s.imports ++ new_import r.1 path [] ∷ []) r.1 1) _
            (λ a fresh.
              snoc-IsDistinct s r.0 (new_import r.1 path a) d apart
                (find_by_path-Fresh path s.imports gone)
                (Fresh-front alias_of a s.imports (new_import r.1 path []) fresh))
            (free_alias-Fresh 11 r.1 (s.imports ++ new_import r.1 path [] ∷ []) r.1 1)

  lookup-IsDistinct :
      (path : Bytes) (s : Imports)
      → IsDistinct s
      → Ensures (λ r. IsDistinct r.0) (lookup load_name path s)
  unfolding lookup looked_up
  lookup-IsDistinct [] s d = d
  lookup-IsDistinct (c ∷ s') s d = elim (Bool-cases (bytes_eq s.own (normalize_vendor (c ∷ s')))) [
    | inl same ↦ rw (Ensures, same) d
    | inr other ↦ elim (Option-cases (find_by_path (normalize_vendor (c ∷ s')) s.imports)) [
      | inl e ↦ rw (other, e) (added-IsDistinct (normalize_vendor (c ∷ s')) s d other e)
      | inr (existing, e) ↦ rw (Ensures, other, e) d
    ]
  ]

  step-IsDistinct :
      (call : Call) (s : Imports) → IsDistinct s → Ensures IsDistinct (step load_name call s)
  unfolding step
  step-IsDistinct (reserves path aliases) s d =
      Ensures-then (λ r. IsDistinct r.0) IsDistinct (reserve load_name path aliases s) _ (λ r h. h)
        (reserve-IsDistinct path aliases s d)
  step-IsDistinct (looks_up path) s d =
      Ensures-then (λ r. IsDistinct r.0) IsDistinct (lookup load_name path s) _ (λ r h. h)
        (lookup-IsDistinct path s d)

  -- After any calls of Reserve and Lookup, also those that report an error, no two imports have the
  -- same path or the same alias, and none is of the file's own package, if that held before, as it does
  -- for no imports.
  pub run-IsDistinct :
      (calls : List Call) (s : Imports) → IsDistinct s → Ensures IsDistinct (run load_name calls s)
  unfolding run
  run-IsDistinct [] s d = d
  run-IsDistinct (call ∷ calls) s d =
      Ensures-then IsDistinct IsDistinct (step load_name call s) (run load_name calls)
        (λ s' d'. run-IsDistinct calls s' d') (step-IsDistinct call s d)
