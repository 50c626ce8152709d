-- ===== src/Templates/Imports.antt =====
-- codegen/templates/import.go: the imports of a generated file. `LookupType` hands Lookup to
-- types.TypeString and is not modelled.
pub mod Distinct
pub mod Stable
mod Tests
use fastgql.Prelude.{
  ℕ, zero, suc, ◌+◌, String, Bool, true, false, not, ◌&&◌, ◌||◌, Option, none, some, List, [], ◌∷◌,
  ◌++◌, if◌then◌else◌, ltb, length,
}
use fastgql.Prelude.Int.{pos}
use fastgql.Prelude.Outcome.{Outcome, ok, panic, out_of_fuel, ◌>>=◌}
use fastgql.Prelude.Text.{Bytes, codes, bytes_eq, itoa, quote, has_suffix}
use fastgql.Code.{normalize_vendor}
use fastgql.Code.Packages.{Packages, Loaded}
use fastgql.Code.Packages.Naming.{name_for_package}

pub record Import : Type 0 where
  pub name : Bytes
  pub path : Bytes
  pub alias : Bytes

abbrev pub new_import : Bytes → Bytes → Bytes → Import
new_import name path alias = record { name = name; path = path; alias = alias }

-- `own` is `code.ImportPathForDir(destDir)`.
pub record Imports : Type 0 where
  pub imports : List Import
  pub own : Bytes
  pub packages : Packages

unfoldable pub find_by_path : Bytes → List Import → Option Import
find_by_path path [] = none
find_by_path path (imp ∷ imps) = if bytes_eq imp.path path then some imp else find_by_path path imps

unfoldable pub find_by_alias : Bytes → List Import → Option Import
find_by_alias alias [] = none
find_by_alias alias (imp ∷ imps) =
    if bytes_eq imp.alias alias then some imp else find_by_alias alias imps

-- `Import.String` and `Imports.String`.
unfoldable pub import_string : Import → Bytes
import_string imp =
    if has_suffix imp.path imp.alias then quote imp.path else imp.alias ++ b' ' ∷ quote imp.path

unfoldable pub imports_string : List Import → Bytes
unfolding import_string
imports_string [] = []
imports_string (imp ∷ []) = import_string imp
imports_string (imp ∷ next ∷ imps) = import_string imp ++ b'\n' ∷ imports_string (next ∷ imps)

unfoldable pub alias_or : Bytes → List Bytes → Bytes
alias_or name (alias ∷ []) = alias
alias_or name _ = name

unfoldable pub at_alias : Import → Option Import → Imports → Imports × Option String
at_alias imp (some existing) s = (s, some "ambient import collides on an alias")
at_alias imp none s = (record s { imports = s.imports ++ imp ∷ [] }, none)

unfoldable pub at_path : Import → Option Import → Imports → Imports × Option String
unfolding at_alias find_by_alias
at_path imp (some existing) s =
    if bytes_eq existing.alias imp.alias
    then (s, none)
    else (s, some "ambient import already exists")
at_path imp none s = at_alias imp (find_by_alias imp.alias s.imports) s

-- The alias that the loop of `Lookup` stops at. The rounds are counted by i, and `fuel` bounds them.
unfoldable pub free_alias : ℕ → Bytes → List Import → Bytes → ℕ → Outcome Bytes
unfolding find_by_alias
free_alias zero name imports alias i = out_of_fuel
free_alias (suc fuel) name imports alias i =
    let next = free_alias fuel name imports (name ++ itoa (pos i)) (suc i) in
    elim (find_by_alias alias imports) [
      | none ↦ ok alias
      | some existing ↦ if ltb 10 (suc i) then panic "too many collisions" else next
    ]

module _ (load_name : Bytes → Loaded) where
  unfoldable pub reserved : Bytes → List Bytes → Imports → Outcome (Imports × Option String)
  unfolding at_path find_by_path alias_or
  reserved path aliases s = do
    (packages, name) ← name_for_package load_name path s.packages
    let s' : Imports = record s { packages = packages }
    ok (at_path (new_import name path (alias_or name aliases)) (find_by_path path s.imports) s')

  -- `Reserve`: the string that it returns is always empty.
  unfoldable pub reserve : Bytes → List Bytes → Imports → Outcome (Imports × Option String)
  unfolding reserved
  reserve [] aliases s = panic "empty ambient import"
  reserve (c ∷ path) aliases s =
      if bytes_eq s.own (c ∷ path) then ok (s, none) else reserved (c ∷ path) aliases s

  -- The new import is in the list without an alias while the loop looks for one.
  unfoldable pub added : Bytes → Imports → Outcome (Imports × Bytes)
  unfolding free_alias
  added path s = do
    (packages, name) ← name_for_package load_name path s.packages
    alias ← free_alias 11 name (s.imports ++ new_import name path [] ∷ []) name 1
    ok (
      record s { imports = s.imports ++ new_import name path alias ∷ []; packages = packages },
      alias,
    )

  unfoldable pub looked_up : Bytes → Imports → Option Import → Outcome (Imports × Bytes)
  unfolding added
  looked_up path s (some existing) = ok (s, existing.alias)
  looked_up path s none = added path s

  unfoldable pub lookup : Bytes → Imports → Outcome (Imports × Bytes)
  unfolding looked_up find_by_path
  lookup [] s = ok (s, [])
  lookup (c ∷ s') s =
      let path = normalize_vendor (c ∷ s') in
      if bytes_eq s.own path then ok (s, []) else looked_up path s (find_by_path path s.imports)

-- The calls that a template makes.
pub data Call : Type 0 where
  reserves : Bytes → List Bytes → Call
  looks_up : Bytes → Call

module _ (load_name : Bytes → Loaded) where
  unfoldable pub step : Call → Imports → Outcome Imports
  unfolding reserve lookup
  step (reserves path aliases) s = reserve load_name path aliases s >>= λ r. ok r.0
  step (looks_up path) s = lookup load_name path s >>= λ r. ok r.0

  unfoldable pub run : List Call → Imports → Outcome Imports
  unfolding step
  run [] s = ok s
  run (call ∷ calls) s = step call s >>= run calls
