-- ===== src/Code/Packages.antt =====
-- internal/code/packages.go: the cache of loaded Go packages.
pub mod Naming
pub mod Stable
pub mod Closed
pub mod Left
pub mod Eviction
mod Tests
use fastgql.Prelude.{
  ℕ, zero, suc, String, Bool, true, false, not, ◌&&◌, ◌||◌, Option, none, some, List, [], ◌∷◌, ◌++◌,
  if◌then◌else◌, ◌==◌, leb, length,
}
use fastgql.Prelude.Outcome.{Outcome, ok, panic, out_of_fuel, ◌>>=◌}
use fastgql.Prelude.Text.{Bytes, codes, bytes_eq}
use fastgql.Prelude.Maps.{Map, find, put, remove, is_some}
use fastgql.Code.{normalize_vendor}

-- `packages.Package`: PkgPath, Name, whether TypesInfo is set, Errors and Imports.
mutual
  pub data Package : Type 0 where
    go_package : Bytes → Bytes → Bool → List String → PackageList → Package

  pub data PackageList : Type 0 where
    nil : PackageList
    cons : Package → PackageList → PackageList

abbrev pub pkg_path : Package → Bytes
pkg_path (go_package path name info errors imports) = path

abbrev pub name_of : Package → Bytes
name_of (go_package path name info errors imports) = name

abbrev pub has_types : Package → Bool
has_types (go_package path name info errors imports) = info

abbrev pub errors_of : Package → List String
errors_of (go_package path name info errors imports) = errors

abbrev pub imports_of : Package → PackageList
imports_of (go_package path name info errors imports) = imports

-- The maps are nil or not alike: nil reads as an empty one, and both are made before they are written.
pub record Packages : Type 0 where
  pub packages : Map Package
  pub import_to_name : Map Bytes
  pub load_errors : List String

-- `addToCache`, and its loop over the imports.
unfoldable mutual
  pub add_to_cache : Package → Map Package → Map Package
  add_to_cache (go_package path name info errors imports) m =
      add_imports imports (put (normalize_vendor path) (go_package path name info errors imports) m)

  pub add_imports : PackageList → Map Package → Map Package
  add_imports nil m = m
  add_imports (cons imp imports) m =
      let added = add_imports imports (add_to_cache imp m) in
      let skipped = add_imports imports m in
      if is_some (find (normalize_vendor (pkg_path imp)) m) then skipped else added

unfoldable pub add_all : List Package → Map Package → Map Package
unfolding add_to_cache
add_all [] m = m
add_all (pkg ∷ pkgs) m = add_all pkgs (add_to_cache pkg m)

-- What `packages.Load` of x/tools returns: the packages found, and an error or nil.
pub record Loaded : Type 0 where
  pub found : List Package
  pub failure : Option String

unfoldable pub missing : Map Package → List Bytes → List Bytes
missing m [] = []
missing m (path ∷ paths) =
    let rest = missing m paths in if is_some (find path m) then rest else path ∷ rest

abbrev pub noted : Option String → List String → List String
noted none errs = errs
noted (some err) errs = errs ++ err ∷ []

unfoldable pub cached : Map Package → List Bytes → List (Option Package)
unfolding find
cached m [] = []
cached m (path ∷ paths) = find (normalize_vendor path) m ∷ cached m paths

unfoldable pub joined : List String → List (Bytes × Package) → List String
joined res [] = res
joined res ((path, pkg) ∷ m) = joined (res ++ errors_of pkg) m

-- `Errors`, in an order of the map.
unfoldable pub errors : Packages → List String
unfolding joined
errors p = joined p.load_errors p.packages

-- `load` is packages.Load with the mode of the code.
module _ (load : List Bytes → Loaded) where
  unfoldable pub load_missing : List Bytes → Packages → Packages
  unfolding add_all
  load_missing [] p = p
  load_missing (path ∷ paths) p = record p {
    packages = add_all (load (path ∷ paths)).found p.packages;
    load_errors = noted (load (path ∷ paths)).failure p.load_errors;
  }

  unfoldable pub load_all : List Bytes → Packages → Packages × List (Option Package)
  unfolding load_missing missing cached
  load_all paths p =
      let p' = load_missing (missing p.packages paths) p in (p', cached p'.packages paths)

  first : List (Option Package) → Option Package
  first [] = none
  first (pkg ∷ pkgs) = pkg

  -- `Load`.
  unfoldable pub load_one : Bytes → Packages → Packages × Option Package
  unfolding load_all first
  load_one path p = let (p', res) = load_all (path ∷ []) p in (p', first res)

  -- The second load of `LoadWithTypes`, whose first package is taken.
  unfoldable pub reloaded :
      List Package → Option String → Packages → Outcome (Packages × Option Package)
  unfolding add_to_cache
  reloaded pkgs (some err) p = ok (record p { load_errors = p.load_errors ++ err ∷ [] }, none)
  reloaded [] none p = panic "index out of range"
  reloaded (pkg ∷ pkgs) none p = ok (record p { packages = add_to_cache pkg p.packages }, some pkg)

  unfoldable pub with_types :
      Bytes → Packages → Option Package → Outcome (Packages × Option Package)
  unfolding reloaded
  with_types path p none = reloaded (load (path ∷ [])).found (load (path ∷ [])).failure p
  with_types path p (some pkg) =
      if has_types pkg
      then ok (p, some pkg)
      else reloaded (load (path ∷ [])).found (load (path ∷ [])).failure p

  unfoldable pub load_with_types : Bytes → Packages → Outcome (Packages × Option Package)
  unfolding load_one with_types
  load_with_types path p = let (p', pkg) = load_one path p in with_types path p' pkg

-- `Evict`, which calls itself for what depends on the package. The snapshot is the map when the loop
-- over it starts: an entry that is removed before its turn is not visited.
module _ (rec : Bytes → Map Package → Outcome (Map Package)) (path : Bytes) where
  unfoldable pub evict_for : Bytes → PackageList → Map Package → Outcome (Map Package)
  evict_for importer nil m = ok m
  evict_for importer (cons imported imports) m = do
    m' ← (if bytes_eq (pkg_path imported) path then rec importer m else ok m)
    evict_for importer imports m'

  unfoldable pub evict_importers : List (Bytes × Package) → Map Package → Outcome (Map Package)
  unfolding evict_for find
  evict_importers [] m = ok m
  evict_importers ((k, pkg) ∷ snapshot) m = do
    m' ← (if is_some (find k m) then evict_for (pkg_path pkg) (imports_of pkg) m else ok m)
    evict_importers snapshot m'

unfoldable pub evict_with : ℕ → Bytes → Map Package → Outcome (Map Package)
unfolding evict_importers remove
evict_with zero path m = out_of_fuel
evict_with (suc fuel) path m =
    let m' = remove path m in evict_importers (evict_with fuel) path m' m'

unfoldable pub evict : Bytes → Packages → Outcome Packages
unfolding evict_with
evict path p =
    evict_with (suc (length p.packages)) path p.packages >>= λ m. ok (record p { packages = m })
