-- ===== src/Config.antt =====
-- Package config (codegen/config/): the type map and the checks of the sections of the configuration.
-- YAML and file patterns are not modelled.
pub mod Checking
pub mod Files
pub mod Stages
pub mod Consistent
pub mod Builtins
pub mod Binder
pub mod Injection
pub mod Searching
mod Tests
use mathlib.Core.List.{reverse}
use fastgql.Prelude.Sorting.{sort}
use fastgql.Prelude.{
  ℕ, String, Bool, true, false, not, ◌&&◌, ◌||◌, Option, none, some, List, [], ◌∷◌, ◌++◌,
  if◌then◌else◌, ◌==◌,
}
use fastgql.Prelude.Outcome.{Outcome, ok, panic, ◌>>=◌}
use fastgql.Prelude.Text.{Bytes, codes, bytes_eq, has_suffix}
use fastgql.Prelude.Maps.{Map, find, put, is_some}
use fastgql.Prelude.Sorting.{sort}
use fastgql.Code.Dirs.{pkg_and_type}

pub record TypeMapField : Type 0 where
  pub resolver : Bool
  pub field_name : Bytes

pub record TypeMapEntry : Type 0 where
  pub model : List Bytes
  pub fields : Map TypeMapField

abbrev pub TypeMap : Type 0
TypeMap = Map TypeMapEntry

abbrev pub no_entry : TypeMapEntry
no_entry = record { model = []; fields = [] }

-- `tm[name]`, the zero entry if the key is missing.
abbrev pub entry_or : Option TypeMapEntry → TypeMapEntry
entry_or none = no_entry
entry_or (some entry) = entry

unfoldable pub entry_at : TypeMap → Bytes → TypeMapEntry
unfolding find
entry_at tm name = entry_or (find name tm)

unfoldable pub exists : TypeMap → Bytes → Bool
unfolding find
exists tm name = is_some (find name tm)

abbrev has_model : TypeMapEntry → Bool
has_model entry = elim entry.model [ [] ↦ false | m ∷ ms ↦ true ]

unfoldable pub user_defined : TypeMap → Bytes → Bool
unfolding exists entry_at
user_defined tm name = exists tm name && has_model (entry_at tm name)

unfoldable pub add : TypeMap → Bytes → Bytes → TypeMap
unfolding entry_at put
add tm name go_type =
    put name (record (entry_at tm name) { model = (entry_at tm name).model ++ go_type ∷ [] }) tm

-- Whether a slash comes behind the last dot: the last index of one is compared with that of the other.
unfoldable pub slash_behind_dot : Bytes → Bool → Bool
slash_behind_dot [] behind = behind
slash_behind_dot (c ∷ s) behind =
    let slash = slash_behind_dot s true in
    let dot = slash_behind_dot s false in
    let next = slash_behind_dot s behind in
    if c == b'/' then slash else if c == b'.' then dot else next

unfoldable pub models_valid : List Bytes → Bool
unfolding slash_behind_dot
models_valid [] = true
models_valid (model ∷ models) = not (slash_behind_dot model false) && models_valid models

-- `TypeMap.Check`: whether there is no error.
unfoldable pub type_map_valid : TypeMap → Bool
unfolding models_valid
type_map_valid [] = true
type_map_valid ((name, entry) ∷ tm) = models_valid entry.model && type_map_valid tm

-- `inStrSlice`, and `StringList.Has`.
unfoldable pub in_str_slice : List Bytes → Bytes → Bool
in_str_slice [] needle = false
in_str_slice (v ∷ haystack) needle = bytes_eq needle v || in_str_slice haystack needle

-- The loops of `ReferencedPackages`. `qualify` is code.QualifyPackagePath.
module _ (qualify : Bytes → Bytes) where
  unfoldable pub referenced_in : List Bytes → List Bytes → List Bytes
  unfolding pkg_and_type in_str_slice
  referenced_in [] pkgs = pkgs
  referenced_in (model ∷ models) pkgs =
      let pkg = (pkg_and_type model).0 in
      let skipped = referenced_in models pkgs in
      let added = referenced_in models (pkgs ++ qualify pkg ∷ []) in
      if bytes_eq model (codes "map[string]interface{}") || bytes_eq model (codes "interface{}")
      then skipped
      else if bytes_eq pkg [] || in_str_slice pkgs pkg
      then skipped
      else added

  unfoldable pub referenced_by : TypeMap → List Bytes → List Bytes
  unfolding referenced_in
  referenced_by [] pkgs = pkgs
  referenced_by ((name, entry) ∷ tm) pkgs = referenced_by tm (referenced_in entry.model pkgs)

  -- `ReferencedPackages`, sorted from the last one on.
  unfoldable pub referenced_packages : TypeMap → List Bytes
  unfolding referenced_by sort
  referenced_packages tm = reverse (sort (λ pkg. pkg) (referenced_by tm []))

-- What the file system and path/filepath give; the last two are those of package code for a directory.
pub record Env : Type 0 where
  pub abs : Bytes → Bytes
  pub dir : Bytes → Bytes
  pub join : Bytes → Bytes → Bytes
  pub import_path_for_dir : Bytes → Bytes
  pub name_for_dir : Bytes → Bytes

pub record PackageConfig : Type 0 where
  pub filename : Bytes
  pub package_name : Bytes

pub data Layout : Type 0 where
  unset single_file follow_schema : Layout
  invalid : Bytes → Layout

pub record ResolverConfig : Type 0 where
  pub filename : Bytes
  pub package_name : Bytes
  pub type_name : Bytes
  pub layout : Layout
  pub dir_name : Bytes

abbrev pub is_empty : Bytes → Bool
is_empty [] = true
is_empty (c ∷ s) = false

-- `strings.ContainsAny(s, "./\\")`.
abbrev pub contains_separator : Bytes → Bool
contains_separator [] = false
contains_separator (c ∷ s) = c == b'.' || c == b'/' || c == b'\\' || contains_separator s

abbrev pub is_go_file : Bytes → Bool
is_go_file filename = has_suffix filename (codes ".go")

unfoldable pub is_defined : PackageConfig → Bool
is_defined c = not (is_empty c.filename)

unfoldable pub resolver_defined : ResolverConfig → Bool
resolver_defined r = not (is_empty r.filename) || not (is_empty r.dir_name)

module _ (env : Env) where
  open env use {abs, join, import_path_for_dir, name_for_dir}

  unfoldable pub dir_of : PackageConfig → Bytes
  unfolding is_defined
  dir_of c = if is_defined c then env.dir c.filename else []

  unfoldable pub import_path : PackageConfig → Bytes
  unfolding is_defined dir_of
  import_path c = if is_defined c then import_path_for_dir (dir_of c) else []

  named : PackageConfig → PackageConfig
  unfolding dir_of
  named c =
      if is_empty c.package_name then record c { package_name = name_for_dir (dir_of c) } else c

  -- `PackageConfig.Check`: the section as it is afterwards, and the error.
  unfoldable pub check_package : PackageConfig → PackageConfig × Option String
  unfolding named
  check_package c =
      if contains_separator c.package_name
      then (c, some "package should be the output package name only")
      else if is_empty c.filename
      then (c, some "filename must be specified")
      else if is_go_file c.filename
      then (named (record c { filename = abs c.filename }), none)
      else (c, some "filename should be path to a go source file")

  unfoldable pub resolver_dir : ResolverConfig → Outcome Bytes
  resolver_dir r = elim r.layout [
    | single_file ↦ ok (if is_empty r.filename then [] else env.dir r.filename)
    | follow_schema ↦ ok r.dir_name
    | unset ↦ panic "invalid layout"
    | invalid layout ↦ panic "invalid layout"
  ]

  unfoldable pub resolver_import_path : ResolverConfig → Outcome Bytes
  unfolding resolver_dir
  resolver_import_path r =
      resolver_dir r >>= λ dir. ok (if is_empty dir then [] else import_path_for_dir dir)
