-- ===== src/Code/Dirs.antt =====
-- internal/code/imports.go and `PkgAndType` of internal/code/util.go: import paths and package names of
-- directories. A directory is its absolute path, as the list of its elements from the last one on; the
-- root is the empty list. `QualifyPackagePath` asks go/build and is not modelled.
pub mod Nearest
mod Tests
use fastgql.Prelude.{
  ◌+◌, ℕ, zero, suc, String, Bool, true, false, not, ◌&&◌, ◌||◌, Option, none, some, List, [], ◌∷◌,
  ◌++◌, if◌then◌else◌, ◌==◌, ltb, leb, length, take, drop,
}
use fastgql.Prelude.Outcome.{Outcome, ok, panic, ◌>>=◌}
use fastgql.Prelude.Text.{Bytes, codes, bytes_eq, has_prefix, has_suffix}
use fastgql.Code.Packages.Naming.{sanitize_package_name}

abbrev pub Dir : Type 0
Dir = List Bytes

-- `filepath.Base`.
abbrev pub base_of : Dir → Bytes
base_of [] = codes "/"
base_of (name ∷ dir) = name

-- The path as text.
unfoldable pub path_text : Dir → Bytes
path_text [] = codes "/"
path_text (name ∷ []) = b'/' ∷ name
path_text (name ∷ parent ∷ dir) = path_text (parent ∷ dir) ++ b'/' ∷ name

-- `[^\s]*` from here.
unfoldable pub until_space : Bytes → Bytes
until_space [] = []
until_space (c ∷ s) =
    if c == 32 || c == 9 || c == 10 || c == 12 || c == 13 then [] else c ∷ until_space s

-- The first match of `module ([^\s]*)`.
unfoldable pub find_module : Bytes → Option Bytes
unfolding until_space
find_module [] = none
find_module (c ∷ s) =
    let rest = find_module s in
    if has_prefix (c ∷ s) (codes "module ") then some (until_space (drop 7 (c ∷ s))) else rest

-- A file that is read has its submatch taken, which is nil if nothing matches.
unfoldable pub module_line : Option Bytes → Outcome Bytes
module_line none = panic "index out of range"
module_line (some m) = ok m

-- `read_mod` reads the go.mod of a directory, if there is one.
module _ (read_mod : Dir → Option Bytes) where
  unfoldable pub root_file : Option Bytes → Bytes → Outcome (Option Bytes) → Outcome (Option Bytes)
  unfolding module_line find_module
  root_file none assumed above = above
  root_file (some content) assumed above =
      module_line (find_module content) >>= λ m. ok (some (m ++ assumed))

  -- The loop of `goModuleRoot`, which ends at the root.
  unfoldable pub root_from : Dir → Bytes → Outcome (Option Bytes)
  unfolding root_file
  root_from [] assumed = root_file (read_mod []) assumed (ok none)
  root_from (name ∷ dir) assumed =
      root_file (read_mod (name ∷ dir)) assumed (root_from dir (b'/' ∷ name ++ assumed))

  unfoldable pub go_module_root : Dir → Outcome (Option Bytes)
  unfolding root_from
  go_module_root dir = root_from dir []

-- `fold` is strings.EqualFold.
module _ (fold : Bytes → Bytes → Bool) where
  unfoldable pub in_gopath : List Bytes → Bytes → Bytes
  in_gopath [] dir = []
  in_gopath (gopath ∷ rest) dir =
      let later = in_gopath rest dir in
      if ltb (length gopath) (length dir) && fold gopath (take (length gopath) dir)
      then drop (suc (length gopath)) dir
      else later

  unfoldable pub or_gopath : List Bytes → Dir → Option Bytes → Bytes
  unfolding in_gopath path_text
  or_gopath gopaths dir none = in_gopath gopaths (path_text dir)
  or_gopath gopaths dir (some mod_dir) = mod_dir

  unfoldable pub import_path_for_dir : (Dir → Option Bytes) → List Bytes → Dir → Outcome Bytes
  unfolding go_module_root or_gopath
  import_path_for_dir read_mod gopaths dir =
      go_module_root read_mod dir >>= λ root. ok (or_gopath gopaths dir root)

-- What `ioutil.ReadDir` lists, and the package clause that the parser finds in a file, if it does.
abbrev lower_byte : ℕ → ℕ
lower_byte c = if leb b'A' c && leb c b'Z' then c + 32 else c

abbrev lower_bytes : Bytes → Bytes
lower_bytes [] = []
lower_bytes (c ∷ s) = lower_byte c ∷ lower_bytes s

module _ (parse : Bytes → Option Bytes) where
  unfoldable pub package_of : List Bytes → Option Bytes
  package_of [] = none
  package_of (file ∷ files) =
      let rest = package_of files in
      if has_suffix (lower_bytes file) (codes ".go")
      then elim (parse file) [ some name ↦ some name | none ↦ rest ]
      else rest

  named_or : Dir → Option Bytes → Bytes
  unfolding sanitize_package_name
  named_or dir (some name) = name
  named_or dir none = sanitize_package_name (base_of dir)

  files_or : Dir → Option (List Bytes) → Bytes
  unfolding package_of named_or sanitize_package_name
  files_or dir none = sanitize_package_name (base_of dir)
  files_or dir (some files) = named_or dir (package_of files)

  unfoldable pub name_for_dir : (Dir → Option (List Bytes)) → Dir → Bytes
  unfolding files_or
  name_for_dir read_dir dir = files_or dir (read_dir dir)

-- The end of the part before the last dot, and the part behind it.
unfoldable pub last_dot : Bytes → Option (Bytes × Bytes)
last_dot [] = none
last_dot (c ∷ s) = elim (last_dot s) [
  | some (before, after) ↦ some (c ∷ before, after)
  | none ↦ if c == b'.' then some ([], s) else none
]

unfoldable pub pkg_and_type : Bytes → Bytes × Bytes
unfolding last_dot
pkg_and_type name = elim (last_dot name) [ none ↦ ([], name) | some split ↦ split ]
