-- ===== src/Code/Packages/Naming.antt =====
-- `NameForPackage` of internal/code/packages.go and `SanitizePackageName` of internal/code/util.go.
use fastgql.Prelude.{
  ℕ, String, Bool, ◌&&◌, ◌||◌, Option, none, some, List, [], ◌∷◌, ◌++◌, if◌then◌else◌, ◌==◌, leb,
}
use fastgql.Prelude.Outcome.{Outcome, ok, panic}
use fastgql.Prelude.Text.{Bytes}
use fastgql.Prelude.Maps.{find, put}
use fastgql.Code.{normalize_vendor}
use fastgql.Code.Packages.{Package, Packages, Loaded, name_of}

unfoldable pub trim_slashes : Bytes → Bytes
trim_slashes [] = []
trim_slashes (c ∷ s) = elim (trim_slashes s) [
  | [] ↦ if c == b'/' then [] else c ∷ []
  | d ∷ t ↦ c ∷ d ∷ t
]

unfoldable pub last_element : Bytes → Bytes → Bytes
last_element [] current = current
last_element (c ∷ s) current =
    let next = last_element s [] in
    let more = last_element s (current ++ c ∷ []) in if c == b'/' then next else more

unfoldable pub or_slash : Bytes → Bytes
or_slash [] = b'/' ∷ []
or_slash (c ∷ s) = c ∷ s

-- `filepath.Base`.
unfoldable pub base : Bytes → Bytes
unfolding trim_slashes last_element or_slash
base [] = b'.' ∷ []
base (c ∷ s) = or_slash (last_element (trim_slashes (c ∷ s)) [])

-- `\w`.
unfoldable pub is_word : ℕ → Bool
is_word c =
    (leb b'0' c && leb c b'9')
    || (leb b'A' c && leb c b'Z')
    || (leb b'a' c && leb c b'z')
    || c == b'_'

unfoldable pub replace_invalid : Bytes → Bytes
unfolding is_word
replace_invalid [] = []
replace_invalid (c ∷ s) = (if is_word c then c else b'_') ∷ replace_invalid s

unfoldable pub sanitize_package_name : Bytes → Bytes
unfolding base replace_invalid
sanitize_package_name pkg = replace_invalid (base pkg)

-- An empty name is as good as no package; `base` is taken of the path again.
unfoldable pub named : Bytes → Packages → Bytes → Packages × Bytes
unfolding sanitize_package_name base put
named path p [] = (p, sanitize_package_name (base path))
named path p (c ∷ s) = (record p { import_to_name = put path (c ∷ s) p.import_to_name }, c ∷ s)

unfoldable pub remember : Bytes → Packages → Option Package → Packages × Bytes
unfolding named
remember path p none = named path p []
remember path p (some pkg) = named path p (name_of pkg)

unfoldable pub name_loaded :
    Bytes → Packages → List Package → Option String → Outcome (Packages × Bytes)
unfolding remember
name_loaded path p pkgs (some err) =
    ok (remember path (record p { load_errors = p.load_errors ++ err ∷ [] }) none)
name_loaded path p [] none = panic "index out of range"
name_loaded path p (pkg ∷ pkgs) none = ok (remember path p (some pkg))

-- `load_name` is packages.Load with NeedName for one path.
module _ (load_name : Bytes → Loaded) where
  unfoldable pub name_uncached : Bytes → Packages → Option Package → Outcome (Packages × Bytes)
  unfolding name_loaded remember
  name_uncached path p none = name_loaded path p (load_name path).found (load_name path).failure
  name_uncached path p (some pkg) = ok (remember path p (some pkg))

  -- An empty name in the cache is as good as none.
  unfoldable pub name_known : Bytes → Packages → Option Bytes → Outcome (Packages × Bytes)
  unfolding name_uncached find
  name_known path p (some (c ∷ s)) = ok (p, c ∷ s)
  name_known path p _ = name_uncached path p (find path p.packages)

  unfoldable pub name_for_package : Bytes → Packages → Outcome (Packages × Bytes)
  unfolding name_known
  name_for_package [] p = panic "import path can not be empty"
  name_for_package (c ∷ s) p =
      let path = normalize_vendor (c ∷ s) in name_known path p (find path p.import_to_name)
