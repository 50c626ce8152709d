-- ===== src/Code/Dirs/Tests.antt =====
-- Directories of a module, and the theorem at one.
use fastgql.Prelude.{◌≡◌, refl, Option, none, some, [], ◌∷◌, Bool}
use fastgql.Prelude.Outcome.{ok}
use fastgql.Prelude.Text.{Bytes, codes, bytes_eq}
use fastgql.Code.Dirs.{
  Dir, go_module_root, find_module, until_space, in_gopath, path_text, pkg_and_type, last_dot,
}

abbrev read_mod : Dir → Option Bytes
read_mod [] = none
read_mod (name ∷ []) = some (codes "module x/y\n")
read_mod (name ∷ parent ∷ dir) = none

abbrev fold : Bytes → Bytes → Bool
fold s t = bytes_eq s t

root : go_module_root read_mod (codes "src" ∷ []) ≡ ok (some (codes "x/y"))
unfolding go_module_root find_module until_space
root = refl

-- The word module in a comment above the directive is taken for it.
comment : find_module (codes "// the module x\nmodule y\n") ≡ some (codes "x")
unfolding find_module until_space
comment = refl

-- A directory whose name goes on where that of a GOPATH ends is taken to lie in it.
gopath :
    in_gopath fold (codes "/go/src" ∷ []) (path_text (codes "a" ∷ codes "srcs" ∷ codes "go" ∷ []))
    ≡ codes "/a"
unfolding in_gopath path_text
gopath = refl

splits : pkg_and_type (codes "x/y.Z") ≡ (codes "x/y", codes "Z")
unfolding pkg_and_type last_dot
splits = refl
