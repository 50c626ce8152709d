-- ===== src/Code/Dirs/Nearest.antt =====
-- internal/code/imports.go: the import paths of the directories of a module.
use fastgql.Prelude.{
  inr, inl, ◌≡◌, refl, sym, ap, ◌∙◌, Bool, Option, none, some, List, [], ◌∷◌, ◌++◌, append_assoc,
  append-nil, Option-cases,
}
use fastgql.Prelude.Outcome.{Outcome, ok, panic, out_of_fuel, ◌>>=◌}
use fastgql.Prelude.Text.{Bytes}
use fastgql.Code.Dirs.{
  Dir, find_module, module_line, root_file, root_from, go_module_root, or_gopath,
  import_path_for_dir,
}

-- The path of a directory below another one.
abbrev pub below : List Bytes → Bytes
below [] = []
below (name ∷ names) = below names ++ b'/' ∷ name

abbrev extended : Bytes → Option Bytes → Option Bytes
extended assumed none = none
extended assumed (some m) = some (m ++ assumed)

module _ (read_mod : Dir → Option Bytes) where
  -- No directory on the way down has a go.mod.
  abbrev pub HasNoMod : List Bytes → Dir → Type 0
  HasNoMod [] dir = Unit
  HasNoMod (name ∷ names) dir = (read_mod (name ∷ names ++ dir) ≡ none) × HasNoMod names dir

  line_extended :
      (assumed : Bytes) (line : Outcome Bytes)
      → (line >>= λ m. ok (some (m ++ assumed)))
        ≡ ((line >>= λ m. ok (some (m ++ []))) >>= λ r. ok (extended assumed r))
  line_extended assumed (ok m) = rw (append-nil m) refl
  line_extended assumed (panic text) = refl
  line_extended assumed out_of_fuel = refl

  bind_extended :
      (a b : Bytes) (r : Outcome (Option Bytes))
      → (r >>= λ x. ok (extended (a ++ b) x))
        ≡ ((r >>= λ x. ok (extended a x)) >>= λ x. ok (extended b x))
  bind_extended a b (ok none) = refl
  bind_extended a b (ok (some m)) = ap (λ t. ok (some t)) (sym (append_assoc m a b))
  bind_extended a b (panic text) = refl
  bind_extended a b out_of_fuel = refl

  -- What has been passed on the way up stands at the end.
  root_from-extended :
      (dir : Dir) (assumed : Bytes)
      → root_from read_mod dir assumed
        ≡ (root_from read_mod dir [] >>= λ r. ok (extended assumed r))
  unfolding root_from root_file
  root_from-extended [] assumed = elim (Option-cases (read_mod [])) [
    | inl e ↦ rw e refl
    | inr (content, e) ↦ rw e (line_extended assumed (module_line (find_module content)))
  ]
  root_from-extended (name ∷ dir) assumed = elim (Option-cases (read_mod (name ∷ dir))) [
    | inl e ↦ rw e (
        root_from-extended dir (b'/' ∷ name ++ assumed)
        ∙ bind_extended (b'/' ∷ name) assumed (root_from read_mod dir [])
        ∙ ap (λ r. r >>= λ x. ok (extended assumed x))
            (sym (
              ap (λ t. root_from read_mod dir (b'/' ∷ t)) (append-nil name)
              ∙ root_from-extended dir (b'/' ∷ name))))
    | inr (content, e) ↦ rw e (line_extended assumed (module_line (find_module content)))
  ]

  root-below :
      (names : List Bytes) (dir : Dir) (m : Bytes)
      → HasNoMod names dir
      → go_module_root read_mod dir ≡ ok (some m)
      → go_module_root read_mod (names ++ dir) ≡ ok (some (m ++ below names))
  unfolding go_module_root root_from root_file
  root-below [] dir m h e = rw (append-nil m) e
  root-below (name ∷ names) dir m (h, hs) e = rw h (
      ap (λ t. root_from read_mod (names ++ dir) (b'/' ∷ t)) (append-nil name)
      ∙ root_from-extended (names ++ dir) (b'/' ∷ name)
      ∙ ap (λ r. r >>= λ x. ok (extended (b'/' ∷ name) x)) (root-below names dir m hs e)
      ∙ ap (λ t. ok (some t)) (append_assoc m (below names) (b'/' ∷ name)))

  module _ (fold : Bytes → Bytes → Bool) (gopaths : List Bytes) where
    -- In a module, the import path of a directory that lies below another one, with no go.mod on the way
    -- down, is that directory's import path with the path down behind it.
    import_path_for_dir-below :
        (names : List Bytes) (dir : Dir) (m : Bytes)
        → HasNoMod names dir
        → go_module_root read_mod dir ≡ ok (some m)
        → (import_path_for_dir fold read_mod gopaths dir ≡ ok m)
          × (import_path_for_dir fold read_mod gopaths (names ++ dir) ≡ ok (m ++ below names))
    unfolding import_path_for_dir or_gopath
    import_path_for_dir-below names dir m h e = (rw e refl, rw (root-below names dir m h e) refl)
