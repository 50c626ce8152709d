-- ===== src/Config/Searching.antt =====
-- `findCfg` and `findCfgInDir` of codegen/config/config.go: the configuration file of a directory.
use fastgql.Prelude.{◌≡◌, refl, ◌∙◌, Bool, Option, none, some, List, [], ◌∷◌, ◌++◌, if◌then◌else◌}
use fastgql.Prelude.Text.{Bytes, codes}
use fastgql.Code.Dirs.{Dir}

abbrev pub cfg_filenames : List Bytes
cfg_filenames = codes ".gqlgen.yml" ∷ codes "gqlgen.yml" ∷ codes "gqlgen.yaml" ∷ []

-- `stat` tells whether the directory has an entry of that name.
module _ (stat : Dir → Bytes → Bool) where
  unfoldable pub first_in : Dir → List Bytes → Option (Dir × Bytes)
  first_in dir [] = none
  first_in dir (name ∷ names) =
      let rest = first_in dir names in if stat dir name then some (dir, name) else rest

  unfoldable pub find_cfg_in_dir : Dir → Option (Dir × Bytes)
  unfolding first_in
  find_cfg_in_dir dir = first_in dir cfg_filenames

  here_or : Option (Dir × Bytes) → Option (Dir × Bytes) → Option (Dir × Bytes)
  here_or (some cfg) above = some cfg
  here_or none above = above

  -- The loop ends at the root, which is its own parent; none is os.ErrNotExist.
  unfoldable pub find_cfg : Dir → Option (Dir × Bytes)
  unfolding find_cfg_in_dir here_or
  find_cfg [] = find_cfg_in_dir []
  find_cfg (name ∷ dir) = here_or (find_cfg_in_dir (name ∷ dir)) (find_cfg dir)

  -- No directory on the way down has a configuration file.
  abbrev pub HasNoCfg : List Bytes → Dir → Type 0
  HasNoCfg [] dir = Unit
  HasNoCfg (name ∷ names) dir = (find_cfg_in_dir (name ∷ names ++ dir) ≡ none) × HasNoCfg names dir

  skips :
      (names : List Bytes) (dir : Dir) → HasNoCfg names dir → find_cfg (names ++ dir) ≡ find_cfg dir
  unfolding find_cfg
  skips [] dir h = refl
  skips (name ∷ names) dir (h, hs) = rw h (skips names dir hs)

  here : (dir : Dir) (cfg : Dir × Bytes) → find_cfg_in_dir dir ≡ some cfg → find_cfg dir ≡ some cfg
  unfolding find_cfg
  here [] cfg e = e
  here (name ∷ dir) cfg e = rw e refl

  -- findCfg gives the configuration file of the closest directory that has one, on the way up from the
  -- working directory.
  find_cfg-HasNoCfg :
      (names : List Bytes) (dir : Dir) (cfg : Dir × Bytes)
      → HasNoCfg names dir
      → find_cfg_in_dir dir ≡ some cfg
      → find_cfg (names ++ dir) ≡ some cfg
  find_cfg-HasNoCfg names dir cfg h e = skips names dir h ∙ here dir cfg e
