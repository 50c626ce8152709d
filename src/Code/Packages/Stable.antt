-- ===== src/Code/Packages/Stable.antt =====
-- `NameForPackage` of internal/code/packages.go: its names are never empty, and do not change.
use fastgql.Prelude.{ℕ, ◌≡◌, ◌≢◌, refl, ◌∙◌, Option, none, some, List, [], ◌∷◌, ◌++◌, String}
use fastgql.Prelude.Outcome.{ok, Ensures}
use fastgql.Prelude.Text.{Bytes}
use fastgql.Prelude.Maps.{find, put, find-put_same}
use fastgql.Code.{normalize_vendor}
use fastgql.Code.Packages.{Package, Packages, Loaded, name_of}
use fastgql.Code.Packages.Naming.{
  trim_slashes, last_element, or_slash, base, replace_invalid, sanitize_package_name, named,
  remember, name_loaded, name_uncached, name_known, name_for_package,
}

or_slash_nonempty : (t : Bytes) → replace_invalid (or_slash t) ≢ []
unfolding replace_invalid or_slash
or_slash_nonempty [] e = cc
or_slash_nonempty (d ∷ t) e = cc

base_nonempty : (s : Bytes) → replace_invalid (base s) ≢ []
unfolding replace_invalid base
base_nonempty [] e = cc
base_nonempty (c ∷ s) e = or_slash_nonempty (last_element (trim_slashes (c ∷ s)) []) e

sanitize_nonempty : (s : Bytes) → sanitize_package_name s ≢ []
unfolding sanitize_package_name
sanitize_nonempty s e = base_nonempty s e

module _ (load_name : Bytes → Loaded) where
  -- The name is not empty, and is what the second call returns too.
  abbrev Settles : Bytes → Packages × Bytes → Type 0
  Settles path r =
      (r.1 ≢ [])
      × ((p : Packages) × (name_known load_name path r.0 (find path r.0.import_to_name)
            ≡ ok (p, r.1)))

  abbrev IsMiss : Option Bytes → Type 0
  IsMiss none = Unit
  IsMiss (some []) = Unit
  IsMiss (some (c ∷ s)) = ⊥

  missed :
      (path : Bytes) (p : Packages) (known : Option Bytes)
      → IsMiss known
      → name_known load_name path p known ≡ name_uncached load_name path p (find path p.packages)
  unfolding name_known
  missed path p none m = refl
  missed path p (some []) m = refl
  missed path p (some (c ∷ s)) m = elim m [ ]

  known :
      (path : Bytes) (c : ℕ) (s : Bytes) (p : Packages)
      → name_known load_name path p (some (c ∷ s)) ≡ ok (p, c ∷ s)
  unfolding name_known
  known path c s p = refl

  uncached_failing :
      (path : Bytes) (p : Packages) (err : String)
      → find path p.packages ≡ none
      → (load_name path).failure ≡ some err
      → name_uncached load_name path p (find path p.packages)
        ≡ ok (
          record p { load_errors = p.load_errors ++ err ∷ [] },
          sanitize_package_name (base path),
        )
  unfolding name_uncached name_loaded remember named
  uncached_failing path p err gone failed = rw (gone, failed) refl

  uncached_nameless :
      (path : Bytes) (p : Packages) (pkg : Package) (pkgs : List Package)
      → find path p.packages ≡ none
      → (load_name path).found ≡ pkg ∷ pkgs
      → (load_name path).failure ≡ none
      → name_of pkg ≡ []
      → name_uncached load_name path p (find path p.packages)
        ≡ ok (p, sanitize_package_name (base path))
  unfolding name_uncached name_loaded remember named
  uncached_nameless path p pkg pkgs gone found failed empty = rw (gone, found, failed, empty) refl

  -- The name of a package that has one is cached, whatever the cache held.
  named-Settles :
      (path : Bytes) (p : Packages) (name : Bytes)
      → (name ≡ []
          → (p' : Packages) × (name_known load_name path p (find path p.import_to_name)
              ≡ ok (p', sanitize_package_name (base path))))
      → Settles path (named path p name)
  unfolding named
  named-Settles path p [] again = (sanitize_nonempty (base path), again refl)
  named-Settles path p (c ∷ s) again =
      let p' = record p { import_to_name = put path (c ∷ s) p.import_to_name } in
      (λ e. cc, (p', rw (find-put_same path (c ∷ s) p.import_to_name) (known path c s p')))

  name_loaded-Settles :
      (path : Bytes) (p : Packages) (name : Option Bytes)
      → find path p.import_to_name ≡ name
      → IsMiss name
      → find path p.packages ≡ none
      → (pkgs : List Package) (failure : Option String) → (load_name path).found ≡ pkgs
      → (load_name path).failure ≡ failure
      → Ensures (Settles path) (name_loaded path p pkgs failure)
  unfolding name_loaded remember named
  name_loaded-Settles path p name e miss gone pkgs (some err) found failed = (
    sanitize_nonempty (base path),
    (
      record p { load_errors = (p.load_errors ++ err ∷ []) ++ err ∷ [] },
      rw e (
          missed path (record p { load_errors = p.load_errors ++ err ∷ [] }) name miss
          ∙ uncached_failing path _ err gone failed),
    ),
  )
  name_loaded-Settles path p name e miss gone [] none found failed = tt
  name_loaded-Settles path p name e miss gone (pkg ∷ pkgs) none found failed =
      named-Settles path p (name_of pkg) λ empty. (
        p,
        rw e (missed path p name miss ∙ uncached_nameless path p pkg pkgs gone found failed empty),
      )

  name_uncached-Settles :
      (path : Bytes) (p : Packages) (name : Option Bytes)
      → find path p.import_to_name ≡ name
      → IsMiss name
      → (pkg : Option Package) → find path p.packages ≡ pkg
      → Ensures (Settles path) (name_uncached load_name path p pkg)
  unfolding name_uncached remember named
  name_uncached-Settles path p name e miss none gone =
      name_loaded-Settles path p name e miss gone (load_name path).found (load_name path).failure
        refl refl
  name_uncached-Settles path p name e miss (some pkg) there =
      named-Settles path p (name_of pkg)
        λ empty. (p, rw (e, missed path p name miss, there, empty) refl)

  name_known-Settles :
      (path : Bytes) (p : Packages) (name : Option Bytes)
      → find path p.import_to_name ≡ name
      → Ensures (Settles path) (name_known load_name path p name)
  unfolding name_known
  name_known-Settles path p (some (c ∷ s)) e = (λ x. cc, (p, rw e refl))
  name_known-Settles path p none e =
      name_uncached-Settles path p none e tt (find path p.packages) refl
  name_known-Settles path p (some []) e =
      name_uncached-Settles path p (some []) e tt (find path p.packages) refl

  -- If NameForPackage returns a name, it is not empty, and the next call for that path returns it
  -- again, whether the name was cached, loaded or made from the path.
  name_for_package-again :
      (path : Bytes) (p : Packages)
      → Ensures
          (λ r.
            (r.1 ≢ []) × ((p' : Packages) × (name_for_package load_name path r.0 ≡ ok (p', r.1))))
          (name_for_package load_name path p)
  unfolding name_for_package
  name_for_package-again [] p = tt
  name_for_package-again (c ∷ s) p =
      name_known-Settles (normalize_vendor (c ∷ s)) p
        (find (normalize_vendor (c ∷ s)) p.import_to_name) refl
