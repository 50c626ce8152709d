-- ===== src/Code/Packages/Closed.antt =====
-- internal/code/packages.go: what the imports of the cached packages can rely on.
use fastgql.Prelude.{
  some-injective, ◌≡◌, refl, sym, ap, ◌∙◌, ◌⊎◌, inl, inr, true, false, Option, none, some, List, [],
  ◌∷◌, String, Bool-cases,
}
use fastgql.Prelude.Outcome.{Ensures}
use fastgql.Prelude.Text.{Bytes, bytes_eq}
use fastgql.Prelude.Maps.{
  Map, find, put, is_some, find-put_same, find-put_other, find-differs, is_some-find, is_some-eq,
  bytes_eq-eq,
}
use mathlib.Core.Path.{subst}
use fastgql.Code.{normalize_vendor}
use fastgql.Code.Packages.{
  Package, PackageList, go_package, nil, cons, pkg_path, imports_of, Packages, Loaded, add_to_cache,
  add_imports, add_all, missing, load_missing, reloaded, with_types, load_all, load_one,
  load_with_types, has_types,
}

-- The packages of a list stand in the cache, or their paths are in E.
abbrev pub AllIn {ℓ} : (Bytes → Type ℓ) → PackageList → Map Package → Type ℓ
AllIn E nil m = Unit
AllIn E (cons p ps) m =
    (E (normalize_vendor (pkg_path p)) ⊎ (is_some (find (normalize_vendor (pkg_path p)) m) ≡ true))
    × AllIn E ps m

-- The imports of every cached package are cached, but for those of the packages in E.
abbrev pub IsClosedBut : (Bytes → Type 0) → Map Package → Type 0
IsClosedBut E m =
    (k : Bytes) (p : Package) → find k m ≡ some p → E k ⊎ AllIn (λ _. ⊥) (imports_of p) m

abbrev pub IsClosed : Map Package → Type 0
IsClosed m = IsClosedBut (λ _. ⊥) m

mutual
  unfolding add_to_cache

  -- What is cached under another path than that of the package stays.
  keeps :
      (p : Package) (m : Map Package) (k : Bytes) (v : Package)
      → bytes_eq k (normalize_vendor (pkg_path p)) ≡ false
      → find k m ≡ some v
      → find k (add_to_cache p m) ≡ some v
  keeps (go_package path name info errors imports) m k v d h =
      keeps_all imports _ k v (find-put_other k (normalize_vendor path) _ m d ∙ h)

  keeps_all :
      (ps : PackageList) (m : Map Package) (k : Bytes) (v : Package)
      → find k m ≡ some v
      → find k (add_imports ps m) ≡ some v
  keeps_all nil m k v h = h
  keeps_all (cons p ps) m k v h =
      elim (Bool-cases (is_some (find (normalize_vendor (pkg_path p)) m))) [
        | inl e ↦ rw e (keeps_all ps m k v h)
        | inr e ↦
            rw e (keeps_all ps (add_to_cache p m) k v (keeps p m k v (find-differs k _ v m h e) h))
      ]

add_to_cache-found :
    (p : Package) (m : Map Package)
    → find (normalize_vendor (pkg_path p)) (add_to_cache p m) ≡ some p
unfolding add_to_cache
add_to_cache-found (go_package path name info errors imports) m =
    keeps_all imports _ (normalize_vendor path) _ (find-put_same (normalize_vendor path) _ m)

-- No path leaves the cache.
stays :
    (p : Package) (m : Map Package) (k : Bytes)
    → is_some (find k m) ≡ true
    → is_some (find k (add_to_cache p m)) ≡ true
stays p m k there = elim (Bool-cases (bytes_eq k (normalize_vendor (pkg_path p)))) [
  | inl same ↦ rw (bytes_eq-eq k _ same, add_to_cache-found p m) refl
  | inr other ↦
      let (v, e) = is_some-eq (find k m) there in is_some-find k v _ (keeps p m k v other e)
]

stays_all :
    (ps : PackageList) (m : Map Package) (k : Bytes)
    → is_some (find k m) ≡ true
    → is_some (find k (add_imports ps m)) ≡ true
stays_all ps m k there =
    let (v, e) = is_some-eq (find k m) there in is_some-find k v _ (keeps_all ps m k v e)

AllIn-grows :
    (ps : PackageList) (m m' : Map Package)
    → ((k : Bytes) → is_some (find k m) ≡ true → is_some (find k m') ≡ true)
    → AllIn (λ _. ⊥) ps m
    → AllIn (λ _. ⊥) ps m'
AllIn-grows nil m m' grows h = tt
AllIn-grows (cons p ps) m m' grows (inl x, hs) = elim x [ ]
AllIn-grows (cons p ps) m m' grows (inr x, hs) = (inr (grows _ x), AllIn-grows ps m m' grows hs)

add_imports-AllIn : (ps : PackageList) (m : Map Package) → AllIn (λ _. ⊥) ps (add_imports ps m)
unfolding add_to_cache
add_imports-AllIn nil m = tt
add_imports-AllIn (cons p ps) m =
    elim (Bool-cases (is_some (find (normalize_vendor (pkg_path p)) m))) [
      | inl e ↦ rw e (inr (stays_all ps m _ e), add_imports-AllIn ps m)
      | inr e ↦ rw e (
        inr (stays_all ps (add_to_cache p m) _ (is_some-find _ p _ (add_to_cache-found p m))),
        add_imports-AllIn ps (add_to_cache p m),
      )
    ]

-- The path of a package that has been put into the cache joins E until its imports are there too.
abbrev Or : (Bytes → Type 0) → Bytes → Bytes → Type 0
Or E path k = E k ⊎ (k ≡ path)

put-IsClosedBut :
    (E : Bytes → Type 0) (path : Bytes) (p : Package) (m : Map Package)
    → IsClosedBut E m
    → IsClosedBut (Or E path) (put path p m)
put-IsClosedBut E path p m h k q found = elim (Bool-cases (bytes_eq k path)) [
  | inl same ↦ inl (inr (bytes_eq-eq k path same))
  | inr other ↦ elim (h k q (sym (find-put_other k path p m other) ∙ found)) [
    | inl excused ↦ inl (inl excused)
    | inr imported ↦ inr (AllIn-grows (imports_of q) m _ grows imported)
  ]
]
  where
    grows : (j : Bytes) → is_some (find j m) ≡ true → is_some (find j (put path p m)) ≡ true
    grows j there = elim (Bool-cases (bytes_eq j path)) [
      | inl same ↦ rw (bytes_eq-eq j path same, find-put_same path p m) refl
      | inr other ↦ rw (find-put_other j path p m other) there
    ]

closed_again :
    (E : Bytes → Type 0) (path : Bytes) (p : Package) (m : Map Package)
    → find path (add_imports (imports_of p) m) ≡ some p
    → IsClosedBut (Or E path) (add_imports (imports_of p) m)
    → IsClosedBut E (add_imports (imports_of p) m)
closed_again E path p m there h k q found = elim (h k q found) [
  | inl (inl excused) ↦ inl excused
  | inl (inr same) ↦ inr (
      subst (λ r. AllIn (λ _. ⊥) (imports_of r) (add_imports (imports_of p) m))
        (some-injective
          (sym there ∙ ap (λ j. find j (add_imports (imports_of p) m)) (sym same) ∙ found))
        (add_imports-AllIn (imports_of p) m))
  | inr imported ↦ inr imported
]

mutual
  unfolding add_to_cache

  closes :
      (E : Bytes → Type 0) (p : Package) (m : Map Package)
      → IsClosedBut E m
      → IsClosedBut E (add_to_cache p m)
  closes E (go_package path name info errors imports) m h =
      closed_again E (normalize_vendor path) (go_package path name info errors imports)
        (put (normalize_vendor path) (go_package path name info errors imports) m)
        (add_to_cache-found (go_package path name info errors imports) m)
        (closes_all (Or E (normalize_vendor path)) imports _
          (put-IsClosedBut E (normalize_vendor path) _ m h))

  closes_all :
      (E : Bytes → Type 0) (ps : PackageList) (m : Map Package)
      → IsClosedBut E m
      → IsClosedBut E (add_imports ps m)
  closes_all E nil m h = h
  closes_all E (cons p ps) m h =
      elim (Bool-cases (is_some (find (normalize_vendor (pkg_path p)) m))) [
        | inl e ↦ rw e (closes_all E ps m h)
        | inr e ↦ rw e (closes_all E ps (add_to_cache p m) (closes E p m h))
      ]

add_all-IsClosed : (ps : List Package) (m : Map Package) → IsClosed m → IsClosed (add_all ps m)
unfolding add_all
add_all-IsClosed [] m h = h
add_all-IsClosed (p ∷ ps) m h = add_all-IsClosed ps (add_to_cache p m) (closes (λ _. ⊥) p m h)

module _ (load : List Bytes → Loaded) where
  load_missing-IsClosed :
      (paths : List Bytes) (p : Packages)
      → IsClosed p.packages
      → IsClosed (load_missing load paths p).packages
  unfolding load_missing
  load_missing-IsClosed [] p h = h
  load_missing-IsClosed (path ∷ paths) p h =
      add_all-IsClosed (load (path ∷ paths)).found p.packages h

  reloaded-IsClosed :
      (pkgs : List Package) (failure : Option String) (p : Packages)
      → IsClosed p.packages
      → Ensures (λ r. IsClosed r.0.packages) (reloaded load pkgs failure p)
  unfolding reloaded
  reloaded-IsClosed pkgs (some err) p h = h
  reloaded-IsClosed [] none p h = tt
  reloaded-IsClosed (pkg ∷ pkgs) none p h = closes (λ _. ⊥) pkg p.packages h

  with_types-IsClosed :
      (path : Bytes) (p : Packages) (pkg : Option Package)
      → IsClosed p.packages
      → Ensures (λ r. IsClosed r.0.packages) (with_types load path p pkg)
  unfolding with_types
  with_types-IsClosed path p none h =
      reloaded-IsClosed (load (path ∷ [])).found (load (path ∷ [])).failure p h
  with_types-IsClosed path p (some pkg) h = elim (Bool-cases (has_types pkg)) [
    | inl e ↦ rw e h
    | inr e ↦ rw e (reloaded-IsClosed (load (path ∷ [])).found (load (path ∷ [])).failure p h)
  ]

  -- If the imports of all cached packages are cached, they still are after LoadAll and after
  -- LoadWithTypes, whatever packages.Load finds and whether it fails.
  pub load-IsClosed :
      (paths : List Bytes) (path : Bytes) (p : Packages)
      → IsClosed p.packages
      → IsClosed (load_all load paths p).0.packages
        × Ensures (λ r. IsClosed r.0.packages) (load_with_types load path p)
  unfolding load_all load_one load_with_types
  load-IsClosed paths path p h = (
    load_missing-IsClosed _ p h,
    with_types-IsClosed path (load_one load path p).0 (load_one load path p).1
        (load_missing-IsClosed (missing p.packages (path ∷ [])) p h),
  )
