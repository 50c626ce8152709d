-- ===== src/Code/Packages/Eviction.antt =====
-- internal/code/packages.go: `Evict` ends, and takes what depends on the package along.
use mathlib.Core.Path.{subst}
use fastgql.Prelude.{
  ℕ, zero, suc, ◌≤◌, ◌<◌, some-injective, ◌≡◌, refl, sym, ap, ◌∙◌, ◌⊎◌, inl, inr, false, Option,
  none, some, List, [], ◌∷◌, Bool-cases, if◌then◌else◌, arith, length, All,
}
use fastgql.Prelude.Outcome.{Outcome, ok}
use fastgql.Prelude.Text.{Bytes, bytes_eq}
use fastgql.Prelude.Maps.{
  Map, find, remove, is_some, is_some-eq, bytes_eq-eq, find-remove_same, length-remove,
  length-remove_present,
}
use fastgql.Code.Packages.{
  Package, PackageList, nil, cons, pkg_path, imports_of, Packages, evict_for, evict_importers,
  evict_with, evict,
}
use fastgql.Code.Packages.Closed.{AllIn, IsClosed}
use fastgql.Code.Packages.Left.{
  IsKeyed, IsFree, Left, Left-refl, Left-trans, Left-none, Keyed-find, Keyed-remove, sub-remove,
  AllIn-remove, AllIn-free,
}

-- A call for a path: it ends, the path is gone, and it is not counted in what is left.
abbrev Ends : (Bytes → Map Package → Outcome (Map Package)) → Bytes → Map Package → Type 1
Ends rec path m =
    (r : Map Package) × (rec path m ≡ ok r)
    × Left m r
    × (find path r ≡ none)
    × (length r ≤ length (remove path m))

-- The calls on maps that are small enough end.
abbrev EndBelow : ℕ → (Bytes → Map Package → Outcome (Map Package)) → Type 1
EndBelow fuel rec =
    (path : Bytes) (m : Map Package)
    → All IsKeyed m
    → length (remove path m) < fuel
    → Ends rec path m

module _ (fuel : ℕ) (rec : Bytes → Map Package → Outcome (Map Package)) (ends : EndBelow fuel rec)
    (path : Bytes) where
  evict_for-ends :
      (importer : Bytes) (ps : PackageList) (m : Map Package)
      → All IsKeyed m
      → length (remove importer m) < fuel
      → (r : Map Package) × (evict_for rec path importer ps m ≡ ok r)
        × Left m r
        × ((find importer r ≡ none) ⊎ IsFree path ps)
  unfolding evict_for
  evict_for-ends importer nil m keyed small = (m, refl, Left-refl m, inr tt)
  evict_for-ends importer (cons p ps) m keyed small =
      elim (Bool-cases (bytes_eq (pkg_path p) path)) [
        | inl same ↦
            let (r, e, left, gone, fewer) = ends importer m keyed small in
            let (r', e', left', _) =
              evict_for-ends importer ps r (left.keyed keyed)
                (omega (arith, length-remove importer r)) in
            (
              r',
              rw (same, e) e',
              Left-trans m r r' left left',
              inl (Left-none r r' importer left' gone),
            )
        | inr other ↦
            let (r, e, left, free) = evict_for-ends importer ps m keyed small in
            (r, rw other e, left, elim free [ inl gone ↦ inl gone | inr f ↦ inr (other, f) ])
      ]

  -- One round of the loop over the map.
  visit-ends :
      (k : Bytes) (p : Package) (m : Map Package)
      → k ≡ pkg_path p
      → All IsKeyed m
      → length m ≤ fuel
      → (r : Map Package) × ((if is_some (find k m)
            then evict_for rec path (pkg_path p) (imports_of p) m
            else ok m)
          ≡ ok r)
        × Left m r
        × ((find k r ≡ none) ⊎ IsFree path (imports_of p))
  visit-ends k p m key keyed small = elim (Bool-cases (is_some (find k m))) [
    | inl e ↦
        let (q, found) = is_some-eq (find k m) e in
        let (r, e', left, free) = evict_for-ends (pkg_path p) (imports_of p) m keyed (
          subst (λ j. length (remove j m) < fuel) key
            (omega (arith, length-remove_present k q m found))) in
        (
          r,
          rw e e',
          left,
          subst (λ j. (find j r ≡ none) ⊎ IsFree path (imports_of p)) (sym key) free,
        )
    | inr e ↦ (m, rw e refl, Left-refl m, inl (missing (find k m) e))
  ]
    where
      missing : (o : Option Package) → is_some o ≡ false → o ≡ none
      missing none e = refl
      missing (some q) e = cc

  -- Of what the loop has visited, only packages are left that do not import the path.
  evict_importers-ends :
      (snapshot : List (Bytes × Package)) (m : Map Package)
      → All IsKeyed snapshot
      → All IsKeyed m
      → length m ≤ fuel
      → (r : Map Package) × (evict_importers rec path snapshot m ≡ ok r)
        × Left m r
        × ((k : Bytes) (p : Package)
            → find k snapshot ≡ some p
            → find k r ≡ some p
            → IsFree path (imports_of p))
  unfolding evict_importers find
  evict_importers-ends [] m keys keyed small = (m, refl, Left-refl m, λ k p e e'. cc)
  evict_importers-ends ((j, q) ∷ snapshot) m (key, keys) keyed small =
      let (r, e, left, free) = visit-ends j q m key.0 keyed small in
      let (r', e', left', frees) =
        evict_importers-ends snapshot r keys (left.keyed keyed) (omega (arith, left.fewer)) in
      (
        r',
        rw e e',
        Left-trans m r r' left left',
        λ k p found there. elim (Bool-cases (bytes_eq k j)) [
          | inl same ↦
              subst (λ v. IsFree path (imports_of v)) (some-injective (rw same at found))
                (elim free [
                  | inl gone ↦ absurd (
                      apart (find k r') there
                        (ap (λ i. find i r') (bytes_eq-eq k j same) ∙ Left-none r r' j left' gone))
                  | inr f ↦ f
                ])
          | inr other ↦ frees k p (rw other at found) there
        ],
      )
    where
      apart : {p : Package} (o : Option Package) → o ≡ some p → o ≡ none → ⊥
      apart none e e' = cc
      apart (some v) e e' = cc

evict_with-ends : (fuel : ℕ) → EndBelow fuel (evict_with fuel)
unfolding evict_with
evict_with-ends zero path m keyed small = absurd (omega arith)
evict_with-ends (suc fuel) path m keyed small =
    let m' = remove path m in
    let keyed' = Keyed-remove path m keyed in
    let (r, e, left, frees) =
      evict_importers-ends fuel (evict_with fuel) (evict_with-ends fuel) path m' m' keyed' keyed'
        (omega (arith, small)) in
    (
      r,
      e,
      record {
        sub = λ k p h. sub-remove path m k p (left.sub k p h);
        fewer = omega (arith, left.fewer, length-remove path m);
        keyed = λ _. left.keyed keyed';
        good = λ D good k p found.
            AllIn-free D path (imports_of p) r (Keyed-find k p r (left.keyed keyed') found)
              (frees k p (left.sub k p found) found)
              (left.good (λ j. D j ⊎ (j ≡ path))
                (λ j q there.
                  AllIn-remove D path (imports_of q) m (good j q (sub-remove path m j q there)))
                k p found);
      },
      Left-none m' r path left (find-remove_same path m),
      left.fewer,
    )

-- For a cache whose packages and imports are not vendored, Evict ends. The package is not in the cache
-- any more, what is left was there before, and if the imports of all cached packages were cached,
-- the imports of all that is left still are: each package that depends on the evicted one is gone.
pub evict-IsClosed :
    (path : Bytes) (p : Packages)
    → All IsKeyed p.packages
    → IsClosed p.packages
    → (p' : Packages) × (evict path p ≡ ok p')
      × (find path p'.packages ≡ none)
      × ((k : Bytes) (q : Package) → find k p'.packages ≡ some q → find k p.packages ≡ some q)
      × IsClosed p'.packages
unfolding evict
evict-IsClosed path p keyed closed =
    let (r, e, left, gone, _) =
      evict_with-ends (suc (length p.packages)) path p.packages keyed
        (omega (arith, length-remove path p.packages)) in
    (
      record p { packages = r },
      rw e refl,
      gone,
      left.sub,
      λ k q h. inr (left.good (λ _. ⊥) (λ j v found. only _ _ (closed j v found)) k q h),
    )
  where
    only : (m : Map Package) (ps : PackageList) → ⊥ ⊎ AllIn (λ _. ⊥) ps m → AllIn (λ _. ⊥) ps m
    only m ps (inl x) = elim x [ ]
    only m ps (inr h) = h
