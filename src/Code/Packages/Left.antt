-- ===== src/Code/Packages/Left.antt =====
-- internal/code/packages.go: what a call of `Evict` leaves of the cache.
use mathlib.Core.Path.{subst}
use fastgql.Prelude.{
  ◌≤◌, some-injective, ◌≡◌, sym, ap, ◌∙◌, ◌⊎◌, inl, inr, true, false, none, some, [], ◌∷◌,
  Bool-cases, Option-cases, arith, length, All,
}
use fastgql.Prelude.Text.{Bytes, bytes_eq, bytes_eq_refl}
use fastgql.Prelude.Maps.{
  Map, find, remove, is_some, bytes_eq-eq, find-remove_same, find-remove_other,
}
use fastgql.Code.{normalize_vendor}
use fastgql.Code.Packages.{Package, PackageList, nil, cons, pkg_path, imports_of}
use fastgql.Code.Packages.Closed.{AllIn}

-- Paths that `NormalizeVendor` leaves as they are.
abbrev pub ArePlain : PackageList → Type 0
ArePlain nil = Unit
ArePlain (cons p ps) = (normalize_vendor (pkg_path p) ≡ pkg_path p) × ArePlain ps

-- An entry stands under its own path, and no import of it is vendored.
abbrev pub IsKeyed : Bytes × Package → Type 0
IsKeyed (k, p) = (k ≡ pkg_path p) × ArePlain (imports_of p)

abbrev pub IsFree : Bytes → PackageList → Type 0
IsFree path nil = Unit
IsFree path (cons p ps) = (bytes_eq (pkg_path p) path ≡ false) × IsFree path ps

-- The imports of all entries are there or in D.
abbrev pub Good : (Bytes → Type 0) → Map Package → Type 0
Good D m = (k : Bytes) (p : Package) → find k m ≡ some p → AllIn D (imports_of p) m

-- What a call leaves of a map: fewer entries, and all that they import.
pub record Left (m r : Map Package) : Type 1 where
  pub sub : (k : Bytes) (p : Package) → find k r ≡ some p → find k m ≡ some p
  pub fewer : length r ≤ length m
  pub keyed : All IsKeyed m → All IsKeyed r
  pub good : (D : Bytes → Type 0) → Good D m → Good D r

pub Left-refl : (m : Map Package) → Left m m
Left-refl m = record { sub = λ k p h. h; fewer = omega arith; keyed = λ h. h; good = λ D h. h }

pub Left-trans : (m n r : Map Package) → Left m n → Left n r → Left m r
Left-trans m n r a b = record {
  sub = λ k p h. a.sub k p (b.sub k p h);
  fewer = omega (arith, a.fewer, b.fewer);
  keyed = λ h. b.keyed (a.keyed h);
  good = λ D h. b.good D (a.good D h);
}

pub Left-none : (m r : Map Package) (k : Bytes) → Left m r → find k m ≡ none → find k r ≡ none
Left-none m r k l gone = elim (Option-cases (find k r)) [
  | inl e ↦ e
  | inr (p, e) ↦ clash p (l.sub k p e)
]
  where
    clash : (p : Package) → find k m ≡ some p → find k r ≡ none
    clash p e = cc

pub Keyed-find :
    (k : Bytes) (p : Package) (m : Map Package)
    → All IsKeyed m
    → find k m ≡ some p
    → ArePlain (imports_of p)
unfolding find
Keyed-find k p [] h e = cc
Keyed-find k p ((j, q) ∷ m) (h, hs) e = elim (Bool-cases (bytes_eq k j)) [
  | inl same ↦ subst (λ r. ArePlain (imports_of r)) (some-injective (rw same at e)) h.1
  | inr other ↦ Keyed-find k p m hs (rw other at e)
]

pub Keyed-remove : (k : Bytes) (m : Map Package) → All IsKeyed m → All IsKeyed (remove k m)
unfolding remove
Keyed-remove k [] h = tt
Keyed-remove k ((j, q) ∷ m) (h, hs) = elim (Bool-cases (bytes_eq k j)) [
  | inl same ↦ rw same (Keyed-remove k m hs)
  | inr other ↦ rw other (h, Keyed-remove k m hs)
]

pub sub-remove :
    (path : Bytes) (m : Map Package) (k : Bytes) (p : Package)
    → find k (remove path m) ≡ some p
    → find k m ≡ some p
sub-remove path m k p e = elim (Bool-cases (bytes_eq k path)) [
  | inl same ↦ clash (sym (ap (λ j. find j (remove path m)) (bytes_eq-eq k path same)) ∙ e)
  | inr other ↦ sym (find-remove_other k path m other) ∙ e
]
  where
    clash : find path (remove path m) ≡ some p → find k m ≡ some p
    clash e' = absurd (none≢some (sym (find-remove_same path m) ∙ e'))
      where
        none≢some : ¬ (none ≡ some p)
        none≢some x = cc

-- What is removed is excused.
pub AllIn-remove :
    (D : Bytes → Type 0) (path : Bytes) (ps : PackageList) (m : Map Package)
    → AllIn D ps m
    → AllIn (λ k. D k ⊎ (k ≡ path)) ps (remove path m)
AllIn-remove D path nil m h = tt
AllIn-remove D path (cons p ps) m (inl d, hs) = (inl (inl d), AllIn-remove D path ps m hs)
AllIn-remove D path (cons p ps) m (inr x, hs) = (
  elim (Bool-cases (bytes_eq (normalize_vendor (pkg_path p)) path)) [
    | inl same ↦ inl (inr (bytes_eq-eq _ path same))
    | inr other ↦ inr (rw (find-remove_other _ path m other) x)
  ],
  AllIn-remove D path ps m hs,
)

-- What nobody imports need not be excused.
pub AllIn-free :
    (D : Bytes → Type 0) (path : Bytes) (ps : PackageList) (m : Map Package)
    → ArePlain ps
    → IsFree path ps
    → AllIn (λ k. D k ⊎ (k ≡ path)) ps m
    → AllIn D ps m
AllIn-free D path nil m plain free h = tt
AllIn-free D path (cons p ps) m (e, plain) (apart, free) (h, hs) = (
  elim h [ inl (inl d) ↦ inl d | inl (inr same) ↦ clash (sym e ∙ same) | inr x ↦ inr x ],
  AllIn-free D path ps m plain free hs,
)
  where
    clash :
        pkg_path p ≡ path
        → D (normalize_vendor (pkg_path p))
          ⊎ (is_some (find (normalize_vendor (pkg_path p)) m) ≡ true)
    clash same =
        absurd
          (true≢false (sym (bytes_eq_refl path) ∙ ap (λ q. bytes_eq q path) (sym same) ∙ apart))
      where
        true≢false : ¬ (true ≡ false)
        true≢false x = cc
