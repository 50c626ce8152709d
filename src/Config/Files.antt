-- ===== src/Config/Files.antt =====
-- codegen/config/config.go: the files that `check` lists under their import paths.
use mathlib.Core.Path.{subst}
use fastgql.Prelude.{
  and_right, some-injective, and_left, ◌≡◌, refl, sym, ◌∙◌, ◌⊎◌, inl, inr, true, some, List, [],
  ◌∷◌, ◌++◌, Bool-cases,
}
use fastgql.Prelude.Text.{Bytes, bytes_eq}
use fastgql.Prelude.Maps.{put, Map, find, find-put_same, find-put_other, bytes_eq-eq}
use fastgql.Config.Checking.{
  FilenamePackage, list_or, append_at, one_package, each_package, consistent,
}

abbrev pub Among : FilenamePackage → List FilenamePackage → Type 0
Among f [] = ⊥
Among f (g ∷ l) = (f ≡ g) ⊎ Among f l

-- The file is listed under the path.
abbrev pub IsListed : Bytes → FilenamePackage → Map (List FilenamePackage) → Type 0
IsListed path f fs = (l : List FilenamePackage) × (find path fs ≡ some l) × Among f l

Among-last : (f : FilenamePackage) (l : List FilenamePackage) → Among f (l ++ f ∷ [])
Among-last f [] = inl refl
Among-last f (g ∷ l) = inr (Among-last f l)

Among-front : (f g : FilenamePackage) (l : List FilenamePackage) → Among f l → Among f (l ++ g ∷ [])
Among-front f g [] h = elim h [ ]
Among-front f g (k ∷ l) (inl e) = inl e
Among-front f g (k ∷ l) (inr h) = inr (Among-front f g l h)

pub append_at-IsListed :
    (path : Bytes) (f : FilenamePackage) (fs : Map (List FilenamePackage))
    → IsListed path f (append_at path f fs)
unfolding append_at
append_at-IsListed path f fs = (
  list_or (find path fs) ++ f ∷ [],
  find-put_same path _ fs,
  Among-last f (list_or (find path fs)),
)

-- A file stays listed.
pub IsListed-append_at :
    (path path' : Bytes) (f g : FilenamePackage) (fs : Map (List FilenamePackage))
    → IsListed path f fs
    → IsListed path f (append_at path' g fs)
unfolding append_at
IsListed-append_at path path' f g fs (l, there, h) = elim (Bool-cases (bytes_eq path path')) [
  | inl same ↦ (
    l ++ g ∷ [],
    subst (λ p. find path (put p (list_or (find p fs) ++ g ∷ []) fs) ≡ some (l ++ g ∷ []))
        (bytes_eq-eq path path' same) (rw there (find-put_same path (l ++ g ∷ []) fs)),
    Among-front f g l h,
  )
  | inr other ↦ (l, find-put_other path path' _ fs other ∙ there, h)
]

one_package-Among :
    (a b : FilenamePackage) (l : List FilenamePackage)
    → one_package a l ≡ true
    → Among b l
    → bytes_eq a.package_name b.package_name ≡ true
unfolding one_package
one_package-Among a b [] e h = elim h [ ]
one_package-Among a b (c ∷ l) e (inl same) = rw same (and_left _ _ e)
one_package-Among a b (c ∷ l) e (inr h) = one_package-Among a b l (and_right _ _ e) h

each_package-Among :
    (a b : FilenamePackage) (l l' : List FilenamePackage)
    → each_package l l' ≡ true
    → Among a l
    → Among b l'
    → bytes_eq a.package_name b.package_name ≡ true
unfolding each_package
each_package-Among a b [] l' e h h' = elim h [ ]
each_package-Among a b (c ∷ l) l' e (inl same) h' =
    rw same (one_package-Among c b l' (and_left _ _ e) h')
each_package-Among a b (c ∷ l) l' e (inr h) h' = each_package-Among a b l l' (and_right _ _ e) h h'

consistent-find :
    (path : Bytes) (l : List FilenamePackage) (fs : Map (List FilenamePackage))
    → consistent fs ≡ true
    → find path fs ≡ some l
    → each_package l l ≡ true
unfolding consistent find
consistent-find path l [] e h = cc
consistent-find path l ((path', pkg) ∷ fs) e h = elim (Bool-cases (bytes_eq path path')) [
  | inl same ↦ subst (λ k. each_package k k ≡ true) (some-injective (rw same at h)) (and_left _ _ e)
  | inr other ↦ consistent-find path l fs (and_right _ _ e) (rw other at h)
]

-- What the last loops of `check` make sure of.
pub consistent-IsListed :
    (path : Bytes) (a b : FilenamePackage) (fs : Map (List FilenamePackage))
    → consistent fs ≡ true
    → IsListed path a fs
    → IsListed path b fs
    → bytes_eq a.package_name b.package_name ≡ true
consistent-IsListed path a b fs e (l, there, h) (l', there', h') =
    each_package-Among a b l l (consistent-find path l fs e there) h
      (subst (Among b) (some-injective (sym there' ∙ there)) h')
