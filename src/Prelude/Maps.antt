-- ===== src/Prelude/Maps.antt =====
-- Go maps with string keys as association lists.
use mathlib.Core.Path.{◌≡◌, refl, sym, ap}
use mathlib.Core.Bool.{Bool, true, false}
use mathlib.Core.Logic.{inl, inr}
use mathlib.Core.List.{List, [], ◌∷◌}
use mathlib.Core.Option.{Option, none, some}
use Prim.Native.Nat.{ℕ, ◌≤◌, ◌<◌}
use native.Mathlib.Omega.{arith}
use fastgql.Prelude.Tests.{if◌then◌else◌, Bool-cases, ◌==◌}
use fastgql.Prelude.Text.{Bytes, bytes_eq, bytes_eq_refl}
use fastgql.Prelude.Lists.{length}

same_byte : (c d : ℕ) → (c == d) ≡ true → c ≡ d
same_byte c d e = ground arith

pub bytes_eq-eq : (s t : Bytes) → bytes_eq s t ≡ true → s ≡ t
bytes_eq-eq [] [] e = refl
bytes_eq-eq [] (c ∷ t) e = cc
bytes_eq-eq (c ∷ s) [] e = cc
bytes_eq-eq (c ∷ s) (d ∷ t) e = elim (Bool-cases (c == d)) [
  | inl same ↦ rw (same_byte c d same, bytes_eq-eq s t (ground arith)) refl
  | inr other ↦ ground arith
]

pub bytes_eq-sym : (s t : Bytes) → bytes_eq s t ≡ bytes_eq t s
bytes_eq-sym [] [] = refl
bytes_eq-sym [] (c ∷ t) = refl
bytes_eq-sym (c ∷ s) [] = refl
bytes_eq-sym (c ∷ s) (d ∷ t) = rw (bytes_eq-sym s t) (ground arith)

abbrev pub Map {ℓ} : Type ℓ → Type ℓ
Map A = List (Bytes × A)

module _ {ℓ} {A : Type ℓ} where
  -- `m[k]`, and whether k is there.
  unfoldable pub find : Bytes → List (Bytes × A) → Option A
  find k [] = none
  find k ((k', v) ∷ m) = if bytes_eq k k' then some v else find k m

  abbrev pub is_some : Option A → Bool
  is_some none = false
  is_some (some a) = true

  -- `m[k] = v`.
  unfoldable pub put : Bytes → A → List (Bytes × A) → List (Bytes × A)
  put k v [] = (k, v) ∷ []
  put k v ((k', v') ∷ m) =
      let rest = put k v m in if bytes_eq k k' then (k', v) ∷ m else (k', v') ∷ rest

  -- `delete(m, k)`.
  unfoldable pub remove : Bytes → List (Bytes × A) → List (Bytes × A)
  remove k [] = []
  remove k ((k', v) ∷ m) = let rest = remove k m in if bytes_eq k k' then rest else (k', v) ∷ rest

  pub find-put_same : (k : Bytes) (v : A) (m : List (Bytes × A)) → find k (put k v m) ≡ some v
  unfolding find put
  find-put_same k v [] = rw (bytes_eq_refl k) refl
  find-put_same k v ((k', v') ∷ m) = elim (Bool-cases (bytes_eq k k')) [
    | inl e ↦ rw e (rw e refl)
    | inr e ↦ rw e (rw e (find-put_same k v m))
  ]

  pub find-put_other :
      (k k' : Bytes) (v : A) (m : List (Bytes × A))
      → bytes_eq k k' ≡ false
      → find k (put k' v m) ≡ find k m
  unfolding find put
  find-put_other k k' v [] d = rw d refl
  find-put_other k k' v ((j, w) ∷ m) d = elim (Bool-cases (bytes_eq k' j)) [
    | inl e ↦ rw (e, sym (bytes_eq-eq k' j e), d) refl
    | inr e ↦ rw e (ap (λ r. if bytes_eq k j then some w else r) (find-put_other k k' v m d))
  ]

  pub find-remove_same : (k : Bytes) (m : List (Bytes × A)) → find k (remove k m) ≡ none
  unfolding find remove
  find-remove_same k [] = refl
  find-remove_same k ((j, w) ∷ m) = elim (Bool-cases (bytes_eq k j)) [
    | inl e ↦ rw e (find-remove_same k m)
    | inr e ↦ rw e (rw e (find-remove_same k m))
  ]

  pub find-remove_other :
      (k k' : Bytes) (m : List (Bytes × A))
      → bytes_eq k k' ≡ false
      → find k (remove k' m) ≡ find k m
  unfolding find remove
  find-remove_other k k' [] d = refl
  find-remove_other k k' ((j, w) ∷ m) d = elim (Bool-cases (bytes_eq k' j)) [
    | inl e ↦ rw (e, sym (bytes_eq-eq k' j e), d) (find-remove_other k k' m d)
    | inr e ↦ rw e (ap (λ r. if bytes_eq k j then some w else r) (find-remove_other k k' m d))
  ]

  pub length-remove : (k : Bytes) (m : List (Bytes × A)) → length (remove k m) ≤ length m
  unfolding remove
  length-remove k [] = omega arith
  length-remove k ((j, w) ∷ m) = elim (Bool-cases (bytes_eq k j)) [
    | inl e ↦ rw e (omega (arith, length-remove k m))
    | inr e ↦ rw e (omega (arith, length-remove k m))
  ]

  -- A key that is there makes the map shorter.
  pub length-remove_present :
      (k : Bytes) (v : A) (m : List (Bytes × A))
      → find k m ≡ some v
      → length (remove k m) < length m
  unfolding find remove
  length-remove_present k v [] h = cc
  length-remove_present k v ((j, w) ∷ m) h = elim (Bool-cases (bytes_eq k j)) [
    | inl e ↦ rw e (omega (arith, length-remove k m))
    | inr e ↦ rw e (omega (arith, length-remove_present k v m (rw e at h)))
  ]

  -- A key that is there is not one that is missing.
  pub find-differs :
      (k j : Bytes) (v : A) (m : List (Bytes × A))
      → find k m ≡ some v
      → is_some (find j m) ≡ false
      → bytes_eq k j ≡ false
  find-differs k j v m h gone = elim (Bool-cases (bytes_eq k j)) [
    | inl same ↦ apart (ap (λ i. is_some (find i m)) (bytes_eq-eq k j same))
    | inr other ↦ other
  ]
    where
      apart : is_some (find k m) ≡ is_some (find j m) → bytes_eq k j ≡ false
      apart e = cc

  pub is_some-find :
      (k : Bytes) (v : A) (m : List (Bytes × A)) → find k m ≡ some v → is_some (find k m) ≡ true
  is_some-find k v m h = rw h refl

pub is_some-eq {ℓ} : {A : Type ℓ} (o : Option A) → is_some o ≡ true → (a : A) × (o ≡ some a)
is_some-eq none e = cc
is_some-eq (some a) e = (a, refl)
