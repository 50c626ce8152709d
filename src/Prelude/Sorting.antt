-- ===== src/Prelude/Sorting.antt =====
-- `sort.Slice` by a name: for distinct names its result does not depend on the order before.
use mathlib.Core.Path.{◌≡◌, refl, sym, ap, ◌∙◌, subst}
use mathlib.Core.Bool.{Bool, true, false, ◌&&◌, ◌||◌}
use mathlib.Core.Logic.{◌⊎◌, inl, inr}
use mathlib.Core.List.{List, [], ◌∷◌, Permᴰ}
use native.Mathlib.Omega.{arith}
use fastgql.Prelude.Tests.{if◌then◌else◌, Bool-cases, ltb, ◌==◌}
use fastgql.Prelude.Text.{Bytes, bytes_eq}
use fastgql.Prelude.Lists.{All, IsIn}
use fastgql.Prelude.Maps.{bytes_eq-sym}

-- The order `<` of Go strings.
abbrev pub bytes_lt : Bytes → Bytes → Bool
bytes_lt s [] = false
bytes_lt [] (d ∷ t) = true
bytes_lt (c ∷ s) (d ∷ t) = ltb c d || (c == d && bytes_lt s t)

bytes_lt_asym : (s t : Bytes) → bytes_lt s t ≡ true → bytes_lt t s ≡ false
bytes_lt_asym s [] h = cc
bytes_lt_asym [] (d ∷ t) h = refl
bytes_lt_asym (c ∷ s) (d ∷ t) h = ground (arith, bytes_lt_asym s t)

bytes_lt_trans : (s t u : Bytes) → bytes_lt s t ≡ true → bytes_lt t u ≡ true → bytes_lt s u ≡ true
bytes_lt_trans s t [] h h' = cc
bytes_lt_trans s [] (e ∷ u) h h' = cc
bytes_lt_trans [] (d ∷ t) (e ∷ u) h h' = refl
bytes_lt_trans (c ∷ s) (d ∷ t) (e ∷ u) h h' = ground (arith, bytes_lt_trans s t u)

-- Different strings are ordered one way.
bytes_lt_total :
    (s t : Bytes) → bytes_eq s t ≡ false → (bytes_lt s t ≡ true) ⊎ (bytes_lt t s ≡ true)
bytes_lt_total [] [] h = cc
bytes_lt_total [] (d ∷ t) h = inl refl
bytes_lt_total (c ∷ s) [] h = inr refl
bytes_lt_total (c ∷ s) (d ∷ t) h = ground (arith, bytes_lt_total s t)

module _ {ℓ} {A : Type ℓ} (name : A → Bytes) where
  unfoldable pub insert : A → List A → List A
  insert a [] = a ∷ []
  insert a (b ∷ l) =
      let rest = insert a l in if bytes_lt (name a) (name b) then a ∷ b ∷ l else b ∷ rest

  unfoldable pub sort : List A → List A
  unfolding insert
  sort [] = []
  sort (a ∷ l) = insert a (sort l)

  insert-lt :
      (a b : A) (l : List A)
      → bytes_lt (name a) (name b) ≡ true
      → insert a (insert b l) ≡ insert b (insert a l)
  unfolding insert
  insert-lt a b [] h = rw (h, bytes_lt_asym (name a) (name b) h) refl
  insert-lt a b (c ∷ l) h = elim (Bool-cases (bytes_lt (name b) (name c))) [
    | inl e ↦
        rw
          (
            e,
            h,
            bytes_lt_trans (name a) (name b) (name c) h e,
            bytes_lt_asym (name a) (name b) h,
            e,
          )
          refl
    | inr e ↦ elim (Bool-cases (bytes_lt (name a) (name c))) [
      | inl e' ↦ rw (e, e', bytes_lt_asym (name a) (name b) h, e) refl
      | inr e' ↦ rw (e, e', e) (ap (λ m. c ∷ m) (insert-lt a b l h))
    ]
  ]

  insert-insert :
      (a b : A) (l : List A)
      → bytes_eq (name a) (name b) ≡ false
      → insert a (insert b l) ≡ insert b (insert a l)
  insert-insert a b l apart = elim (bytes_lt_total (name a) (name b) apart) [
    | inl h ↦ insert-lt a b l h
    | inr h ↦ sym (insert-lt b a l h)
  ]

  -- No two of them have one name.
  abbrev pub AreNamedApart : List A → Type 0
  AreNamedApart [] = Unit
  AreNamedApart (a ∷ l) = All (λ b. bytes_eq (name a) (name b) ≡ false) l × AreNamedApart l

  pub All-reordered : {l l' : List A} (P : A → Type 0) → Permᴰ l l' → All P l → All P l'
  All-reordered P Permᴰ.nil h = h
  All-reordered P (Permᴰ.cons e p) (h, hs) = (subst P e h, All-reordered P p hs)
  All-reordered P (Permᴰ.swap e e') (h, (h', hs)) = (subst P e' h', (subst P e h, hs))
  All-reordered P (Permᴰ.trans p q) h = All-reordered P q (All-reordered P p h)

  pub AreNamedApart-reordered : {l l' : List A} → Permᴰ l l' → AreNamedApart l → AreNamedApart l'
  AreNamedApart-reordered Permᴰ.nil h = h
  AreNamedApart-reordered (Permᴰ.cons {a} {b} {l₁} {l₂} e p) (h, hs) = (
    subst (λ c. All (λ d. bytes_eq (name c) (name d) ≡ false) l₂) e
        (All-reordered (λ d. bytes_eq (name a) (name d) ≡ false) p h),
    AreNamedApart-reordered p hs,
  )
  AreNamedApart-reordered (Permᴰ.swap {a} {b} {a'} {b'} {l} e e') ((h, ha), (hb, hs)) =
      subst (λ c. AreNamedApart (c ∷ b' ∷ l)) e'
        (subst (λ c. AreNamedApart (b ∷ c ∷ l)) e
          ((bytes_eq-sym (name b) (name a) ∙ h, hb), (ha, hs)))
  AreNamedApart-reordered (Permᴰ.trans p q) h =
      AreNamedApart-reordered q (AreNamedApart-reordered p h)

  -- Sorted by distinct names, the result does not depend on the order before.
  pub sort-reordered : {l l' : List A} → Permᴰ l l' → AreNamedApart l → sort l ≡ sort l'
  unfolding sort
  sort-reordered Permᴰ.nil h = refl
  sort-reordered (Permᴰ.cons e p) (h, hs) = rw (e, sort-reordered p hs) refl
  sort-reordered (Permᴰ.swap {a} {b} {a'} {b'} {l} e e') ((h, ha), (hb, hs)) =
      rw (sym e, sym e') (insert-insert a b (sort l) h)
  sort-reordered (Permᴰ.trans p q) h =
      sort-reordered p h ∙ sort-reordered q (AreNamedApart-reordered p h)

module _ {A : Type 0} (name : A → Bytes) where
  IsIn-insert : (a b : A) (l : List A) → (b ≡ a) ⊎ IsIn a l → IsIn a (insert name b l)
  unfolding insert
  IsIn-insert a b [] h = h
  IsIn-insert a b (c ∷ l) h = elim (Bool-cases (bytes_lt (name b) (name c))) [
    | inl before ↦ rw before h
    | inr behind ↦ rw behind (elim h [
      | inl e ↦ inr (IsIn-insert a b l (inl e))
      | inr rest ↦ elim rest [ inl e ↦ inl e | inr deep ↦ inr (IsIn-insert a b l (inr deep)) ]
    ])
  ]

  -- Sorting loses nothing.
  pub IsIn-sort : (a : A) (l : List A) → IsIn a l → IsIn a (sort name l)
  unfolding sort
  IsIn-sort a [] h = h
  IsIn-sort a (b ∷ l) (inl e) = IsIn-insert a b (sort name l) (inl e)
  IsIn-sort a (b ∷ l) (inr h) = IsIn-insert a b (sort name l) (inr (IsIn-sort a l h))
