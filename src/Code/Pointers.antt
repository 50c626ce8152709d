-- ===== src/Code/Pointers.antt =====
-- internal/code/compare.go: what `CompatibleTypes` overlooks.
use fastgql.Prelude.{ℕ, ◌≡◌, refl, sym, ◌∙◌, arith, Bool, true, false, none, ◌==◌}
use fastgql.Prelude.Text.{bytes_eq_refl}
use fastgql.Code.{
  GoType, pointer, slice, array, basic, struct_type, tuple, signature, interface_type, map_type,
  chan, named, other, Members, nil, cons, count, normalize_vendor, compatible_types,
  compatible_members,
}

pointer_right : (e a : GoType) → compatible_types e (pointer a) ≡ compatible_types e a
unfolding compatible_types
pointer_right (pointer e) (pointer a) = pointer_right e a
pointer_right (pointer e) (slice a) = refl
pointer_right (pointer e) (array n a) = refl
pointer_right (pointer e) (basic k) = refl
pointer_right (pointer e) (struct_type ms) = refl
pointer_right (pointer e) (tuple ms) = refl
pointer_right (pointer e) (signature ps rs) = refl
pointer_right (pointer e) (interface_type ms) = refl
pointer_right (pointer e) (map_type k a) = refl
pointer_right (pointer e) (chan a) = refl
pointer_right (pointer e) (named p n) = refl
pointer_right (pointer e) (other) = refl
pointer_right (slice a') b = refl
pointer_right (array n' a') b = refl
pointer_right (basic k') b = refl
pointer_right (struct_type ms') b = refl
pointer_right (tuple ms') b = refl
pointer_right (signature ps' rs') b = refl
pointer_right (interface_type ms') b = refl
pointer_right (map_type k' a') b = refl
pointer_right (chan a') b = refl
pointer_right (named p' n') b = refl
pointer_right (other) b = refl

pointer_left : (e a : GoType) → compatible_types (pointer e) a ≡ compatible_types e a
unfolding compatible_types
pointer_left e (pointer a) = sym (pointer_right e a)
pointer_left e (slice a) = refl
pointer_left e (array n a) = refl
pointer_left e (basic k) = refl
pointer_left e (struct_type ms) = refl
pointer_left e (tuple ms) = refl
pointer_left e (signature ps rs) = refl
pointer_left e (interface_type ms) = refl
pointer_left e (map_type k a) = refl
pointer_left e (chan a) = refl
pointer_left e (named p n) = refl
pointer_left e (other) = refl

-- Types without one that the code does not know.
unfoldable mutual
  pub IsKnown : GoType → Type 0
  IsKnown (pointer t) = IsKnown t
  IsKnown (slice t) = IsKnown t
  IsKnown (array n t) = IsKnown t
  IsKnown (basic k) = Unit
  IsKnown (struct_type ms) = AreKnown ms
  IsKnown (tuple ms) = AreKnown ms
  IsKnown (signature ps rs) = AreKnown ps × AreKnown rs
  IsKnown (interface_type ms) = AreKnown ms
  IsKnown (map_type k t) = IsKnown k × IsKnown t
  IsKnown (chan t) = IsKnown t
  IsKnown (named p n) = Unit
  IsKnown other = ⊥

  pub AreKnown : Members → Type 0
  AreKnown nil = Unit
  AreKnown (cons n t ms) = IsKnown t × AreKnown ms

eq_refl : (n : ℕ) → (n == n) ≡ true
eq_refl n = ground arith

mutual
  unfolding compatible_types IsKnown

  types_refl : (t : GoType) → IsKnown t → compatible_types t t ≡ none
  types_refl (pointer t) h = types_refl t h
  types_refl (slice t) h = types_refl t h
  types_refl (array n t) h = rw (eq_refl n) (types_refl t h)
  types_refl (basic k) h = rw (eq_refl k) refl
  types_refl (struct_type ms) h = rw (eq_refl (count ms)) (members_refl true ms h)
  types_refl (tuple ms) h = rw (eq_refl (count ms)) (members_refl false ms h)
  types_refl (signature ps rs) (h, h') =
      rw (eq_refl (count ps), eq_refl (count rs), members_refl false ps h)
        (members_refl false rs h')
  types_refl (interface_type ms) h = rw (eq_refl (count ms)) (members_refl true ms h)
  types_refl (map_type k t) (h, h') = rw (types_refl k h) (types_refl t h')
  types_refl (chan t) h = types_refl t h
  types_refl (named p n) h = rw (bytes_eq_refl (normalize_vendor p), bytes_eq_refl n) refl
  types_refl other h = elim h [ ]

  members_refl : (names : Bool) (ms : Members) → AreKnown ms → compatible_members names ms ms ≡ none
  members_refl names nil h = refl
  members_refl true (cons n t ms) (h, hs) =
      rw (bytes_eq_refl n, types_refl t h) (members_refl true ms hs)
  members_refl false (cons n t ms) (h, hs) = rw (types_refl t h) (members_refl false ms hs)

-- A pointer on either side of the comparison changes nothing.
compatible_types-pointer :
    (e a : GoType)
    → (compatible_types (pointer e) a ≡ compatible_types e a)
      × (compatible_types e (pointer a) ≡ compatible_types e a)
compatible_types-pointer e a = (pointer_left e a, pointer_right e a)

-- A type of the kinds that the code knows is compatible with itself, also behind a pointer.
compatible_types-IsKnown :
    (t : GoType)
    → IsKnown t
    → (compatible_types t t ≡ none) × (compatible_types t (pointer t) ≡ none)
compatible_types-IsKnown t h = (types_refl t h, pointer_right t t ∙ types_refl t h)
