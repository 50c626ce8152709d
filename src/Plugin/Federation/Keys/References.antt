-- ===== src/Plugin/Federation/Keys/References.antt =====
-- plugin/federation/federation.go: the Go types that key fields get.
use fastgql.Prelude.{
  ◌≡◌, refl, sym, ap, ◌∙◌, inl, inr, true, false, Option, none, some, List, [], ◌∷◌, Bool-cases,
  if◌then◌else◌,
}
use fastgql.Prelude.Outcome.{Outcome, Ensures, Ensures-then, Ensures-map}
use fastgql.Prelude.Text.{Bytes, bytes_eq}
use fastgql.Prelude.Maps.{bytes_eq-eq, bytes_eq-sym}
use fastgql.Plugin.Federation.{FieldDefinition, KeyField, Entity}
use fastgql.Plugin.Federation.Keys.{ObjectField, set_key, set_key_field, set_fields, set_requires}

-- The Go type of the first key field of a name, if there is one.
abbrev reference_at :
    Bytes → KeyField → Option FieldDefinition → Option (Option Bytes) → Option (Option Bytes)
reference_at n key none rest = none
reference_at n key (some field) rest =
    if bytes_eq field.name n then some key.type_reference else rest

abbrev pub reference : Bytes → List KeyField → Option (Option Bytes)
reference n [] = none
reference n (key ∷ keys) = reference_at n key key.field (reference n keys)

abbrev updated : ObjectField → Bytes → Option (Option Bytes) → Option (Option Bytes)
updated f n none = none
updated f n (some r) = some (if bytes_eq f.name n then f.type_reference else r)

-- The type of the last of the fields of that name, or else what was there.
abbrev pub last_reference : List ObjectField → Bytes → Option (Option Bytes) → Option (Option Bytes)
last_reference [] n r = r
last_reference (f ∷ fs) n r = last_reference fs n (updated f n r)

updated_other :
    (f : ObjectField) (n : Bytes) (r : Option (Option Bytes))
    → bytes_eq f.name n ≡ false
    → updated f n r ≡ r
updated_other f n none h = refl
updated_other f n (some r) h = rw h refl

set_key-reference :
    (f : ObjectField) (n : Bytes) (key : KeyField) (field : Option FieldDefinition)
    (keys : List KeyField) (rest : Outcome (List KeyField))
    → key.field ≡ field
    → Ensures (λ keys'. reference n keys' ≡ updated f n (reference n keys)) rest
    → Ensures
        (λ keys'. reference n keys' ≡ updated f n (reference n (key ∷ keys)))
        (set_key f key field keys rest)
unfolding set_key
set_key-reference f n key none keys rest e h = tt
set_key-reference f n key (some field) keys rest e h =
    elim (Bool-cases (bytes_eq field.name f.name)) [
      | inl same ↦ rw (Ensures, same, e) (replaced same)
      | inr other ↦ rw other (
          Ensures-then (λ keys'. reference n keys' ≡ updated f n (reference n keys))
            (λ keys'. reference n keys' ≡ updated f n (reference n (key ∷ keys))) rest _
            (λ keys' h'. kept other keys' h') h)
    ]
  where
    replaced :
        bytes_eq field.name f.name ≡ true
        → (if bytes_eq field.name n then some f.type_reference else reference n keys)
          ≡ updated f n
              (if bytes_eq field.name n then some key.type_reference else reference n keys)
    replaced same = elim (Bool-cases (bytes_eq f.name n)) [
      | inl e' ↦ rw (bytes_eq-eq field.name f.name same, e', e') refl
      | inr e' ↦
          rw (bytes_eq-eq field.name f.name same, e')
            (sym (updated_other f n (reference n keys) e'))
    ]

    kept :
        bytes_eq field.name f.name ≡ false
        → (keys' : List KeyField) → reference n keys' ≡ updated f n (reference n keys)
        → reference n (key ∷ keys') ≡ updated f n (reference n (key ∷ keys))
    kept other keys' h' = elim (Bool-cases (bytes_eq field.name n)) [
      | inl e' ↦ rw (e, e') (sym (updated_other f n (some key.type_reference) (apart e')))
      | inr e' ↦ rw (e, e') h'
    ]
      where
        apart : bytes_eq field.name n ≡ true → bytes_eq f.name n ≡ false
        apart e' =
            ap (bytes_eq f.name) (sym (bytes_eq-eq field.name n e'))
            ∙ bytes_eq-sym f.name field.name
            ∙ other

set_key_field-reference :
    (f : ObjectField) (n : Bytes) (keys : List KeyField)
    → Ensures (λ keys'. reference n keys' ≡ updated f n (reference n keys)) (set_key_field f keys)
unfolding set_key_field
set_key_field-reference f n [] = refl
set_key_field-reference f n (key ∷ keys) =
    set_key-reference f n key key.field keys (set_key_field f keys) refl
      (set_key_field-reference f n keys)

-- After GenerateCode has gone through the fields of an entity's object, the first key field of each
-- name has the Go type of the last of them that has this name, or the type that it had if none has.
set_fields-reference :
    (fs : List ObjectField) (e : Entity) (n : Bytes)
    → Ensures
        (λ e'. reference n e'.key_fields ≡ last_reference fs n (reference n e.key_fields))
        (set_fields fs e)
unfolding set_fields
set_fields-reference [] e n = refl
set_fields-reference (f ∷ fs) e n =
    Ensures-then (λ keys. reference n keys ≡ updated f n (reference n e.key_fields))
      (λ e'. reference n e'.key_fields ≡ last_reference (f ∷ fs) n (reference n e.key_fields))
      (set_key_field f e.key_fields) _
      (λ keys h.
        Ensures-map (λ e'. reference n e'.key_fields ≡ last_reference fs n (reference n keys))
          (λ e'. reference n e'.key_fields ≡ last_reference (f ∷ fs) n (reference n e.key_fields))
          (set_fields fs (record e { key_fields = keys; requires = set_requires f e.requires }))
          (λ e' h'. h' ∙ ap (last_reference fs n) h)
          (set_fields-reference fs
            (record e { key_fields = keys; requires = set_requires f e.requires }) n))
      (set_key_field-reference f n e.key_fields)
