-- ===== src/Config/Builtins.antt =====
-- `injectBuiltins` of codegen/config/config.go and `MutateConfig` of plugin/federation/federation.go: the
-- models that are added to the type map.
use fastgql.Prelude.{
  ◌≡◌, refl, ap, ◌∙◌, inl, inr, String, Bool, true, false, Option, none, some, List, [], ◌∷◌,
  if◌then◌else◌, Bool-cases,
}
use fastgql.Prelude.Text.{Bytes, codes, bytes_eq}
use fastgql.Prelude.Maps.{
  find-put_other, find-put_same, is_some-eq, bytes_eq-eq, find, put, is_some,
}
use fastgql.Config.{TypeMapEntry, TypeMap, exists}

abbrev pub models_of : List String → List Bytes
models_of [] = []
models_of (s ∷ ss) = codes s ∷ models_of ss

abbrev mapped : String → List String → Bytes × TypeMapEntry
mapped name models = (codes name, record { model = models_of models; fields = [] })

unfoldable pub builtins : List (Bytes × TypeMapEntry)
builtins =
    mapped "__Directive" ("github.com/sujamess/fastgql/graphql/introspection.Directive" ∷ [])
    ∷ mapped "__DirectiveLocation" ("github.com/sujamess/fastgql/graphql.String" ∷ [])
    ∷ mapped "__Type" ("github.com/sujamess/fastgql/graphql/introspection.Type" ∷ [])
    ∷ mapped "__TypeKind" ("github.com/sujamess/fastgql/graphql.String" ∷ [])
    ∷ mapped "__Field" ("github.com/sujamess/fastgql/graphql/introspection.Field" ∷ [])
    ∷ mapped "__EnumValue" ("github.com/sujamess/fastgql/graphql/introspection.EnumValue" ∷ [])
    ∷ mapped "__InputValue" ("github.com/sujamess/fastgql/graphql/introspection.InputValue" ∷ [])
    ∷ mapped "__Schema" ("github.com/sujamess/fastgql/graphql/introspection.Schema" ∷ [])
    ∷ mapped "Float" ("github.com/sujamess/fastgql/graphql.Float" ∷ [])
    ∷ mapped "String" ("github.com/sujamess/fastgql/graphql.String" ∷ [])
    ∷ mapped "Boolean" ("github.com/sujamess/fastgql/graphql.Boolean" ∷ [])
    ∷ mapped "Int" (
        "github.com/sujamess/fastgql/graphql.Int" ∷ "github.com/sujamess/fastgql/graphql.Int32"
        ∷ "github.com/sujamess/fastgql/graphql.Int64" ∷ [])
    ∷ mapped "ID" (
        "github.com/sujamess/fastgql/graphql.ID" ∷ "github.com/sujamess/fastgql/graphql.IntID" ∷ [])
    ∷ []

unfoldable pub extra_builtins : List (Bytes × TypeMapEntry)
extra_builtins =
    mapped "Time" ("github.com/sujamess/fastgql/graphql.Time" ∷ [])
    ∷ mapped "Map" ("github.com/sujamess/fastgql/graphql.Map" ∷ [])
    ∷ mapped "Upload" ("github.com/sujamess/fastgql/graphql.Upload" ∷ [])
    ∷ mapped "Any" ("github.com/sujamess/fastgql/graphql.Any" ∷ [])
    ∷ []

-- The loops over the two lists: `wanted` is true for the first.
unfoldable pub inject_missing : (Bytes → Bool) → List (Bytes × TypeMapEntry) → TypeMap → TypeMap
unfolding exists put
inject_missing wanted [] tm = tm
inject_missing wanted ((name, entry) ∷ bs) tm =
    let added = inject_missing wanted bs (put name entry tm) in
    let skipped = inject_missing wanted bs tm in
    if exists tm name then skipped else if wanted name then added else skipped

-- `is_scalar` tells whether the schema has a scalar of that name.
unfoldable pub inject_builtins : (Bytes → Bool) → TypeMap → TypeMap
unfolding inject_missing builtins extra_builtins
inject_builtins is_scalar tm =
    inject_missing is_scalar extra_builtins (inject_missing (λ name. true) builtins tm)

-- What is there, or else the other.
abbrev pub or_else {ℓ} : {A : Type ℓ} → Option A → Option A → Option A
or_else (some a) b = some a
or_else none b = b

abbrev pub when {ℓ} : {A : Type ℓ} → Bool → Option A → Option A
when true o = o
when false o = none

-- A key that is there hides the other map.
hidden :
    (name : Bytes) (tm : TypeMap) (a b : Option TypeMapEntry)
    → is_some (find name tm) ≡ true
    → or_else (find name tm) a ≡ or_else (find name tm) b
hidden name tm a b there = let (e, h) = is_some-eq (find name tm) there in rw h refl

absent : (o : Option TypeMapEntry) → is_some o ≡ false → o ≡ none
absent none e = refl
absent (some a) e = cc

inject_missing-find :
    (wanted : Bytes → Bool) (bs : List (Bytes × TypeMapEntry)) (tm : TypeMap) (name : Bytes)
    → find name (inject_missing wanted bs tm)
      ≡ or_else (find name tm) (when (wanted name) (find name bs))
unfolding inject_missing exists find
inject_missing-find wanted [] tm name = by_cases (find name tm) (wanted name)
  where
    by_cases : (o : Option TypeMapEntry) (b : Bool) → o ≡ or_else o (when b none)
    by_cases (some a) b = refl
    by_cases none true = refl
    by_cases none false = refl
inject_missing-find wanted ((n, e) ∷ bs) tm name = elim (Bool-cases (is_some (find n tm))) [
  | inl there ↦ rw there (
      inject_missing-find wanted bs tm name ∙ elim (Bool-cases (bytes_eq name n)) [
        | inl same ↦
            hidden name tm _ _ (ap (λ k. is_some (find k tm)) (bytes_eq-eq name n same) ∙ there)
        | inr other ↦ rw other refl
      ])
  | inr gone ↦ elim (Bool-cases (wanted n)) [
    | inl want ↦ rw (gone, want) (inject_missing-find wanted bs (put n e tm) name ∙ added gone want)
    | inr not_want ↦
        rw (gone, not_want)
          (inject_missing-find wanted bs tm name ∙ elim (Bool-cases (bytes_eq name n)) [
            | inl same ↦ rw (ap wanted (bytes_eq-eq name n same), not_want) refl
            | inr other ↦ rw other refl
          ])
  ]
]
  where
    added :
        is_some (find n tm) ≡ false
        → wanted n ≡ true
        → or_else (find name (put n e tm)) (when (wanted name) (find name bs))
          ≡ or_else
              (find name tm)
              (when (wanted name) (if bytes_eq name n then some e else find name bs))
    added gone want = elim (Bool-cases (bytes_eq name n)) [
      | inl same ↦
          rw (same, bytes_eq-eq name n same, find-put_same n e tm, absent (find n tm) gone, want)
            refl
      | inr other ↦ rw (other, find-put_other name n e tm other) refl
    ]

-- After injectBuiltins a name has the model that the configuration gives it, or else that of the
-- builtin of this name, or else, if the schema has a scalar of this name, that of the extra builtin; a
-- name without any of these is not there.
pub inject_builtins-find :
    (is_scalar : Bytes → Bool) (tm : TypeMap) (name : Bytes)
    → find name (inject_builtins is_scalar tm)
      ≡ or_else
          (find name tm)
          (or_else (find name builtins) (when (is_scalar name) (find name extra_builtins)))
unfolding inject_builtins
inject_builtins-find is_scalar tm name =
    inject_missing-find is_scalar extra_builtins (inject_missing (λ n. true) builtins tm) name
    ∙ rw (inject_missing-find (λ n. true) builtins tm name)
        (assoc (find name tm) (find name builtins) _)
  where
    assoc : (a b c : Option TypeMapEntry) → or_else (or_else a b) c ≡ or_else a (or_else b c)
    assoc none b c = refl
    assoc (some x) b c = refl
