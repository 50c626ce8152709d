-- ===== src/Graphql/Introspection/Wrapping.antt =====
-- graphql/introspection/type.go: the wrapping types that `Kind` and `OfType` show one by one.
use fastgql.Prelude.{
  append-nil, ℕ, zero, suc, ◌≡◌, refl, sym, ap, ◌∙◌, String, Bool, true, false, Option, none, some,
  [], ◌∷◌, ◌++◌, if◌then◌else◌, str_eq,
}
use fastgql.Prelude.Outcome.{Outcome, ok, panic, out_of_fuel, ◌>>=◌}
use fastgql.Prelude.Text.{Bytes, codes}
use fastgql.Ast.{Kind, scalar, object, interface, union, enum, input_object}
use fastgql.Graphql.Introspection.{
  AstType, leaf, wrap, TypeDefinition, Schema, WrappedType, kind_name, wrap_type_from_type, of_type,
  kind, name,
}

-- The notation of a type in GraphQL.
abbrev bang : Bool → Bytes
bang true = codes "!"
bang false = []

abbrev pub type_text : AstType → Bytes
type_text (leaf n b) = codes n ++ bang b
type_text (wrap n t b) = (b'[' ∷ type_text t ++ b']' ∷ []) ++ bang b

abbrev one_more : Bool → ℕ → ℕ
one_more true n = suc n
one_more false n = n

-- The number of types that `OfType` shows.
abbrev pub size : AstType → ℕ
size (leaf n b) = one_more b 1
size (wrap n t b) = one_more b (suc (size t))

abbrev name_text : Option String → Outcome Bytes
name_text none = panic "no name"
name_text (some n) = ok (codes n)

-- The text for a kind, given that of the wrapped type.
abbrev text_for : Outcome Bytes → Option String → String → Outcome Bytes
text_for inner n k =
    if str_eq k "NON_NULL"
    then (inner >>= λ s. ok (s ++ codes "!"))
    else if str_eq k "LIST"
    then (inner >>= λ s. ok (b'[' ∷ s ++ b']' ∷ []))
    else name_text n

text_for_kind :
    (inner : Outcome Bytes) (n : Option String) (k : Kind)
    → text_for inner n (kind_name k) ≡ name_text n
text_for_kind inner n scalar = refl
text_for_kind inner n object = refl
text_for_kind inner n interface = refl
text_for_kind inner n union = refl
text_for_kind inner n enum = refl
text_for_kind inner n input_object = refl

module _ (schema : Schema) where
  -- A name of a type in the schema or a list, as gqlparser makes them.
  abbrev pub IsProper : AstType → Type 0
  IsProper (leaf n b) =
      (str_eq n "" ≡ false)
      × ((def : TypeDefinition) × (schema.type_named n ≡ some def) × (def.name ≡ n))
  IsProper (wrap n t b) = (str_eq n "" ≡ true) × IsProper t

  -- A client that asks for the kind and the name of a type, and the same of the type that it wraps.
  unfoldable pub read : ℕ → Option WrappedType → Outcome Bytes
  unfolding kind name of_type
  read zero t = out_of_fuel
  read (suc fuel) none = panic "no type"
  read (suc fuel) (some t) =
      let inner = read fuel (of_type schema t) in kind t >>= text_for inner (name t)

  read-leaf :
      (n : String)
      → IsProper (leaf n false)
      → read 1 (wrap_type_from_type schema (some (leaf n false))) ≡ ok (codes n)
  unfolding read wrap_type_from_type kind name of_type
  read-leaf n (e, (def, there, same)) =
      rw (e, there)
        (text_for_kind out_of_fuel (some def.name) def.kind ∙ ap (λ m. ok (codes m)) same)

  -- A list type is read as its elements, in brackets.
  read-wrap :
      (n : String) (t : AstType) (fuel : ℕ)
      → str_eq n "" ≡ true
      → read fuel (wrap_type_from_type schema (some t)) ≡ ok (type_text t)
      → read (suc fuel) (wrap_type_from_type schema (some (wrap n t false)))
        ≡ ok (b'[' ∷ type_text t ++ b']' ∷ [])
  unfolding read wrap_type_from_type kind name of_type
  read-wrap n t fuel e inner = rw (e, inner) refl

  -- A client that shows the wrapping types by Kind and OfType, and at the end the name, writes the type
  -- as the schema has it, and never meets a panic, for types over the names of the schema.
  pub read-wrap_type_from_type :
      (t : AstType)
      → IsProper t
      → read (size t) (wrap_type_from_type schema (some t)) ≡ ok (type_text t)
  unfolding read wrap_type_from_type kind name of_type
  read-wrap_type_from_type (leaf n false) h = read-leaf n h ∙ ap ok (sym (append-nil (codes n)))
  read-wrap_type_from_type (leaf n true) h =
      ap (λ r. r >>= λ s. ok (s ++ codes "!")) (read-leaf n h)
  read-wrap_type_from_type (wrap n t false) (e, h) =
      read-wrap n t (size t) e (read-wrap_type_from_type t h) ∙ ap ok (sym (append-nil _))
  read-wrap_type_from_type (wrap n t true) (e, h) =
      ap (λ r. r >>= λ s. ok (s ++ codes "!"))
        (read-wrap n t (size t) e (read-wrap_type_from_type t h))
