-- ===== src/Plugin/Federation/Sources/Defined.antt =====
-- plugin/federation/federation.go: key fields that the type does not have.
use mathlib.Core.Path.{subst}
use fastgql.Prelude.{
  ◌∙◌, sym, ◌⊎◌, inl, inr, ◌≡◌, refl, ◌↔◌, Option, none, some, List, [], ◌∷◌, ◌++◌, All,
}
use fastgql.Prelude.Outcome.{Returns-map, Returns, Outcome, ok, panic, ◌>>=◌, >>=-eq-ok}
use fastgql.Prelude.Text.{Bytes}
use fastgql.Plugin.Federation.{FieldDefinition, Definition, KeyField, Entity, Lookups, set_entities}
use fastgql.Plugin.Federation.Sources.{
  resolver_arg, resolver_args, resolver_line, resolvers_of, entity_source, inject_source_late,
}

abbrev IsDefined {ℓ} : {A : Type ℓ} → Option A → Type 0
IsDefined none = ⊥
IsDefined (some a) = Unit

-- The type of the key field's name is known.
abbrev pub HasField : KeyField → Type 0
HasField key = IsDefined key.field

abbrev HasResolver : Bytes → List KeyField → Type 0
HasResolver [] keys = Unit
HasResolver (c ∷ name) keys = All HasField keys

-- The entity has no resolver, or all its key fields are fields of its type.
abbrev pub IsComplete : Entity → Type 0
IsComplete e = HasResolver e.resolver_name e.key_fields

arg-Returns :
    (field : Option FieldDefinition) (rest : Outcome Bytes)
    → Returns (resolver_arg field rest) ↔ (IsDefined field × Returns rest)
unfolding resolver_arg
arg-Returns none rest = ((λ (a, e). cc), λ (x, h). elim x [ ])
arg-Returns (some field) rest = (
  (λ (a, e). let (args, e', h) = >>=-eq-ok rest _ e in (tt, (args, e'))),
  λ (x, r). Returns-map rest _ r,
)

args-Returns : (keys : List KeyField) → Returns (resolver_args keys) ↔ All HasField keys
unfolding resolver_args
args-Returns [] = ((λ _. tt), λ _. ([], refl))
args-Returns (key ∷ keys) =
    let (out, back) = arg-Returns key.field (resolver_args keys) in
    let (out', back') = args-Returns keys in
    ((λ r. ((out r).0, out' (out r).1)), λ (h, hs). back (h, back' hs))

line-Returns :
    (e : Entity) (name : Bytes) → Returns (resolver_line e name) ↔ HasResolver name e.key_fields
unfolding resolver_line
line-Returns e [] = ((λ _. tt), λ _. ([], refl))
line-Returns e (c ∷ name) =
    let (out, back) = args-Returns e.key_fields in
    (
      (λ (a, h). let (args, e', h') = >>=-eq-ok (resolver_args e.key_fields) _ h in out (args, e')),
      λ hs. Returns-map (resolver_args e.key_fields) _ (back hs),
    )

resolvers-Returns : (es : List Entity) → Returns (resolvers_of es) ↔ All IsComplete es
unfolding resolvers_of
resolvers-Returns [] = ((λ _. tt), λ _. ([], refl))
resolvers-Returns (e ∷ es) =
    let (out, back) = line-Returns e e.resolver_name in
    let (out', back') = resolvers-Returns es in
    (
      (λ (a, h).
          let (here, eh, h') = >>=-eq-ok (resolver_line e e.resolver_name) _ h in
          let (rest, er, h'') = >>=-eq-ok (resolvers_of es) _ h' in
          (out (here, eh), out' (rest, er))),
      λ (h, hs).
          let (here, eh) = back h in let (rest, er) = back' hs in (here ++ rest, rw (eh, er) refl),
    )

-- It returns, or panics with a nil pointer.
abbrev Either : {A : Type 0} → Outcome A → Type 0
Either r = Returns r ⊎ (r ≡ panic "nil pointer dereference")

Either-bind :
    {A B : Type 0} (r : Outcome A) (next : A → Outcome B)
    → Either r
    → ((a : A) → Either (next a))
    → Either (r >>= next)
Either-bind r next (inl (a, e)) h = subst (λ x. Either (x >>= next)) (sym e) (h a)
Either-bind r next (inr e) h = subst (λ x. Either (x >>= next)) (sym e) (inr refl)

args-Either : (keys : List KeyField) → Either (resolver_args keys)
unfolding resolver_args resolver_arg
args-Either [] = inl ([], refl)
args-Either (key ∷ keys) = at_field key.field (args-Either keys)
  where
    at_field :
        (field : Option FieldDefinition)
        → Either (resolver_args keys)
        → Either (resolver_arg field (resolver_args keys))
    at_field none h = inr refl
    at_field (some field) h = Either-bind (resolver_args keys) _ h (λ args. inl (_, refl))

line-Either : (e : Entity) (name : Bytes) → Either (resolver_line e name)
unfolding resolver_line
line-Either e [] = inl ([], refl)
line-Either e (c ∷ name) =
    Either-bind (resolver_args e.key_fields) _ (args-Either e.key_fields) (λ args. inl (_, refl))

resolvers-Either : (es : List Entity) → Either (resolvers_of es)
unfolding resolvers_of
resolvers-Either [] = inl ([], refl)
resolvers-Either (e ∷ es) =
    Either-bind (resolver_line e e.resolver_name) _ (line-Either e e.resolver_name)
      (λ here. Either-bind (resolvers_of es) _ (resolvers-Either es) (λ rest. inl (_, refl)))

-- For the entities that setEntities has made, InjectSourceLate returns exactly if each of them has no
-- resolver or only key fields that are fields of its type; else it panics with a nil pointer.
pub inject_source_late-IsComplete :
    (lookups : Lookups) (entities es : List Entity) (types : List Definition)
    → set_entities lookups entities types ≡ ok es
    → (((source : List Entity × Option Bytes) × (inject_source_late lookups entities types
            ≡ ok source))
        × All IsComplete es)
      ⊎ ((inject_source_late lookups entities types ≡ panic "nil pointer dereference")
          × (¬ All IsComplete es))
unfolding inject_source_late
inject_source_late-IsComplete lookups entities es types h =
    let (out, back) = resolvers-Returns es in
    elim (resolvers-Either es) [
      | inl (text, e) ↦ inl (((es, entity_source es text), rw (h, e) refl), out (text, e))
      | inr e ↦ inr (rw (h, e) refl, λ hs. let (text, e') = back hs in cc (sym e' ∙ e))
    ]
