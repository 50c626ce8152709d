-- ===== src/Plugin/Federation/Ordering.antt =====
-- plugin/federation/federation.go: the order of the schema's map of types does not matter.
use mathlib.Core.List.{Permᴰ}
use mathlib.Core.List.Permᴰ
use mathlib.Core.Path.{subst}
use fastgql.Prelude.{
  true, none, if◌then◌else◌, Bool, All-append, some, inr, false, inl, Option, Bool-cases, All, ◌≡◌,
  refl, sym, ap, ◌∙◌, List, [], ◌∷◌, ◌++◌,
}
use fastgql.Prelude.Outcome.{ok, ok-injective, >>=-eq-ok, Ensures, Ensures-bind, Ensures-eq}
use fastgql.Prelude.Text.{codes, bytes_eq, Bytes}
use fastgql.Prelude.Sorting.{sort-reordered, AreNamedApart}
use fastgql.Plugin.Federation.{
  Directive, requires_of, contains_brace, new_entity, entity_at, keyed_entity, Definition, Entity,
  Lookups, entity_of, collect, entity_name, set_entities,
}

abbrev pub type_name : Definition → Bytes
type_name type = type.name

exchange : (a b r : List Entity) → Permᴰ (a ++ (b ++ r)) (b ++ (a ++ r))
exchange [] b r = Permᴰ.refl (b ++ r)
exchange (x ∷ a) b r =
    Permᴰ.trans (Permᴰ.cons refl (exchange a b r)) (Permᴰ.symm (Permᴰ.middle x b (a ++ r)))

module _ (lookups : Lookups) where
  collect-intro :
      (type : Definition) (types : List Definition) (here rest : List Entity)
      → entity_of lookups type ≡ ok here
      → collect lookups types ≡ ok rest
      → collect lookups (type ∷ types) ≡ ok (here ++ rest)
  unfolding collect
  collect-intro type types here rest e e' = rw (e, e') refl

  collect-cases :
      (type : Definition) (types : List Definition) (es : List Entity)
      → collect lookups (type ∷ types) ≡ ok es
      → (here : List Entity) × (rest : List Entity) × (entity_of lookups type ≡ ok here)
        × (collect lookups types ≡ ok rest)
        × (here ++ rest ≡ es)
  unfolding collect
  collect-cases type types es h =
      let (here, eh, h') = >>=-eq-ok (entity_of lookups type) _ h in
      let (rest, er, done) = >>=-eq-ok (collect lookups types) _ h' in
      (here, rest, eh, er, ok-injective done)

  -- The entities of reordered types are the reordered entities.
  collect-reordered :
      {types types' : List Definition} (es : List Entity)
      → Permᴰ types types'
      → collect lookups types ≡ ok es
      → (es' : List Entity) × (collect lookups types' ≡ ok es') × Permᴰ es es'
  collect-reordered es Permᴰ.nil h = (es, h, Permᴰ.refl es)
  collect-reordered es (Permᴰ.cons {a} {b} {l₁} {l₂} e p) h =
      let (here, rest, eh, er, done) = collect-cases a l₁ es h in
      let (rest', er', p') = collect-reordered rest p er in
      (
        here ++ rest',
        collect-intro b l₂ here rest' (subst (λ t. entity_of lookups t ≡ ok here) e eh) er',
        subst (λ x. Permᴰ x (here ++ rest')) done (Permᴰ.append_left here p'),
      )
  collect-reordered es (Permᴰ.swap {a} {b} {a'} {b'} {l} e e') h =
      let (ha, hbr, ea, ebr, done) = collect-cases a (b ∷ l) es h in
      let (hb, hr, eb, er, done') = collect-cases b l hbr ebr in
      (
        hb ++ (ha ++ hr),
        collect-intro a' (b' ∷ l) hb (ha ++ hr) (subst (λ t. entity_of lookups t ≡ ok hb) e' eb)
            (collect-intro b' l ha hr (subst (λ t. entity_of lookups t ≡ ok ha) e ea) er),
        subst (λ x. Permᴰ x (hb ++ (ha ++ hr))) (ap (λ x. ha ++ x) done' ∙ done)
            (exchange ha hb hr),
      )
  collect-reordered es (Permᴰ.trans p q) h =
      let (es', e, p') = collect-reordered es p h in
      let (es'', e', q') = collect-reordered es' q e in (es'', e', Permᴰ.trans p' q')

  abbrev AtMostOne : Bytes → List Entity → Type 0
  AtMostOne name [] = Unit
  AtMostOne name (e ∷ []) = e.name ≡ name
  AtMostOne name (e ∷ e' ∷ es) = ⊥

  keyed_entity-AtMostOne :
      (type : Definition) (raws : List Bytes)
      → Ensures (AtMostOne type.name) (keyed_entity lookups type raws)
  unfolding keyed_entity new_entity
  keyed_entity-AtMostOne type [] = tt
  keyed_entity-AtMostOne type (a ∷ b ∷ more) = tt
  keyed_entity-AtMostOne type (raw ∷ []) = elim (Bool-cases (contains_brace raw)) [
    | inl e ↦ rw (Ensures, e) tt
    | inr e ↦ rw e (
        Ensures-bind (AtMostOne type.name) (requires_of lookups type.fields) _ (λ requires _. refl))
  ]

  entity_at-AtMostOne :
      (type : Definition) (key : Option Directive)
      → Ensures (AtMostOne type.name) (entity_at lookups type key)
  unfolding entity_at
  entity_at-AtMostOne type none = tt
  entity_at-AtMostOne type (some dir) = keyed_entity-AtMostOne type dir.arguments

  entity_of-AtMostOne : (type : Definition) → Ensures (AtMostOne type.name) (entity_of lookups type)
  unfolding entity_of
  entity_of-AtMostOne type = by_kind type.is_object
    where
      by_kind :
          (b : Bool)
          → Ensures (AtMostOne type.name) (
              if b
              then entity_at lookups type (lookups.directive_for_name type.directives (codes "key"))
              else ok [])
      by_kind true =
          entity_at-AtMostOne type (lookups.directive_for_name type.directives (codes "key"))
      by_kind false = tt

  apart_from :
      (name : Bytes) (types : List Definition) (es : List Entity)
      → All (λ t. bytes_eq name t.name ≡ false) types
      → collect lookups types ≡ ok es
      → All (λ e. bytes_eq name e.name ≡ false) es
  unfolding collect
  apart_from name [] es h e = subst (All (λ e. bytes_eq name e.name ≡ false)) (ok-injective e) tt
  apart_from name (type ∷ types) es (h, hs) e =
      let (here, rest, eh, er, done) = collect-cases type types es e in
      subst (All (λ e. bytes_eq name e.name ≡ false)) done (
        All-append (λ e. bytes_eq name e.name ≡ false) here rest
          (alone here (
            Ensures-eq (AtMostOne type.name) (entity_of lookups type) here eh
              (entity_of-AtMostOne type)))
          (apart_from name types rest hs er))
    where
      alone :
          (here : List Entity)
          → AtMostOne type.name here
          → All (λ e. bytes_eq name e.name ≡ false) here
      alone [] m = tt
      alone (e ∷ []) m = (rw m h, tt)
      alone (e ∷ e' ∷ es) m = elim m [ ]

  collect-AreNamedApart :
      (types : List Definition) (es : List Entity)
      → AreNamedApart type_name types
      → collect lookups types ≡ ok es
      → AreNamedApart entity_name es
  unfolding collect
  collect-AreNamedApart [] es apart e = subst (AreNamedApart entity_name) (ok-injective e) tt
  collect-AreNamedApart (type ∷ types) es (h, apart) e =
      let (here, rest, eh, er, done) = collect-cases type types es e in
      subst (AreNamedApart entity_name) done (
        joined here rest
          (Ensures-eq (AtMostOne type.name) (entity_of lookups type) here eh
            (entity_of-AtMostOne type))
          (apart_from type.name types rest h er) (collect-AreNamedApart types rest apart er))
    where
      joined :
          (here rest : List Entity)
          → AtMostOne type.name here
          → All (λ e. bytes_eq type.name e.name ≡ false) rest
          → AreNamedApart entity_name rest
          → AreNamedApart entity_name (here ++ rest)
      joined [] rest m a apart' = apart'
      joined (e ∷ []) rest m a apart' = (rw m a, apart')
      joined (e ∷ e' ∷ es) rest m a apart' = elim m [ ]

  -- If setEntities of a new plugin returns entities for the types of a schema, whose names are
  -- different, it returns the same entities in the same order for these types in every other order.
  pub set_entities-reordered :
      (es : List Entity) (types types' : List Definition)
      → Permᴰ types types'
      → AreNamedApart type_name types
      → set_entities lookups [] types ≡ ok es
      → set_entities lookups [] types' ≡ ok es
  unfolding set_entities
  set_entities-reordered es types types' p apart h =
      let (found, e, done) = >>=-eq-ok (collect lookups types) _ h in
      let (found', e', p') = collect-reordered found p e in
      rw e' (
        ap ok (sym (sort-reordered entity_name p' (collect-AreNamedApart types found apart e)))
        ∙ done)
