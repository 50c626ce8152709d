-- ===== src/Plugin/Federation/Unordered.antt =====
-- plugin/federation/federation.go: `setEntities` as a function of the schema's map of types, which has no
-- order.
use mathlib.Core.List.{Permᴰ}
use mathlib.Core.List.Permᴰ
use mathlib.Core.Quot
use mathlib.Core.Quot.{Quot}
use native.Mathlib.Nat.{ℕ_set}
use fastgql.Prelude.{◌≡◌, refl, sym, ap, Option, none, some, List, []}
use fastgql.Prelude.Outcome.{Outcome, ok, panic, out_of_fuel}
use fastgql.Prelude.Sorting.{AreNamedApart}
use fastgql.Plugin.Federation.{Definition, Entity, Lookups, set_entities}
use fastgql.Plugin.Federation.Ordering.{type_name, set_entities-reordered}

-- What a call returns, none if it does not.
abbrev pub returned {ℓ} : {A : Type ℓ} → Outcome A → Option A
returned (ok a) = some a
returned (panic text) = none
returned out_of_fuel = none

returned-ext :
    {A : Type 0} (r r' : Outcome A)
    → ((a : A) → r ≡ ok a → r' ≡ ok a)
    → ((a : A) → r' ≡ ok a → r ≡ ok a)
    → returned r ≡ returned r'
returned-ext (ok a) r' to from = ap returned (sym (to a refl))
returned-ext r (ok a) to from = ap returned (from a refl)
returned-ext (panic text) (panic text') to from = refl
returned-ext (panic text) out_of_fuel to from = refl
returned-ext out_of_fuel (panic text) to from = refl
returned-ext out_of_fuel out_of_fuel to from = refl

-- Types with different names, in some order.
abbrev pub Listed : Type 0
Listed = (types : List Definition) × AreNamedApart type_name types

-- The map: such a list without its order.
abbrev pub TypeMap : Type 0
TypeMap = Quot {α = Listed} (λ l l'. Permᴰ l.0 l'.0)

pub Entities-set : IsSet (Option (List Entity))
Entities-set = hlevel ℕ_set

module _ (lookups : Lookups) where
  -- For every order of the types of a schema, whose names are different, setEntities of a new plugin
  -- returns the same entities in the same order, or does not return for any order.
  pub set_entities-unordered :
      (types types' : List Definition)
      → Permᴰ types types'
      → AreNamedApart type_name types
      → AreNamedApart type_name types'
      → returned (set_entities lookups [] types) ≡ returned (set_entities lookups [] types')
  set_entities-unordered types types' p apart apart' =
      returned-ext (set_entities lookups [] types) (set_entities lookups [] types')
        (λ es h. set_entities-reordered lookups es types types' p apart h)
        (λ es h. set_entities-reordered lookups es types' types (Permᴰ.symm p) apart' h)

  -- What `setEntities` promises: a function of the map.
  unfoldable pub entities_of : TypeMap → Option (List Entity)
  entities_of =
      Quot.lift Entities-set (λ l. returned (set_entities lookups [] l.0))
        (λ l l' p. set_entities-unordered l.0 l'.0 p l.1 l'.1)
