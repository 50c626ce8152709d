-- ===== src/Extension/Caches.antt =====
-- graphql/cache.go: `MapCache`.
use fastgql.Prelude.{
  ◌≡◌, refl, String, ◌⊎◌, inl, inr, Option, none, some, List, [], ◌∷◌, if◌then◌else◌, str_eq,
  str_eq_iff, Bool, true, false, some-injective,
}
use fastgql.Executor.Parsing.{Cache}

module _ {V : Type 0} where
  -- The entry that was put last stands first.
  unfoldable pub lookup : List (String × V) → String → Option V
  lookup [] key = none
  lookup ((k, v) ∷ m) key = if str_eq k key then some v else lookup m key

  lookup-add : (m : List (String × V)) (k : String) (v : V) → lookup ((k, v) ∷ m) k ≡ some v
  unfolding lookup
  lookup-add m k v = rw ((str_eq_iff k k).1 refl) refl

  chosen_lem :
      (b : Bool) (v w : V) (rest : Option V)
      → (if b then some v else rest) ≡ some w
      → ((b ≡ true) × (v ≡ w)) ⊎ (rest ≡ some w)
  chosen_lem true v w rest e = inl (refl, some-injective e)
  chosen_lem false v w rest e = inr e

  pub lookup-other :
      (m : List (String × V)) (k j : String) (v w : V)
      → lookup ((k, v) ∷ m) j ≡ some w
      → ((k ≡ j) × (v ≡ w)) ⊎ (lookup m j ≡ some w)
  unfolding lookup
  lookup-other m k j v w found = elim (chosen_lem (str_eq k j) v w (lookup m j) found) [
    | inl (same, value) ↦ inl ((str_eq_iff k j).0 same, value)
    | inr old ↦ inr old
  ]

-- `MapCache` keeps the contract of a cache.
abbrev pub map_cache : {V : Type 0} → Cache V
map_cache {V} = record {
  Store = List (String × V);
  get = λ m k. (lookup m k, m);
  add = λ m k v. (k, v) ∷ m;
  get_keeps = λ m k j v found. found;
  add_only = λ m k j v w found. lookup-other m k j v w found;
}
