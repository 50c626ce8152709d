-- ===== src/Plugin/Federation/Reserved.antt =====
-- `MutateConfig` of plugin/federation/federation.go: the names that federation reserves.
use mathlib.Core.List.{Permᴰ}
use mathlib.Core.List.Permᴰ
use fastgql.Prelude.{
  ◌≡◌, refl, sym, ap, ◌∙◌, ◌↔◌, inl, inr, String, Bool, true, false, Option, none, some, List, [],
  ◌∷◌, All, if◌then◌else◌, Bool-cases,
}
use fastgql.Prelude.Text.{Bytes, codes, bytes_eq}
use fastgql.Prelude.Maps.{Map, put, is_some, find-put_other, bytes_eq-sym}
use fastgql.Prelude.Sorting.{All-reordered, AreNamedApart-reordered, AreNamedApart}
use fastgql.Config.{TypeMapEntry, TypeMap, exists}
use fastgql.Config.Builtins.{models_of}

abbrev reserve : String → String → Bytes × TypeMapEntry
reserve name model = (codes name, record { model = models_of (model ∷ []); fields = [] })

unfoldable pub reserved : List (Bytes × TypeMapEntry)
reserved =
    reserve "_Service" "github.com/sujamess/fastgql/plugin/federation/fedruntime.Service"
    ∷ reserve "_Entity" "github.com/sujamess/fastgql/plugin/federation/fedruntime.Entity"
    ∷ reserve "Entity" "github.com/sujamess/fastgql/plugin/federation/fedruntime.Entity"
    ∷ reserve "_Any" "github.com/sujamess/fastgql/graphql.Map"
    ∷ []

-- What the method reads and writes of a `config.Config`; a directive maps to its SkipRuntime.
pub record Config : Type 0 where
  pub models : TypeMap
  pub directives : Map Bool

unfoldable pub put_reserved : List (Bytes × TypeMapEntry) → TypeMap → TypeMap × Option Bytes
unfolding exists put
put_reserved [] tm = (tm, none)
put_reserved ((name, entry) ∷ rs) tm =
    let rest = put_reserved rs (put name entry tm) in
    if exists tm name then (tm, some name) else rest

abbrev skip_all : List String → Map Bool → Map Bool
skip_all [] ds = ds
skip_all (name ∷ names) ds = skip_all names (put (codes name) true ds)

with_directives : Config → TypeMap → Option Bytes → Config × Option Bytes
unfolding put
with_directives cfg tm (some name) = (record cfg { models = tm }, some name)
with_directives cfg tm none = (
  record {
    models = tm;
    directives =
        skip_all ("external" ∷ "requires" ∷ "provides" ∷ "key" ∷ "extends" ∷ []) cfg.directives;
  },
  none,
)

-- The configuration as it is afterwards, and the name that the error is about. The loop takes the names
-- in an order of the map.
unfoldable pub mutate_config : List (Bytes × TypeMapEntry) → Config → Config × Option Bytes
unfolding put_reserved with_directives
mutate_config order cfg =
    let (tm, err) = put_reserved order cfg.models in with_directives cfg tm err

abbrev name_of : Bytes × TypeMapEntry → Bytes
name_of r = r.0

-- The name is not in the type map.
abbrev pub IsFree : TypeMap → Bytes × TypeMapEntry → Type 0
IsFree tm r = exists tm r.0 ≡ false

IsFree-put :
    (name : Bytes) (entry : TypeMapEntry) (tm : TypeMap) (rs : List (Bytes × TypeMapEntry))
    → All (λ r. bytes_eq name r.0 ≡ false) rs
    → All (IsFree (put name entry tm)) rs ↔ All (IsFree tm) rs
unfolding exists
IsFree-put name entry tm [] apart = ((λ h. h), λ h. h)
IsFree-put name entry tm (r ∷ rs) (other, apart) =
    let (out, back) = IsFree-put name entry tm rs apart in
    let e = ap is_some (find-put_other r.0 name entry tm (bytes_eq-sym r.0 name ∙ other)) in
    ((λ (h, hs). (sym e ∙ h, out hs)), λ (h, hs). (e ∙ h, back hs))

put_reserved-IsFree :
    (rs : List (Bytes × TypeMapEntry)) (tm : TypeMap)
    → AreNamedApart name_of rs
    → ((put_reserved rs tm).1 ≡ none) ↔ All (IsFree tm) rs
unfolding put_reserved
put_reserved-IsFree [] tm apart = ((λ _. tt), λ _. refl)
put_reserved-IsFree ((name, entry) ∷ rs) tm (other, apart) = elim (Bool-cases (exists tm name)) [
  | inl e ↦ rw e ((λ x. cc), λ (h, hs). cc)
  | inr e ↦ rw e (
      let (out, back) = put_reserved-IsFree rs (put name entry tm) apart in
      let (out', back') = IsFree-put name entry tm rs other in
      ((λ h. (refl, out' (out h))), λ (h, hs). back (back' hs)))
]

error_of : (cfg : Config) (tm : TypeMap) (err : Option Bytes) → (with_directives cfg tm err).1 ≡ err
unfolding with_directives
error_of cfg tm none = refl
error_of cfg tm (some name) = refl

reserved-AreNamedApart : AreNamedApart name_of reserved
unfolding reserved
reserved-AreNamedApart = ((refl, (refl, (refl, tt))), ((refl, (refl, tt)), ((refl, tt), (tt, tt))))

-- In whatever order the map gives the reserved names, MutateConfig reports no error exactly if the
-- configuration has no model for any of them.
pub mutate_config-IsFree :
    (order : List (Bytes × TypeMapEntry)) (cfg : Config)
    → Permᴰ reserved order
    → ((mutate_config order cfg).1 ≡ none) ↔ All (IsFree cfg.models) reserved
unfolding mutate_config
mutate_config-IsFree order cfg p =
    let (tm, err) = put_reserved order cfg.models in
    let same = error_of cfg (put_reserved order cfg.models).0 (put_reserved order cfg.models).1 in
    let (out, back) =
      put_reserved-IsFree order cfg.models
        (AreNamedApart-reordered name_of p reserved-AreNamedApart) in
    (
      (λ h. All-reordered name_of (IsFree cfg.models) (Permᴰ.symm p) (out (sym same ∙ h))),
      λ h. same ∙ back (All-reordered name_of (IsFree cfg.models) p h),
    )
