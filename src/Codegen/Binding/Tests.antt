-- ===== src/Codegen/Binding/Tests.antt =====
-- Go types that embed others, and the theorems at them.
use mathlib.Core.Path.{subst}
use fastgql.Prelude.{
  ◌<◌, inl, inr, Bool-cases, All, some-injective, arith, ℕ, ◌≡◌, refl, true, false, Bool, Option,
  none, some, [], ◌∷◌, if◌then◌else◌,
}
use fastgql.Prelude.Outcome.{ok, out_of_fuel}
use fastgql.Prelude.Text.{Bytes, codes, bytes_eq}
use fastgql.Codegen.Binding.{
  embeds_of, Declaration, StructField, struct_type, variable, found, find_bind_target,
  find_bind_struct_tag_target, find_bind_method_target, find_bind_field_target, find_in_embeds,
}
use fastgql.Codegen.Binding.Ends.{IsRanked, find_bind_target-loops}

abbrev struct_field : Bytes → Bool → Bytes → StructField
struct_field name embedded type = record {
  name = name;
  exported = true;
  embedded = embedded;
  tag = none;
  type = type;
}

abbrev struct_with : StructField → Option Declaration
struct_with f = some (record { methods = []; underlying = struct_type (f ∷ []) })

abbrev id_field : StructField
id_field = struct_field (codes "ID") false (codes "string")

-- Outer embeds Inner, which has the field.
abbrev declared : Bytes → Option Declaration
declared t =
    if bytes_eq t (codes "Outer")
    then struct_with (struct_field (codes "Inner") true (codes "Inner"))
    else if bytes_eq t (codes "Inner")
    then struct_with id_field
    else none

binds :
    find_bind_target false (codes "id") declared 2 (codes "Outer") ≡ ok (found (variable id_field))
unfolding find_bind_target find_in_embeds
binds = refl

-- A type that embeds a pointer to itself.
abbrev selfish : Bytes → Option Declaration
selfish t = struct_with (struct_field (codes "T") true (codes "T"))

search_loops : find_bind_target false (codes "id") selfish 100 (codes "T") ≡ out_of_fuel
unfolding find_bind_struct_tag_target find_bind_method_target find_bind_field_target
search_loops =
    find_bind_target-loops false (codes "id") selfish 100 (codes "T")
      (record {
        methods = [];
        underlying = struct_type (struct_field (codes "T") true (codes "T") ∷ []);
      })
      [] refl refl refl refl refl

abbrev rank : Bytes → ℕ
rank t = if bytes_eq t (codes "Outer") then 1 else 0

declared-IsRanked : IsRanked false (codes "id") declared rank
declared-IsRanked t d e = elim (Bool-cases (bytes_eq t (codes "Outer"))) [
  | inl outer ↦
      subst (λ v. All (λ k. rank k < rank t) (embeds_of v.underlying))
        (some-injective (rw outer at e)) (rw outer (omega arith), tt)
  | inr other ↦ elim (Bool-cases (bytes_eq t (codes "Inner"))) [
    | inl inner ↦
        subst (λ v. All (λ k. rank k < rank t) (embeds_of v.underlying))
          (some-injective (rw (other, inner) at e)) tt
    | inr unknown ↦ absurd (undeclared (rw (other, unknown) at e))
  ]
]
  where
    undeclared : none ≡ some d → ⊥
    undeclared x = cc
