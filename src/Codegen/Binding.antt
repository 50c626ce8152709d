-- ===== src/Codegen/Binding.antt =====
-- codegen/field.go and codegen/util.go: the method or field of a Go type that a GraphQL field is bound to.
-- Names are ASCII. A type is the name of its declaration, through which types can contain themselves.
pub mod Ends
mod Tests
use fastgql.Prelude.{
  ℕ, zero, suc, String, Bool, true, false, not, ◌&&◌, ◌||◌, Option, none, some, List, [], ◌∷◌,
  if◌then◌else◌, ◌==◌,
}
use fastgql.Prelude.Outcome.{Outcome, ok, panic, out_of_fuel, ◌>>=◌}
use fastgql.Prelude.Text.{Bytes, bytes_eq}
use fastgql.Templates.{to_lower}

-- `strings.EqualFold`, of ASCII.
abbrev pub equal_fold : Bytes → Bytes → Bool
equal_fold s t = bytes_eq (to_lower s) (to_lower t)

abbrev pub without_underscores : Bytes → Bytes
without_underscores [] = []
without_underscores (c ∷ s) =
    let rest = without_underscores s in if c == b'_' then rest else c ∷ rest

abbrev pub equal_field_name : Bytes → Bytes → Bool
equal_field_name source target =
    equal_fold (without_underscores source) (without_underscores target)

pub record Method : Type 0 where
  pub name : Bytes
  pub exported : Bool

-- `tag` is the value of the configured struct tag, and `type` the type without a pointer.
pub record StructField : Type 0 where
  pub name : Bytes
  pub exported : Bool
  pub embedded : Bool
  pub tag : Option Bytes
  pub type : Bytes

pub data Underlying : Type 0 where
  struct_type : List StructField → Underlying
  interface_type : List Bytes → Underlying
  other : Underlying

-- The methods are those of the interface, if the type is one.
pub record Declaration : Type 0 where
  pub methods : List Method
  pub underlying : Underlying

pub data Target : Type 0 where
  method : Method → Target
  variable : StructField → Target

-- A types.Object that can be nil, or an error.
pub data Found : Type 0 where
  missing failed : Found
  found : Target → Found

module _ {ℓ} {A : Type ℓ} (test : A → Bool) (target : A → Target) where
  -- The loops that fail when a second one matches.
  unfoldable pub only_match : List A → Found → Found
  only_match [] so_far = so_far
  only_match (a ∷ rest) so_far =
      let first = only_match rest (found (target a)) in
      let skipped = only_match rest so_far in
      if test a then elim so_far [ missing ↦ first | _ ↦ failed ] else skipped

abbrev pub fields_of : Underlying → List StructField
fields_of (struct_type fields) = fields
fields_of _ = []

abbrev pub embedded_types : List StructField → List Bytes
embedded_types [] = []
embedded_types (f ∷ fs) = let rest = embedded_types fs in if f.embedded then f.type ∷ rest else rest

abbrev pub embeds_of : Underlying → List Bytes
embeds_of (struct_type fields) = embedded_types fields
embeds_of (interface_type embeds) = embeds
embeds_of other = []

abbrev tag_matches : Bytes → Option Bytes → Bool
tag_matches name none = false
tag_matches name (some val) = equal_field_name val name

-- The round for an embedded type in which that much is found; the loop goes on with `rest`.
unfoldable pub next_embed : (Found → Outcome Found) → Found → Found → Outcome Found
next_embed rest so_far failed = ok failed
next_embed rest so_far missing = rest so_far
next_embed rest missing (found t) = rest (found t)
next_embed rest (found t') (found t) = ok failed
next_embed rest failed (found t) = ok failed

module _ (rec : Bytes → Outcome Found) where
  -- The loops over embedded types.
  unfoldable pub find_in_embeds : List Bytes → Found → Outcome Found
  unfolding next_embed
  find_in_embeds [] so_far = ok so_far
  find_in_embeds (t ∷ ts) so_far = rec t >>= next_embed (find_in_embeds ts) so_far

-- The switch over a method and a field that have been found.
unfoldable pub choose : Found → Found → Outcome Found → Outcome Found
choose failed field embeds = ok failed
choose missing failed embeds = ok failed
choose (found m) failed embeds = ok failed
choose missing missing embeds = embeds
choose (found m) missing embeds = ok (found m)
choose missing (found f) embeds = ok (found f)
choose (found m) (found f) embeds = ok failed

unfoldable pub after_tag : Found → Outcome Found → Outcome Found
after_tag missing next = next
after_tag failed next = ok failed
after_tag (found f) next = ok (found f)

module _ (uses_tags : Bool) (name : Bytes) where
  -- Without a configured struct tag nothing is found.
  unfoldable pub find_bind_struct_tag_target : Underlying → Found
  unfolding only_match
  find_bind_struct_tag_target t =
      let tagged =
        only_match (λ f. f.exported && not f.embedded && tag_matches name f.tag) variable
          (fields_of t) missing in
      if uses_tags then tagged else missing

  unfoldable pub find_bind_method_target : List Method → Found
  unfolding only_match
  find_bind_method_target methods =
      only_match (λ m. m.exported && equal_fold m.name name) method methods missing

  unfoldable pub find_bind_field_target : Underlying → Found
  unfolding only_match
  find_bind_field_target t =
      only_match (λ f. f.exported && equal_field_name f.name name) variable (fields_of t) missing

  module _ (rec : Bytes → Outcome Found) where
    unfoldable pub bind_declared : Option Declaration → Outcome Found
    unfolding find_bind_struct_tag_target find_bind_method_target find_bind_field_target choose
        after_tag
    bind_declared none = ok missing
    bind_declared (some d) = after_tag (find_bind_struct_tag_target d.underlying) (
        choose (find_bind_method_target d.methods) (find_bind_field_target d.underlying)
          (find_in_embeds rec (embeds_of d.underlying) missing))

  -- `findBindTarget`; a type without a declaration here has nothing to bind to.
  unfoldable pub find_bind_target : (Bytes → Option Declaration) → ℕ → Bytes → Outcome Found
  unfolding bind_declared
  find_bind_target declared zero t = out_of_fuel
  find_bind_target declared (suc fuel) t =
      bind_declared (find_bind_target declared fuel) (declared t)
