-- ===== src/Codegen/Building/Usable.antt =====
-- codegen/field.go: what `buildField` leaves of a field.
use fastgql.Prelude.{
  ◌≡◌, refl, sym, ◌∙◌, ap, String, Bool, true, false, not, ◌&&◌, Option, none, some,
}
use fastgql.Prelude.Outcome.{ok, Ensures, Ensures-eq}
use fastgql.Prelude.Text.{Bytes}
use fastgql.Code.{
  GoType, pointer, slice, array, basic, struct_type, tuple, signature, interface_type, map_type,
  chan, named, other,
}
use fastgql.Config.Binder.{TypeReference, pointer_to, is_struct, underlying_of}
use fastgql.Config.Binder.Lookup.{Binder}
use fastgql.Codegen.Building.{Field, Done, resolving_if, is_pointer, pointing, resolved, built}

module _ (underlying : Bytes → Bytes → GoType) where
  -- The Go type of a resolver is not a struct.
  abbrev pub IsUsable : Field → Type 0
  IsUsable f =
      f.is_resolver ≡ true
      → (ref : TypeReference) × (f.type_reference ≡ some ref)
        × (is_struct (underlying_of underlying ref.go) ≡ false)

  not_struct :
      (go : GoType) (s : Bool)
      → s ≡ is_struct (underlying_of underlying go)
      → (not (is_pointer go) && s) ≡ false
      → is_struct (underlying_of underlying go) ≡ false
  not_struct (pointer t) s e h = refl
  not_struct (slice t) s e h = refl
  not_struct (array n t) s e h = refl
  not_struct (basic k) s e h = refl
  not_struct (struct_type ms) s e h = sym e ∙ h
  not_struct (tuple ms) s e h = refl
  not_struct (signature ps rs) s e h = refl
  not_struct (interface_type ms) s e h = refl
  not_struct (map_type k t) s e h = refl
  not_struct (chan t) s e h = refl
  not_struct (named p n) s e h = sym e ∙ h
  not_struct other s e h = refl

  abbrev Leaves : Field → Binder × Field → Type 0
  Leaves f (b, f') = IsUsable f' × (f'.is_resolver ≡ f.is_resolver)

  pointing-Leaves :
      (b : Binder) (f : Field) (ref : TypeReference) (test : Bool)
      → f.type_reference ≡ some ref
      → (not (is_pointer ref.go) && is_struct (underlying_of underlying ref.go)) ≡ test
      → Leaves f (pointing b f ref test)
  unfolding pointer_to
  pointing-Leaves b f ref true e h = (λ r. (pointer_to ref, refl, refl), refl)
  pointing-Leaves b f ref false e h = (λ r. (ref, e, not_struct ref.go _ refl h), refl)

  resolved-Leaves :
      (b : Binder) (f : Field) (r : Bool) (o : Option TypeReference)
      → f.is_resolver ≡ r
      → f.type_reference ≡ o
      → Ensures (Leaves f) (resolved underlying b f r o)
  resolved-Leaves b f false o er eo = (λ h. cc, refl)
  resolved-Leaves b f true none er eo = tt
  resolved-Leaves b f true (some ref) er eo = pointing-Leaves b f ref _ eo refl

  -- A field of which the binding failed becomes a resolver, and the Go type of a resolver is never a
  -- struct itself: buildField takes a pointer to it.
  built-IsUsable :
      (d : Done) (b : Binder) (f : Field)
      → built underlying d ≡ ok (b, f)
      → IsUsable f × ((err : String) → d.err ≡ some err → f.is_resolver ≡ true)
  unfolding built
  built-IsUsable d b f e =
      let g = resolving_if d.err d.field in
      let leaves =
        Ensures-eq (Leaves g) (resolved underlying d.binder g g.is_resolver g.type_reference) (b, f)
          e (resolved-Leaves d.binder g g.is_resolver g.type_reference refl refl) in
      (leaves.0, λ err e'. leaves.1 ∙ ap (λ o. (resolving_if o d.field).is_resolver) e')
