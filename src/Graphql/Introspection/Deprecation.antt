-- ===== src/Graphql/Introspection/Deprecation.antt =====
-- graphql/introspection/type.go: what `includeDeprecated` changes.
use fastgql.Prelude.{
  ◌≡◌, refl, inl, inr, String, true, false, Option, none, some, List, [], ◌∷◌, if◌then◌else◌,
  Bool-cases,
}
use fastgql.Ast.{Directive}
use fastgql.Graphql.Introspection.{
  FieldDefinition, EnumValueDefinition, TypeDefinition, Schema, WrappedType, FieldValue, EnumValue,
  is_set, is_hidden, is_deprecated,
}
use fastgql.Graphql.Introspection.Listing.{
  enum_values_of, enum_values_def, enum_values, fields_of, fields_def, fields, has_fields, is_enum,
}

-- Those that are not deprecated.
abbrev pub current {ℓ} : {A : Type ℓ} → (A → Option Directive) → List A → List A
current deprecation [] = []
current deprecation (a ∷ as') =
    let rest = current deprecation as' in if is_deprecated (deprecation a) then rest else a ∷ rest

abbrev pub field_deprecation : FieldValue → Option Directive
field_deprecation f = f.deprecation

abbrev pub value_deprecation : EnumValue → Option Directive
value_deprecation v = v.deprecation

module _ (directive_for_name : List Directive → String → Option Directive) where
  current-enum_values_of :
      (vals : List EnumValueDefinition)
      → enum_values_of directive_for_name false vals
        ≡ current value_deprecation (enum_values_of directive_for_name true vals)
  unfolding enum_values_of
  current-enum_values_of [] = refl
  current-enum_values_of (val ∷ vals) =
      elim (Bool-cases (is_set (directive_for_name val.directives "deprecated"))) [
        | inl e ↦ rw (e, current-enum_values_of vals) refl
        | inr e ↦ rw (e, current-enum_values_of vals) refl
      ]

  module _ (schema : Schema) where
    current-fields_of :
        (fs : List FieldDefinition)
        → fields_of schema directive_for_name false fs
          ≡ current field_deprecation (fields_of schema directive_for_name true fs)
    unfolding fields_of
    current-fields_of [] = refl
    current-fields_of (f ∷ fs) = elim (Bool-cases (is_hidden f.name)) [
      | inl e ↦ rw e (current-fields_of fs)
      | inr e ↦ elim (Bool-cases (is_set (directive_for_name f.directives "deprecated"))) [
        | inl e' ↦ rw (e, e', current-fields_of fs) refl
        | inr e' ↦ rw (e, e', current-fields_of fs) refl
      ]
    ]

    fields_def-current :
        (def : Option TypeDefinition)
        → fields_def schema directive_for_name false def
          ≡ current field_deprecation (fields_def schema directive_for_name true def)
    unfolding fields_def
    fields_def-current none = refl
    fields_def-current (some def) = elim (Bool-cases (has_fields def.kind)) [
      | inl e ↦ rw e (current-fields_of def.fields)
      | inr e ↦ rw e refl
    ]

    values_def-current :
        (def : Option TypeDefinition)
        → enum_values_def directive_for_name false def
          ≡ current value_deprecation (enum_values_def directive_for_name true def)
    unfolding enum_values_def
    values_def-current none = refl
    values_def-current (some def) = elim (Bool-cases (is_enum def.kind)) [
      | inl e ↦ rw e (current-enum_values_of def.enum_values)
      | inr e ↦ rw e refl
    ]

    -- Without includeDeprecated, Fields and EnumValues give what they give with it, in the same order,
    -- less what IsDeprecated says is deprecated.
    fields-current :
        (t : WrappedType)
        → (fields schema directive_for_name t false
            ≡ current field_deprecation (fields schema directive_for_name t true))
          × (enum_values directive_for_name t false
              ≡ current value_deprecation (enum_values directive_for_name t true))
    unfolding fields enum_values
    fields-current t = (fields_def-current t.def, values_def-current t.def)
