-- ===== src/Config/Injection/Fields.antt =====
-- codegen/config/config.go: what the directive goField changes of the configuration.
use fastgql.Prelude.{◌≡◌, sym, ap, ◌∙◌, Bool, false, Option, none, some}
use fastgql.Prelude.Outcome.{ok, >>=-eq-ok, ok-injective}
use fastgql.Prelude.Text.{Bytes, bytes_eq}
use fastgql.Prelude.Maps.{find, put, find-put_same, find-put_other}
use fastgql.Config.{TypeMapField, TypeMap, entry_at, entry_or}
use fastgql.Config.Injection.{
  field_or, Evaluated, failed, text, boolean, GoField, field_at, bool_or, text_or, put_field,
  inject_field,
}

-- The values that an argument overrides.
abbrev pub override_bool : Bool → Option Evaluated → Bool
override_bool default (some (boolean b)) = b
override_bool default _ = default

abbrev pub override_text : Bytes → Option Evaluated → Bytes
override_text default (some (text s)) = s
override_text default _ = default

bool_or-override :
    (default b : Bool) (v : Option Evaluated)
    → bool_or default v ≡ ok b
    → override_bool default v ≡ b
unfolding bool_or
bool_or-override default b none e = ok-injective e
bool_or-override default b (some failed) e = ok-injective e
bool_or-override default b (some (boolean c)) e = ok-injective e
bool_or-override default b (some (text s)) e = cc
bool_or-override default b (some (Evaluated.list vs)) e = cc
bool_or-override default b (some Evaluated.other) e = cc

text_or-override :
    (default t : Bytes) (v : Option Evaluated)
    → text_or default v ≡ ok t
    → override_text default v ≡ t
unfolding text_or
text_or-override default t none e = ok-injective e
text_or-override default t (some failed) e = ok-injective e
text_or-override default t (some (text s)) e = ok-injective e
text_or-override default t (some (boolean c)) e = cc
text_or-override default t (some (Evaluated.list vs)) e = cc
text_or-override default t (some Evaluated.other) e = cc

entry_at-put_field :
    (tm : TypeMap) (type field : Bytes) (config : TypeMapField)
    → entry_at (put_field tm type field config) type
      ≡ record (entry_at tm type) { fields = put field config (entry_at tm type).fields }
unfolding put_field entry_at
entry_at-put_field tm type field config = ap entry_or (find-put_same type _ tm)

field_at-put_field :
    (tm : TypeMap) (type field : Bytes) (config : TypeMapField)
    → field_at (put_field tm type field config) type field ≡ config
unfolding field_at
field_at-put_field tm type field config =
    ap (λ e. field_or (find field e.fields)) (entry_at-put_field tm type field config)
    ∙ ap field_or (find-put_same field config (entry_at tm type).fields)

field_at-put_other :
    (tm : TypeMap) (type field other_field : Bytes) (config : TypeMapField)
    → bytes_eq other_field field ≡ false
    → field_at (put_field tm type field config) type other_field ≡ field_at tm type other_field
unfolding field_at
field_at-put_other tm type field other_field config apart =
    ap (λ e. field_or (find other_field e.fields)) (entry_at-put_field tm type field config)
    ∙ ap field_or (find-put_other other_field field config (entry_at tm type).fields apart)

find-put_field :
    (tm : TypeMap) (type field other_type : Bytes) (config : TypeMapField)
    → bytes_eq other_type type ≡ false
    → find other_type (put_field tm type field config) ≡ find other_type tm
unfolding put_field
find-put_field tm type field other_type config apart = find-put_other other_type type _ tm apart

-- A field with goField that does not panic gets the resolver flag and the name that the directive
-- gives, and keeps those that it does not give. The other fields of the type keep their configuration,
-- the type its models and the other types all of theirs.
inject_field-field_at :
    (type field other_field other_type : Bytes) (d : GoField) (tm tm' : TypeMap)
    → inject_field type field (some d) tm ≡ ok tm'
    → bytes_eq other_field field ≡ false
    → bytes_eq other_type type ≡ false
    → ((field_at tm' type field).resolver
        ≡ override_bool (field_at tm type field).resolver d.force_resolver)
      × ((field_at tm' type field).field_name
          ≡ override_text (field_at tm type field).field_name d.name)
      × (field_at tm' type other_field ≡ field_at tm type other_field)
      × ((entry_at tm' type).model ≡ (entry_at tm type).model)
      × (find other_type tm' ≡ find other_type tm)
unfolding inject_field
inject_field-field_at type field other_field other_type d tm tm' e apart apart' =
    let (resolver, er, e') =
      >>=-eq-ok (bool_or (field_at tm type field).resolver d.force_resolver) _ e in
    let (name, en, e'') = >>=-eq-ok (text_or (field_at tm type field).field_name d.name) _ e' in
    let config : TypeMapField = record { resolver = resolver; field_name = name } in
    let put' = ok-injective e'' in
    let same =
      sym (ap (λ m. field_at m type field) put') ∙ field_at-put_field tm type field config in
    (
      ap (λ c. c.resolver) same ∙ sym (bool_or-override _ resolver d.force_resolver er),
      ap (λ c. c.field_name) same ∙ sym (text_or-override _ name d.name en),
      sym (ap (λ m. field_at m type other_field) put')
          ∙ field_at-put_other tm type field other_field config apart,
      sym (ap (λ m. (entry_at m type).model) put')
          ∙ ap (λ x. x.model) (entry_at-put_field tm type field config),
      sym (ap (find other_type) put') ∙ find-put_field tm type field other_type config apart',
    )
