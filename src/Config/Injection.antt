-- ===== src/Config/Injection.antt =====
-- `injectTypesFromSchema` of codegen/config/config.go: the directives goModel and goField of a schema.
pub mod Fields
use fastgql.Prelude.{
  String, Bool, true, false, not, ◌&&◌, Option, none, some, List, [], ◌∷◌, if◌then◌else◌,
}
use fastgql.Prelude.Outcome.{Outcome, ok, panic, ◌>>=◌}
use fastgql.Prelude.Text.{Bytes}
use fastgql.Prelude.Maps.{Map, find, put}
use fastgql.Config.{TypeMapField, TypeMapEntry, TypeMap, entry_at, add}

-- What `Value.Value(nil)` gives: an error, or a value.
mutual
  pub data Evaluated : Type 0 where
    failed : Evaluated
    text : Bytes → Evaluated
    boolean : Bool → Evaluated
    list : EvaluatedList → Evaluated
    other : Evaluated

  pub data EvaluatedList : Type 0 where
    nil : EvaluatedList
    cons : Evaluated → EvaluatedList → EvaluatedList

-- A directive goModel and a directive goField, by the arguments that the code looks for.
pub record GoModel : Type 0 where
  pub model : Option Evaluated
  pub models : Option Evaluated

pub record GoField : Type 0 where
  pub force_resolver : Option Evaluated
  pub name : Option Evaluated

pub record SchemaField : Type 0 where
  pub name : Bytes
  pub go_field : Option GoField

-- `is_root` for the types of queries, mutations and subscriptions, `has_fields` for objects and input
-- objects.
pub record SchemaType : Type 0 where
  pub name : Bytes
  pub is_root : Bool
  pub has_fields : Bool
  pub go_model : Option GoModel
  pub fields : List SchemaField

unfoldable pub add_text : Bytes → Evaluated → TypeMap → Outcome TypeMap
unfolding add
add_text name (text go_type) tm = ok (add tm name go_type)
add_text name _ tm = panic "interface conversion"

unfoldable pub add_texts : Bytes → EvaluatedList → TypeMap → Outcome TypeMap
unfolding add_text
add_texts name nil tm = ok tm
add_texts name (cons v vs) tm = add_text name v tm >>= add_texts name vs

unfoldable pub add_model : Bytes → Option Evaluated → TypeMap → Outcome TypeMap
unfolding add_text
add_model name none tm = ok tm
add_model name (some failed) tm = ok tm
add_model name (some v) tm = add_text name v tm

unfoldable pub add_models : Bytes → Option Evaluated → TypeMap → Outcome TypeMap
unfolding add_texts
add_models name none tm = ok tm
add_models name (some failed) tm = ok tm
add_models name (some (list vs)) tm = add_texts name vs tm
add_models name (some v) tm = panic "interface conversion"

unfoldable pub inject_model : Bytes → Option GoModel → TypeMap → Outcome TypeMap
unfolding add_model add_models
inject_model name none tm = ok tm
inject_model name (some d) tm = add_model name d.model tm >>= add_models name d.models

abbrev pub no_field : TypeMapField
no_field = record { resolver = false; field_name = [] }

abbrev pub field_or : Option TypeMapField → TypeMapField
field_or none = no_field
field_or (some field) = field

-- `Models[type].Fields[field]`, the zero value if a key is missing.
unfoldable pub field_at : TypeMap → Bytes → Bytes → TypeMapField
unfolding entry_at find
field_at tm type field = field_or (find field (entry_at tm type).fields)

unfoldable pub bool_or : Bool → Option Evaluated → Outcome Bool
bool_or default none = ok default
bool_or default (some failed) = ok default
bool_or default (some (boolean b)) = ok b
bool_or default (some _) = panic "interface conversion"

unfoldable pub text_or : Bytes → Option Evaluated → Outcome Bytes
text_or default none = ok default
text_or default (some failed) = ok default
text_or default (some (text s)) = ok s
text_or default (some _) = panic "interface conversion"

unfoldable pub put_field : TypeMap → Bytes → Bytes → TypeMapField → TypeMap
unfolding entry_at put
put_field tm type field config =
    put type (record (entry_at tm type) { fields = put field config (entry_at tm type).fields }) tm

unfoldable pub inject_field : Bytes → Bytes → Option GoField → TypeMap → Outcome TypeMap
unfolding field_at bool_or text_or put_field
inject_field type field none tm = ok tm
inject_field type field (some d) tm = do
  resolver ← bool_or (field_at tm type field).resolver d.force_resolver
  field_name ← text_or (field_at tm type field).field_name d.name
  ok (put_field tm type field (record { resolver = resolver; field_name = field_name }))

unfoldable pub inject_fields : Bytes → List SchemaField → TypeMap → Outcome TypeMap
unfolding inject_field
inject_fields type [] tm = ok tm
inject_fields type (f ∷ fs) tm = inject_field type f.name f.go_field tm >>= inject_fields type fs

unfoldable pub inject_type : SchemaType → TypeMap → Outcome TypeMap
unfolding inject_model inject_fields
inject_type t tm =
    if t.is_root
    then ok tm
    else (inject_model t.name t.go_model tm >>= λ tm'.
        if t.has_fields then inject_fields t.name t.fields tm' else ok tm')

-- The types in an order of the schema's map.
unfoldable pub inject_types : List SchemaType → TypeMap → Outcome TypeMap
unfolding inject_type
inject_types [] tm = ok tm
inject_types (t ∷ ts) tm = inject_type t tm >>= inject_types ts
