-- ===== src/Plugin/Federation/Keys.antt =====
-- `getKeyField` and the loops of `GenerateCode` of plugin/federation/federation.go, which fill in the Go
-- types of key fields and of required fields. `templates.Render` is left out.
pub mod References
use fastgql.Prelude.{Bool, true, Option, none, some, List, [], ◌∷◌, if◌then◌else◌}
use fastgql.Prelude.Outcome.{Outcome, ok, panic, ◌>>=◌}
use fastgql.Prelude.Text.{Bytes, codes, bytes_eq}
use fastgql.Plugin.Federation.{FieldDefinition, KeyField, RequireField, Requires, Entity}
use fastgql.Templates.{to_lower}

-- What is read of a `codegen.Field` and of a `codegen.Object`.
pub record ObjectField : Type 0 where
  pub name : Bytes
  pub go_field_name : Bytes
  pub type_reference : Option Bytes

pub record Object : Type 0 where
  pub name : Bytes
  pub root : Bool
  pub fields : List ObjectField

-- `strings.EqualFold`, of ASCII.
abbrev pub equal_fold : Bytes → Bytes → Bool
equal_fold s t = bytes_eq (to_lower s) (to_lower t)

-- `Objects.ByName`.
unfoldable pub by_name : List Object → Bytes → Option Object
by_name [] name = none
by_name (o ∷ os) name = if equal_fold o.name name then some o else by_name os name

-- The write to what `getKeyField` finds: the first key field of that name. A key field without a
-- definition is a nil pointer.
unfoldable pub set_key :
    ObjectField
    → KeyField
    → Option FieldDefinition
    → List KeyField
    → Outcome (List KeyField)
    → Outcome (List KeyField)
set_key f key none keys rest = panic "nil pointer dereference"
set_key f key (some field) keys rest =
    if bytes_eq field.name f.name
    then ok (record key { type_reference = f.type_reference } ∷ keys)
    else (rest >>= λ keys'. ok (key ∷ keys'))

unfoldable pub set_key_field : ObjectField → List KeyField → Outcome (List KeyField)
unfolding set_key
set_key_field f [] = ok []
set_key_field f (key ∷ keys) = set_key f key key.field keys (set_key_field f keys)

unfoldable pub set_require_fields : ObjectField → List RequireField → List RequireField
set_require_fields f [] = []
set_require_fields f (rf ∷ rfs) =
    (if bytes_eq rf.name f.name
      then record rf { type_reference = f.type_reference; name_go = f.go_field_name }
      else rf)
    ∷ set_require_fields f rfs

unfoldable pub set_requires : ObjectField → List Requires → List Requires
unfolding set_require_fields
set_requires f [] = []
set_requires f (r ∷ rs) = record r { fields = set_require_fields f r.fields } ∷ set_requires f rs

unfoldable pub set_fields : List ObjectField → Entity → Outcome Entity
unfolding set_key_field set_requires
set_fields [] e = ok e
set_fields (f ∷ fs) e = do
  keys ← set_key_field f e.key_fields
  let e' : Entity = record e { key_fields = keys; requires = set_requires f e.requires }
  set_fields fs e'

set_entity : Option Object → Entity → Outcome Entity
unfolding set_fields
set_entity none e = panic "nil pointer dereference"
set_entity (some obj) e = set_fields obj.fields e

unfoldable pub set_all : List Object → List Entity → Outcome (List Entity)
unfolding set_entity by_name
set_all objects [] = ok []
set_all objects (e ∷ es) = do
  e' ← set_entity (by_name objects e.def.name) e
  es' ← set_all objects es
  ok (e' ∷ es')

-- The first object of that name gets Root.
unfoldable pub mark_root : List Object → List Object
mark_root [] = []
mark_root (o ∷ os) =
    let rest = mark_root os in
    if equal_fold o.name (codes "Entity") then record o { root = true } ∷ os else o ∷ rest

unfoldable pub generate_code : List Object → List Entity → Outcome (List Object × List Entity)
unfolding set_all mark_root
generate_code objects [] = ok (objects, [])
generate_code objects (e ∷ es) = do es' ← set_all objects (e ∷ es); ok (mark_root objects, es')
