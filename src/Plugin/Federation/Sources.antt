-- ===== src/Plugin/Federation/Sources.antt =====
-- `InjectSourceLate` of plugin/federation/federation.go: the types that are added to the schema.
pub mod Defined
use fastgql.Prelude.{String, Option, none, some, List, [], ◌∷◌, ◌++◌}
use fastgql.Prelude.Outcome.{Outcome, ok, panic, ◌>>=◌}
use fastgql.Prelude.Text.{Bytes, codes}
use fastgql.Plugin.Federation.{FieldDefinition, Definition, KeyField, Entity, Lookups, set_entities}

-- The texts of the code, line by line.
abbrev line : String → Bytes → Bytes
line s rest = codes s ++ b'\n' ∷ rest

unfoldable pub union_members : List Entity → Bytes
union_members [] = []
union_members (e ∷ []) = e.name
union_members (e ∷ e' ∷ es) = e.name ++ codes " | " ++ union_members (e' ∷ es)

unfoldable pub resolver_arg : Option FieldDefinition → Outcome Bytes → Outcome Bytes
resolver_arg none rest = panic "nil pointer dereference"
resolver_arg (some field) rest =
    rest >>= λ args. ok (field.name ++ codes ": " ++ field.type_text ++ codes "," ++ args)

unfoldable pub resolver_args : List KeyField → Outcome Bytes
unfolding resolver_arg
resolver_args [] = ok []
resolver_args (key ∷ keys) = resolver_arg key.field (resolver_args keys)

unfoldable pub resolver_line : Entity → Bytes → Outcome Bytes
unfolding resolver_args
resolver_line e [] = ok []
resolver_line e (c ∷ name) = do
  args ← resolver_args e.key_fields
  ok (
      b'\t' ∷ (c ∷ name)
      ++ codes "("
      ++ args
      ++ codes "): "
      ++ e.def.name
      ++ codes "!"
      ++ b'\n' ∷ [])

unfoldable pub resolvers_of : List Entity → Outcome Bytes
unfolding resolver_line
resolvers_of [] = ok []
resolvers_of (e ∷ es) = do
  here ← resolver_line e e.resolver_name
  rest ← resolvers_of es
  ok (here ++ rest)

fake_type : Bytes → Bytes
fake_type [] = []
fake_type (c ∷ resolvers) =
    b'\n'
    ∷ line "# fake type to build resolver interfaces for users to implement"
        (line "type Entity {" (b'\t' ∷ (c ∷ resolvers) ++ b'\n' ∷ line "}" []))

unfoldable pub entity_source : List Entity → Bytes → Option Bytes
unfolding union_members fake_type
entity_source [] resolvers = none
entity_source (e ∷ es) resolvers = some (
    b'\n'
    ∷ line "# a union of all types that use the @key directive" (
        codes "union _Entity = "
        ++ union_members (e ∷ es)
        ++ b'\n' ∷ fake_type resolvers
        ++ b'\n'
          ∷ line "type _Service {" (
              line "  sdl: String" (
                line "}" (
                  b'\n'
                  ∷ line "extend type Query {" (
                      line "  _entities(representations: [_Any!]!): [_Entity]!"
                        (line "  _service: _Service!" (line "}" []))))))))

module _ (lookups : Lookups) where
  -- The entities that the plugin keeps, and the text of the source.
  unfoldable pub inject_source_late :
      List Entity → List Definition → Outcome (List Entity × Option Bytes)
  unfolding set_entities resolvers_of entity_source
  inject_source_late entities types = do
    es ← set_entities lookups entities types
    resolvers ← resolvers_of es
    ok (es, entity_source es resolvers)
