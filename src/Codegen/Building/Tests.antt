-- ===== src/Codegen/Building/Tests.antt =====
-- A field that nothing of its Go type matches, and the theorem at it.
use fastgql.Prelude.{◌≡◌, refl, true, false, Option, none, some, [], ◌∷◌, inr}
use fastgql.Prelude.Outcome.{ok}
use fastgql.Prelude.Text.{Bytes, codes}
use fastgql.Code.{GoType, named, nil, struct_type}
use fastgql.Config.Binder.{GqlType, named_type, TypeReference, pointer_to}
use fastgql.Config.Binder.Lookup.{Binder, plain}
use fastgql.Codegen.Binding.{missing}
use fastgql.Codegen.Builder.{Build, pure}
use fastgql.Codegen.Building.{
  Field, Object, Done, failing, field_variable, bind_field, bind_switch, built, resolving,
  with_reference,
}

abbrev underlying : Bytes → Bytes → GoType
underlying p n = struct_type nil

abbrev user_type : GqlType
user_type = named_type (codes "User") true

abbrev user_ref : TypeReference
user_ref =
    plain
      (some (record {
        name = codes "User";
        input_object = false;
        input_type = false;
        leaf_type = false;
      }))
      user_type (named (codes "model") (codes "User"))

abbrev refer : GqlType → Option GoType → Build TypeReference
refer q o b = ok (b, inr user_ref)

abbrev empty : Binder
empty = record { references = []; saw_invalid = false }

abbrev author : Field
author = record {
  name = codes "author";
  type = user_type;
  type_reference = none;
  go_field_type = field_variable;
  go_receiver_name = codes "obj";
  go_field_name = codes "Author";
  is_resolver = false;
  args = [];
  method_has_context = false;
  no_err = false;
  stream = false;
  directives = [];
  default = none;
}

abbrev book : Object
book = record { root = false; stream = false; is_map = false; resolver = false; field_name = [] }

abbrev unmatched : Done
unmatched = failing empty (with_reference author (some user_ref) []) "nothing matched"

binds :
    bind_field refer
      (λ t. [])
      (λ m. record { params = []; results = [] })
      (λ v. named (codes "model") v.type)
      (λ name. ok missing)
      (λ def. pure [])
      book
      author
      empty
    ≡ ok unmatched
unfolding bind_field bind_switch
binds = refl

abbrev pointed : TypeReference
pointed = pointer_to user_ref

abbrev usable : Field
usable = resolving (with_reference author (some pointed) [])

builds :
    built underlying unmatched
    ≡ ok (record { references = pointed ∷ []; saw_invalid = false }, usable)
unfolding built pointer_to
builds = refl
