-- ===== src/Codegen/Fields/Tests.antt =====
-- Fields with arguments, and what is generated for them.
use fastgql.Prelude.{◌≡◌, refl, true, false, List, [], ◌∷◌}
use fastgql.Prelude.Text.{Bytes, codes}
use fastgql.Prelude.Maps.{find, put}
use fastgql.Codegen.Fields.{
  FieldArgument, undefined, Field, Object, data_args, call_args, implementors, object_is_concurrent,
}

abbrev argument : Bytes → FieldArgument
argument name = record {
  name = name;
  var_name = name;
  go_type = codes "int";
  has_value = false;
  has_default = false;
}

abbrev field_with : Bytes → List FieldArgument → Field
field_with name args = record {
  name = name;
  go_field_type = undefined;
  go_receiver_name = codes "obj";
  go_field_name = name;
  go_type = codes "int";
  is_resolver = true;
  method_has_context = false;
  args = args;
  directives = [];
}

abbrev object_with : Bytes → Field → Object
object_with name field = record {
  info = record {
    name = name;
    root = false;
    disable_concurrency = true;
    stream = false;
    is_input = false;
    reference = name;
  };
  fields = field ∷ [];
  implements = codes "Node" ∷ [];
  directives = [];
}

abbrev first : Object
first = object_with (codes "A_b") (field_with (codes "c") (argument (codes "x") ∷ []))

abbrev second : Object
second = object_with (codes "A") (field_with (codes "b_c") (argument (codes "y") ∷ []))

generated :
    (implementors first ≡ codes "[]string{\"A_b\", \"Node\"}")
    × (call_args first.info (field_with (codes "c") (argument (codes "x") ∷ []))
        ≡ codes "rctx, obj, args[\"x\"].(int)")
    × (object_is_concurrent first ≡ false)
unfolding implementors call_args object_is_concurrent
generated = (refl, refl, refl)

-- Two fields whose names run together have one function for their arguments.
collides :
    data_args (first ∷ second ∷ []) [] ≡ (codes "field_A_b_c_args", argument (codes "y") ∷ []) ∷ []
unfolding data_args put find
collides = refl
