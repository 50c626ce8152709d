-- ===== src/Codegen/Interfaces/Tests.antt =====
-- An interface with one possible type, and the theorem at it.
use fastgql.Prelude.{◌≡◌, refl, String, Bool, true, false, List, [], ◌∷◌, ◌⊎◌, inr, if◌then◌else◌}
use fastgql.Prelude.Outcome.{ok}
use fastgql.Prelude.Text.{Bytes, codes, bytes_eq}
use fastgql.Code.{GoType, pointer, named, nil, struct_type, interface_type}
use fastgql.Codegen.Interfaces.{Interface, build_interface}
use fastgql.Codegen.Interfaces.Implementing.{IsServed, build_interface-IsServed}

abbrev in_model : Bytes → GoType
in_model name = named (codes "model") name

abbrev underlying : Bytes → Bytes → GoType
underlying p n = if bytes_eq n (codes "Node") then interface_type nil else struct_type nil

abbrev user_object : Bytes → String ⊎ GoType
user_object name = inr (in_model name)

-- The methods of User have a pointer as receiver.
abbrev is_pointer : GoType → GoType → Bool
is_pointer (pointer t) iface = true
is_pointer t iface = false

abbrev possible : Bytes → List Bytes
possible name = codes "User" ∷ []

abbrev node : Interface
node = record {
  definition = codes "Node";
  type = in_model (codes "Node");
  implementors =
      record {
        definition = codes "User";
        type = pointer (in_model (codes "User"));
        take_ref = false;
      }
      ∷ [];
  in_typemap = true;
}

builds :
    build_interface underlying is_pointer user_object possible (λ name. true) (codes "Node")
    ≡ ok (inr node)
unfolding build_interface
builds = refl

build_interface-IsServed_example :
    IsServed underlying is_pointer user_object possible (λ name. true) (codes "Node") node
build_interface-IsServed_example =
    build_interface-IsServed underlying is_pointer user_object possible (λ name. true)
      (codes "Node") node builds
