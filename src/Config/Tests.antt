-- ===== src/Config/Tests.antt =====
-- A configuration, and the theorems at it.
use fastgql.Prelude.{◌≡◌, refl, true, false, none, some, [], ◌∷◌, Bool}
use fastgql.Prelude.Text.{Bytes, codes, bytes_eq}
use fastgql.Prelude.Maps.{find}
use fastgql.Code.Dirs.{Dir}
use fastgql.Config.{
  TypeMap, type_map_valid, referenced_by, Env, PackageConfig, unset, import_path, check_package,
  slash_behind_dot,
}
use fastgql.Config.Checking.{Config, check, consistent, append_at, file_of}
use fastgql.Config.Consistent.{IsFileOf, check-IsFileOf}
use fastgql.Config.Builtins.{
  inject_builtins, builtins, extra_builtins, or_else, when, inject_builtins-find,
}
use fastgql.Config.Injection.{GoField, boolean, put_field}

abbrev env : Env
env = record {
  abs = λ s. s;
  dir = λ s. codes "x";
  join = λ s t. t;
  import_path_for_dir = λ s. s;
  name_for_dir = λ s. s;
}

abbrev package_at : Bytes → PackageConfig
package_at filename = record { filename = filename; package_name = codes "gen" }

abbrev start : Config
start = record {
  exec = package_at (codes "generated.go");
  model = package_at (codes "models.go");
  resolver = record {
    filename = [];
    package_name = [];
    type_name = [];
    layout = unset;
    dir_name = [];
  };
  federation = record { filename = []; package_name = [] };
  models = [];
  federated = false;
}

check-IsFileOf_example : bytes_eq (codes "gen") (codes "gen") ≡ true
unfolding check consistent append_at import_path check_package
check-IsFileOf_example =
    check-IsFileOf env start start
      ((codes "x", file_of start.exec "exec" ∷ file_of start.model "model" ∷ []) ∷ []) (codes "x")
      (file_of start.exec "exec") (file_of start.model "model") refl (IsFileOf.of_exec refl)
      (IsFileOf.of_model refl refl)

-- A model that is only a path is refused.
invalid :
    type_map_valid ((codes "T", record { model = codes "a.b/c" ∷ []; fields = [] }) ∷ []) ≡ false
unfolding type_map_valid slash_behind_dot
invalid = refl

-- A vendored package is listed once for each model that it has.
vendored :
    referenced_by
      (λ s. codes "v")
      ((codes "T", record { model = codes "a.B" ∷ codes "a.C" ∷ []; fields = [] }) ∷ [])
      []
    ≡ codes "v" ∷ codes "v" ∷ []
unfolding referenced_by
vendored = refl

inject_builtins-find_example :
    find (codes "Time") (inject_builtins (λ name. true) [])
    ≡ or_else
        (find (codes "Time") [])
        (or_else (find (codes "Time") builtins) (when true (find (codes "Time") extra_builtins)))
inject_builtins-find_example = inject_builtins-find (λ name. true) [] (codes "Time")

abbrev stat : Dir → Bytes → Bool
stat dir name = elim dir [ a ∷ b ∷ c ↦ false | _ ↦ bytes_eq name (codes "gqlgen.yml") ]

abbrev forced : GoField
forced = record { force_resolver = some (boolean true); name = none }

abbrev with_field : TypeMap
with_field = put_field [] (codes "T") (codes "f") (record { resolver = true; field_name = [] })
