-- ===== src/Templates/Imports/Tests.antt =====
-- Imports of a file, and the theorems at them.
use fastgql.Prelude.{◌≡◌, refl, true, none, List, [], ◌∷◌}
use fastgql.Prelude.Outcome.{ok, Ensures}
use fastgql.Prelude.Text.{Bytes, codes, itoa}
use fastgql.Prelude.Maps.{find, put}
use fastgql.Code.{normalize_vendor}
use fastgql.Code.Packages.{Loaded, go_package, nil}
use fastgql.Code.Packages.Naming.{name_for_package, base}
use fastgql.Templates.Imports.{
  Imports, new_import, reserve, lookup, import_string, Call, reserves, looks_up, run, find_by_path,
  find_by_alias,
}
use fastgql.Templates.Imports.Distinct.{IsDistinct, run-IsDistinct}

abbrev load_name : Bytes → Loaded
load_name path = record { found = go_package path (base path) true [] nil ∷ []; failure = none }

abbrev empty : Imports
empty = record {
  imports = [];
  own = codes "x/own";
  packages = record { packages = []; import_to_name = []; load_errors = [] };
}

abbrev calls : List Call
calls = reserves (codes "fmt") [] ∷ looks_up (codes "x/fmt") ∷ looks_up (codes "x/own") ∷ []

abbrev after : Imports
after = record {
  imports =
      new_import (codes "fmt") (codes "fmt") (codes "fmt")
      ∷ new_import (codes "fmt") (codes "x/fmt") (codes "fmt1")
      ∷ [];
  own = codes "x/own";
  packages = record {
    packages = [];
    import_to_name = (codes "fmt", codes "fmt") ∷ (codes "x/fmt", codes "fmt") ∷ [];
    load_errors = [];
  };
}

runs : run load_name calls empty ≡ ok after
unfolding run reserve lookup name_for_package find put normalize_vendor base find_by_path
    find_by_alias itoa
runs = refl

-- The package fmt of x/fmt1 is imported without the alias that the code uses for it, since the alias is
-- the end of the path.
loses_alias :
    import_string (new_import (codes "fmt") (codes "x/fmt1") (codes "fmt1")) ≡ codes "\"x/fmt1\""
unfolding import_string
loses_alias = refl

run-IsDistinct_example : Ensures IsDistinct (run load_name calls empty)
run-IsDistinct_example =
    run-IsDistinct load_name calls empty (record { paths = tt; aliases = tt; foreign = tt })
