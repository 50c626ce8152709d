-- ===== src/Code/Tests.antt =====
-- The comparison of types at inputs.
use fastgql.Prelude.{◌≡◌, refl}
use fastgql.Prelude.Text.{codes}
use fastgql.Code.{GoType, pointer, slice, named, normalize_vendor}

abbrev item : GoType
item = slice (pointer (named (codes "a/vendor/b") (codes "Item")))

normal : normalize_vendor (codes "[]*a/vendor/b") ≡ codes "[]*b"
unfolding normalize_vendor
normal = refl
