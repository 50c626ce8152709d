-- ===== src/Code.antt =====
-- Package code (internal/code/compare.go and `NormalizeVendor` of internal/code/util.go).
pub mod Pointers
pub mod Packages
pub mod Dirs
mod Tests
use fastgql.Prelude.{
  ℕ, zero, suc, ◌-◌, ◌≡◌, String, Bool, true, false, not, ◌&&◌, ◌||◌, Option, none, some, List, [],
  ◌∷◌, ◌++◌, if◌then◌else◌, ◌==◌, take, drop,
}
use fastgql.Prelude.Text.{Bytes, codes, bytes_eq}

-- Types of go/types. `Members` are the fields of a struct, the parts of a tuple, whose names are not
-- compared, and the methods of an interface.
mutual
  pub data GoType : Type 0 where
    pointer : GoType → GoType
    slice : GoType → GoType
    array : ℕ → GoType → GoType
    basic : ℕ → GoType
    struct_type : Members → GoType
    tuple : Members → GoType
    signature : Members → Members → GoType
    interface_type : Members → GoType
    map_type : GoType → GoType → GoType
    chan : GoType → GoType
    named : Bytes → Bytes → GoType
    other : GoType

  pub data Members : Type 0 where
    nil : Members
    cons : Bytes → GoType → Members → Members

-- The kind `types.Invalid`.
abbrev pub invalid : ℕ
invalid = 0

-- `^(\*|\[\])*`, and what follows.
unfoldable pub modifiers : Bytes → Bytes × Bytes
modifiers [] = ([], [])
modifiers (c ∷ []) = if c == b'*' then (c ∷ [], []) else ([], c ∷ [])
modifiers (c ∷ d ∷ s) =
    let one = modifiers (d ∷ s) in
    let two = modifiers s in
    if c == b'*'
    then (c ∷ one.0, one.1)
    else if c == b'[' && d == b']'
    then (c ∷ d ∷ two.0, two.1)
    else ([], c ∷ d ∷ s)

-- The last part that `strings.Split` makes at "/vendor/": the walk skips what belongs to a separator.
unfoldable pub last_part : Bytes → ℕ → Bytes → Bytes
last_part [] skip part = part
last_part (c ∷ s) (suc skip) part = last_part s skip part
last_part (c ∷ s) zero part =
    let found = last_part s 7 (drop 7 s) in
    let rest = last_part s 0 part in
    if bytes_eq (take 8 (c ∷ s)) (codes "/vendor/") then found else rest

unfoldable pub normalize_vendor : Bytes → Bytes
unfolding modifiers last_part
normalize_vendor pkg = let (mods, rest) = modifiers pkg in mods ++ last_part rest 0 rest

-- The first error, if there is one.
abbrev and_then : Option String → Option String → Option String
and_then none next = next
and_then (some err) next = some err

unfoldable pub count : Members → ℕ
count nil = 0
count (cons n t ms) = suc (count ms)

abbrev when : Bool → String → Option String → Option String
when true text next = next
when false text next = some text

-- `CompatibleTypes`: the error, without its arguments; none is nil. `compatible_members` is its loops,
-- over fields and methods with their names, and over the parts of a tuple.
unfoldable mutual
  unfolding normalize_vendor count

  pub compatible_types : GoType → GoType → Option String
  compatible_types (pointer e) (pointer a) = compatible_types e a
  compatible_types (pointer e) a = compatible_types e a
  compatible_types e (pointer a) = compatible_types e a
  compatible_types (slice e) (slice a) = compatible_types e a
  compatible_types (array n e) (array m a) =
      let below = compatible_types e a in when (n == m) "array length differs" below
  compatible_types (basic k) (basic l) = when (l == k) "basic kind differs" none
  compatible_types (struct_type ms) (struct_type ns) =
      let below = compatible_members true ms ns in
      when (count ms == count ns) "number of struct fields differ" below
  compatible_types (tuple ms) (tuple ns) =
      let below = compatible_members false ms ns in
      when (count ms == count ns) "tuple length differs" below
  compatible_types (signature ps rs) (signature qs ss) =
      let params = compatible_members false ps qs in
      let results = compatible_members false rs ss in
      and_then (when (count ps == count qs) "tuple length differs" params)
        (when (count rs == count ss) "tuple length differs" results)
  compatible_types (interface_type ms) (interface_type ns) =
      let below = compatible_members true ms ns in
      when (count ms == count ns) "interface method count differs" below
  compatible_types (map_type k e) (map_type l a) =
      and_then (compatible_types k l) (compatible_types e a)
  compatible_types (chan e) (chan a) = compatible_types e a
  compatible_types (named p n) (named q m) =
      when (bytes_eq (normalize_vendor p) (normalize_vendor q)) "package name of named type differs"
        (when (bytes_eq n m) "named type name differs" none)
  compatible_types (named p n) (basic k) = when (k == invalid) "type mismatch" none
  compatible_types other a = some "missing support"
  compatible_types _ _ = some "type mismatch"

  pub compatible_members : Bool → Members → Members → Option String
  compatible_members names nil ns = none
  compatible_members names (cons n t ms) nil = none
  compatible_members names (cons n t ms) (cons m s ns) =
      let here = compatible_types t s in
      let rest = compatible_members names ms ns in
      when (not names || bytes_eq n m) "name differs" (and_then here rest)
