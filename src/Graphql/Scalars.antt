-- ===== src/Graphql/Scalars.antt =====
-- graphql/int.go, id.go, string.go, bool.go: the built-in scalars, written and read. An error is
-- told by its kind. Values of a Go `interface{}` are `Dynamic`.
pub mod RoundTrips
use fastgql.Prelude.{
  ℕ, suc, ◌+◌, ◌-◌, ◌%◌, Bool, true, false, ◌&&◌, not, Option, none, some, List, [], ◌∷◌, ltb, leb,
  ◌==◌, if◌then◌else◌,
}
use fastgql.Prelude.Int.{ℤ, pos, negsuc, pos_part, neg_part, half_range}
use fastgql.Prelude.Text.{Bytes, codes, bytes_eq, itoa, parse_int}
use fastgql.Graphql.Quoting.{write_quoted_string}

-- A `float64` is given by its text under the verb %f, a value of another type by the type's name.
pub data Dynamic : Type 0 where
  string : Bytes → Dynamic
  number : Bytes → Dynamic
  int : ℤ → Dynamic
  int64 : ℤ → Dynamic
  float64 : Bytes → Dynamic
  boolean : Bool → Dynamic
  null : Dynamic
  other : Bytes → Dynamic

pub data Result (A : Type 0) : Type 0 where
  value : A → Result A
  wrong_type : Result A
  bad_number : Result A

abbrev parsed : Option ℤ → Result ℤ
parsed none = bad_number
parsed (some i) = value i

-- 2 ^ 31 and 2 ^ 32.
abbrev pub half_range32 : ℕ
half_range32 = 2_147_483_648

abbrev pub full_range32 : ℕ
full_range32 = 4_294_967_296

-- The conversion `int32(v)` keeps the low 32 bits.
unfoldable pub to_int32 : ℤ → ℤ
to_int32 i =
    let w = (pos_part i + (full_range32 - neg_part i % full_range32)) % full_range32 in
    if ltb w half_range32 then pos w else negsuc (full_range32 - w - 1)

unfoldable pub marshal_int : ℤ → Bytes
marshal_int i = itoa i

unfoldable pub unmarshal_int : Dynamic → Result ℤ
unmarshal_int (string v) = parsed (parse_int half_range v)
unmarshal_int (int v) = value v
unmarshal_int (int64 v) = value v
unmarshal_int (number v) = parsed (parse_int half_range v)
unmarshal_int _ = wrong_type

unfoldable pub marshal_int64 : ℤ → Bytes
marshal_int64 i = itoa i

unfoldable pub unmarshal_int64 : Dynamic → Result ℤ
unmarshal_int64 (string v) = parsed (parse_int half_range v)
unmarshal_int64 (int v) = value v
unmarshal_int64 (int64 v) = value v
unmarshal_int64 (number v) = parsed (parse_int half_range v)
unmarshal_int64 _ = wrong_type

unfoldable pub marshal_int32 : ℤ → Bytes
marshal_int32 i = itoa i

abbrev narrowed : Result ℤ → Result ℤ
narrowed (value i) = value (to_int32 i)
narrowed wrong_type = wrong_type
narrowed bad_number = bad_number

unfoldable pub unmarshal_int32 : Dynamic → Result ℤ
unmarshal_int32 (string v) = narrowed (parsed (parse_int half_range32 v))
unmarshal_int32 (int v) = value (to_int32 v)
unmarshal_int32 (int64 v) = value (to_int32 v)
unmarshal_int32 (number v) = narrowed (parsed (parse_int half_range32 v))
unmarshal_int32 _ = wrong_type

unfoldable pub marshal_int_id : ℤ → Bytes
marshal_int_id i = write_quoted_string (itoa i)

unfoldable pub unmarshal_int_id : Dynamic → Result ℤ
unmarshal_int_id (string v) = parsed (parse_int half_range v)
unmarshal_int_id (int v) = value v
unmarshal_int_id (int64 v) = value v
unmarshal_int_id (number v) = parsed (parse_int half_range v)
unmarshal_int_id _ = wrong_type

abbrev bool_text : Bool → Bytes
bool_text true = codes "true"
bool_text false = codes "false"

unfoldable pub unmarshal_id : Dynamic → Result Bytes
unmarshal_id (string v) = value v
unmarshal_id (number v) = value v
unmarshal_id (int v) = value (itoa v)
unmarshal_id (int64 v) = value (itoa v)
unmarshal_id (float64 v) = value v
unmarshal_id (boolean b) = value (bool_text b)
unmarshal_id null = value (codes "null")
unmarshal_id (other t) = wrong_type

unfoldable pub unmarshal_string : Dynamic → Result Bytes
unmarshal_string (string v) = value v
unmarshal_string (int v) = value (itoa v)
unmarshal_string (float64 v) = value v
unmarshal_string (boolean b) = value (bool_text b)
unmarshal_string null = value (codes "null")
unmarshal_string _ = wrong_type

unfoldable pub marshal_boolean : Bool → Bytes
marshal_boolean b = bool_text b

-- `strings.ToLower`; a character that is not ASCII never becomes a letter of "true".
abbrev to_lower : Bytes → Bytes
to_lower [] = []
to_lower (c ∷ s) = (if leb b'A' c && leb c b'Z' then c + 32 else c) ∷ to_lower s

abbrev is_zero : ℤ → Bool
is_zero (pos n) = n == 0
is_zero (negsuc n) = false

unfoldable pub unmarshal_boolean : Dynamic → Result Bool
unmarshal_boolean (string v) = value (bytes_eq (to_lower v) (codes "true"))
unmarshal_boolean (int v) = value (not (is_zero v))
unmarshal_boolean (boolean b) = value b
unmarshal_boolean _ = wrong_type
