-- ===== src/Graphql/Scalars/RoundTrips.antt =====
-- graphql/int.go, id.go, bool.go: what the scalars write, they read back.
use fastgql.Prelude.{
  ◌<◌, ◌≤◌, ◌≡◌, refl, arith, Bool, true, false, some, [], ap, sym, ◌∙◌, append-nil,
}
use fastgql.Prelude.Int.{ℤ, pos_part, neg_part, half_range, IsInt}
use fastgql.Prelude.Text.{Bytes, itoa, parse_int-itoa}
use fastgql.Graphql.Quoting.{write_quoted_string}
use fastgql.Graphql.Quoting.Decoding.{decode_string, decode-write_quoted_string}
use fastgql.Graphql.Scalars.{
  string, number, int, value, to_int32, half_range32, marshal_int, unmarshal_int, marshal_int64,
  unmarshal_int64, marshal_int32, unmarshal_int32, marshal_int_id, unmarshal_int_id,
  marshal_boolean, unmarshal_boolean, unmarshal_id,
}

abbrev pub IsInt32 : ℤ → Type 0
IsInt32 i = (pos_part i < half_range32) × (neg_part i ≤ half_range32)

to_int32_self : (i : ℤ) → IsInt32 i → to_int32 i ≡ i
unfolding to_int32
to_int32_self i h = ground arith

-- Every int is read back from what `MarshalInt` and `MarshalInt64` write, as a string and as a JSON
-- number.
pub unmarshal_int-marshal_int :
    (i : ℤ)
    → IsInt i
    → (unmarshal_int (string (marshal_int i)) ≡ value i)
      × (unmarshal_int (number (marshal_int i)) ≡ value i)
      × (unmarshal_int64 (string (marshal_int64 i)) ≡ value i)
      × (unmarshal_int64 (number (marshal_int64 i)) ≡ value i)
unfolding unmarshal_int marshal_int unmarshal_int64 marshal_int64
unmarshal_int-marshal_int i (high, low) =
    let back = parse_int-itoa half_range i high low in (rw back, rw back, rw back, rw back)

-- Every 32-bit int is read back from what `MarshalInt32` writes.
unmarshal_int32-marshal_int32 :
    (i : ℤ) → IsInt32 i → unmarshal_int32 (number (marshal_int32 i)) ≡ value i
unfolding unmarshal_int32 marshal_int32
unmarshal_int32-marshal_int32 i (high, low) =
    rw (parse_int-itoa half_range32 i high low, to_int32_self i (high, low))

-- The JSON text of an integer ID is a string, and the ID that this string holds is the integer.
unmarshal_int_id-marshal_int_id :
    (i : ℤ)
    → IsInt i
    → (s : Bytes) × (decode_string (marshal_int_id i) ≡ some (s, []))
      × (unmarshal_int_id (string s) ≡ value i)
      × (unmarshal_id (int i) ≡ value s)
unfolding unmarshal_int_id marshal_int_id unmarshal_id
unmarshal_int_id-marshal_int_id i (high, low) = (
  itoa i,
  ap decode_string (sym (append-nil (write_quoted_string (itoa i))))
      ∙ decode-write_quoted_string (itoa i) [],
  rw (parse_int-itoa half_range i high low),
  refl,
)

unmarshal_boolean-marshal_boolean :
    (b : Bool) → unmarshal_boolean (string (marshal_boolean b)) ≡ value b
unfolding unmarshal_boolean marshal_boolean
unmarshal_boolean-marshal_boolean true = refl
unmarshal_boolean-marshal_boolean false = refl
