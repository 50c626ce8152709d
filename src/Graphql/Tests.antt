-- ===== src/Graphql/Tests.antt =====
-- The theorems of package graphql at inputs.
use fastgql.Prelude.{
  length, ℕ, suc, ◌≡◌, refl, arith, String, none, some, List, [], ◌∷◌, ◌++◌, length,
}
use fastgql.Prelude.Int.{pos, negsuc}
use fastgql.Prelude.Text.{codes}
use fastgql.Graphql.Errors.{GqlError, path_name, path_index}
use fastgql.Graphql.Paths.{FieldContext, PathContext, field_path, path_of}
use fastgql.Graphql.Paths.Flipping.{down_field, down_path, path_of-down}
use fastgql.Graphql.Responses.{ResponseContext}
use fastgql.Graphql.FieldSets.{FieldSet, Memory, new_field_set, concurrently}
use fastgql.Graphql.Quoting.{write_quoted_string, encode_hex}
use fastgql.Graphql.Quoting.Decoding.{decode_string, decode-write_quoted_string}
use fastgql.Graphql.Scalars.{
  string, number, value, marshal_int, unmarshal_int, marshal_int64, unmarshal_int64,
}
use fastgql.Graphql.Scalars.RoundTrips.{unmarshal_int-marshal_int}

abbrev list_error : GqlError
list_error = record { message = "no"; path = none; code = some "GRAPHQL_PARSE_FAILED" }

-- users[3].name, the innermost first.
abbrev fields : List FieldContext
fields =
    record { alias = some "name"; index = none }
    ∷ record { alias = none; index = some (pos 3) }
    ∷ record { alias = some "users"; index = none }
    ∷ record { alias = none; index = none }
    ∷ []

abbrev inputs : List PathContext
inputs =
    record { field = some "id"; index = none } ∷ record { field = some "filter"; index = none } ∷ []

path : field_path fields ≡ path_name "users" ∷ path_index (pos 3) ∷ path_name "name" ∷ []
unfolding field_path
path = refl

path_of-down_example :
    (field_path fields ≡ down_field fields)
    × (path_of inputs none ≡ down_path inputs)
    × (path_of inputs (some fields) ≡ down_field fields ++ down_path inputs)
path_of-down_example = path_of-down inputs fields

abbrev no_errors : ResponseContext ℕ
no_errors = record { errors = []; extensions = [] }

abbrev plain_error : GqlError
plain_error = record { message = "no"; path = none; code = none }

-- Two functions that each count themselves in the shared state.
abbrev counting : String → ℕ → ℕ × List ℕ
counting text n = (suc n, codes text)

abbrev two : FieldSet ℕ
two =
    concurrently ℕ (concurrently ℕ (new_field_set ℕ (codes "a" ∷ codes "b" ∷ [])) 0 (counting "1"))
      1 (counting "2")

abbrev other_first : Memory ℕ
other_first = record { shared = 2; values = some (codes "1") ∷ some (codes "2") ∷ [] }

quoted : write_quoted_string (codes "a\n\"") ≡ codes "\"a\\n\\\"\""
unfolding write_quoted_string encode_hex
quoted = refl

decode-write_quoted_string_example :
    decode_string (write_quoted_string (31 ∷ b'a' ∷ 200 ∷ []) ++ b',' ∷ [])
    ≡ some (31 ∷ b'a' ∷ 200 ∷ [], b',' ∷ [])
decode-write_quoted_string_example = decode-write_quoted_string (31 ∷ b'a' ∷ 200 ∷ []) (b',' ∷ [])

unmarshal_int-marshal_int_example :
    (unmarshal_int (string (marshal_int (negsuc 41))) ≡ value (negsuc 41))
    × (unmarshal_int (number (marshal_int (negsuc 41))) ≡ value (negsuc 41))
    × (unmarshal_int64 (string (marshal_int64 (negsuc 41))) ≡ value (negsuc 41))
    × (unmarshal_int64 (number (marshal_int64 (negsuc 41))) ≡ value (negsuc 41))
unmarshal_int-marshal_int_example = unmarshal_int-marshal_int (negsuc 41) (omega arith)
